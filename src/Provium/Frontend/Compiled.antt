-- ===== src/Provium/Frontend/Compiled.antt =====
-- What `compile_source` of provium/src/frontend.rs returns, and what its functions do when they run.
use Prim.Native.String.{String}
use hubby.Prelude.{
  Bool-cases, List, Option, Option-cases, [], ap, arith, false, get_elem?, inl, inr, length, map,
  none, not, some, some_injective, subst, suc, true, zero, ℕ, ◌==◌, ◌||◌, ◌∙◌, ◌∷◌, ◌≡◌,
}
use hubby.Provium.Frontend.Monad.{Cache}
use hubby.Provium.Base.{Attempt-cases, Ensures, Ensures-done, done, done_injective}
use hubby.Provium.Ir.{Function, Parameter, Ty, Value, accepts, all_accepted, bits, run, truth, uint}
use hubby.Provium.Ir.Typing.{AllFit, Fits, IsWidth, Runs, evaluate-Runs}
use hubby.Provium.Syntax.{File, ItemFn}
use hubby.Provium.Frontend.{parse}
use hubby.Provium.Frontend.Compile.{compile, compile_each}
use hubby.Provium.Frontend.Sound.{Anything, IsSound, Meets-run}
use hubby.Provium.Frontend.Sound.Inlining.{types_of}
use hubby.Provium.Frontend.Sound.Caches.{AllSound, Invariant}
use hubby.Provium.Frontend.Sound.Functions.{compile_each-Meets}

AllSound-get_elem? :
    (w : ℕ) (functions : List (String × ItemFn)) (cache : Cache) (i : ℕ) (f : Function)
    → AllSound w functions cache
    → get_elem? (map (λ (name, g). g) cache) i ≡ some f
    → IsSound w f
AllSound-get_elem? w functions [] i f c h = cc (h)
AllSound-get_elem? w functions ((k, g) ∷ cache) zero f c h =
    subst (IsSound w) (some_injective h) c.0.0
AllSound-get_elem? w functions ((k, g) ∷ cache) (suc i) f c h =
    AllSound-get_elem? w functions cache i f c.1 h

-- Every function that the compilation of a file returns is well typed in the context of its
-- parameters, has a body of its declared result, and at most 100,000 nodes.
pub compile-IsSound :
    (functions : List (String × ItemFn)) (w : ℕ) (fs : List Function) (i : ℕ) (f : Function)
    → compile functions w ≡ done fs
    → get_elem? fs i ≡ some f
    → IsSound w f
unfolding compile
compile-IsSound functions w fs i f h found =
    elim (Attempt-cases (compile_each functions w functions [])) [
      | inr (e, bad) ↦ let h' = rw (bad, compile) at h in cc (h')
      | inl (p, ok) ↦
          let walk : Ensures (λ (q : Unit {0} × Cache). Unit {0} × Invariant w functions none q.1)
              Anything (compile_each functions w functions []) =
            Meets-run (compile_each-Meets w functions none functions) [] (tt, tt) in
          let c = (Ensures-done (rw ok at walk)).1.0 in
          let e = done_injective (rw (ok, compile) at h) in
          AllSound-get_elem? w functions p.1 i f c (rw (← e) at found)
    ]

accepts-Fits : (w : ℕ) (t : Ty) (v : Value) → accepts w t v ≡ true → Fits w t v
accepts-Fits w t (truth b) h = ground (arith, h)
accepts-Fits w t (uint k v) h = elim (Option-cases (bits t w)) [
  | inl absent ↦ let h' = rw absent at h in cc (h')
  | inr (i, found) ↦
      let h' = rw found at h in
      let same : i ≡ k = ground (arith, h') in (found ∙ ap some same, ground (arith, h', same))
]

all_accepted-AllFit :
    (w : ℕ) (ps : List Parameter) (vs : List Value)
    → length ps ≡ length vs
    → all_accepted w ps vs ≡ true
    → AllFit w (types_of ps) vs
all_accepted-AllFit w [] [] n h = tt
all_accepted-AllFit w [] (v ∷ vs) n h = absurd (omega (arith, n))
all_accepted-AllFit w (p ∷ ps) [] n h = absurd (omega (arith, n))
all_accepted-AllFit w (p ∷ ps) (v ∷ vs) n h =
    let here : accepts w p.ty v ≡ true = ground (arith, h) in
    let there : all_accepted w ps vs ≡ true = ground (arith, h) in
    (accepts-Fits w p.ty v here, all_accepted-AllFit w ps vs (omega (arith, n)) there)

-- A width of `usize` that is neither 32 nor 64 is refused.
parse-IsWidth :
    (source : Option File) (w : ℕ) (functions : List (String × ItemFn))
    → parse source w ≡ done functions
    → IsWidth w
unfolding parse
parse-IsWidth source w functions h = elim (Bool-cases (not (w == 32 || w == 64))) [
  | inl bad ↦ let h' = rw bad at h in cc (h')
  | inr fine ↦ ground (arith, fine)
]

-- A function that a parsed file compiles to, run at the same width of `usize` on as many arguments as
-- it has parameters, each of them in the range of its type, gives a value of the declared result, or
-- ends with an overflow, a division by zero or a failed assertion.
pub run-compile :
    (source : Option File) (w : ℕ) (functions : List (String × ItemFn)) (fs : List Function) (i : ℕ)
    (f : Function) (args : List Value)
    → parse source w ≡ done functions
    → compile functions w ≡ done fs
    → get_elem? fs i ≡ some f
    → length f.parameters ≡ length args
    → all_accepted w f.parameters args ≡ true
    → Runs w f.result (run f args w)
unfolding run
run-compile source w functions fs i f args parsed_ compiled found n accepted =
    let s = compile-IsSound functions w fs i f compiled found in
    let many : not (length f.parameters == length args) ≡ false = ground (arith, n) in
    rw (many, accepted, ← s.body_ty)
      (evaluate-Runs w f.body (types_of f.parameters) args
        (parse-IsWidth source w functions parsed_) s.body_typed
        (all_accepted-AllFit w f.parameters args n accepted))
