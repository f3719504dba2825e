-- ===== src/Provium/Frontend/Covered.antt =====
-- Every function of a source file is compiled: `Compiler::compile` of provium/src/frontend.rs.
use Prim.Native.String.{String}
use text.Mathlib.TextEquality.{eq_iff}
use hubby.Prelude.{
  Bool-cases, List, Option-cases, [], get_elem?, inl, inr, is_some, map, none, refl, some, subst,
  suc, true, ℕ, ◌∷◌, ◌≡◌,
}
use hubby.Provium.Frontend.Monad.{Cache, Translation}
use hubby.Provium.Base.{
  Attempt, Attempt-cases, Ensures, Ensures-done, Ensures-weaken, done, done_injective, failed,
  raises, same_text,
}
use hubby.Provium.Ir.{Function}
use hubby.Provium.Syntax.{ItemFn}
use hubby.Provium.Frontend.{find_entry}
use hubby.Provium.Frontend.Compile.{compile, compile_each, depth_limit, function}
use hubby.Provium.Frontend.Sound.{Anything, IsSound, Meets-run}
use hubby.Provium.Frontend.Sound.Caches.{AllSound, Declared, Invariant, find_entry-AllSound}
use hubby.Provium.Frontend.Sound.Functions.{
  Leaves-run, compile_each-Meets, function-Leaves, function-Meets,
}

-- A translation that goes on from the result of another.
Ensures-bind :
    {A B : Type 0} (next : A → Translation B) {P : B × Cache → Type 0}
    (r : Attempt String (A × Cache))
    → ((p : A × Cache) → r ≡ done p → Ensures P Anything (next p.0 p.1))
    → Ensures P Anything (elim r as (λ _. Attempt String (B × Cache)) [
      | failed e ↦ failed e
      | done p ↦ next p.0 p.1
    ])
Ensures-bind next (failed e) k = raises tt
Ensures-bind next (done p) k = k p refl

-- Compiling some functions of a file leaves an entry for each of them.
compile_each-covers :
    (w : ℕ) (functions others : List (String × ItemFn)) (name : String) (item : ItemFn)
    (cache : Cache)
    → find_entry name others ≡ some item
    → AllSound w functions cache
    → Ensures
        (λ (p : Unit {0} × Cache).
          AllSound w functions p.1 × (is_some (find_entry name p.1) ≡ true))
        Anything
        (compile_each functions w others cache)
unfolding compile_each find_entry
compile_each-covers w functions [] name item cache h c = cc (h)
compile_each-covers w functions ((k, first) ∷ others) name item cache h c =
    Ensures-bind (λ f. compile_each functions w others)
      (function functions w depth_limit [] k cache)
      (λ p ok.
        let walk : Ensures
            (λ (q : Function × Cache). IsSound w q.0 × Invariant w functions none q.1) Anything
            (function functions w depth_limit [] k cache) =
          Meets-run (function-Meets w functions none depth_limit [] k) cache (c, tt) in
        let c' = (Ensures-done (rw ok at walk)).1.0 in
        let left : Ensures (λ (q : Function × Cache). is_some (find_entry k q.1) ≡ true) Anything
            (function functions w depth_limit [] k cache) =
          Leaves-run (function-Leaves functions w depth_limit [] k) cache in
        elim (Bool-cases (same_text k name)) [
          | inl hit ↦
              let here =
                subst (λ n. is_some (find_entry n p.1) ≡ true) ((eq_iff k name).0 hit)
                  (Ensures-done (rw ok at left)) in
              Ensures-weaken (λ q r. (r.1.0, r.1.1))
                (Meets-run (compile_each-Meets w functions (some name) others) p.1 (c', here))
          | inr miss ↦ compile_each-covers w functions others name item p.1 (rw miss at h) c'
        ])

position_of :
    (name : String) (cache : Cache) (f : Function)
    → find_entry name cache ≡ some f
    → (i : ℕ) × (get_elem? (map (λ (n, g). g) cache) i ≡ some f)
unfolding find_entry
position_of name [] f h = cc (h)
position_of name ((k, g) ∷ cache) f h = elim (Bool-cases (same_text k name)) [
  | inl hit ↦ (0, rw hit at h)
  | inr miss ↦ let (i, found) = position_of name cache f (rw miss at h) in (suc i, found)
]

-- If a file compiles, then each of its functions is among the results, under its name and with the
-- parameters and the result of its declaration.
pub compile-Declared :
    (functions : List (String × ItemFn)) (w : ℕ) (fs : List Function) (name : String)
    (item : ItemFn)
    → compile functions w ≡ done fs
    → find_entry name functions ≡ some item
    → (i : ℕ) × (f : Function) × (get_elem? fs i ≡ some f) × Declared functions name f
unfolding compile
compile-Declared functions w fs name item h listed =
    elim (Attempt-cases (compile_each functions w functions [])) [
      | inr (e, bad) ↦ let h' = rw (bad, compile) at h in cc (h')
      | inl (p, ok) ↦
          let walk = compile_each-covers w functions functions name item [] listed tt in
          let (sound, has) = Ensures-done (rw ok at walk) in
          let same = done_injective (rw (ok, compile) at h) in
          elim (Option-cases (find_entry name p.1)) [
            | inl absent ↦ let h' = rw absent at has in cc (h')
            | inr (f, found) ↦
                let (i, at_) = position_of name p.1 f found in
                (i, f, rw (← same) at_, (find_entry-AllSound w functions name p.1 f sound found).1)
          ]
    ]
