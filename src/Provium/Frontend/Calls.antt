-- ===== src/Provium/Frontend/Calls.antt =====
-- Calls in provium/src/frontend.rs: what the inlined body of a function computes.
use hubby.Prelude.{
  List, [], ap, arith, inl, inr, length, refl, suc, sym, ℕ, ◌+◌, ◌-◌, ◌∙◌, ◌∷◌, ◌≡◌,
}
use hubby.Provium.Base.{Attempt, Attempt-cases, done, done_injective, failed, ◌>>=◌}
use hubby.Provium.Ir.{Expr, Fault, Function, Parameter, Ty, Value, evaluate, map_free, size}
use hubby.Provium.Ir.Renaming.{Renames, evaluate-map_free, size-map_free, then_congruence}
use hubby.Provium.Frontend.Translate.{bind_arguments, inline}
use hubby.Provium.Frontend.Sound.{IsSound}
use hubby.Provium.Frontend.Sound.Inlining.{
  AllTyped, Renames-none, Renames-parameters, Renames-shift, bind_all, length-AllTyped, types_of,
}

-- The arguments of a call, from left to right, each in the environment of the call.
unfoldable pub evaluate_all : List Expr → List Value → Attempt Fault (List Value)
unfolding evaluate
evaluate_all [] env = done []
evaluate_all (x ∷ xs) env = do v ← evaluate x env; vs ← evaluate_all xs env; done (v ∷ vs)

then_assoc :
    {E T U V : Type 0} (r : Attempt E T) (g : T → Attempt E U) (h : U → Attempt E V)
    → (r >>= g >>= h) ≡ (r >>= λ t. g t >>= h)
then_assoc (failed e) g h = refl
then_assoc (done t) g h = refl

-- Binds that agree on the values of their first part.
then_agree :
    {E T U : Type 0} (r : Attempt E T) {g h : T → Attempt E U}
    → ((t : T) → r ≡ done t → g t ≡ h t)
    → (r >>= g) ≡ (r >>= h)
then_agree (failed e) k = refl
then_agree (done t) k = k t refl

length-evaluate_all :
    (xs : List Expr) (env vs : List Value) → evaluate_all xs env ≡ done vs → length vs ≡ length xs
unfolding evaluate_all
length-evaluate_all [] env vs h = ap length (sym (done_injective h))
length-evaluate_all (x ∷ xs) env vs h = elim (Attempt-cases (evaluate x env)) [
  | inr (e, bad) ↦ let h' = rw bad at h in cc (h')
  | inl (v, ok) ↦ elim (Attempt-cases (evaluate_all xs env)) [
    | inr (e, bad) ↦ let h' = rw (ok, bad) at h in cc (h')
    | inl (us, rest) ↦
        let e = done_injective (rw (ok, rest) at h) in
        ap length (sym e) ∙ ap suc (length-evaluate_all xs env us rest)
  ]
]

-- The bindings of the arguments evaluate each of them in the environment of the call.
evaluate-bind_arguments :
    (w : ℕ) (ctx : List Ty) (env full : List Value) (result : Ty) (depth : ℕ) (ps : List Parameter)
    (xs : List Expr) (body : Expr)
    → AllTyped w ctx ps xs
    → length env ≡ length ctx
    → Renames env full 0 (λ v. v + depth)
    → evaluate (bind_arguments result depth xs body) full
      ≡ (evaluate_all xs env >>= λ vs. evaluate body (bind_all vs full))
unfolding bind_arguments evaluate_all evaluate
evaluate-bind_arguments w ctx env full result depth [] [] body d n r = refl
evaluate-bind_arguments w ctx env full result depth (p ∷ ps) (x ∷ xs) body d n r =
    then_congruence (evaluate-map_free w x ctx env full 0 (λ v. v + depth) d.0 n r) (λ v.
      evaluate-bind_arguments w ctx env (v ∷ full) result (suc depth) ps xs body d.2 n
        (Renames-shift env full depth v r)
      ∙ sym (
          then_assoc (evaluate_all xs env) (λ vs. done (v ∷ vs))
            (λ vs. evaluate body (bind_all vs full))))
    ∙ sym (
        then_assoc (evaluate x env) (λ v. evaluate_all xs env >>= λ vs. done (v ∷ vs))
          (λ vs. evaluate body (bind_all vs full)))
evaluate-bind_arguments w ctx env full result depth [] (x ∷ xs) body d n r = absurd d
evaluate-bind_arguments w ctx env full result depth (p ∷ ps) [] body d n r = absurd d

-- The inlined call of a well-typed function on well-typed arguments computes what a call by value
-- does: it evaluates the arguments from left to right in the environment of the call, and then the body
-- in an environment of their values alone. A fault of an argument is the fault of the call.
pub evaluate-inline :
    (w : ℕ) (ctx : List Ty) (env : List Value) (f : Function) (args : List Expr)
    → IsSound w f
    → AllTyped w ctx f.parameters args
    → length env ≡ length ctx
    → evaluate (inline f args) env ≡ (evaluate_all args env >>= evaluate f.body)
unfolding inline
evaluate-inline w ctx env f args s d n =
    let turn = λ (i : ℕ). length args - 1 - i in
    let len = length-AllTyped w ctx f.parameters args d in
    evaluate-bind_arguments w ctx env env f.result 0 f.parameters args (map_free f.body 0 turn) d n
      (Renames-none env)
    ∙ then_agree (evaluate_all args env) (λ vs h.
      let m = length-evaluate_all args env vs h in
      evaluate-map_free w f.body (types_of f.parameters) vs (bind_all vs env) 0 turn s.body_typed
        (m ∙ sym len) (Renames-parameters vs env (length args) m))

unfoldable pub size_all : List Expr → ℕ
unfolding size
size_all [] = 0
size_all (x ∷ xs) = size x + size_all xs

size-bind_arguments :
    (result : Ty) (depth : ℕ) (args : List Expr) (body : Expr)
    → size (bind_arguments result depth args body) ≡ size body + size_all args + length args
unfolding bind_arguments size_all size
size-bind_arguments result depth [] body = omega arith
size-bind_arguments result depth (x ∷ xs) body =
    let here = size-map_free x 0 (λ v. v + depth) in
    let there = size-bind_arguments result (suc depth) xs body in omega (arith, here, there)

-- The inlined call of a function has the nodes of its body, those of the arguments, and one more for
-- each argument.
pub size-inline :
    (f : Function) (args : List Expr)
    → size (inline f args) ≡ size f.body + size_all args + length args
unfolding inline
size-inline f args =
    size-bind_arguments f.result 0 args _
    ∙ ap (λ n. n + size_all args + length args) (size-map_free f.body 0 (λ i. length args - 1 - i))
