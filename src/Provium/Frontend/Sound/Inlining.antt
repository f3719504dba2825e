-- ===== src/Provium/Frontend/Sound/Inlining.antt =====
-- Inlining of calls in provium/src/frontend.rs: the bindings of the arguments, and their types.
use hubby.Prelude.{
  List, [], ap, arith, get_elem?, length, map, refl, suc, sym, zero, ℕ, ◌+◌, ◌-◌, ◌<◌, ◌∙◌, ◌∷◌,
  ◌≡◌,
}
use hubby.Provium.Ir.{Expr, Function, Parameter, Ty, map_free, ty_of}
use hubby.Provium.Ir.Typing.{Typed}
use hubby.Provium.Ir.Renaming.{Renames, map_free-Typed, ty_of-map_free}
use hubby.Provium.Frontend.Translate.{bind_arguments, inline}
use hubby.Provium.Frontend.Sound.{IsSound}

-- Binding the elements of a list, from the first on.
abbrev pub bind_all : {A : Type 0} → List A → List A → List A
bind_all [] acc = acc
bind_all (x ∷ xs) acc = bind_all xs (x ∷ acc)

module _ {A : Type 0} where
  pub Renames-none : (xs : List A) → Renames xs xs 0 (λ v. v + 0)
  Renames-none xs = record {
    below = λ i h. absurd (omega arith);
    above = λ i h. let e : i + 0 + 0 ≡ i + 0 = omega arith in ap (get_elem? xs) e;
  }

  pub Renames-shift :
      (xs ys : List A) (depth : ℕ) (y : A)
      → Renames xs ys 0 (λ v. v + depth)
      → Renames xs (y ∷ ys) 0 (λ v. v + suc depth)
  Renames-shift xs ys depth y r = record {
    below = λ i h. absurd (omega arith);
    above = λ i h.
        let e : i + suc depth + 0 ≡ suc (i + depth + 0) = omega arith in
        ap (get_elem? (y ∷ ys)) e ∙ r.above i h;
  }

  behind : (xs acc : List A) (j : ℕ) → get_elem? (bind_all xs acc) (length xs + j) ≡ get_elem? acc j
  behind [] acc j = let e : 0 + j ≡ j = omega arith in ap (get_elem? acc) e
  behind (x ∷ xs) acc j =
      let e : suc (length xs) + j ≡ length xs + suc j = omega arith in
      ap (get_elem? (bind_all xs (x ∷ acc))) e ∙ behind xs (x ∷ acc) (suc j)

  get_elem?-bind_all :
      (xs acc : List A) (i : ℕ)
      → i < length xs
      → get_elem? (bind_all xs acc) (length xs - 1 - i) ≡ get_elem? xs i
  get_elem?-bind_all [] acc i h = absurd (omega (arith, h))
  get_elem?-bind_all (x ∷ xs) acc zero h =
      let e : suc (length xs) - 1 - 0 ≡ length xs + 0 = omega arith in
      ap (get_elem? (bind_all xs (x ∷ acc))) e ∙ behind xs (x ∷ acc) 0
  get_elem?-bind_all (x ∷ xs) acc (suc i) h =
      let e : suc (length xs) - 1 - suc i ≡ length xs - 1 - i = omega arith in
      ap (get_elem? (bind_all xs (x ∷ acc))) e
      ∙ get_elem?-bind_all xs (x ∷ acc) i (omega (arith, h))

  -- The parameters of a function, among the bindings of its arguments.
  pub Renames-parameters :
      (xs acc : List A) (n : ℕ) → length xs ≡ n → Renames xs (bind_all xs acc) 0 (λ i. n - 1 - i)
  Renames-parameters xs acc n e = record {
    below = λ i h. absurd (omega arith);
    above = λ i h.
        let e' : n - 1 - i + 0 ≡ length xs - 1 - i = omega (arith, e) in
        let e'' : i + 0 ≡ i = omega arith in
        ap (get_elem? (bind_all xs acc)) e'
        ∙ get_elem?-bind_all xs acc i (omega (arith, h))
        ∙ sym (ap (get_elem? xs) e'');
  }

-- Arguments of the types of the parameters.
abbrev pub AllTyped : ℕ → List Ty → List Parameter → List Expr → Type 0
AllTyped w ctx [] [] = Unit {0}
AllTyped w ctx (p ∷ ps) (x ∷ xs) = Typed w ctx x × (ty_of x ≡ p.ty) × AllTyped w ctx ps xs
AllTyped w ctx [] (x ∷ xs) = ⊥
AllTyped w ctx (p ∷ ps) [] = ⊥

abbrev pub types_of : List Parameter → List Ty
types_of ps = map (λ p. p.ty) ps

pub length-AllTyped :
    (w : ℕ) (ctx : List Ty) (ps : List Parameter) (xs : List Expr)
    → AllTyped w ctx ps xs
    → length (types_of ps) ≡ length xs
length-AllTyped w ctx [] [] d = refl
length-AllTyped w ctx (p ∷ ps) (x ∷ xs) d = ap suc (length-AllTyped w ctx ps xs d.2)
length-AllTyped w ctx [] (x ∷ xs) d = absurd d
length-AllTyped w ctx (p ∷ ps) [] d = absurd d

-- Binding well-typed arguments around a body that is well typed under them.
bind_arguments-Typed :
    (w : ℕ) (ctx full : List Ty) (result : Ty) (depth : ℕ) (ps : List Parameter) (xs : List Expr)
    (body : Expr)
    → Renames ctx full 0 (λ v. v + depth)
    → AllTyped w ctx ps xs
    → Typed w (bind_all (types_of ps) full) body
    → ty_of body ≡ result
    → Typed w full (bind_arguments result depth xs body)
      × (ty_of (bind_arguments result depth xs body) ≡ result)
unfolding bind_arguments
bind_arguments-Typed w ctx full result depth [] [] body r d b e = (b, e)
bind_arguments-Typed w ctx full result depth (p ∷ ps) (x ∷ xs) body r d b e =
    let shift = λ (v : ℕ). v + depth in
    let kind : ty_of (map_free x 0 shift) ≡ p.ty = ty_of-map_free x 0 shift ∙ d.1 in
    let (t, k) =
      bind_arguments-Typed w ctx (p.ty ∷ full) result (suc depth) ps xs body
        (Renames-shift ctx full depth p.ty r) d.2 b e in
    ((k, map_free-Typed w x ctx full 0 shift r d.0, rw kind t), refl)
bind_arguments-Typed w ctx full result depth [] (x ∷ xs) body r d b e = absurd d
bind_arguments-Typed w ctx full result depth (p ∷ ps) [] body r d b e = absurd d

-- A call that is inlined has the declared result of the function.
pub inline-Typed :
    (w : ℕ) (ctx : List Ty) (f : Function) (xs : List Expr)
    → IsSound w f
    → AllTyped w ctx f.parameters xs
    → Typed w ctx (inline f xs) × (ty_of (inline f xs) ≡ f.result)
unfolding inline
inline-Typed w ctx f xs s d =
    let turn = λ (i : ℕ). length xs - 1 - i in
    let n = length-AllTyped w ctx f.parameters xs d in
    bind_arguments-Typed w ctx ctx f.result 0 f.parameters xs (map_free f.body 0 turn)
      (Renames-none ctx) d
      (map_free-Typed w f.body (types_of f.parameters) (bind_all (types_of f.parameters) ctx) 0 turn
        (Renames-parameters (types_of f.parameters) ctx (length xs) n) s.body_typed)
      (ty_of-map_free f.body 0 turn ∙ s.body_ty)
