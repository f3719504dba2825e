-- ===== src/Provium/Ir/Renaming.antt =====
-- `Expr::map_free` of provium/src/ir.rs: renaming the free variables.
use hubby.Prelude.{
  Bool-cases, List, [], ap, arith, false, get_elem?, if◌then◌else◌, inl, inr, leb, length, refl,
  some, suc, sym, true, zero, ℕ, ◌+◌, ◌-◌, ◌<◌, ◌∙◌, ◌∷◌, ◌≡◌,
}
use hubby.Provium.Base.{Attempt, failed, or_fail, ◌>>=◌}
use hubby.Provium.Ir.{
  Expr, Outcome, Ty, Value, assert_that, binary_of, boolean_of, evaluate, if_else, input, let_in,
  map_free, negate, size, truth, ty_of, type, uint, uint_of, variable,
}
use hubby.Provium.Ir.Typing.{Typed}

-- `ys` holds at the renamed position what `xs` holds, for the positions of `xs` from `depth` on; the
-- positions below `depth` stay.
pub record Renames {A : Type 0} (xs ys : List A) (depth : ℕ) (f : ℕ → ℕ) : Type 0 where
  pub below : (i : ℕ) → i < depth → get_elem? ys i ≡ get_elem? xs i
  pub above :
      (i : ℕ) → i + depth < length xs → get_elem? ys (f i + depth) ≡ get_elem? xs (i + depth)

module _ {A : Type 0} where
  Renames-under :
      (xs ys : List A) (depth : ℕ) (f : ℕ → ℕ) (x : A)
      → Renames xs ys depth f
      → Renames (x ∷ xs) (x ∷ ys) (suc depth) f
  Renames-under xs ys depth f x r = record {
    below = elim [ zero ↦ λ h. refl | suc i ↦ λ h. r.below i (omega arith) ];
    above = λ i h.
        let e : f i + suc depth ≡ suc (f i + depth) = omega arith in
        let e' : i + suc depth ≡ suc (i + depth) = omega arith in
        ap (get_elem? (x ∷ ys)) e ∙ r.above i (omega arith) ∙ sym (ap (get_elem? (x ∷ xs)) e');
  }

  pub get_elem?-eq-some : (xs : List A) (i : ℕ) {x : A} → get_elem? xs i ≡ some x → i < length xs
  get_elem?-eq-some [] i h = cc (h)
  get_elem?-eq-some (y ∷ xs) zero h = omega arith
  get_elem?-eq-some (y ∷ xs) (suc i) h = omega (arith, get_elem?-eq-some xs i h)

  -- A renamed variable finds what the variable found.
  renamed-get_elem? :
      (xs ys : List A) (depth : ℕ) (f : ℕ → ℕ) (i : ℕ)
      → Renames xs ys depth f
      → i < length xs
      → get_elem? ys (if leb depth i then f (i - depth) + depth else i) ≡ get_elem? xs i
  renamed-get_elem? xs ys depth f i r h = elim (Bool-cases (leb depth i)) [
    | inl high ↦
        let e : i - depth + depth ≡ i = ground (arith, high) in
        rw high (r.above (i - depth) (omega (arith, e)) ∙ ap (get_elem? xs) e)
    | inr low ↦ rw low (r.below i (ground (arith, low)))
  ]

pub ty_of-map_free : (e : Expr) (depth : ℕ) (f : ℕ → ℕ) → ty_of (map_free e depth f) ≡ ty_of e
unfolding map_free
ty_of-map_free (boolean_of t b) depth f = refl
ty_of-map_free (uint_of t k v) depth f = refl
ty_of-map_free (variable t i) depth f = refl
ty_of-map_free (negate t x) depth f = refl
ty_of-map_free (binary_of t op l r) depth f = refl
ty_of-map_free (if_else t c y n) depth f = refl
ty_of-map_free (let_in t v b) depth f = refl
ty_of-map_free (assert_that t c b) depth f = refl

-- Renaming keeps the number of nodes.
pub size-map_free : (e : Expr) (depth : ℕ) (f : ℕ → ℕ) → size (map_free e depth f) ≡ size e
unfolding size map_free
size-map_free (boolean_of t b) depth f = refl
size-map_free (uint_of t k v) depth f = refl
size-map_free (variable t i) depth f = refl
size-map_free (negate t x) depth f = ap suc (size-map_free x depth f)
size-map_free (binary_of t op l r) depth f =
    omega (arith, size-map_free l depth f, size-map_free r depth f)
size-map_free (if_else t c y n) depth f =
    omega (arith, size-map_free c depth f, size-map_free y depth f, size-map_free n depth f)
size-map_free (let_in t v b) depth f =
    omega (arith, size-map_free v depth f, size-map_free b (suc depth) f)
size-map_free (assert_that t c b) depth f =
    omega (arith, size-map_free c depth f, size-map_free b depth f)

-- Renaming from one context to another keeps an expression well typed.
pub map_free-Typed :
    (w : ℕ) (e : Expr) (ctx to : List Ty) (depth : ℕ) (f : ℕ → ℕ)
    → Renames ctx to depth f
    → Typed w ctx e
    → Typed w to (map_free e depth f)
unfolding map_free
map_free-Typed w (boolean_of t b) ctx to depth f r d = d
map_free-Typed w (uint_of t k v) ctx to depth f r d = d
map_free-Typed w (variable t i) ctx to depth f r d =
    renamed-get_elem? ctx to depth f i r (get_elem?-eq-some ctx i d) ∙ d
map_free-Typed w (negate t x) ctx to depth f r d =
    (d.0, ty_of-map_free x depth f ∙ d.1, map_free-Typed w x ctx to depth f r d.2)
map_free-Typed w (binary_of t op lhs rhs) ctx to depth f r d =
    let el = ty_of-map_free lhs depth f in
    (
      rw el (d.0),
      rw el (d.1),
      rw (el, ty_of-map_free rhs depth f) (d.2),
      map_free-Typed w lhs ctx to depth f r d.3,
      map_free-Typed w rhs ctx to depth f r d.4,
    )
map_free-Typed w (if_else t c y n) ctx to depth f r d = (
  ty_of-map_free c depth f ∙ d.0,
  ty_of-map_free y depth f ∙ d.1,
  ty_of-map_free n depth f ∙ d.2,
  map_free-Typed w c ctx to depth f r d.3,
  map_free-Typed w y ctx to depth f r d.4,
  map_free-Typed w n ctx to depth f r d.5,
)
map_free-Typed w (let_in t v b) ctx to depth f r d = (
  ty_of-map_free b (suc depth) f ∙ d.0,
  map_free-Typed w v ctx to depth f r d.1,
  rw (ty_of-map_free v depth f) (
      map_free-Typed w b (ty_of v ∷ ctx) (ty_of v ∷ to) (suc depth) f
        (Renames-under ctx to depth f (ty_of v) r) d.2),
)
map_free-Typed w (assert_that t c b) ctx to depth f r d = (
  ty_of-map_free c depth f ∙ d.0,
  ty_of-map_free b depth f ∙ d.1,
  map_free-Typed w c ctx to depth f r d.2,
  map_free-Typed w b ctx to depth f r d.3,
)

-- Binds of equal parts are equal.
pub then_congruence :
    {E T U : Type 0} {r s : Attempt E T} {g h : T → Attempt E U}
    → r ≡ s
    → ((t : T) → g t ≡ h t)
    → (r >>= g) ≡ (s >>= h)
then_congruence p q = λ i. p i >>= λ t. q t i

-- A choice between equal parts.
choice_congruence :
    {y y' n n' : Outcome} (v : Value)
    → y ≡ y'
    → n ≡ n'
    → (elim v as (λ _. Outcome) [ truth true ↦ y | truth false ↦ n | uint k x ↦ failed type ])
      ≡ (elim v as (λ _. Outcome) [ truth true ↦ y' | truth false ↦ n' | uint k x ↦ failed type ])
choice_congruence (truth true) p q = p
choice_congruence (truth false) p q = q
choice_congruence (uint k x) p q = refl

-- A well-typed expression, renamed, has in the environment that holds the renamed variables the same
-- outcome as before.
pub evaluate-map_free :
    (w : ℕ) (e : Expr) (ctx : List Ty) (env to : List Value) (depth : ℕ) (f : ℕ → ℕ)
    → Typed w ctx e
    → length env ≡ length ctx
    → Renames env to depth f
    → evaluate (map_free e depth f) to ≡ evaluate e env
unfolding evaluate map_free
evaluate-map_free w (boolean_of t b) ctx env to depth f d n r = refl
evaluate-map_free w (uint_of t k v) ctx env to depth f d n r = refl
evaluate-map_free w (variable t i) ctx env to depth f d n r =
    ap (λ o. or_fail o input)
      (renamed-get_elem? env to depth f i r (omega (arith, get_elem?-eq-some ctx i d, n)))
evaluate-map_free w (negate t x) ctx env to depth f d n r =
    then_congruence (evaluate-map_free w x ctx env to depth f d.2 n r) (λ v. refl)
evaluate-map_free w (binary_of t op lhs rhs) ctx env to depth f d n r =
    then_congruence (evaluate-map_free w lhs ctx env to depth f d.3 n r)
      (λ a. then_congruence (evaluate-map_free w rhs ctx env to depth f d.4 n r) (λ b. refl))
evaluate-map_free w (if_else t c y z) ctx env to depth f d n r =
    then_congruence (evaluate-map_free w c ctx env to depth f d.3 n r) (λ v.
      choice_congruence v (evaluate-map_free w y ctx env to depth f d.4 n r)
        (evaluate-map_free w z ctx env to depth f d.5 n r))
evaluate-map_free w (let_in t v b) ctx env to depth f d n r =
    then_congruence (evaluate-map_free w v ctx env to depth f d.1 n r) (λ x.
      evaluate-map_free w b (ty_of v ∷ ctx) (x ∷ env) (x ∷ to) (suc depth) f d.2 (omega (arith, n))
        (Renames-under env to depth f x r))
evaluate-map_free w (assert_that t c b) ctx env to depth f d n r =
    then_congruence (evaluate-map_free w c ctx env to depth f d.2 n r)
      (λ v. choice_congruence v (evaluate-map_free w b ctx env to depth f d.3 n r) refl)
