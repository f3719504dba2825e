-- ===== src/Provium/Frontend/Sound.antt =====
-- What the front end of provium/src/frontend.rs produces is well typed.
pub mod Arms
pub mod Inlining
pub mod Walking
pub mod Caches
pub mod Functions
use Prim.Native.String.{String}
use hubby.Prelude.{
  Bool, Bool-cases, List, Option, Option-cases, [], ap, arith, false, get_elem?, if◌then◌else◌, inl,
  inr, map, none, not, refl, some, some_injective, sym, true, ℕ, ◌↔◌, ◌∙◌, ◌∷◌, ◌≡◌, ◌≤◌,
}
use hubby.Provium.Frontend.Monad.{Cache, Translation, give, lift, refuse, reject, ◌>>=◌}
use hubby.Provium.Base.{Attempt, Ensures, Ensures-done, done, failed, raises, same_text, yields}
use hubby.Provium.Ir.{Expr, Function, Ty, size, ty_of}
use hubby.Provium.Ir.Typing.{Typed}
use hubby.Provium.Frontend.{Binding, Env, lookup, ty_eq}
use hubby.Provium.Frontend.Compile.{size_limit}
use hubby.Provium.Frontend.Translate.{Pending, checked}

abbrev pub types : Env → List Ty
types env = map (λ b. b.ty) env

abbrev pub Anything : String → Type 0
Anything e = Unit {0}

-- A function whose body has the declared result, in the context of its parameters, and at most as many
-- nodes as the limit.
pub record IsSound (w : ℕ) (f : Function) : Type 0 where
  pub body_typed : Typed w (map (λ p. p.ty) f.parameters) f.body
  pub body_ty : ty_of f.body ≡ f.result
  pub body_size : size f.body ≤ size_limit

-- Every result of a translation meets `P`, and it keeps the invariant `I` of the cache.
pub data Meets (I : Cache → Type 0) {A : Type 0} (P : A → Type 0) (m : Translation A) : Type 0 where
  meets :
      ((cache : Cache) → I cache → Ensures (λ (p : A × Cache). P p.0 × I p.1) Anything (m cache))
      → Meets I P m

module _ {I : Cache → Type 0} {A : Type 0} {P : A → Type 0} where
  pub Meets-run :
      {m : Translation A}
      → Meets I P m
      → (cache : Cache) → I cache
      → Ensures (λ (p : A × Cache). P p.0 × I p.1) Anything (m cache)
  Meets-run (meets h) = h

module _ {I : Cache → Type 0} {A : Type 0} {P : A → Type 0} where
  after :
      {B : Type 0} {R : B → Type 0} {next : A → Translation B} (r : Attempt String (A × Cache))
      → Ensures (λ (p : A × Cache). P p.0 × I p.1) Anything r
      → ((a : A) → P a → Meets I R (next a))
      → Ensures
          (λ (p : B × Cache). R p.0 × I p.1)
          Anything
          (elim r as (λ _. Attempt String (B × Cache)) [
            | failed e ↦ failed e
            | done p ↦ next p.0 p.1
          ])
  after (failed e) p k = raises tt
  after (done q) p k = let (h, c) = Ensures-done p in Meets-run (k q.0 h) q.1 c

  pub Meets-then :
      {B : Type 0} {R : B → Type 0} {m : Translation A} {next : A → Translation B}
      → Meets I P m
      → ((a : A) → P a → Meets I R (next a))
      → Meets I R (m >>= next)
  Meets-then {m = m} p k = meets (λ cache c. after (m cache) (Meets-run p cache c) k)

  pub Meets-give : (a : A) → P a → Meets I P (give a)
  Meets-give a h = meets (λ cache c. yields (h, c))

  pub Meets-lift : (r : Attempt String A) → ((a : A) → r ≡ done a → P a) → Meets I P (lift r)
  Meets-lift (failed e) h = meets (λ cache c. raises tt)
  Meets-lift (done a) h = meets (λ cache c. yields (h a refl, c))

  pub Meets-reject : (message : String) → Meets I P (reject message)
  Meets-reject message = meets (λ cache c. raises tt)

  pub Meets-if :
      (b : Bool) {x y : Translation A}
      → (b ≡ true → Meets I P x)
      → (b ≡ false → Meets I P y)
      → Meets I P (if b then x else y)
  Meets-if true p q = p refl
  Meets-if false p q = q refl

module _ {I : Cache → Type 0} where
  -- A test that is passed is false.
  pub Meets-refuse : (b : Bool) (message : String) → Meets I (λ u. b ≡ false) (refuse b message)
  Meets-refuse true message = meets (λ cache c. raises tt)
  Meets-refuse false message = meets (λ cache c. yields (refl, c))

  -- A check that says nothing of its result.
  pub Meets-check : {A : Type 0} (r : Attempt String A) → Meets I (λ a. r ≡ done a) (lift r)
  Meets-check r = Meets-lift r (λ a h. h)

-- A well-typed expression of the expected type, if one is expected.
pub record Out (w : ℕ) (env : Env) (expected : Option Ty) (e : Expr) : Type 0 where
  pub typed : Typed w (types env) e
  pub as_expected : (t : Ty) → expected ≡ some t → ty_of e ≡ t

abbrev pub IsPending : (Cache → Type 0) → ℕ → Env → Pending → Type 0
IsPending I w env m = (expected : Option Ty) → Meets I (Out w env expected) (m expected)

abbrev pub Within : ℕ → Env → Expr → Type 0
Within w env e = Typed w (types env) e

pub ty_eq_iff : (t u : Ty) → (ty_eq t u ≡ true) ↔ (t ≡ u)
ty_eq_iff t u = ground arith

pub checked-Out :
    {I : Cache → Type 0} (w : ℕ) (env : Env) (expected : Option Ty) (e : Expr)
    → Within w env e
    → Meets I (Out w env expected) (checked expected e)
checked-Out w env none e d =
    Meets-then (Meets-refuse false "type mismatch")
      (λ u h. Meets-give e (record { typed = d; as_expected = λ t q. cc (q) }))
checked-Out w env (some t) e d = Meets-then (Meets-refuse (not (ty_eq t (ty_of e))) _) (λ u h.
    let same : ty_eq t (ty_of e) ≡ true = ground (arith, h) in
    Meets-give e (record {
      typed = d;
      as_expected = λ v q. sym ((ty_eq_iff t (ty_of e)).0 same) ∙ some_injective q;
    }))

-- Checking an output that is well typed.
pub then-checked :
    {I : Cache → Type 0} (w : ℕ) (env : Env) (expected : Option Ty) {m : Translation Expr}
    → Meets I (Within w env) m
    → Meets I (Out w env expected) (m >>= checked expected)
then-checked w env expected p = Meets-then p (checked-Out w env expected)

-- The innermost binding of a name stands in the context at its distance.
pub lookup-types :
    (env : Env) (name : String) (i : ℕ) (b : Binding)
    → lookup env name ≡ some (i, b)
    → get_elem? (types env) i ≡ some b.ty
unfolding lookup
lookup-types [] name i b h = cc (h)
lookup-types (c ∷ env) name i b h = elim (Bool-cases (same_text c.name name)) [
  | inl hit ↦
      let e = some_injective (rw hit at h) in
      rw (← ap (λ (p : ℕ × Binding). p.0) e, ← ap (λ (p : ℕ × Binding). p.1.ty) e) refl
  | inr miss ↦ elim (Option-cases (lookup env name)) [
    | inl absent ↦ let h' = rw (miss, absent) at h in cc (h')
    | inr ((j, d), found) ↦
        let e = some_injective (rw (miss, found) at h) in
        rw (← ap (λ (p : ℕ × Binding). p.0) e, ← ap (λ (p : ℕ × Binding). p.1.ty) e)
          (lookup-types env name j d found)
  ]
]
