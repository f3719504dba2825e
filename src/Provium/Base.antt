-- ===== src/Provium/Base.antt =====
-- `Result<T, E>` for the error types of provium/src, and postconditions on it.
use Prim.Native.String
use Prim.Native.String.{String}
use text.Mathlib.Text
use hubby.Prelude.{
  Bool, Option, ap, false, if◌then◌else◌, inl, inr, none, refl, some, true, ◌≡◌, ◌⊎◌,
}

pub data Attempt {ℓ} (E : Type 0) (T : Type ℓ) : Type ℓ where
  failed : E → Attempt E T
  done : T → Attempt E T

infixl 5 ◌>>=◌
abbrev pub ◌>>=◌ {ℓ κ} :
    {E : Type 0} {T : Type ℓ} {U : Type κ} (first : Attempt E T) (rest : T → Attempt E U)
    → Attempt E U
failed error >>= rest = failed error
done value >>= rest = rest value

infixl 5 ◌>>◌
abbrev pub ◌>>◌ {ℓ} :
    {E : Type 0} {U : Type ℓ} (check : Attempt E (Unit {0})) (rest : Attempt E U) → Attempt E U
check >> rest = check >>= λ passed. rest

-- `if b { return Err(e) }`.
abbrev pub stop_if : {E : Type 0} → Bool → E → Attempt E (Unit {0})
stop_if true e = failed e
stop_if false e = done tt

-- `Option::ok_or`.
abbrev pub or_fail {ℓ} : {E : Type 0} {T : Type ℓ} → Option T → E → Attempt E T
or_fail none e = failed e
or_fail (some t) e = done t

abbrev pub same_text : String → String → Bool
same_text s t = Text.◌==◌ s t

-- The order of `String`.
abbrev pub comes_before : String → String → Bool
comes_before s t = Text.is_lt (String.compare s t)

-- The value meets `P`, or the error meets `Q`.
pub data Ensures {E T : Type 0} (P : T → Type 0) (Q : E → Type 0) : Attempt E T → Type 0 where
  raises : {e : E} → Q e → Ensures P Q (failed e)
  yields : {t : T} → P t → Ensures P Q (done t)

module _ {E T : Type 0} {Q : E → Type 0} where
  pub Ensures-then :
      {U : Type 0} {P : T → Type 0} {R : U → Type 0} {first : Attempt E T} {rest : T → Attempt E U}
      → Ensures P Q first
      → ((t : T) → P t → Ensures R Q (rest t))
      → Ensures R Q (first >>= rest)
  Ensures-then (raises q) k = raises q
  Ensures-then (yields p) k = k _ p

  pub Ensures-or_fail : (o : Option T) (e : E) → Q e → Ensures (λ t. o ≡ some t) Q (or_fail o e)
  Ensures-or_fail none e q = raises q
  Ensures-or_fail (some t) e q = yields refl

  pub Ensures-done : {P : T → Type 0} {t : T} → Ensures P Q (done t) → P t
  Ensures-done (yields p) = p

  pub Ensures-failed : {P : T → Type 0} {e : E} → Ensures P Q (failed e) → Q e
  Ensures-failed (raises q) = q

  pub Ensures-weaken :
      {P R : T → Type 0} {r : Attempt E T} → ((t : T) → P t → R t) → Ensures P Q r → Ensures R Q r
  Ensures-weaken g (raises q) = raises q
  Ensures-weaken g (yields p) = yields (g _ p)

  pub Ensures-if :
      {P : T → Type 0} (b : Bool) {x y : Attempt E T}
      → (b ≡ true → Ensures P Q x)
      → (b ≡ false → Ensures P Q y)
      → Ensures P Q (if b then x else y)
  Ensures-if true p q = p refl
  Ensures-if false p q = q refl

module _ {E : Type 0} {Q : E → Type 0} where
  -- A test that is passed is false.
  pub Ensures-stop_if :
      (b : Bool) (e : E) → (b ≡ true → Q e) → Ensures (λ u. b ≡ false) Q (stop_if b e)
  Ensures-stop_if true e q = raises (q refl)
  Ensures-stop_if false e q = yields refl

pub done_injective {ℓ} :
    {E : Type 0} {T : Type ℓ} {t u : T} → ◌≡◌ {A = Attempt E T} (done t) (done u) → t ≡ u
done_injective h = cc

pub Attempt-cases {ℓ} :
    {E : Type 0} {T : Type ℓ} (r : Attempt E T)
    → ((t : T) × (r ≡ done t)) ⊎ ((e : E) × (r ≡ failed e))
Attempt-cases (done t) = inl (t, refl)
Attempt-cases (failed e) = inr (e, refl)

pub or_fail-eq-done {ℓ} :
    {E : Type 0} {T : Type ℓ} (o : Option T) (e : E) {t : T} → or_fail o e ≡ done t → o ≡ some t
or_fail-eq-done none e h = cc (h)
or_fail-eq-done (some u) e h = ap some (done_injective h)
