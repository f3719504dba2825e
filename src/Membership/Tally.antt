-- ===== src/Membership/Tally.antt =====
-- How `include` of jarl/src/membership.rs changes the number of members that satisfy a test.
use hubby.Prelude.{
  ==_iff, Bool, Bool-cases, List, Option, Option-cases, [], any, arith, count, false, get_or,
  if◌then◌else◌, inl, inr, length, length-set, none, position, position_from, refl, set, some,
  somes, subst, suc, true, unwrap_or, zero, ℕ, ◌+◌, ◌<◌, ◌==◌, ◌∷◌, ◌≡◌, ◌≤◌,
}
use hubby.Types.{Error, NodeId, ok, ok-ne-err, ok_injective, ok_or, ◌>>=◌}
use hubby.Membership.{Kind, Member, Membership, blank, flag, has_id, include, occupied, vacant}

abbrev pub one : (Member → Bool) → Option Member → ℕ
one p none = 0
one p (some k) = if p k then 1 else 0

abbrev pub tally : (Member → Bool) → Membership → ℕ
tally p m = count p (occupied m)

abbrev pub named : NodeId → Member → Bool
named i k = k.id == i

slots-set :
    (p : Member → Bool) (xs : List (Option Member)) (i : ℕ) (k : Member)
    → i < length xs
    → count p (somes (set xs i (some k))) + one p (get_or xs i none)
      ≡ count p (somes xs) + one p (some k)
slots-set p [] i k h = absurd (omega arith)
slots-set p (none ∷ xs) zero k h = omega arith
slots-set p (some x ∷ xs) zero k h = omega arith
slots-set p (none ∷ xs) (suc i) k h = omega (arith, slots-set p xs i k (omega arith))
slots-set p (some x ∷ xs) (suc i) k h = omega (arith, slots-set p xs i k (omega arith))

one-get_or-le :
    (p : Member → Bool) (xs : List (Option Member)) (i : ℕ)
    → one p (get_or xs i none) ≤ count p (somes xs)
one-get_or-le p [] i = omega arith
one-get_or-le p (none ∷ xs) zero = omega arith
one-get_or-le p (some x ∷ xs) zero = omega arith
one-get_or-le p (none ∷ xs) (suc i) = one-get_or-le p xs i
one-get_or-le p (some x ∷ xs) (suc i) = omega (arith, one-get_or-le p xs i)

position_later {ℓ} :
    {A : Type ℓ} (d : A) (b : ℕ) (p : A → Bool) (x : A) (xs : List A) {j : ℕ}
    → ((i : ℕ) × (j ≡ suc b + i) × (i < length xs) × (p (get_or xs i d) ≡ true))
    → (i : ℕ) × (j ≡ b + i) × (i < length (x ∷ xs)) × (p (get_or (x ∷ xs) i d) ≡ true)
position_later d b p x xs (i, q, l, t) = (suc i, omega arith, omega arith, t)

-- What a successful `position` finds.
position_found {ℓ} :
    {A : Type ℓ} (d : A) (b : ℕ) (p : A → Bool) (xs : List A) {j : ℕ}
    → position_from b p xs ≡ some j
    → (i : ℕ) × (j ≡ b + i) × (i < length xs) × (p (get_or xs i d) ≡ true)
position_found d b p [] e = cc
position_found d b p (x ∷ xs) e = elim (Bool-cases (p x)) [
  | inl t ↦ (0, ground arith, omega arith, t)
  | inr f ↦ position_later d b p x xs (position_found d (suc b) p xs (ground arith))
]

pub position-eq-some {ℓ} :
    {A : Type ℓ} (d : A) (p : A → Bool) (xs : List A) {j : ℕ}
    → position p xs ≡ some j
    → (j < length xs) × (p (get_or xs j d) ≡ true)
position-eq-some d p xs {j} e =
    let (i, q, h, t) = position_found d 0 p xs e in
    let q' : i ≡ j = omega arith in (omega arith, rw (← q') t)

position_missing {ℓ} :
    {A : Type ℓ} (b : ℕ) (p : A → Bool) (xs : List A)
    → position_from b p xs ≡ none
    → any p xs ≡ false
position_missing b p [] e = refl
position_missing b p (x ∷ xs) e = ground (arith, position_missing (suc b) p xs)

absent_id :
    (i : NodeId) (xs : List (Option Member))
    → any (has_id i) xs ≡ false
    → count (named i) (somes xs) ≡ 0
absent_id i [] e = refl
absent_id i (none ∷ xs) e = absent_id i xs e
absent_id i (some x ∷ xs) e = ground (arith, absent_id i xs)

-- The effect of a successful `include`: `slot` held a member with this id, or was vacant and no
-- member had the id; it now holds that member, or a blank one, with the flag set.
pub record Included (m m' : Membership) (i : NodeId) (kind : Kind) : Type 0 where
  pub slot : Option Member
  pub same_id : (unwrap_or slot (blank i)).id ≡ i
  pub fresh : slot ≡ none → tally (named i) m ≡ 0
  pub held : (p : Member → Bool) → one p slot ≤ tally p m
  pub counts :
      (p : Member → Bool)
      → tally p m' + one p slot ≡ tally p m + one p (some (flag kind (unwrap_or slot (blank i))))
  pub size : length m'.members ≡ length m.members

Included-at :
    (m : Membership) (i : NodeId) (kind : Kind) (j : ℕ)
    → j < length m.members
    → (unwrap_or (get_or m.members j none) (blank i)).id ≡ i
    → (get_or m.members j none ≡ none → tally (named i) m ≡ 0)
    → Included m
        (record {
          members =
              set m.members j (some (flag kind (unwrap_or (get_or m.members j none) (blank i))));
        })
        i
        kind
Included-at m i kind j h named_i fresh = record {
  slot = get_or m.members j none;
  same_id = named_i;
  fresh = fresh;
  held = λ p. one-get_or-le p m.members j;
  counts = λ p. slots-set p m.members j _ h;
  size = length-set m.members j _;
}

same_id_found :
    (i : NodeId) (o : Option Member) → has_id i o ≡ true → (unwrap_or o (blank i)).id ≡ i
same_id_found i none h = refl
same_id_found i (some k) h = (==_iff k.id i).0 h

not_none : (i : NodeId) (o : Option Member) → has_id i o ≡ true → o ≡ none → ⊥
not_none i none h e = cc
not_none i (some k) h e = cc

vacant-none : (o : Option Member) → vacant o ≡ true → o ≡ none
vacant-none none h = refl
vacant-none (some k) h = cc

include_vacant :
    (m : Membership) (i : NodeId) (kind : Kind) {m' : Membership}
    → position (has_id i) m.members ≡ none
    → (ok_or (position vacant m.members) Error.config >>= λ j. ok (record {
      members = set m.members j (some (flag kind (unwrap_or (get_or m.members j none) (blank i))));
    }))
      ≡ ok m'
    → Included m m' i kind
include_vacant m i kind missing e = elim (Option-cases (position vacant m.members)) [
  | inr (j, found) ↦
      let at_slot = position-eq-some none vacant m.members found in
      subst (λ x. Included m x i kind) (ok_injective (rw found at e))
        (Included-at m i kind j at_slot.0 (rw (vacant-none _ at_slot.1))
          (λ v. absent_id i m.members (position_missing 0 (has_id i) m.members missing)))
  | inl none_left ↦ absurd (ok-ne-err (rw none_left at e))
]

-- A successful `include` has that effect.
pub include-Included :
    (m : Membership) (i : NodeId) (kind : Kind) {m' : Membership}
    → include m i kind ≡ ok m'
    → Included m m' i kind
unfolding include
include-Included m i kind {m'} e = elim (Option-cases (position (has_id i) m.members)) [
  | inr (j, found) ↦
      let at_slot = position-eq-some none (has_id i) m.members found in
      subst (λ x. Included m x i kind) (ok_injective (rw found at e))
        (Included-at m i kind j at_slot.0 (same_id_found i _ at_slot.1)
          (λ v. absurd (not_none i _ at_slot.1 v)))
  | inl missing ↦ include_vacant m i kind missing (rw missing at e)
]
