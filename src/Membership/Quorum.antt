-- ===== src/Membership/Quorum.antt =====
-- The majorities of `Membership::quorum` overlap.
use hubby.Prelude.{
  ==_refl, Bool, Bool-cases, List, [], arith, inl, inr, keep, length, true, ◌+◌, ◌<◌, ◌∷◌, ◌≡◌, ◌≤◌,
}
use hubby.Types.{NodeId}
use hubby.Membership.{Membership, contains_id, majority, old_voters, quorum, voters}

-- Some id of the list passes both tests.
abbrev pub Common : (NodeId → Bool) → (NodeId → Bool) → List NodeId → Type 0
Common p q ids = (i : NodeId) × (contains_id ids i ≡ true) × (p i ≡ true) × (q i ≡ true)

Common-later :
    (p q : NodeId → Bool) (x : NodeId) (xs : List NodeId) → Common p q xs → Common p q (x ∷ xs)
Common-later p q x xs (i, h, hp, hq) = (i, ground (arith, h), hp, hq)

overlap :
    (p q : NodeId → Bool) (xs : List NodeId)
    → length xs < length (keep p xs) + length (keep q xs)
    → Common p q xs
overlap p q [] h = absurd (omega arith)
overlap p q (x ∷ xs) h = elim (Bool-cases (p x)) [
  | inl hp ↦ elim (Bool-cases (q x)) [
    | inl hq ↦ (x, ground (arith, ==_refl x), hp, hq)
    | inr nq ↦ Common-later p q x xs (overlap p q xs (ground arith))
  ]
  | inr np ↦ Common-later p q x xs (overlap p q xs (ground arith))
]

pub majority-overlap :
    (p q : NodeId → Bool) (xs : List NodeId)
    → majority p xs ≡ true
    → majority q xs ≡ true
    → Common p q xs
unfolding majority
majority-overlap p q xs hp hq = overlap p q xs (ground arith)

pub quorum-majority :
    (m : Membership) (p : NodeId → Bool) → quorum m p ≡ true → majority p (voters m) ≡ true
unfolding quorum
quorum-majority m p h = ground arith

-- Any two quorums of one configuration, stable or joint, have a voter in common.
pub quorum-overlap :
    (m : Membership) (p q : NodeId → Bool)
    → quorum m p ≡ true
    → quorum m q ≡ true
    → Common p q (voters m)
quorum-overlap m p q hp hq =
    majority-overlap p q (voters m) (quorum-majority m p hp) (quorum-majority m q hq)

keep_mono :
    (p q : NodeId → Bool) (xs : List NodeId)
    → ((i : NodeId) → p i ≡ true → q i ≡ true)
    → length (keep p xs) ≤ length (keep q xs)
keep_mono p q [] h = omega arith
keep_mono p q (x ∷ xs) h = elim (Bool-cases (p x)) [
  | inl holds ↦ ground (arith, keep_mono p q xs h, holds, h x holds)
  | inr fails ↦ ground (arith, keep_mono p q xs h, fails)
]

majority_mono :
    (p q : NodeId → Bool) (xs : List NodeId)
    → ((i : NodeId) → p i ≡ true → q i ≡ true)
    → majority p xs ≡ true
    → majority q xs ≡ true
unfolding majority
majority_mono p q xs h m = ground (arith, keep_mono p q xs h, m)

-- What holds a quorum still does with more ids.
pub quorum_mono :
    (m : Membership) (p q : NodeId → Bool)
    → ((i : NodeId) → p i ≡ true → q i ≡ true)
    → quorum m p ≡ true
    → quorum m q ≡ true
unfolding quorum
quorum_mono m p q h held =
    ground (arith, majority_mono p q (voters m) h, majority_mono p q (old_voters m) h, held)
