-- ===== src/Membership/QuorumIndex.antt =====
-- `Membership::quorum_index` is the highest position that a quorum has reached.
use hubby.Prelude.{
  All, Bool, Bool-cases, List, [], any, ap, arith, count, count-le-length, get_or, inl, inr, keep,
  leb, leb_iff, length, ltb, map, min, refl, suc, true, zero, ℕ, ◌&&◌, ◌+◌, ◌-◌, ◌/◌, ◌<◌, ◌∷◌, ◌≡◌,
  ◌≤◌,
}
use hubby.Types.{NodeId}
use hubby.Membership.{
  Member, Membership, ids_where, insert_sorted, is_joint, majority, median, occupied, old_voters,
  quorum, quorum_index, sort, voters,
}

-- Ascending order.
abbrev IsSorted : List ℕ → Type 0
IsSorted [] = Unit {0}
IsSorted (x ∷ xs) = All (λ y. x ≤ y) xs × IsSorted xs

abbrev reached : ℕ → List ℕ → ℕ
reached t xs = count (λ x. leb t x) xs

All-le_trans : (a b : ℕ) (xs : List ℕ) → a ≤ b → All (λ y. b ≤ y) xs → All (λ y. a ≤ y) xs
All-le_trans a b [] h v = tt
All-le_trans a b (x ∷ xs) h v = (omega arith, All-le_trans a b xs h v.1)

insert_sorted-All :
    (b x : ℕ) (ys : List ℕ) → b ≤ x → All (λ y. b ≤ y) ys → All (λ y. b ≤ y) (insert_sorted x ys)
unfolding insert_sorted
insert_sorted-All b x [] h v = (h, tt)
insert_sorted-All b x (y ∷ ys) h v = ground (arith, insert_sorted-All b x ys h v.1)

insert_sorted-IsSorted : (x : ℕ) (ys : List ℕ) → IsSorted ys → IsSorted (insert_sorted x ys)
unfolding insert_sorted
insert_sorted-IsSorted x [] s = (tt, tt)
insert_sorted-IsSorted x (y ∷ ys) s = elim (Bool-cases (leb x y)) [
  | inl le ↦ let h : x ≤ y = (leb_iff x y).0 le in rw le ((h, All-le_trans x y ys h s.0), s)
  | inr gt ↦ rw gt (insert_sorted-All y x ys (ground arith) s.0, insert_sorted-IsSorted x ys s.1)
]

sort-IsSorted : (xs : List ℕ) → IsSorted (sort xs)
unfolding sort
sort-IsSorted [] = tt
sort-IsSorted (x ∷ xs) = insert_sorted-IsSorted x (sort xs) (sort-IsSorted xs)

count-insert_sorted :
    (p : ℕ → Bool) (x : ℕ) (ys : List ℕ) → count p (insert_sorted x ys) ≡ count p (x ∷ ys)
unfolding insert_sorted
count-insert_sorted p x [] = refl
count-insert_sorted p x (y ∷ ys) = ground (arith, count-insert_sorted p x ys)

count-sort : (p : ℕ → Bool) (xs : List ℕ) → count p (sort xs) ≡ count p xs
unfolding sort
count-sort p [] = refl
count-sort p (x ∷ xs) = omega (arith, count-insert_sorted p x (sort xs), count-sort p xs)

length-insert_sorted : (x : ℕ) (ys : List ℕ) → length (insert_sorted x ys) ≡ suc (length ys)
unfolding insert_sorted
length-insert_sorted x [] = refl
length-insert_sorted x (y ∷ ys) = ground (arith, length-insert_sorted x ys)

length-sort : (xs : List ℕ) → length (sort xs) ≡ length xs
unfolding sort
length-sort [] = refl
length-sort (x ∷ xs) = omega (arith, length-insert_sorted x (sort xs), length-sort xs)

reached-All : (t b : ℕ) (xs : List ℕ) → t ≤ b → All (λ y. b ≤ y) xs → reached t xs ≡ length xs
reached-All t b [] h v = refl
reached-All t b (x ∷ xs) h v = ground (arith, reached-All t b xs h v.1)

get_or-le : (b i : ℕ) (xs : List ℕ) → i < length xs → All (λ y. b ≤ y) xs → b ≤ get_or xs i 0
get_or-le b i [] h v = absurd (omega arith)
get_or-le b zero (x ∷ xs) h v = v.0
get_or-le b (suc i) (x ∷ xs) h v = get_or-le b i xs (omega arith) v.1

-- In a sorted list the element at `i` reaches `t` exactly if `length xs - i` elements do.
sorted_reaches :
    (t i : ℕ) (xs : List ℕ)
    → IsSorted xs
    → i < length xs
    → leb t (get_or xs i 0) ≡ leb (length xs - i) (reached t xs)
sorted_reaches t i [] s h = absurd (omega arith)
sorted_reaches t zero (x ∷ xs) s h =
    ground (arith, reached-All t x xs, count-le-length (λ y. leb t y) xs, s.0)
sorted_reaches t (suc i) (x ∷ xs) s h = elim (Bool-cases (leb t x)) [
  | inl le ↦
      ground (arith, reached-All t x xs (ground arith) s.0, get_or-le x i xs (omega arith) s.0)
  | inr gt ↦ ground (arith, sorted_reaches t i xs s.1 (omega arith))
]

keep-map :
    (t : ℕ) (f : NodeId → ℕ) (ids : List NodeId)
    → reached t (map f ids) ≡ length (keep (λ i. leb t (f i)) ids)
keep-map t f [] = refl
keep-map t f (i ∷ ids) = ground (arith, keep-map t f ids)

length-map : (f : NodeId → ℕ) (ids : List NodeId) → length (map f ids) ≡ length ids
length-map f [] = refl
length-map f (i ∷ ids) = ap suc (length-map f ids)

median_reaches :
    (t : ℕ) (xs : List ℕ) → 0 < length xs → leb t (median xs) ≡ ltb (length xs / 2) (reached t xs)
unfolding median
median_reaches t xs h = ground (
  arith,
  sorted_reaches t (length xs - (length xs / 2 + 1)) (sort xs) (sort-IsSorted xs),
  length-sort xs,
  count-sort (λ x. leb t x) xs,
)

median-majority :
    (t : ℕ) (f : NodeId → ℕ) (ids : List NodeId)
    → 0 < length ids
    → leb t (median (map f ids)) ≡ majority (λ i. leb t (f i)) ids
unfolding majority
median-majority t f ids h =
    ground (arith, median_reaches t (map f ids), keep-map t f ids, length-map f ids)

joint_nonempty :
    (ms : List Member) → any (λ k. k.old) ms ≡ true → 0 < length (ids_where (λ k. k.old) ms)
joint_nonempty [] h = cc
joint_nonempty (k ∷ ms) h = ground (arith, joint_nonempty ms)

leb-min : (t a b : ℕ) → leb t (min a b) ≡ (leb t a && leb t b)
leb-min t a b = ground arith

-- Where a configuration has a voter, `quorum_index` is at least `t` exactly if the ids that have
-- matched `t` are a quorum, in both voting sets of a joint configuration.
pub quorum_index-quorum :
    (m : Membership) (matched : NodeId → ℕ) (t : ℕ)
    → 0 < length (voters m)
    → leb t (quorum_index m matched) ≡ quorum m (λ i. leb t (matched i))
unfolding quorum_index quorum is_joint
quorum_index-quorum m matched t h = elim (Bool-cases (any (λ k. k.old) (occupied m))) [
  | inr stable ↦ rw (stable, median-majority t matched (voters m) h) (ground arith)
  | inl both ↦ rw (
    both,
    leb-min,
    median-majority t matched (voters m) h,
    median-majority t matched (old_voters m) (joint_nonempty (occupied m) both),
  )
]
