-- ===== src/Membership/Valid.antt =====
-- Each identity keeps one slot, and a configuration keeps a voter: the constructors and changes of
-- configurations in jarl/src/membership.rs.
use hubby.Prelude.{
  ==_iff, Bool, Bool-cases, List, Option, [], arith, count, inl, inr, length, map, max, none, refl,
  some, somes, subst, suc, unwrap_or, zero, ℕ, ◌+◌, ◌<◌, ◌==◌, ◌||◌, ◌∷◌, ◌≡◌, ◌≤◌,
}
use hubby.Types.{>>=-eq-ok, Error, NodeId, ok, ok_injective, refuse_if-eq-ok}
use hubby.Membership.{
  Kind, Member, Membership, as_learner, as_old, as_voter, blank, contains_id, empty, finalize_slot,
  finalized, flag, include, include_all, include_learners, include_set, is_joint, joint, occupied,
  restore, voters, with_learners,
}
use hubby.Membership.Tally.{include-Included, named, one, tally}
use hubby.Membership.Joint.{UniqueIds, finalized_lem, length-ids_where, map_err-eq-ok}

pub record IsValid (m : Membership) : Type 0 where
  pub unique : UniqueIds m
  pub nonempty : 0 < length (voters m)

abbrev is_voting : Member → Bool
is_voting k = k.voter

named_slot :
    (x i : NodeId) (kind : Kind) (o : Option Member)
    → (unwrap_or o (blank i)).id ≡ i
    → one (named x) (some (flag kind (unwrap_or o (blank i))))
      ≡ one (named x) o + one (named x) (elim o [ none ↦ some (blank i) | some _ ↦ none ])
named_slot x i as_voter none h = omega arith
named_slot x i as_learner none h = omega arith
named_slot x i as_old none h = omega arith
named_slot x i as_voter (some k) h = omega arith
named_slot x i as_learner (some k) h = omega arith
named_slot x i as_old (some k) h = omega arith

unique_slot :
    (m m' : Membership) (x i : NodeId) (kind : Kind) (o : Option Member)
    → UniqueIds m
    → (unwrap_or o (blank i)).id ≡ i
    → (o ≡ none → tally (named i) m ≡ 0)
    → tally (named x) m' + one (named x) o
      ≡ tally (named x) m + one (named x) (some (flag kind (unwrap_or o (blank i))))
    → tally (named x) m' ≤ 1
unique_slot m m' x i kind none u same fresh counts = elim (Bool-cases (i == x)) [
  | inl hit ↦
      let e : i ≡ x = (==_iff i x).0 hit in
      let gone : tally (named x) m ≡ 0 = subst (λ y. tally (named y) m ≡ 0) e (fresh refl) in
      ground (arith, named_slot x i kind none same)
  | inr miss ↦ ground (arith, named_slot x i kind none same, u x)
]
unique_slot m m' x i kind (some k) u same fresh counts =
    omega (arith, named_slot x i kind (some k) same, u x)

include-UniqueIds :
    (m : Membership) (i : NodeId) (kind : Kind) {m' : Membership}
    → UniqueIds m
    → include m i kind ≡ ok m'
    → UniqueIds m'
include-UniqueIds m i kind {m'} u e x =
    let s = include-Included m i kind e in
    unique_slot m m' x i kind s.slot u s.same_id s.fresh (s.counts (named x))

voting_slot :
    (kind : Kind) (i : NodeId) (o : Option Member)
    → one is_voting o ≤ one is_voting (some (flag kind (unwrap_or o (blank i))))
voting_slot as_voter i none = omega arith
voting_slot as_learner i none = omega arith
voting_slot as_old i none = omega arith
voting_slot as_voter i (some k) = ground arith
voting_slot as_learner i (some k) = omega arith
voting_slot as_old i (some k) = omega arith

include-voters :
    (m : Membership) (i : NodeId) (kind : Kind) {m' : Membership}
    → include m i kind ≡ ok m'
    → tally is_voting m ≤ tally is_voting m'
include-voters m i kind e =
    let s = include-Included m i kind e in
    omega (arith, s.counts is_voting, voting_slot kind i s.slot)

include-voter :
    (m : Membership) (i : NodeId) {m' : Membership}
    → include m i as_voter ≡ ok m'
    → 0 < tally is_voting m'
include-voter m i e =
    let s = include-Included m i as_voter e in omega (arith, s.counts is_voting, s.held is_voting)

-- What a run of inclusions preserves: unique ids, and each voter.
pub record Grown (m m' : Membership) : Type 0 where
  pub unique : UniqueIds m'
  pub voting : tally is_voting m ≤ tally is_voting m'

include-Grown :
    (m : Membership) (i : NodeId) (kind : Kind) {m' : Membership}
    → UniqueIds m
    → include m i kind ≡ ok m'
    → Grown m m'
include-Grown m i kind u e = record {
  unique = include-UniqueIds m i kind u e;
  voting = include-voters m i kind e;
}

Grown-trans : {a b c : Membership} → Grown a b → Grown b c → Grown a c
Grown-trans g h = record { unique = h.unique; voting = omega (arith, g.voting, h.voting) }

include_all-Grown :
    (kind : Kind) (ids : List NodeId) (m : Membership) {m' : Membership}
    → UniqueIds m
    → include_all kind ids m ≡ ok m'
    → Grown m m'
unfolding include_all
include_all-Grown kind [] m u e =
    subst (Grown m) (ok_injective e) (record { unique = u; voting = omega arith })
include_all-Grown kind (i ∷ ids) m u e =
    let (m1, e1, rest) = >>=-eq-ok (include m i kind) _ e in
    let g = include-Grown m i kind u e1 in
    Grown-trans g (include_all-Grown kind ids m1 g.unique rest)

include_set-Grown :
    (kind : Kind) (barred before ids : List NodeId) (m : Membership) {m' : Membership}
    → UniqueIds m
    → include_set kind barred before ids m ≡ ok m'
    → Grown m m'
unfolding include_set
include_set-Grown kind barred before [] m u e =
    subst (Grown m) (ok_injective e) (record { unique = u; voting = omega arith })
include_set-Grown kind barred before (i ∷ ids) m u e =
    let (_, e0) = refuse_if-eq-ok _ _ _ e in
    let (m1, e1, rest) = >>=-eq-ok (include m i kind) _ e0 in
    let g = include-Grown m i kind u e1 in
    Grown-trans g (include_set-Grown kind barred (i ∷ before) ids m1 g.unique rest)

include_learners-Grown :
    (c : Membership) (before ids : List NodeId) (m : Membership) {m' : Membership}
    → UniqueIds m
    → include_learners c before ids m ≡ ok m'
    → Grown m m'
unfolding include_learners
include_learners-Grown c before [] m u e =
    subst (Grown m) (ok_injective e) (record { unique = u; voting = omega arith })
include_learners-Grown c before (i ∷ ids) m u e =
    let (_, e0) = refuse_if-eq-ok _ _ _ e in
    let (m1, e1, rest) = >>=-eq-ok (include m i as_learner) _ e0 in
    let g = include-Grown m i as_learner u e1 in
    Grown-trans g (include_learners-Grown c (i ∷ before) ids m1 g.unique rest)

empty-tally : (p : Member → Bool) (max : ℕ) → tally p (empty max) ≡ 0
empty-tally p zero = refl
empty-tally p (suc max) = empty-tally p max

empty-UniqueIds : (max : ℕ) → UniqueIds (empty max)
empty-UniqueIds max x = omega (arith, empty-tally (named x) max)

valid_of : {m : Membership} → UniqueIds m → 0 < tally is_voting m → IsValid m
valid_of {m} u h = record {
  unique = u;
  nonempty = omega (arith, length-ids_where is_voting (occupied m));
}

-- The first voter is included by the first loop.
include_set-voter :
    (barred before : List NodeId) (i : NodeId) (ids : List NodeId) (m : Membership)
    {m' : Membership}
    → UniqueIds m
    → include_set as_voter barred before (i ∷ ids) m ≡ ok m'
    → 0 < tally is_voting m'
unfolding include_set
include_set-voter barred before i ids m u e =
    let (_, e0) = refuse_if-eq-ok (contains_id before i || contains_id barred i) Error.config _ e in
    let (m1, e1, rest) =
      >>=-eq-ok (include m i as_voter) (include_set as_voter barred (i ∷ before) ids) e0 in
    let g =
      include_set-Grown as_voter barred (i ∷ before) ids m1 (include-UniqueIds m i as_voter u e1)
        rest in
    omega (arith, g.voting, include-voter m i e1)

-- Where `Membership::restore` succeeds, the configuration has a voter, and one slot for each
-- identity.
pub restore-IsValid :
    (max : ℕ) (vs os ls : List NodeId) {m : Membership} → restore max vs os ls ≡ ok m → IsValid m
unfolding restore
restore-IsValid max [] os ls e = cc
restore-IsValid max (v ∷ vs) os ls e =
    let (m1, e1, r1) = >>=-eq-ok (include_set as_voter [] [] (v ∷ vs) (empty max)) _ e in
    let (m2, e2, e3) = >>=-eq-ok (include_set as_learner (v ∷ vs) [] ls m1) _ r1 in
    let u = empty-UniqueIds max in
    let g1 = include_set-Grown as_voter [] [] (v ∷ vs) (empty max) u e1 in
    let g2 = include_set-Grown as_learner (v ∷ vs) [] ls m1 g1.unique e2 in
    let g3 = include_set-Grown as_old [] [] os m2 g2.unique e3 in
    valid_of g3.unique
      (omega (arith, g2.voting, g3.voting, include_set-voter [] [] v vs (empty max) u e1))

-- `with_learners` keeps at least the first voter of a valid configuration.
include_all-voter :
    (ids : List NodeId) (m : Membership) {m' : Membership}
    → UniqueIds m
    → 0 < length ids
    → include_all as_voter ids m ≡ ok m'
    → 0 < tally is_voting m'
unfolding include_all
include_all-voter [] m u h e = absurd (omega arith)
include_all-voter (i ∷ ids) m u h e =
    let (m1, e1, rest) = >>=-eq-ok (include m i as_voter) (include_all as_voter ids) e in
    let g = include_all-Grown as_voter ids m1 (include-UniqueIds m i as_voter u e1) rest in
    omega (arith, g.voting, include-voter m i e1)

-- Where `with_learners` succeeds on a valid configuration, the result is valid.
pub with_learners-IsValid :
    (m : Membership) (ids : List NodeId) {m' : Membership}
    → IsValid m
    → with_learners m ids ≡ ok m'
    → IsValid m'
unfolding with_learners
with_learners-IsValid m ids v e =
    let max = length m.members in
    let (base, e1, e2) =
      >>=-eq-ok (include_all as_voter (voters m) (empty max)) (include_learners m [] ids) e in
    let u = empty-UniqueIds max in
    let g1 = include_all-Grown as_voter (voters m) (empty max) u e1 in
    let g2 = include_learners-Grown m [] ids base g1.unique e2 in
    valid_of g2.unique
      (omega (arith, g2.voting, include_all-voter (voters m) (empty max) u v.nonempty e1))

-- Where `joint` succeeds with a valid target, the joint configuration is valid: it has a voter,
-- and one slot for each identity.
pub joint-IsValid : (c t : Membership) {j : Membership} → IsValid t → joint c t ≡ ok j → IsValid j
unfolding joint
joint-IsValid c t v e =
    let (_, e') = refuse_if-eq-ok (is_joint c || is_joint t) Error.reconfiguring _ e in
    let all_in = map_err-eq-ok (include_all as_old (voters c) t) Error.full e' in
    let g = include_all-Grown as_old (voters c) t v.unique all_in in
    valid_of g.unique (omega (arith, g.voting, v.nonempty, length-ids_where is_voting (occupied t)))

finalize-named :
    (x : NodeId) (xs : List (Option Member))
    → count (named x) (somes (map finalize_slot xs)) ≤ count (named x) (somes xs)
finalize-named x [] = omega arith
finalize-named x (none ∷ xs) = finalize-named x xs
finalize-named x (some k ∷ xs) = ground (arith, finalize-named x xs)

-- `finalized` makes a valid configuration of a valid one.
pub finalized-IsValid : (m : Membership) → IsValid m → IsValid (finalized m)
unfolding finalized
finalized-IsValid m v = record {
  unique = λ x. omega (arith, finalize-named x m.members, v.unique x);
  nonempty = rw ((finalized_lem m).0) v.nonempty;
}
