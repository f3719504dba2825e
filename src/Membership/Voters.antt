-- ===== src/Membership/Voters.antt =====
-- The voters listed to a constructor of jarl/src/membership.rs are voters of the result.
use hubby.Prelude.{
  ==_iff, Bool, Bool-cases, List, Option, [], any, arith, count, inl, inr, none, some, subst, true,
  unwrap_or, ℕ, ◌&&◌, ◌<◌, ◌==◌, ◌||◌, ◌∷◌, ◌≡◌, ◌≤◌,
}
use hubby.Types.{>>=-eq-ok, NodeId, ok, ok_injective, refuse_if-eq-ok}
use hubby.Membership.{
  Kind, Member, Membership, as_learner, as_old, as_voter, blank, contains_id, empty, flag, include,
  include_set, is_empty, is_voter, occupied, restore,
}
use hubby.Membership.Tally.{include-Included, one, tally}

abbrev votes_as : NodeId → Member → Bool
votes_as i k = k.id == i && (k.voter || k.old)

voting_slot_of :
    (kind : Kind) (i j : NodeId) (o : Option Member)
    → one (votes_as i) o ≤ one (votes_as i) (some (flag kind (unwrap_or o (blank j))))
voting_slot_of kind i j none = omega arith
voting_slot_of as_voter i j (some k) = ground arith
voting_slot_of as_learner i j (some k) = omega arith
voting_slot_of as_old i j (some k) = ground arith

include-voting :
    (m : Membership) (i j : NodeId) (kind : Kind) {m' : Membership}
    → include m j kind ≡ ok m'
    → tally (votes_as i) m ≤ tally (votes_as i) m'
include-voting m i j kind e =
    let s = include-Included m j kind e in
    omega (arith, s.counts (votes_as i), voting_slot_of kind i j s.slot)

flagged_voter : (i : NodeId) (k : Member) → k.id ≡ i → one (votes_as i) (some (flag as_voter k)) ≡ 1
flagged_voter i k e = ground (arith, (==_iff k.id i).1 e)

include-voter_of :
    (m : Membership) (i : NodeId) {m' : Membership}
    → include m i as_voter ≡ ok m'
    → 0 < tally (votes_as i) m'
include-voter_of m i e =
    let s = include-Included m i as_voter e in
    let one_more : one (votes_as i) (some (flag as_voter (unwrap_or s.slot (blank i)))) ≡ 1 =
      flagged_voter i (unwrap_or s.slot (blank i)) s.same_id in
    let c = s.counts (votes_as i) in let l = s.held (votes_as i) in omega (arith, one_more, c, l)

include_set-voting :
    (kind : Kind) (barred before ids : List NodeId) (i : NodeId) (m : Membership) {m' : Membership}
    → include_set kind barred before ids m ≡ ok m'
    → tally (votes_as i) m ≤ tally (votes_as i) m'
unfolding include_set
include_set-voting kind barred before [] i m e = rw (← ok_injective e) (omega arith)
include_set-voting kind barred before (j ∷ ids) i m {m'} e =
    let (_, e0) = refuse_if-eq-ok (contains_id before j || contains_id barred j) _ _ e in
    let (m1, e1, rest) = >>=-eq-ok (include m j kind) _ e0 in
    omega (
      arith,
      include-voting m i j kind e1,
      include_set-voting kind barred (j ∷ before) ids i m1 rest,
    )

include_set-voter :
    (before ids : List NodeId) (i : NodeId) (m : Membership) {m' : Membership}
    → contains_id ids i ≡ true
    → include_set as_voter [] before ids m ≡ ok m'
    → 0 < tally (votes_as i) m'
unfolding include_set
include_set-voter before [] i m h e = cc (h)
include_set-voter before (j ∷ ids) i m {m'} h e =
    let (_, e0) = refuse_if-eq-ok (contains_id before j || contains_id [] j) _ _ e in
    let (m1, e1, rest) = >>=-eq-ok (include m j as_voter) _ e0 in
    elim (Bool-cases (j == i)) [
      | inl same ↦
          let at : j ≡ i = (==_iff j i).0 same in
          let held : 0 < tally (votes_as i) m1 =
            subst (λ x. 0 < tally (votes_as x) m1) at (include-voter_of m j e1) in
          omega (arith, held, include_set-voting as_voter [] (j ∷ before) ids i m1 rest)
      | inr other ↦ include_set-voter (j ∷ before) ids i m1 (ground (arith, h, other)) rest
    ]

any-count : (p : Member → Bool) (ks : List Member) → 0 < count p ks → any p ks ≡ true
any-count p [] h = absurd (omega arith)
any-count p (k ∷ ks) h = ground (arith, h, any-count p ks)

-- Each voter listed to `restore` is a voter of the configuration.
pub restore-voter :
    (capacity : ℕ) (vs olds ls : List NodeId) (i : NodeId) {m : Membership}
    → contains_id vs i ≡ true
    → restore capacity vs olds ls ≡ ok m
    → is_voter m i ≡ true
unfolding restore is_voter
restore-voter capacity vs olds ls i {m} h e =
    let (_, e0) = refuse_if-eq-ok (is_empty vs) _ _ e in
    let (m1, e1, e2) = >>=-eq-ok (include_set as_voter [] [] vs (empty capacity)) _ e0 in
    let (m2, e3, e4) = >>=-eq-ok (include_set as_learner vs [] ls m1) _ e2 in
    any-count (votes_as i) (occupied m) (
      omega (
        arith,
        include_set-voter [] vs i _ h e1,
        include_set-voting as_learner vs [] ls i m1 e3,
        include_set-voting as_old [] [] olds i m2 e4,
      ))
