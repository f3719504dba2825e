-- ===== src/Membership/Joint.antt =====
-- Joint consensus: the quorums of `joint` and `finalized` in jarl/src/membership.rs.
use hubby.Prelude.{
  ==_iff, ==_refl, Bool, List, Option, [], any, ap, arith, count, false, if◌then◌else◌, keep,
  length, ltb, map, none, refl, some, somes, suc, true, unwrap_or, ℕ, ◌&&◌, ◌+◌, ◌/◌, ◌<◌, ◌==◌,
  ◌||◌, ◌∙◌, ◌∷◌, ◌≡◌, ◌≤◌,
}
use hubby.Types.{>>=-eq-ok, Error, NodeId, Result, err, map_err, ok, ok_injective, refuse_if-eq-ok}
use hubby.Membership.{
  Member, Membership, as_old, blank, finalize_slot, finalized, flag, ids_where, include,
  include_all, is_joint, joint, learners, majority, occupied, old_voters, quorum, voters,
}
use hubby.Membership.Quorum.{Common, quorum-majority, quorum-overlap}
use hubby.Membership.Tally.{Included, include-Included, named, one, tally}

-- Each identity occupies one slot.
abbrev pub UniqueIds : Membership → Type 0
UniqueIds m = (i : NodeId) → tally (named i) m ≤ 1

abbrev pub old_in : (NodeId → Bool) → Member → Bool
old_in p k = k.old && p k.id

abbrev pub voter_in : (NodeId → Bool) → Member → Bool
voter_in p k = k.voter && p k.id

-- How often an id stands in a list.
abbrev pub times : NodeId → List NodeId → ℕ
times x ids = count (λ y. y == x) ids

pub length-ids_where : (q : Member → Bool) (ms : List Member) → length (ids_where q ms) ≡ count q ms
length-ids_where q [] = refl
length-ids_where q (k ∷ ms) = ground (arith, length-ids_where q ms)

pub keep-ids_where :
    (q : Member → Bool) (p : NodeId → Bool) (ms : List Member)
    → length (keep p (ids_where q ms)) ≡ count (λ k. q k && p k.id) ms
keep-ids_where q p [] = refl
keep-ids_where q p (k ∷ ms) = ground (arith, keep-ids_where q p ms)

times-ids_where :
    (q : Member → Bool) (x : NodeId) (ms : List Member)
    → times x (ids_where q ms) ≤ count (named x) ms
times-ids_where q x [] = omega arith
times-ids_where q x (k ∷ ms) = ground (arith, times-ids_where q x ms)

none_old :
    (q : Member → Bool) (ms : List Member)
    → any (λ k. k.old) ms ≡ false
    → count (λ k. k.old && q k) ms ≡ 0
none_old q [] h = refl
none_old q (k ∷ ms) h = ground (arith, none_old q ms)

some_old : (ms : List Member) → 0 < count (λ k. k.old) ms → any (λ k. k.old) ms ≡ true
some_old [] h = absurd (omega arith)
some_old (k ∷ ms) h = ground (arith, some_old ms)

old_slot :
    (p : NodeId → Bool) (i : NodeId) (o : Option Member)
    → (unwrap_or o (blank i)).id ≡ i
    → one (λ k. k.old && named i k) o ≡ 0
    → one (old_in p) (some (flag as_old (unwrap_or o (blank i))))
      ≡ one (old_in p) o + (if p i then 1 else 0)
old_slot p i none same zeros = omega arith
old_slot p i (some k) same zeros = ground (arith, ap p same, ==_iff k.id i)

voter_slot :
    (p : NodeId → Bool) (i : NodeId) (o : Option Member)
    → one (voter_in p) (some (flag as_old (unwrap_or o (blank i)))) ≡ one (voter_in p) o
voter_slot p i none = refl
voter_slot p i (some k) = refl

-- Each id of the list is included as a previous voter just once.
abbrev Once : List NodeId → Membership → Type 0
Once ids m = (x : NodeId) → times x ids + tally (λ k. k.old && named x k) m ≤ 1

include_old :
    (m m' : Membership) (i : NodeId) (p : NodeId → Bool)
    → tally (λ k. k.old && named i k) m ≡ 0
    → Included m m' i as_old
    → (tally (old_in p) m' ≡ tally (old_in p) m + (if p i then 1 else 0))
      × (tally (voter_in p) m' ≡ tally (voter_in p) m)
include_old m m' i p zeros s = (
  omega (
    arith,
    s.counts (old_in p),
    old_slot p i s.slot s.same_id (omega (arith, s.held (λ k. k.old && named i k))),
  ),
  omega (arith, s.counts (voter_in p), voter_slot p i s.slot),
)

Once-next :
    (i : NodeId) (ids : List NodeId) (m m' : Membership)
    → Once (i ∷ ids) m
    → tally (λ k. k.old && named i k) m ≡ 0
    → Included m m' i as_old
    → Once ids m'
Once-next i ids m m' once zeros s x =
    omega (arith, once x, (include_old m m' i (λ y. y == x) zeros s).0)

include_all-old :
    (ids : List NodeId) (m : Membership) {m' : Membership} (p : NodeId → Bool)
    → Once ids m
    → include_all as_old ids m ≡ ok m'
    → (tally (old_in p) m' ≡ tally (old_in p) m + length (keep p ids))
      × (tally (voter_in p) m' ≡ tally (voter_in p) m)
unfolding include_all
include_all-old [] m p once e = rw (← ok_injective e) (omega arith, refl)
include_all-old (i ∷ ids) m p once e =
    let (m1, e1, rest) = >>=-eq-ok (include m i as_old) _ e in
    let s = include-Included m i as_old e1 in
    let zeros : tally (λ k. k.old && named i k) m ≡ 0 = ground (arith, once i, ==_refl i) in
    let ih = include_all-old ids m1 p (Once-next i ids m m1 once zeros s) rest in
    let here = include_old m m1 i p zeros s in ground (arith, ih, here)

pub map_err-eq-ok {ℓ} :
    {A : Type ℓ} (r : Result A) (e : Error) {a : A} → map_err r e ≡ ok a → r ≡ ok a
map_err-eq-ok (ok b) e h = h
map_err-eq-ok (err b) e h = cc

tally_mono :
    (q : Member → Bool) (x : NodeId) (ms : List Member)
    → count (λ k. q k && named x k) ms ≤ count (named x) ms
tally_mono q x [] = omega arith
tally_mono q x (k ∷ ms) = ground (arith, tally_mono q x ms)

-- What a successful `joint` says of the voting sets.
pub record Joined (c t j : Membership) : Type 0 where
  pub was_stable : is_joint c ≡ false
  pub old_tally : (p : NodeId → Bool) → tally (old_in p) j ≡ length (keep p (voters c))
  pub new_tally : (p : NodeId → Bool) → tally (voter_in p) j ≡ tally (voter_in p) t

pub joint-Joined :
    (c t : Membership) {j : Membership} → UniqueIds c → joint c t ≡ ok j → Joined c t j
unfolding joint is_joint
joint-Joined c t unique e =
    let (stable, e') = refuse_if-eq-ok (is_joint c || is_joint t) _ _ e in
    let all_in = map_err-eq-ok (include_all as_old (voters c) t) Error.full e' in
    let before : any (λ k. k.old) (occupied t) ≡ false = ground arith in
    let once : Once (voters c) t = λ x. omega (
      arith,
      times-ids_where (λ k. k.voter) x (occupied c),
      unique x,
      none_old (named x) (occupied t) before,
    ) in
    let counts = λ (p : NodeId → Bool). include_all-old (voters c) t p once all_in in
    record {
      was_stable = ground arith;
      old_tally = λ p. omega (arith, (counts p).0, none_old (λ k. p k.id) (occupied t) before);
      new_tally = λ p. (counts p).1;
    }

always : NodeId → Bool
always i = true

count-always :
    (q : Member → Bool) (ms : List Member) → count (λ k. q k && always k.id) ms ≡ count q ms
unfolding always
count-always q [] = refl
count-always q (k ∷ ms) = ground (arith, count-always q ms)

keep-always : (ids : List NodeId) → length (keep always ids) ≡ length ids
unfolding always
keep-always [] = refl
keep-always (i ∷ ids) = ap suc (keep-always ids)

-- A majority in terms of the members that are counted.
majority-tally :
    (q : Member → Bool) (p : NodeId → Bool) (m : Membership)
    → majority p (ids_where q (occupied m))
      ≡ ltb (tally (λ k. q k && always k.id) m / 2) (tally (λ k. q k && p k.id) m)
unfolding majority
majority-tally q p m =
    rw (
      length-ids_where q (occupied m),
      keep-ids_where q p (occupied m),
      count-always q (occupied m),
    )

module _ {c t j : Membership} (joined : Joined c t j) where
  new_majority : (p : NodeId → Bool) → majority p (voters j) ≡ majority p (voters t)
  new_majority p = rw (
    majority-tally (λ k. k.voter) p j,
    majority-tally (λ k. k.voter) p t,
    joined.new_tally p,
    joined.new_tally always,
  )

  old_majority : (p : NodeId → Bool) → majority p (old_voters j) ≡ majority p (voters c)
  unfolding majority
  old_majority p =
      majority-tally (λ k. k.old) p j
      ∙ rw (joined.old_tally p, joined.old_tally always, keep-always (voters c))

  joint_is_joint : 0 < length (voters c) → is_joint j ≡ true
  unfolding is_joint
  joint_is_joint h = some_old (occupied j) (
      omega (
        arith,
        joined.old_tally always,
        keep-always (voters c),
        count-always (λ k. k.old) (occupied j),
      ))

stable-quorum :
    (m : Membership) (p : NodeId → Bool) → is_joint m ≡ false → quorum m p ≡ majority p (voters m)
unfolding quorum
stable-quorum m p h = ground arith

joint_target_stable : (c t : Membership) {j : Membership} → joint c t ≡ ok j → is_joint t ≡ false
unfolding joint
joint_target_stable c t e =
    let h = refuse_if-eq-ok (is_joint c || is_joint t) _ _ e in ground (arith, h.0)

-- Where `joint` succeeds from a configuration with unique ids and a voter, the quorums of the
-- joint configuration are exactly the sets that hold a quorum of that configuration and a quorum
-- of the target.
pub quorum-joint :
    (c t j : Membership) (p : NodeId → Bool)
    → UniqueIds c
    → 0 < length (voters c)
    → joint c t ≡ ok j
    → quorum j p ≡ (quorum t p && quorum c p)
unfolding quorum
quorum-joint c t j p unique h e =
    let joined = joint-Joined c t unique e in
    rw
      (
        joint_is_joint joined h,
        new_majority joined p,
        old_majority joined p,
        joined.was_stable,
        joint_target_stable c t e,
      )
      (ground arith)

-- Where `joint` succeeds from a configuration with unique ids and a voter, a quorum of the joint
-- configuration shares a voter with each quorum of the current configuration, and a voter with
-- each quorum of the target.
pub joint-overlap :
    (c t j : Membership) (p q : NodeId → Bool)
    → UniqueIds c
    → 0 < length (voters c)
    → joint c t ≡ ok j
    → quorum j p ≡ true
    → (quorum c q ≡ true → Common p q (voters c)) × (quorum t q ≡ true → Common p q (voters t))
joint-overlap c t j p q unique h e hp =
    let both : (quorum t p ≡ true) × (quorum c p ≡ true) =
      let e' = quorum-joint c t j p unique h e in ground (arith, e') in
    (quorum-overlap c p q both.1, quorum-overlap t p q both.0)

finalize-voters :
    (xs : List (Option Member))
    → ids_where (λ k. k.voter) (somes (map finalize_slot xs)) ≡ ids_where (λ k. k.voter) (somes xs)
finalize-voters [] = refl
finalize-voters (none ∷ xs) = finalize-voters xs
finalize-voters (some k ∷ xs) = ground (arith, finalize-voters xs)

finalize-learners :
    (xs : List (Option Member))
    → ids_where (λ k. k.learner) (somes (map finalize_slot xs))
      ≡ ids_where (λ k. k.learner) (somes xs)
finalize-learners [] = refl
finalize-learners (none ∷ xs) = finalize-learners xs
finalize-learners (some k ∷ xs) = ground (arith, finalize-learners xs)

finalize-none_old :
    (xs : List (Option Member)) → any (λ k. k.old) (somes (map finalize_slot xs)) ≡ false
finalize-none_old [] = refl
finalize-none_old (none ∷ xs) = finalize-none_old xs
finalize-none_old (some k ∷ xs) = ground (arith, finalize-none_old xs)

-- `finalized` keeps the voters and the learners, in order, and leaves a stable configuration.
pub finalized_lem :
    (m : Membership)
    → (voters (finalized m) ≡ voters m)
      × (learners (finalized m) ≡ learners m)
      × (is_joint (finalized m) ≡ false)
unfolding finalized is_joint
finalized_lem m =
    (finalize-voters m.members, finalize-learners m.members, finalize-none_old m.members)

-- A quorum of a configuration is also a quorum of what `finalized` makes of it.
pub quorum-finalized :
    (m : Membership) (p : NodeId → Bool) → quorum m p ≡ true → quorum (finalized m) p ≡ true
quorum-finalized m p h =
    let f = finalized_lem m in rw (stable-quorum (finalized m) p f.2, f.0) (quorum-majority m p h)
