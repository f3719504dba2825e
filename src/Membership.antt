-- ===== src/Membership.antt =====
-- jarl/src/membership.rs: configurations of voters, previous voters and learners, and their quorums.
-- The array `members: [Option<Member>; MAX]` is a list whose length is `MAX`.
pub mod Tally
pub mod Quorum
pub mod Joint
pub mod Valid
pub mod QuorumIndex
pub mod Voters
pub mod Tests
use hubby.Prelude.{
  ℕ, zero, suc, ◌+◌, ◌-◌, ◌/◌, min, ◌≡◌, Bool, true, false, not, ◌&&◌, ◌||◌, Option, none, some,
  List, [], ◌∷◌, map, ◌==◌, ltb, leb, if◌then◌else◌, is_some_and, is_some, unwrap_or, or_else,
  map_option, get_or, set, replicate, somes, position, any, all, keep, length, take,
}
use hubby.Types.{NodeId, Error, Result, ok, err, ok_or, map_err, refuse_if, ◌>>=◌, ◌>>◌}

pub record Member : Type 0 where
  pub id : NodeId
  pub voter : Bool
  pub old : Bool
  pub learner : Bool

pub record Membership : Type 0 where
  pub members : List (Option Member)

abbrev bool_eq : Bool → Bool → Bool
bool_eq true b = b
bool_eq false b = not b

-- `#[derive(PartialEq)]` of `Member`.
abbrev pub member_eq : Member → Member → Bool
member_eq a b =
    a.id == b.id && bool_eq a.voter b.voter && bool_eq a.old b.old && bool_eq a.learner b.learner

-- `self.members.iter().flatten()`.
abbrev pub occupied : Membership → List Member
occupied m = somes m.members

-- The `PartialEq` of `Membership`.
unfoldable pub eq : Membership → Membership → Bool
eq a b =
    length (occupied a) == length (occupied b)
    && all (λ m. any (λ o. member_eq o m) (occupied b)) (occupied a)

-- The `kind` argument of `include`: 0, 1, and any other.
pub data Kind : Type 0 where
  as_voter as_learner as_old : Kind

abbrev pub flag : Kind → Member → Member
flag as_voter m = record m { voter = true }
flag as_learner m = record m { learner = true }
flag as_old m = record m { old = true }

abbrev pub blank : NodeId → Member
blank i = record { id = i; voter = false; old = false; learner = false }

abbrev pub has_id : NodeId → Option Member → Bool
has_id i o = is_some_and o (λ m. m.id == i)

abbrev pub vacant : Option Member → Bool
vacant o = not (is_some o)

abbrev include_slot : Membership → NodeId → Option ℕ
include_slot m i = or_else (position (has_id i) m.members) (position vacant m.members)

unfoldable pub include : Membership → NodeId → Kind → Result Membership
include m i kind = do
  slot ← ok_or (include_slot m i) Error.config
  let member = unwrap_or (get_or m.members slot none) (blank i)
  ok (record { members = set m.members slot (some (flag kind member)) })

abbrev pub contains_id : List NodeId → NodeId → Bool
contains_id ids i = any (λ j. j == i) ids

-- One of the three loops of `restore`; `before` is `set[..i]`, and `barred` holds the voters when
-- learners are included, and nothing otherwise.
unfoldable pub include_set :
    Kind → List NodeId → List NodeId → List NodeId → Membership → Result Membership
include_set kind barred before [] m = ok m
include_set kind barred before (i ∷ ids) m = do
  refuse_if (contains_id before i || contains_id barred i) Error.config
  m' ← include m i kind
  include_set kind barred (i ∷ before) ids m'

abbrev pub empty : ℕ → Membership
empty max = record { members = replicate max none }

abbrev pub is_empty : List NodeId → Bool
is_empty [] = true
is_empty (x ∷ xs) = false

unfoldable pub restore : ℕ → List NodeId → List NodeId → List NodeId → Result Membership
unfolding include_set include
restore max voters old_voters learners = do
  refuse_if (is_empty voters) Error.config
  m ← include_set as_voter [] [] voters (empty max)
  m' ← include_set as_learner voters [] learners m
  include_set as_old [] [] old_voters m'

unfoldable pub new : ℕ → List NodeId → List NodeId → Result Membership
unfolding restore
new max voters learners = restore max voters [] learners

abbrev pub ids_where : (Member → Bool) → List Member → List NodeId
ids_where p ms = map (λ m. m.id) (keep p ms)

abbrev pub voters : Membership → List NodeId
voters m = ids_where (λ k. k.voter) (occupied m)

abbrev pub old_voters : Membership → List NodeId
old_voters m = ids_where (λ k. k.old) (occupied m)

abbrev pub learners : Membership → List NodeId
learners m = ids_where (λ k. k.learner) (occupied m)

unfoldable pub is_joint : Membership → Bool
is_joint m = any (λ k. k.old) (occupied m)

unfoldable pub is_voter : Membership → NodeId → Bool
is_voter m i = any (λ k. k.id == i && (k.voter || k.old)) (occupied m)

unfoldable pub contains : Membership → NodeId → Bool
contains m i = any (λ k. k.id == i) (occupied m)

unfoldable pub peers : Membership → List (Option NodeId)
peers m = map (λ o. map_option o (λ k. k.id)) m.members

-- `for id in ids { next.include(id, kind)?; }`
unfoldable pub include_all : Kind → List NodeId → Membership → Result Membership
include_all kind [] m = ok m
include_all kind (i ∷ ids) m = do m' ← include m i kind; include_all kind ids m'

-- The loop over the learners in `with_learners`, with `learners[..i]` in `before`.
unfoldable pub include_learners :
    Membership → List NodeId → List NodeId → Membership → Result Membership
include_learners current before [] m = ok m
include_learners current before (i ∷ ids) m = do
  refuse_if (is_voter current i || contains_id before i) Error.config
  m' ← include m i as_learner
  include_learners current (i ∷ before) ids m'

unfoldable pub with_learners : Membership → List NodeId → Result Membership
unfolding include_all include_learners include is_voter
with_learners m ids = do
  base ← include_all as_voter (voters m) (empty (length m.members))
  include_learners m [] ids base

unfoldable pub joint : Membership → Membership → Result Membership
joint m target = do
  refuse_if (is_joint m || is_joint target) Error.reconfiguring
  map_err (include_all as_old (voters m) target) Error.full

abbrev pub finalize_slot : Option Member → Option Member
finalize_slot none = none
finalize_slot (some k) =
    if not k.voter && not k.learner then none else some (record k { old = false })

unfoldable pub finalized : Membership → Membership
finalized m = record { members = map finalize_slot m.members }

-- `sort_unstable`, on numbers.
unfoldable pub insert_sorted : ℕ → List ℕ → List ℕ
insert_sorted x [] = x ∷ []
insert_sorted x (y ∷ ys) = let rest = insert_sorted x ys in if leb x y then x ∷ y ∷ ys else y ∷ rest

unfoldable pub sort : List ℕ → List ℕ
unfolding insert_sorted
sort [] = []
sort (x ∷ xs) = insert_sorted x (sort xs)

-- `positions[count - (count / 2 + 1)]` after sorting. With no position the subtraction underflows
-- in Rust, which panics; here it reads 0.
unfoldable pub median : List ℕ → ℕ
unfolding sort
median ps = let n = length ps in get_or (sort ps) (n - (n / 2 + 1)) 0

unfoldable pub quorum_index : Membership → (NodeId → ℕ) → ℕ
unfolding median is_joint
quorum_index m matched =
    if not (is_joint m)
    then median (map matched (voters m))
    else min (median (map matched (voters m))) (median (map matched (old_voters m)))

-- The closure `majority` of `quorum`, over the ids of one voting set.
unfoldable pub majority : (NodeId → Bool) → List NodeId → Bool
majority acknowledged ids = ltb (length ids / 2) (length (keep acknowledged ids))

unfoldable pub quorum : Membership → (NodeId → Bool) → Bool
unfolding majority is_joint
quorum m acknowledged =
    majority acknowledged (voters m) && (not (is_joint m) || majority acknowledged (old_voters m))
