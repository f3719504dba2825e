-- ===== src/Membership/Tests.antt =====
-- jarl/src/membership.rs on a change from the voters 1, 2 and 3 to 3, 4 and 5.
use hubby.Prelude.{
  Bool, Option, [], arith, false, if◌then◌else◌, leb, none, refl, some, true, ℕ, ◌&&◌, ◌+◌, ◌==◌,
  ◌||◌, ◌∷◌, ◌≡◌,
}
use hubby.Types.{NodeId, ok}
use hubby.Membership.{
  Member, Membership, finalized, include, include_all, include_learners, include_set, insert_sorted,
  is_joint, is_voter, joint, learners, majority, median, new, quorum, quorum_index, restore, sort,
  voters, with_learners,
}
use hubby.Membership.Quorum.{Common, quorum-overlap}
use hubby.Membership.Joint.{finalized_lem, joint-overlap, quorum-finalized, quorum-joint}
use hubby.Membership.QuorumIndex.{quorum_index-quorum}
use hubby.Membership.Valid.{
  IsValid, finalized-IsValid, joint-IsValid, restore-IsValid, with_learners-IsValid,
}

abbrev of_voter : NodeId → Option Member
of_voter i = some (record { id = i; voter = true; old = false; learner = false })

abbrev of_old : NodeId → Option Member
of_old i = some (record { id = i; voter = false; old = true; learner = false })

abbrev of_learner : NodeId → Option Member
of_learner i = some (record { id = i; voter = false; old = false; learner = true })

abbrev current : Membership
current = record { members = of_voter 1 ∷ of_voter 2 ∷ of_voter 3 ∷ none ∷ none ∷ none ∷ [] }

abbrev target : Membership
target = record { members = of_voter 3 ∷ of_voter 4 ∷ of_voter 5 ∷ none ∷ none ∷ none ∷ [] }

abbrev both : Membership
both = record {
  members =
      some (record { id = 3; voter = true; old = true; learner = false })
      ∷ of_voter 4
      ∷ of_voter 5
      ∷ of_old 1
      ∷ of_old 2
      ∷ none
      ∷ [];
}

abbrev learning : Membership
learning = record {
  members = of_voter 1 ∷ of_voter 2 ∷ of_voter 3 ∷ of_learner 7 ∷ none ∷ none ∷ [];
}

-- The nodes 2, 3 and 4, and the nodes 1, 3 and 5.
abbrev first_set : NodeId → Bool
first_set i = i == 2 || i == 3 || i == 4

abbrev second_set : NodeId → Bool
second_set i = i == 1 || i == 3 || i == 5

-- The positions that the nodes have matched.
abbrev reached : NodeId → ℕ
reached i = if i == 2 then 0 else i + 4

joint_test : joint current target ≡ ok both
unfolding joint include_all include is_joint
joint_test = refl

new_test : new 6 (1 ∷ 2 ∷ 3 ∷ []) [] ≡ ok current
unfolding new restore include_set include
new_test = refl

target_test : new 6 (3 ∷ 4 ∷ 5 ∷ []) [] ≡ ok target
unfolding new restore include_set include
target_test = refl

restored_test : restore 6 (3 ∷ 4 ∷ 5 ∷ []) (1 ∷ 2 ∷ 3 ∷ []) [] ≡ ok both
unfolding restore include_set include
restored_test = refl

learning_test : with_learners current (7 ∷ []) ≡ ok learning
unfolding with_learners include_all include_learners include is_voter
learning_test = refl

position_test : (quorum_index current reached ≡ 5) × (quorum_index both reached ≡ 5)
unfolding quorum_index median sort insert_sorted is_joint
position_test = (refl, refl)

sets_test :
    (quorum both first_set ≡ true)
    × (quorum both second_set ≡ true)
    × (quorum current second_set ≡ true)
    × (quorum both (λ i. i == 3 || i == 4) ≡ false)
unfolding quorum majority is_joint
sets_test = (refl, refl, refl, refl)

new_accepts : restore 6 (1 ∷ 2 ∷ 3 ∷ []) [] [] ≡ ok current
unfolding restore include_set include
new_accepts = refl

current-IsValid : IsValid current
current-IsValid = restore-IsValid 6 (1 ∷ 2 ∷ 3 ∷ []) [] [] new_accepts

target_accepts : restore 6 (3 ∷ 4 ∷ 5 ∷ []) [] [] ≡ ok target
unfolding restore include_set include
target_accepts = refl

target-IsValid : IsValid target
target-IsValid = restore-IsValid 6 (3 ∷ 4 ∷ 5 ∷ []) [] [] target_accepts

both-IsValid : IsValid both
both-IsValid = restore-IsValid 6 (3 ∷ 4 ∷ 5 ∷ []) (1 ∷ 2 ∷ 3 ∷ []) [] restored_test

quorum-overlap_example : Common first_set second_set (voters both)
quorum-overlap_example = quorum-overlap both first_set second_set sets_test.0 sets_test.1

quorum-joint_example : quorum both first_set ≡ (quorum target first_set && quorum current first_set)
quorum-joint_example =
    quorum-joint current target both first_set current-IsValid.unique current-IsValid.nonempty
      joint_test

joint-overlap_example :
    (quorum current second_set ≡ true → Common first_set second_set (voters current))
    × (quorum target second_set ≡ true → Common first_set second_set (voters target))
joint-overlap_example =
    joint-overlap current target both first_set second_set current-IsValid.unique
      current-IsValid.nonempty joint_test sets_test.0

finalized_example :
    (voters (finalized both) ≡ voters both)
    × (learners (finalized both) ≡ learners both)
    × (is_joint (finalized both) ≡ false)
finalized_example = finalized_lem both

quorum-finalized_example : quorum (finalized both) first_set ≡ true
quorum-finalized_example = quorum-finalized both first_set sets_test.0

quorum_index_example : leb 5 (quorum_index both reached) ≡ quorum both (λ i. leb 5 (reached i))
quorum_index_example = quorum_index-quorum both reached 5 (omega arith)

restore-IsValid_example : IsValid both
restore-IsValid_example = restore-IsValid 6 (3 ∷ 4 ∷ 5 ∷ []) (1 ∷ 2 ∷ 3 ∷ []) [] restored_test

with_learners-IsValid_example : IsValid learning
with_learners-IsValid_example = with_learners-IsValid current (7 ∷ []) current-IsValid learning_test

joint-IsValid_example : IsValid both
joint-IsValid_example = joint-IsValid current target target-IsValid joint_test

finalized-IsValid_example : IsValid (finalized both)
finalized-IsValid_example = finalized-IsValid both both-IsValid
