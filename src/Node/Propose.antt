-- ===== src/Node/Propose.antt =====
-- jarl/src/node.rs: proposals and compaction.
use hubby.Prelude.{
  Bool, List, Option, [], checked_add, false, if◌then◌else◌, leb, length, ltb, none, not, some, suc,
  true, ℕ, ◌+◌, ◌-◌, ◌==◌, ◌||◌, ◌∷◌,
}
use hubby.Types.{
  Error, LogId, ProposalRange, Result, err, is_leader, ok, ok_or, refuse_if, ◌>>=◌, ◌>>◌,
}
use hubby.State.{State, base, entries, id_at, install, last, push, truncate}
use hubby.Node.{Node}
use hubby.Node.Timer.{available}
use hubby.Node.Peers.{refresh_membership}
use hubby.Node.Commit.{advance_commit, barrier, broadcast, match_local}

-- How a call ends: with a result, or by unwinding from the application's `Clone`.
pub data Outcome (A : Type 0) : Type 0 where
  returned : Result A → Outcome A
  unwound : Outcome A

-- How the loop over the values ends.
pub data Pushed (V S : Type 0) : Type 0 where
  finished : State V S → Pushed V S
  failed : State V S → Error → Pushed V S
  panicked : State V S → Pushed V S

module _ {V S : Type 0} where
  -- The drop of `BatchRollback`.
  unfoldable pub drop_rollback : Bool → ℕ → State V S → State V S
  drop_rollback done from s = if done then s else truncate s from

  -- The loop over the values, `none` being a value whose construction unwinds.
  unfoldable pub push_values : State V S → LogId → ℕ → List (Option V) → Pushed V S
  push_values s first offset [] = finished s
  push_values s first offset (none ∷ vs) = panicked s
  push_values s first offset (some v ∷ vs) =
      elim (push s (record {
        id = record { index = first.index + offset; term = first.term };
        value = some v;
      })) [ err e ↦ failed s e | ok s' ↦ push_values s' first (suc offset) vs ]

  -- The checks of `propose_many`, and the last index that it will assign.
  unfoldable pub admit_proposals : Node V S → ℕ → Result ℕ
  unfolding available
  admit_proposals n number = do
    available n
    refuse_if (not (is_leader n.role)) (Error.not_leader n.leader)
    refuse_if (number == 0) Error.config
    refuse_if (ltb (length n.state.slots - length (entries n.state)) number) Error.full
    ok_or (checked_add (last n.state).index number) Error.exhausted

  abbrev pub first_proposed : Node V S → LogId
  first_proposed n = record { index = (last n.state).index + 1; term = n.state.hard.term }

  -- What follows the loop when it has finished.
  unfoldable pub accept_proposals : Node V S → State V S → LogId → ℕ → Node V S
  accept_proposals n s first last_index =
      broadcast
        (advance_commit (
          match_local
            (refresh_membership (record n { state = s; dirty = true; log_from = some first.index }))
            last_index)).0

  -- The end of the loop: the result, or the drop of `BatchRollback` on the way out.
  unfoldable pub settle : Node V S → ℕ → Pushed V S → Node V S × Outcome ProposalRange
  unfolding drop_rollback accept_proposals
  settle n last_index (finished s) =
      let first = first_proposed n in
      (
        accept_proposals n (drop_rollback true first.index s) first last_index,
        returned (
            ok (record { first = first; last = record { index = last_index; term = first.term } })),
      )
  settle n last_index (failed s e) =
      (record n { state = drop_rollback false (first_proposed n).index s }, returned (err e))
  settle n last_index (panicked s) =
      (record n { state = drop_rollback false (first_proposed n).index s }, unwound)

  unfoldable pub propose_admitted :
      Node V S → ℕ → List (Option V) → Node V S × Outcome ProposalRange
  unfolding push_values settle
  propose_admitted n last_index values =
      settle n last_index (push_values n.state (first_proposed n) 0 values)

  -- `number` is the announced length of `values`.
  unfoldable pub propose_many : Node V S → ℕ → List (Option V) → Node V S × Outcome ProposalRange
  unfolding admit_proposals propose_admitted
  propose_many n number values = elim (admit_proposals n number) [
    | err e ↦ (n, returned (err e))
    | ok last_index ↦ propose_admitted n last_index values
  ]

  unfoldable pub propose : Node V S → Option V → Node V S × Outcome LogId
  unfolding propose_many
  propose n value =
      let (n', outcome) = propose_many n 1 (value ∷ []) in
      (
        n',
        elim outcome [ unwound ↦ unwound | returned r ↦ returned (r >>= λ range. ok range.first) ],
      )

  unfoldable pub propose_batch : Node V S → List (Option V) → Node V S × Outcome ProposalRange
  unfolding propose_many
  propose_batch n values = propose_many n (length values) values

  -- The checks of `compact_with`, and the boundary that it will set.
  unfoldable pub admit_compaction : Node V S → ℕ → Result LogId
  unfolding available
  admit_compaction n index = do
    available n
    refuse_if (leb index (base n.state).index || ltb n.state.hard.commit index) Error.not_committed
    ok_or (id_at n.state index) Error.not_committed

  unfoldable pub compact_to : Node V S → LogId → S → Node V S
  compact_to n l value =
      let c = record n {
        state = install n.state (record { last = l; value = value });
        dirty = true;
        snapshot_changed = true;
      } in
      if is_leader n.role then broadcast (barrier c) else c

  unfoldable pub compact : Node V S → ℕ → S → Node V S × Result (Unit {0})
  unfolding admit_compaction compact_to
  compact n index value = elim (admit_compaction n index) [
    | err e ↦ (n, err e)
    | ok l ↦ (compact_to n l value, ok tt)
  ]
