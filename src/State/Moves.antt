-- ===== src/State/Moves.antt =====
-- The changes that a node may make to its checkpoint, as a step relation.
use hubby.Prelude.{Option, none, some, subst, sym, true, u64_mod, ℕ, ◌+◌, ◌<◌, ◌≡◌, ◌≤◌, ◌⊎◌}
use hubby.State.{State, base, holds_id, install, last, push, truncate}
use hubby.Types.{Entry, NodeId, Snapshot, ok}

module _ {V S : Type 0} where
  -- The metadata with another commit index, term and vote, or vote.
  abbrev pub with_commit : State V S → ℕ → State V S
  with_commit s c = record s { hard = record s.hard { commit = c } }

  abbrev pub with_term : State V S → ℕ → Option NodeId → State V S
  with_term s term vote = record s { hard = record s.hard { term = term; voted_for = vote } }

  abbrev pub with_vote : State V S → NodeId → State V S
  with_vote s id = record s { hard = record s.hard { voted_for = some id } }

  -- An entry that may follow the log, in a term that the node knows.
  pub record Follows (s : State V S) (e : Entry V) : Type 0 where
    pub next : e.id.index ≡ (last s).index + 1
    pub rising : (last s).term ≤ e.id.term
    pub positive : 0 < e.id.term
    pub known : e.id.term ≤ s.hard.term
    pub small : e.id.index < u64_mod

  pub data Move (s t : State V S) : Type 0 where
    -- Commit more of the log.
    commit_up : (c : ℕ) → s.hard.commit < c → c ≤ (last s).index → t ≡ with_commit s c → Move s t
    -- Append an entry.
    extend : (e : Entry V) → Follows s e → push s e ≡ ok t → Move s t
    -- Drop a suffix that is not committed.
    cut : (from : ℕ) → s.hard.commit < from → t ≡ truncate s from → Move s t
    -- Enter a higher term, with a new vote or none.
    new_term :
        (term : ℕ) (vote : Option NodeId)
        → s.hard.term < term
        → t ≡ with_term s term vote
        → Move s t
    -- Vote for the first time in a term.
    cast_vote :
        (id : NodeId) → s.hard.voted_for ≡ none → 0 < s.hard.term → t ≡ with_vote s id → Move s t
    -- Replace a prefix by a snapshot that does not contradict the committed log.
    compacted :
        (snap : Snapshot S)
        → (base s).index < snap.last.index
        → 0 < snap.last.term
        → snap.last.term ≤ s.hard.term
        → snap.last.index < u64_mod
        → ((holds_id s snap.last ≡ true) ⊎ (s.hard.commit < snap.last.index))
        → t ≡ install s snap
        → Move s t

  pub data Moves (s : State V S) : State V S → Type 0 where
    stay : Moves s s
    move : {t u : State V S} → Moves s t → Move t u → Moves s u

  pub Moves-trans : {s t u : State V S} → Moves s t → Moves t u → Moves s u
  Moves-trans a stay = a
  Moves-trans a (move b m) = move (Moves-trans a b) m

  pub Moves-one : {s t : State V S} → Move s t → Moves s t
  Moves-one m = move stay m

  pub Moves-eq : {s t : State V S} → t ≡ s → Moves s t
  Moves-eq {s} e = subst (Moves s) (sym e) stay
