-- ===== src/Node/Replication.antt =====
-- jarl/src/node.rs: a follower's append, and a leader's view of the replies.
use hubby.Prelude.{
  Bool, List, Option, [], checked_add, get_or, if◌then◌else◌, is_some_and, leb, ltb, map_or, max,
  min, none, position, saturating_add, set, some, true, ℕ, ◌&&◌, ◌==◌, ◌∷◌,
}
use hubby.Types.{Entry, LogId, Rejection, Result, err, ok}
use hubby.State.{State, base, full, holds_id, last, push, truncate}
use hubby.Node.{Node}
use hubby.Node.Peers.{refresh_membership}
use hubby.Node.Commit.{advance_commit, broadcast, commit_to, replicate_to}

-- `(index, rejection)`, as a reply carries them.
abbrev pub Response : Type 0
Response = ℕ × Option Rejection

abbrev pub lower_from : Option ℕ → ℕ → Option ℕ
lower_from from index = some (map_or from index (λ f. min f index))

abbrev pub clamp : ℕ → ℕ → ℕ → ℕ
clamp x lo hi = if ltb x lo then lo else if ltb hi x then hi else x

module _ {V S : Type 0} where
  -- The retry position of a follower whose log does not match the predecessor.
  unfoldable pub retry_at : State V S → LogId → ℕ
  retry_at s previous =
      if ltb previous.index (base s).index
      then saturating_add (base s).index 1
      else max (min previous.index (saturating_add (last s).index 1)) 1

  -- The log after the suffix from the entry on is replaced by it.
  abbrev pub replace_suffix : State V S → Entry V → Result (State V S)
  replace_suffix s e = push (truncate s e.id.index) e

  -- `append` for an entry whose predecessor matches and which the log does not hold.
  unfoldable pub append_new : Node V S → LogId → Entry V → ℕ → Node V S × Response
  append_new n previous e commit =
      if leb e.id.index n.state.hard.commit
      then (n, (previous.index, some (Rejection.conflict e.id.index)))
      else if full n.state && ltb (last n.state).index e.id.index
      then (commit_to n (min commit previous.index), (previous.index, some Rejection.full))
      else elim (replace_suffix n.state e) [
        | err _ ↦ (
          record n { state = truncate n.state e.id.index },
          (previous.index, some Rejection.full),
        )
        | ok s ↦
            let r = refresh_membership (record n { state = s }) in
            (
              commit_to (record r { dirty = true; log_from = lower_from r.log_from e.id.index })
                  (min commit e.id.index),
              (e.id.index, none),
            )
      ]

  unfoldable pub append : Node V S → LogId → Option (Entry V) → ℕ → Node V S × Response
  unfolding append_new retry_at
  append n previous entry commit =
      if holds_id n.state previous
      then (elim entry [
        | none ↦ (commit_to n (min commit previous.index), (previous.index, none))
        | some e ↦
            if holds_id n.state e.id
            then (commit_to n (min commit e.id.index), (e.id.index, none))
            else append_new n previous e commit
      ])
      else (n, (previous.index, some (Rejection.conflict (retry_at n.state previous))))

  -- The loop over a batch: `previous`, `accepted` and `response` are its variables.
  unfoldable pub append_each :
      Node V S → LogId → Bool → Response → List (Entry V) → ℕ → Node V S × Response
  unfolding append
  append_each n previous accepted response [] commit = (n, response)
  append_each n previous accepted response (e ∷ es) commit =
      let (n', (index, rejection)) = append n previous (some e) commit in
      elim rejection [
        | some r ↦ (n', if accepted then response else (index, some r))
        | none ↦ append_each n' e.id true (index, none) es commit
      ]

  -- A success beyond what the peer had acknowledged.
  unfoldable pub acknowledged : Node V S → ℕ → ℕ → Node V S
  acknowledged n peer index =
      let m = record n {
        matched = set n.matched peer index;
        next = set n.next peer (max (get_or n.next peer 0) (saturating_add index 1));
      } in
      let (c, advanced) = advance_commit m in
      if advanced
      then broadcast c
      else if ltb index (last c.state).index
      then replicate_to c peer
      else c

  -- A conflict at the position that was tried last.
  unfoldable pub backed_off : Node V S → ℕ → ℕ → Node V S
  backed_off n peer position =
      replicate_to
        (record n {
          next = set n.next peer (
              clamp position (saturating_add (get_or n.matched peer 0) 1)
                (saturating_add (last n.state).index 1));
        })
        peer

  abbrev pub is_current : Node V S → ℕ → ℕ → Bool
  is_current n peer index =
      leb (get_or n.matched peer 0) index
      && is_some_and (checked_add index 1) (λ i. i == get_or n.next peer 0)

  unfoldable pub note_reply : Node V S → ℕ → ℕ → Option Rejection → Node V S
  unfolding acknowledged backed_off
  note_reply n peer index none =
      if leb index (get_or n.matched peer 0) then n else acknowledged n peer index
  note_reply n peer index (some (Rejection.conflict position)) =
      if is_current n peer index then backed_off n peer position else n
  note_reply n peer index (some Rejection.full) = n

  -- `fn replicated`.
  unfoldable pub on_replicated : Node V S → ℕ → ℕ → Option Rejection → Node V S
  unfolding note_reply
  on_replicated n peer index rejection =
      let a = record n { active = set n.active peer true } in
      if ltb (last n.state).index index then a else note_reply a peer index rejection
