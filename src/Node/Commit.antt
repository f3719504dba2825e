-- ===== src/Node/Commit.antt =====
-- jarl/src/node.rs: queueing messages, and advancing the commit index.
use hubby.Membership
use hubby.Prelude.{
  Bool, Option, checked_add, false, get_or, if◌then◌else◌, is_some_and, ltb, map_option, map_or,
  none, not, set, some, suc, true, zero, ℕ, ◌&&◌, ◌==◌, ◌||◌,
}
use hubby.Types.{Entry, NodeId, Rejection, err, ok}
use hubby.State.{full, id_at, last, push}
use hubby.Node.{Node, Outbound, width}
use hubby.Node.Peers.{matched_of, refresh_membership}

module _ {V S : Type 0} where
  -- A sender that is no peer has the index `N`, and is answered through `extra_reply`.
  unfoldable pub send : Node V S → ℕ → Outbound → Node V S
  send n peer out =
      if peer == width n
      then record n { extra_reply = map_or n.request_from n.extra_reply (λ from. some (from, out)) }
      else record n { outbox = set n.outbox peer (some out) }

  unfoldable pub replicate_to : Node V S → ℕ → Node V S
  unfolding send
  replicate_to n peer = send n peer Outbound.replicate

  unfoldable pub reply : Node V S → ℕ → ℕ → Option Rejection → Node V S
  unfolding send
  reply n peer index rejection = send n peer (Outbound.replicated index rejection)

  -- Whether the loops over `0..N` send to this peer.
  abbrev pub is_recipient : Node V S → (Membership.Membership → NodeId → Bool) → ℕ → Bool
  is_recipient n among peer =
      not (peer == n.local) && is_some_and (get_or n.peers peer none) (λ i. among n.membership i)

  -- `for peer in 0..N`, with `left` rounds to go from `peer`.
  unfoldable pub send_each :
      ℕ → ℕ → (Membership.Membership → NodeId → Bool) → Outbound → Node V S → Node V S
  unfolding send
  send_each zero peer among out n = n
  send_each (suc left) peer among out n =
      send_each left (suc peer) among out (if is_recipient n among peer then send n peer out else n)

  unfoldable pub broadcast : Node V S → Node V S
  unfolding send_each
  broadcast n = send_each (width n) 0 Membership.contains Outbound.replicate n

  unfoldable pub commit_to : Node V S → ℕ → Node V S
  commit_to n index =
      if ltb n.state.hard.commit index
      then refresh_membership (record n {
        state = record n.state { hard = record n.state.hard { commit = index } };
        dirty = true;
      })
      else n

  -- Whether an index is committed by a quorum: new, and of the leader's own term.
  abbrev pub commits : Node V S → ℕ → Bool
  commits n index =
      ltb n.state.hard.commit index
      && is_some_and (id_at n.state index) (λ id. id.term == n.state.hard.term)

  unfoldable pub advance_commit : Node V S → Node V S × Bool
  unfolding commit_to
  advance_commit n =
      let index = Membership.quorum_index n.membership (matched_of n) in
      if commits n index then (commit_to n index, true) else (n, false)

  -- `if self.local < N { self.matched[self.local] = index; }`
  abbrev pub match_local : Node V S → ℕ → Node V S
  match_local n index = record n {
    matched = if ltb n.local (width n) then set n.matched n.local index else n.matched;
  }

  -- The entry that `barrier` appends, if any.
  abbrev pub barrier_entry : Node V S → Option (Entry V)
  barrier_entry n =
      if (last n.state).term == n.state.hard.term || full n.state
      then none
      else map_option (checked_add (last n.state).index 1)
          (λ i. record { id = record { index = i; term = n.state.hard.term }; value = none })

  unfoldable pub barrier : Node V S → Node V S
  unfolding advance_commit
  barrier n = elim (barrier_entry n) [
    | none ↦ n
    | some e ↦ elim (push n.state e) [
      | err _ ↦ n
      | ok s ↦
          (advance_commit (
            match_local (record n { state = s; dirty = true; log_from = some e.id.index })
              e.id.index)).0
    ]
  ]
