-- ===== src/Node/Outbox.antt =====
-- jarl/src/node.rs and jarl/src/ready.rs: what a node hands to its host.
use hubby.Membership
use hubby.Prelude.{
  List, Option, [], and_then, checked_add, false, from_fn, get_or, if◌then◌else◌, is_some, leb,
  length, map_option, none, not, position, set, some, somes, suc, take_while, ℕ, ◌&&◌, ◌+◌, ◌-◌,
  ◌==◌, ◌∷◌,
}
use hubby.Types.{
  Entry, Envelope, NodeId, Message, PeerProgress, Snapshot, Status, is_leader, max_append_entries,
}
use hubby.State.{State, Write, base, entries, get, id_at, last, write}
use hubby.Node.{Node, Outbound}

module _ {V S : Type 0} where
  -- `entries: from_fn(|offset| next.checked_add(offset).and_then(|index| state.get(index)))`.
  abbrev pub batch_at : State V S → ℕ → List (Option (Entry V))
  batch_at s index =
      from_fn max_append_entries (λ offset. and_then (checked_add index offset) (get s))

  -- The message that replicates to a peer whose next position is given.
  unfoldable pub replication : Node V S → ℕ → Option (Message V S)
  replication n index =
      if leb index (base n.state).index
      then map_option n.state.snapshot (λ s. Message.install n.state.hard.term s)
      else if is_some n.hooks && is_some (and_then (checked_add index 1) (get n.state))
      then map_option (id_at n.state (index - 1)) (λ previous.
        Message.append_batch n.state.hard.term previous (batch_at n.state index)
          n.state.hard.commit)
      else map_option (id_at n.state (index - 1)) (λ previous.
        Message.append n.state.hard.term previous (get n.state index) n.state.hard.commit)

  unfoldable pub message_of : Node V S → ℕ → Outbound → Option (Message V S)
  unfolding replication
  message_of n index (Outbound.pre_vote campaign) = some (Message.pre_vote campaign (last n.state))
  message_of n index (Outbound.pre_voted campaign granted) =
      some (Message.pre_voted n.state.hard.term campaign granted)
  message_of n index Outbound.vote = some (Message.vote n.state.hard.term (last n.state))
  message_of n index (Outbound.voted granted) = some (Message.voted n.state.hard.term granted)
  message_of n index (Outbound.replicated i rejection) =
      some (Message.replicated n.state.hard.term i rejection)
  message_of n index Outbound.replicate = replication n index

  abbrev pub envelope_to : Node V S → NodeId → Message V S → Envelope V S
  envelope_to n to m = record { from = n.config.id; to = to; message = m }

  -- The slot `peer` holds `out`: it is taken if the slot has a peer.
  unfoldable pub take_slot : Node V S → ℕ → Outbound → Node V S × Option (Envelope V S)
  unfolding message_of
  take_slot n peer out = elim (get_or n.peers peer none) [
    | none ↦ (n, none)
    | some to ↦ (
      record n { outbox = set n.outbox peer none },
      map_option (message_of n (get_or n.next peer 0) out) (envelope_to n to),
    )
  ]

  -- The answer to a sender that is no peer. Only replies are stored there, so the position is unused.
  unfoldable pub take_extra : Node V S → Node V S × Option (Envelope V S)
  unfolding message_of
  take_extra n = elim n.extra_reply [
    | none ↦ (n, none)
    | some (to, out) ↦
        (record n { extra_reply = none }, map_option (message_of n 0 out) (envelope_to n to))
  ]

  unfoldable pub next_message : Node V S → Node V S × Option (Envelope V S)
  unfolding take_slot take_extra
  next_message n = if n.dirty then (n, none) else elim (position (λ o. is_some o) n.outbox) [
    | none ↦ take_extra n
    | some peer ↦ elim (get_or n.outbox peer none) [
      | none ↦ (n, none)
      | some out ↦ take_slot n peer out
    ]
  ]

  -- `ready` and `Ready::write`: the pending transaction.
  unfoldable pub ready : Node V S → Option (Write V S)
  ready n = if n.dirty then some (write n.state n.log_from n.snapshot_changed) else none

  -- `Ready::persisted`.
  unfoldable pub persisted : Node V S → Node V S
  persisted n = record n { dirty = false; log_from = none; snapshot_changed = false }

  unfoldable pub committed : Node V S → List (Entry V)
  committed n =
      take_while (λ e. not n.dirty && leb e.id.index n.state.hard.commit) (entries n.state)

  unfoldable pub durable_snapshot : Node V S → Option (Snapshot S)
  durable_snapshot n = if n.dirty then none else n.state.snapshot

  unfoldable pub status : Node V S → Status
  status n = record {
    id = n.config.id;
    role = n.role;
    term = n.state.hard.term;
    last = last n.state;
    commit = n.state.hard.commit;
    retained = length (entries n.state);
    capacity = length n.state.slots;
    persistence_pending = n.dirty;
    messages_pending = length (somes n.outbox) + (if is_some n.extra_reply then 1 else 0);
  }

  -- The progress of the peer in a slot, if it is shown.
  abbrev pub progress_of : Node V S → ℕ → Option NodeId → Option PeerProgress
  progress_of n i o = and_then o (λ id.
      if is_leader n.role && Membership.contains n.membership id && not (id == n.config.id)
      then some (record {
        id = id;
        voter = Membership.is_voter n.membership id;
        matched = get_or n.matched i 0;
        next = get_or n.next i 0;
      })
      else none)

  unfoldable pub progress_from : Node V S → ℕ → List (Option NodeId) → List (Option PeerProgress)
  progress_from n i [] = []
  progress_from n i (o ∷ os) = progress_of n i o ∷ progress_from n (suc i) os

  unfoldable pub progress : Node V S → List PeerProgress
  unfolding progress_from
  progress n = somes (progress_from n 0 n.peers)
