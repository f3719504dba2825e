-- ===== src/Node/Step.antt =====
-- jarl/src/node.rs: the validity of messages, and `Node::step`.
use hubby.Prelude.{
  Bool, List, Option, [], checked_add, count, false, if◌then◌else◌, is_none_or, is_some,
  is_some_and, leb, ltb, none, not, or_else, saturating_add, set, some, somes, true, ℕ, ◌&&◌, ◌+◌,
  ◌==◌, ◌||◌, ◌∷◌,
}
use hubby.Types.{
  Entry, Envelope, Error, NodeId, LogId, Message, Rejection, Result, Snapshot, err, genesis,
  is_candidate, is_leader, log_id_eq, message_term, ok, ok_or, refuse_if, up_to_date, ◌>>=◌, ◌>>◌,
}
use hubby.State.{base, holds_id, id_at, install, last}
use hubby.Node.{Node, Outbound, width}
use hubby.Node.Timer.{available, follow, reset_election}
use hubby.Node.Peers.{election_quorum, refresh_membership, slot_of}
use hubby.Node.Commit.{reply, send}
use hubby.Node.Election.{become_leader, campaign}
use hubby.Node.Replication.{append, append_each, on_replicated}

-- `valid_id` of `valid`, for a message's term.
abbrev pub valid_id : ℕ → LogId → Bool
valid_id term id = log_id_eq id genesis || ltb 0 id.index && ltb 0 id.term && leb id.term term

-- An entry that continues a log after `previous`.
abbrev pub continues : {V : Type 0} → ℕ → LogId → Entry V → Bool
continues term previous e =
    valid_id term e.id
    && is_some_and (checked_add previous.index 1) (λ i. i == e.id.index)
    && leb previous.term e.id.term

-- The loop over the slots of a batch, with its variables `previous`, `ended` and `count`.
unfoldable pub valid_batch : {V : Type 0} → ℕ → LogId → Bool → ℕ → List (Option (Entry V)) → Bool
valid_batch term previous ended count [] = ltb 0 count
valid_batch term previous ended count (none ∷ slots) = valid_batch term previous true count slots
valid_batch term previous ended count (some e ∷ slots) =
    let rest = valid_batch term e.id ended (count + 1) slots in
    if ended || not (continues term previous e) then false else rest

unfoldable pub valid_body : {V S : Type 0} → ℕ → Message V S → Bool
unfolding valid_batch
valid_body term (Message.vote t last) = valid_id term last
valid_body term (Message.pre_vote t last) = valid_id term last
valid_body term (Message.append t previous entry commit) =
    valid_id term previous && is_none_or entry (continues term previous)
valid_body term (Message.append_batch t previous slots commit) =
    valid_id term previous && valid_batch term previous false 0 slots
valid_body term (Message.install t snapshot) =
    ltb 0 snapshot.last.index && valid_id term snapshot.last
valid_body term (Message.replicated t index (some (Rejection.conflict next))) = ltb 0 next
valid_body term (Message.replicated t index (some Rejection.full)) = true
valid_body term (Message.replicated t index none) = true
valid_body term (Message.pre_voted t campaign granted) = true
valid_body term (Message.voted t granted) = true

unfoldable pub valid : {V S : Type 0} → Message V S → Bool
unfolding valid_body
valid (Message.pre_voted t campaign granted) = ltb 0 campaign
valid m = ltb 0 (message_term m) && valid_body (message_term m) m

-- The messages that a dynamic cluster takes from a sender outside its peers.
abbrev pub from_anyone : {V S : Type 0} → Message V S → Bool
from_anyone (Message.vote t last) = true
from_anyone (Message.pre_vote t last) = true
from_anyone (Message.append t previous entry commit) = true
from_anyone (Message.append_batch t previous slots commit) = true
from_anyone (Message.install t snapshot) = true
from_anyone (Message.pre_voted t campaign granted) = false
from_anyone (Message.voted t granted) = false
from_anyone (Message.replicated t index rejection) = false

abbrev pub is_vote : {V S : Type 0} → Message V S → Bool
is_vote (Message.vote t last) = true
is_vote _ = false

module _ {V S : Type 0} where
  abbrev pub sender_slot : Node V S → Envelope V S → Option ℕ
  sender_slot n envelope =
      or_else (slot_of n.peers envelope.from)
        (if is_some n.hooks && from_anyone envelope.message then some (width n) else none)

  -- The checks before any change, and the slot of the sender.
  unfoldable pub admit : Node V S → Envelope V S → Result ℕ
  unfolding available
  admit n envelope = do
    available n
    peer ← ok_or (sender_slot n envelope) Error.message
    refuse_if
        (envelope.from == n.config.id
          || not (envelope.to == n.config.id)
          || not (valid envelope.message))
        Error.message
    ok peer

  unfoldable pub on_pre_vote : Node V S → ℕ → ℕ → LogId → Node V S
  on_pre_vote n peer term l = send n peer (
      Outbound.pre_voted term (
        ltb n.state.hard.term term
        && not (is_leader n.role)
        && leb n.config.election_ticks n.leader_age
        && up_to_date l (last n.state)))

  -- A higher term makes the node a follower of that term, with no vote.
  unfoldable pub observe_term : Node V S → ℕ → Node V S
  observe_term n term =
      if ltb n.state.hard.term term
      then follow
          (record n {
            state = record n.state { hard = record n.state.hard { term = term; voted_for = none } };
            dirty = true;
          })
          none
      else n

  unfoldable pub count_pre_vote : Node V S → ℕ → Node V S
  count_pre_vote n term = if election_quorum n then campaign n term else n

  unfoldable pub on_pre_voted : Node V S → ℕ → ℕ → Bool → Node V S
  unfolding count_pre_vote
  on_pre_voted n peer term granted =
      if is_some_and n.prevoting (λ t. t == term) && granted
      then count_pre_vote (record n { votes = set n.votes peer true }) term
      else n

  -- The replies to messages of an earlier term.
  unfoldable pub on_stale : Node V S → ℕ → Message V S → Node V S
  on_stale n peer (Message.vote t l) = send n peer (Outbound.voted false)
  on_stale n peer (Message.append t previous entry commit) =
      reply n peer previous.index (some (Rejection.conflict 1))
  on_stale n peer (Message.append_batch t previous slots commit) =
      reply n peer previous.index (some (Rejection.conflict 1))
  on_stale n peer (Message.install t snapshot) =
      reply n peer snapshot.last.index (some (Rejection.conflict 1))
  on_stale n peer (Message.pre_vote t l) = n
  on_stale n peer (Message.pre_voted t campaign granted) = n
  on_stale n peer (Message.voted t granted) = n
  on_stale n peer (Message.replicated t index rejection) = n

  -- Whether this node may vote for a candidate with this log.
  abbrev pub grants : Node V S → NodeId → LogId → Bool
  grants n from l =
      is_none_or n.state.hard.voted_for (λ i. i == from) && up_to_date l (last n.state)

  -- A granted vote is recorded, and the election clock starts again.
  unfoldable pub record_vote : Node V S → NodeId → Node V S
  record_vote n from = reset_election (
      if is_some_and n.state.hard.voted_for (λ i. i == from) then n else record n {
        state = record n.state { hard = record n.state.hard { voted_for = some from } };
        dirty = true;
      })

  unfoldable pub on_vote : Node V S → ℕ → NodeId → LogId → Node V S
  unfolding record_vote
  on_vote n peer from l =
      send (if grants n from l then record_vote n from else n) peer
        (Outbound.voted (grants n from l))

  unfoldable pub count_vote : Node V S → Node V S
  count_vote n = if election_quorum n then become_leader n else n

  unfoldable pub on_voted : Node V S → ℕ → Bool → Node V S
  unfolding count_vote
  on_voted n peer granted =
      if is_candidate n.role && granted
      then count_vote (record n { votes = set n.votes peer true })
      else n

  unfoldable pub on_append : Node V S → ℕ → NodeId → LogId → Option (Entry V) → ℕ → Node V S
  on_append n peer from previous entry commit =
      let (n', (index, rejection)) = append (follow n (some from)) previous entry commit in
      reply n' peer index rejection

  unfoldable pub on_append_batch :
      Node V S → ℕ → NodeId → LogId → List (Option (Entry V)) → ℕ → Node V S
  on_append_batch n peer from previous slots commit =
      let (n', (index, rejection)) =
        append_each (follow n (some from)) previous false (previous.index, none) (somes slots)
          commit in
      reply n' peer index rejection

  -- Whether a snapshot contradicts the committed log.
  abbrev pub contradicts : Node V S → LogId → Bool
  contradicts n l =
      leb l.index n.state.hard.commit
      && is_some_and (id_at n.state l.index) (λ id. not (log_id_eq id l))

  -- Whether a snapshot is news: it reaches beyond the boundary, and is ahead of the committed log or
  -- matches it.
  abbrev pub is_news : Node V S → LogId → Bool
  is_news n l =
      ltb (base n.state).index l.index && (ltb n.state.hard.commit l.index || holds_id n.state l)

  unfoldable pub take_snapshot : Node V S → Snapshot S → Node V S
  take_snapshot n snapshot =
      let r = refresh_membership (record n {
        log_from =
            if holds_id n.state snapshot.last
            then n.log_from
            else checked_add snapshot.last.index 1;
        state = install n.state snapshot;
      }) in
      record r { snapshot_changed = true; dirty = true }

  unfoldable pub on_install : Node V S → ℕ → NodeId → Snapshot S → Node V S
  unfolding take_snapshot
  on_install n peer from snapshot =
      let f = follow n (some from) in
      if contradicts f snapshot.last
      then reply f peer snapshot.last.index
          (some (Rejection.conflict (saturating_add (base f.state).index 1)))
      else reply (if is_news f snapshot.last then take_snapshot f snapshot else f) peer
          snapshot.last.index none

  -- A message of the node's own term. Probes do not get here.
  unfoldable pub on_current : Node V S → ℕ → NodeId → Message V S → Node V S
  on_current n peer from (Message.vote t l) = on_vote n peer from l
  on_current n peer from (Message.voted t granted) = on_voted n peer granted
  on_current n peer from (Message.append t previous entry commit) =
      on_append n peer from previous entry commit
  on_current n peer from (Message.append_batch t previous slots commit) =
      on_append_batch n peer from previous slots commit
  on_current n peer from (Message.install t snapshot) = on_install n peer from snapshot
  on_current n peer from (Message.replicated t index rejection) =
      if is_leader n.role then on_replicated n peer index rejection else n
  on_current n peer from (Message.pre_vote t l) = n
  on_current n peer from (Message.pre_voted t campaign granted) = n

  -- The part of `step` after the term of the message has been observed.
  unfoldable pub after_term : Node V S → ℕ → NodeId → Message V S → Node V S
  unfolding on_current on_stale
  after_term n peer from (Message.pre_voted t campaign granted) =
      on_pre_voted n peer campaign granted
  after_term n peer from m =
      if ltb (message_term m) n.state.hard.term then on_stale n peer m else on_current n peer from m

  -- A live leader suppresses campaigns in a dynamic cluster.
  abbrev pub suppresses : Node V S → Message V S → Bool
  suppresses n m =
      is_some n.hooks && is_vote m && (is_leader n.role || ltb n.leader_age n.config.election_ticks)

  unfoldable pub receive : Node V S → ℕ → NodeId → Message V S → Node V S
  unfolding after_term
  receive n peer from (Message.pre_vote t l) = on_pre_vote n peer t l
  receive n peer from m =
      if suppresses n m then n else after_term (observe_term n (message_term m)) peer from m

  unfoldable pub step : Node V S → Envelope V S → Node V S × Result (Unit {0})
  unfolding admit receive
  step n envelope = elim (admit n envelope) [
    | err e ↦ (n, err e)
    | ok peer ↦ (
      receive (record n { request_from = some envelope.from }) peer envelope.from envelope.message,
      ok tt,
    )
  ]
