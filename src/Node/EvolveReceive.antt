-- ===== src/Node/EvolveReceive.antt =====
-- `Node::step` of jarl/src/node.rs changes the checkpoint by moves alone, and keeps the invariant.
use hubby.Prelude.{
  Option, arith, get_or, if◌then◌else◌, inl, inr, leb, ltb, max, none, not, refl, saturating_add,
  set, some, true, u64_mod, ℕ, ◌<◌, ◌==◌, ◌||◌, ◌≡◌, ◌≤◌,
}
use hubby.State.{last}
use hubby.Types.{
  >>=-eq-ok, Envelope, Error, NodeId, Message, Rejection, Result-cases, is_leader, message_term, ok,
  ok_or, refuse_if-eq-ok,
}
use hubby.Node.{Node}
use hubby.Node.Timer.{available}
use hubby.Node.Commit.{advance_commit}
use hubby.Node.Replication.{acknowledged, backed_off, is_current, note_reply, on_replicated}
use hubby.Node.Step.{
  admit, after_term, observe_term, on_current, on_pre_vote, on_stale, receive, sender_slot, step,
  suppresses, valid, valid_body,
}
use hubby.Node.Sound.{
  Evolves, Soft, Soft-refl, Soft-trans, Sound, broadcast-Soft, replicate_to-Soft, reply-Soft,
  send-Soft, soft,
}
use hubby.Node.Evolve.{Evolves-refl, Evolves-then, Soft-Evolves, advance_commit-Evolves}
use hubby.Node.EvolveMessages.{
  if-Evolves, observe_term-Evolves, observe_term_reaches, on_append-Evolves,
  on_append_batch-Evolves, on_install-Evolves, on_pre_voted-Evolves, on_vote-Evolves,
  on_voted-Evolves,
}

module _ {V S : Type 0} where
  -- The index of a snapshot in a message is a `u64`.
  abbrev pub InRange : Message V S → Type 0
  InRange (Message.install t snapshot) = snapshot.last.index < u64_mod
  InRange _ = Unit {0}

  acknowledged-Evolves :
      (n : Node V S) (peer index : ℕ) → Sound n → Evolves n (acknowledged n peer index)
  unfolding acknowledged
  acknowledged-Evolves n peer index v =
      let m : Node V S = record n {
        matched = set n.matched peer index;
        next = set n.next peer (max (get_or n.next peer 0) (saturating_add index 1));
      } in
      let c : Node V S = (advance_commit m).0 in
      Evolves-then (Soft-Evolves (soft n m refl refl refl) v) (λ v1.
        Evolves-then (advance_commit-Evolves m v1) (λ v2.
          if-Evolves c (advance_commit m).1 (λ _. Soft-Evolves (broadcast-Soft c) v2)
            (λ _.
              if-Evolves c (ltb index (last c.state).index)
                (λ _. Soft-Evolves (replicate_to-Soft c peer) v2) (λ _. Evolves-refl c v2))))

  note_reply-Evolves :
      (n : Node V S) (peer index : ℕ) (r : Option Rejection)
      → Sound n
      → Evolves n (note_reply n peer index r)
  unfolding note_reply backed_off
  note_reply-Evolves n peer index none v =
      if-Evolves n (leb index (get_or n.matched peer 0)) (λ _. Evolves-refl n v)
        (λ _. acknowledged-Evolves n peer index v)
  note_reply-Evolves n peer index (some (Rejection.conflict p)) v =
      if-Evolves n (is_current n peer index)
        (λ _. Soft-Evolves (Soft-trans (soft n _ refl refl refl) (replicate_to-Soft _ peer)) v)
        (λ _. Evolves-refl n v)
  note_reply-Evolves n peer index (some Rejection.full) v = Evolves-refl n v

  on_replicated-Evolves :
      (n : Node V S) (peer index : ℕ) (r : Option Rejection)
      → Sound n
      → Evolves n (on_replicated n peer index r)
  unfolding on_replicated
  on_replicated-Evolves n peer index r v =
      let a : Node V S = record n { active = set n.active peer true } in
      Evolves-then (Soft-Evolves (soft n a refl refl refl) v) (λ v1.
        if-Evolves a (ltb (last n.state).index index) (λ _. Evolves-refl a v1)
          (λ _. note_reply-Evolves a peer index r v1))

  on_stale-Soft : (n : Node V S) (peer : ℕ) (m : Message V S) → Soft n (on_stale n peer m)
  unfolding on_stale
  on_stale-Soft n peer (Message.vote t l) = send-Soft n peer _
  on_stale-Soft n peer (Message.append t previous entry commit) = reply-Soft n peer _ _
  on_stale-Soft n peer (Message.append_batch t previous slots commit) = reply-Soft n peer _ _
  on_stale-Soft n peer (Message.install t snapshot) = reply-Soft n peer _ _
  on_stale-Soft n peer (Message.pre_vote t l) = Soft-refl n
  on_stale-Soft n peer (Message.pre_voted t campaign granted) = Soft-refl n
  on_stale-Soft n peer (Message.voted t granted) = Soft-refl n
  on_stale-Soft n peer (Message.replicated t index rejection) = Soft-refl n

  on_current-Evolves :
      (n : Node V S) (peer : ℕ) (from : NodeId) (m : Message V S)
      → Sound n
      → valid m ≡ true
      → InRange m
      → message_term m ≤ n.state.hard.term
      → Evolves n (on_current n peer from m)
  unfolding on_current valid valid_body
  on_current-Evolves n peer from (Message.vote t l) v h r k =
      on_vote-Evolves n peer from l v (ground (arith, h, k))
  on_current-Evolves n peer from (Message.voted t granted) v h r k =
      on_voted-Evolves n peer granted v
  on_current-Evolves n peer from (Message.append t previous entry commit) v h r k =
      on_append-Evolves n peer from t previous entry commit v k (ground (arith, h))
  on_current-Evolves n peer from (Message.append_batch t previous slots commit) v h r k =
      on_append_batch-Evolves n peer from t previous slots commit v k (ground (arith, h))
  on_current-Evolves n peer from (Message.install t snapshot) v h r k =
      on_install-Evolves n peer from t snapshot v k (ground (arith, h)) r
  on_current-Evolves n peer from (Message.replicated t index rejection) v h r k =
      if-Evolves n (is_leader n.role) (λ _. on_replicated-Evolves n peer index rejection v)
        (λ _. Evolves-refl n v)
  on_current-Evolves n peer from (Message.pre_vote t l) v h r k = Evolves-refl n v
  on_current-Evolves n peer from (Message.pre_voted t campaign granted) v h r k = Evolves-refl n v

  -- A message that is not a probe's answer, once its term has been observed.
  current_or_stale-Evolves :
      (n : Node V S) (peer : ℕ) (from : NodeId) (m : Message V S)
      → Sound n
      → valid m ≡ true
      → InRange m
      → message_term m ≤ n.state.hard.term
      → Evolves n (
          if ltb (message_term m) n.state.hard.term
          then on_stale n peer m
          else on_current n peer from m)
  current_or_stale-Evolves n peer from m v h r k =
      if-Evolves n (ltb (message_term m) n.state.hard.term)
        (λ _. Soft-Evolves (on_stale-Soft n peer m) v)
        (λ _. on_current-Evolves n peer from m v h r k)

  after_term-Evolves :
      (n : Node V S) (peer : ℕ) (from : NodeId) (m : Message V S)
      → Sound n
      → valid m ≡ true
      → InRange m
      → message_term m ≤ n.state.hard.term
      → Evolves n (after_term n peer from m)
  unfolding after_term
  after_term-Evolves n peer from (Message.pre_voted t campaign granted) v h r k =
      on_pre_voted-Evolves n peer campaign granted v
  after_term-Evolves n peer from (Message.vote t l) v h r k =
      current_or_stale-Evolves n peer from (Message.vote t l) v h r k
  after_term-Evolves n peer from (Message.voted t g) v h r k =
      current_or_stale-Evolves n peer from (Message.voted t g) v h r k
  after_term-Evolves n peer from (Message.append t p e c) v h r k =
      current_or_stale-Evolves n peer from (Message.append t p e c) v h r k
  after_term-Evolves n peer from (Message.append_batch t p e c) v h r k =
      current_or_stale-Evolves n peer from (Message.append_batch t p e c) v h r k
  after_term-Evolves n peer from (Message.install t s) v h r k =
      current_or_stale-Evolves n peer from (Message.install t s) v h r k
  after_term-Evolves n peer from (Message.replicated t i x) v h r k =
      current_or_stale-Evolves n peer from (Message.replicated t i x) v h r k
  after_term-Evolves n peer from (Message.pre_vote t l) v h r k =
      current_or_stale-Evolves n peer from (Message.pre_vote t l) v h r k

  observed-Evolves :
      (n : Node V S) (peer : ℕ) (from : NodeId) (m : Message V S)
      → Sound n
      → valid m ≡ true
      → InRange m
      → Evolves n
          (if suppresses n m then n else after_term (observe_term n (message_term m)) peer from m)
  observed-Evolves n peer from m v h r =
      if-Evolves n (suppresses n m) (λ _. Evolves-refl n v)
        (λ _. Evolves-then (observe_term-Evolves n (message_term m) v) (λ v1.
          after_term-Evolves (observe_term n (message_term m)) peer from m v1 h r
            (observe_term_reaches n (message_term m))))

  receive-Evolves :
      (n : Node V S) (peer : ℕ) (from : NodeId) (m : Message V S)
      → Sound n
      → valid m ≡ true
      → InRange m
      → Evolves n (receive n peer from m)
  unfolding receive on_pre_vote
  receive-Evolves n peer from (Message.pre_vote t l) v h r = Soft-Evolves (send-Soft n peer _) v
  receive-Evolves n peer from (Message.vote t l) v h r =
      observed-Evolves n peer from (Message.vote t l) v h r
  receive-Evolves n peer from (Message.voted t g) v h r =
      observed-Evolves n peer from (Message.voted t g) v h r
  receive-Evolves n peer from (Message.append t p e c) v h r =
      observed-Evolves n peer from (Message.append t p e c) v h r
  receive-Evolves n peer from (Message.append_batch t p e c) v h r =
      observed-Evolves n peer from (Message.append_batch t p e c) v h r
  receive-Evolves n peer from (Message.install t s) v h r =
      observed-Evolves n peer from (Message.install t s) v h r
  receive-Evolves n peer from (Message.replicated t i x) v h r =
      observed-Evolves n peer from (Message.replicated t i x) v h r
  receive-Evolves n peer from (Message.pre_voted t c g) v h r =
      observed-Evolves n peer from (Message.pre_voted t c g) v h r

  -- What `admit` lets through is valid.
  admit-valid :
      (n : Node V S) (envelope : Envelope V S) {peer : ℕ}
      → admit n envelope ≡ ok peer
      → valid envelope.message ≡ true
  unfolding admit
  admit-valid n envelope e =
      let (_, free, e1) = >>=-eq-ok (available n) _ e in
      let (slot, found, e2) = >>=-eq-ok (ok_or (sender_slot n envelope) Error.message) _ e1 in
      let good =
        (refuse_if-eq-ok
          (envelope.from == n.config.id
            || not (envelope.to == n.config.id)
            || not (valid envelope.message))
          Error.message (ok slot) e2).0 in
      ground (arith, good)

  -- A message, admitted or not, changes the checkpoint by moves and keeps the invariant.
  pub step-Evolves :
      (n : Node V S) (envelope : Envelope V S)
      → Sound n
      → InRange envelope.message
      → Evolves n (step n envelope).0
  unfolding step
  step-Evolves n envelope v r = elim (Result-cases (admit n envelope)) [
    | inr (e, refused) ↦ rw (refused, step) (Evolves-refl n v)
    | inl (peer, taken) ↦
        let n1 : Node V S = record n { request_from = some envelope.from } in
        rw (taken, step)
          (Evolves-then (Soft-Evolves (soft n n1 refl refl refl) v) (λ v1.
            receive-Evolves n1 peer envelope.from envelope.message v1 (admit-valid n envelope taken)
              r))
  ]
