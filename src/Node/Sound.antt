-- ===== src/Node/Sound.antt =====
-- The invariant of a node, and the operations of jarl/src/node.rs that leave its checkpoint alone.
use hubby.Prelude.{
  Bool, Bool-cases, List, Option, Option-cases, [], any, ap, false, if◌then◌else◌, inl, inr, none,
  position, refl, some, somes, suc, true, zero, ℕ, ◌<◌, ◌==◌, ◌||◌, ◌∙◌, ◌∷◌, ◌≡◌,
}
use hubby.State.{last}
use hubby.State.Valid.{IsValid}
use hubby.State.Moves.{Moves}
use hubby.Types.{NodeId, Rejection, Role, is_candidate, is_leader}
use hubby.Membership.{Membership, peers}
use hubby.Node.{Node, Outbound, width}
use hubby.Node.Timer.{follow, reset_election}
use hubby.Node.Peers.{
  admit_peer, admit_peers, is_peer, locate, membership_at, refresh_membership, reusable, step_down,
}
use hubby.Node.Commit.{broadcast, is_recipient, replicate_to, reply, send, send_each}

-- A candidate or a leader.
abbrev pub is_ruling : Role → Bool
is_ruling r = is_leader r || is_candidate r

module _ {V S : Type 0} where
  -- The checkpoint is well formed, a candidate or leader has a term, and a probe is for a later term.
  pub record Sound (n : Node V S) : Type 0 where
    pub valid : IsValid n.state
    pub ruling : is_ruling n.role ≡ true → 0 < n.state.hard.term
    pub probing : (t : ℕ) → n.prevoting ≡ some t → n.state.hard.term < t

  -- A node takes no new role of power, and no new probe.
  pub record Calm (n n' : Node V S) : Type 0 where
    pub rules : is_ruling n'.role ≡ true → is_ruling n.role ≡ true
    pub probes : (t : ℕ) → n'.prevoting ≡ some t → n.prevoting ≡ some t

  -- Nor does it change its checkpoint.
  pub record Soft (n n' : Node V S) : Type 0 where
    pub state : n'.state ≡ n.state
    pub calm : Calm n n'

  -- The checkpoint changes by moves, to a node that meets the invariant.
  pub record Evolves (n n' : Node V S) : Type 0 where
    pub moves : Moves n.state n'.state
    pub sound : Sound n'

  pub Calm-refl : (n : Node V S) → Calm n n
  Calm-refl n = record { rules = λ h. h; probes = λ t h. h }

  pub Calm-trans : {a b c : Node V S} → Calm a b → Calm b c → Calm a c
  Calm-trans p q = record {
    rules = λ h. p.rules (q.rules h);
    probes = λ t h. p.probes t (q.probes t h);
  }

  pub Soft-refl : (n : Node V S) → Soft n n
  Soft-refl n = record { state = refl; calm = Calm-refl n }

  pub Soft-trans : {a b c : Node V S} → Soft a b → Soft b c → Soft a c
  Soft-trans p q = record { state = q.state ∙ p.state; calm = Calm-trans p.calm q.calm }

  -- A change of fields other than the checkpoint, the role and the probe.
  pub soft :
      (n n' : Node V S)
      → n'.state ≡ n.state
      → n'.role ≡ n.role
      → n'.prevoting ≡ n.prevoting
      → Soft n n'
  soft n n' s r p = record {
    state = s;
    calm = record { rules = λ h. rw (← r) h; probes = λ t h. rw (← p) h };
  }

  pub reset_election-Soft : (n : Node V S) → Soft n (reset_election n)
  unfolding reset_election
  reset_election-Soft n = soft n _ refl refl refl

  follow_state : (n : Node V S) (to : Option NodeId) → (follow n to).state ≡ n.state
  unfolding follow reset_election
  follow_state n to = refl

  pub follow_role : (n : Node V S) (to : Option NodeId) → (follow n to).role ≡ Role.follower
  unfolding follow reset_election
  follow_role n to = refl

  pub follow_prevoting : (n : Node V S) (to : Option NodeId) → (follow n to).prevoting ≡ none
  unfolding follow reset_election
  follow_prevoting n to = refl

  follow-Calm : (n m : Node V S) (to : Option NodeId) → Calm n (follow m to)
  follow-Calm n m to = record {
    rules = λ h. cc (h, ap is_ruling (follow_role m to));
    probes = λ t h. cc (h, follow_prevoting m to);
  }

  pub follow-Soft : (n : Node V S) (to : Option NodeId) → Soft n (follow n to)
  follow-Soft n to = record { state = follow_state n to; calm = follow-Calm n n to }

  admit_peer-Soft : (n : Node V S) (i : NodeId) → Soft n (admit_peer n i)
  unfolding admit_peer
  admit_peer-Soft n i = elim (Bool-cases (any (is_peer i) n.peers)) [
    | inl known ↦ rw (known, admit_peer) (Soft-refl n)
    | inr new_ ↦ elim (Option-cases (position (reusable n.membership) n.peers)) [
      | inl full_ ↦ rw (new_, full_, admit_peer) (Soft-refl n)
      | inr (k, at_k) ↦ rw (new_, at_k, admit_peer) (soft n _ refl refl refl)
    ]
  ]

  admit_peers-Soft : (n : Node V S) (ids : List NodeId) → Soft n (admit_peers n ids)
  unfolding admit_peers
  admit_peers-Soft n [] = Soft-refl n
  admit_peers-Soft n (i ∷ ids) =
      Soft-trans (admit_peer-Soft n i) (admit_peers-Soft (admit_peer n i) ids)

  if-Soft :
      (n : Node V S) (b : Bool) {x y : Node V S} → Soft n x → Soft n y → Soft n (if b then x else y)
  if-Soft n true p q = p
  if-Soft n false p q = q

  step_down-Soft : (n : Node V S) → Soft n (step_down n)
  unfolding step_down
  step_down-Soft n = if-Soft n _ (follow-Soft n none) (Soft-refl n)

  -- Refreshing the membership touches peers and perhaps the role, never the checkpoint.
  pub refresh_membership-Soft : (n : Node V S) → Soft n (refresh_membership n)
  unfolding refresh_membership
  refresh_membership-Soft n =
      let m : Membership = (membership_at n (last n.state).index).1 in
      let n1 : Node V S = record n { membership = m } in
      let n2 : Node V S = admit_peers n1 (somes (peers m)) in
      Soft-trans (Soft-trans (soft n n1 refl refl refl) (admit_peers-Soft n1 (somes (peers m))))
        (Soft-trans (soft n2 (locate n2) refl refl refl) (step_down-Soft (locate n2)))

  pub send-Soft : (n : Node V S) (peer : ℕ) (out : Outbound) → Soft n (send n peer out)
  unfolding send
  send-Soft n peer out = elim (Bool-cases (peer == width n)) [
    | inl outside ↦ rw (outside, send) (soft n _ refl refl refl)
    | inr inside ↦ rw (inside, send) (soft n _ refl refl refl)
  ]

  pub send_each-Soft :
      (left peer : ℕ) (among : Membership → NodeId → Bool) (out : Outbound) (n : Node V S)
      → Soft n (send_each left peer among out n)
  unfolding send_each
  send_each-Soft zero peer among out n = Soft-refl n
  send_each-Soft (suc left) peer among out n =
      Soft-trans (if-Soft n (is_recipient n among peer) (send-Soft n peer out) (Soft-refl n))
        (send_each-Soft left (suc peer) among out _)

  pub broadcast-Soft : (n : Node V S) → Soft n (broadcast n)
  unfolding broadcast
  broadcast-Soft n = send_each-Soft (width n) 0 _ Outbound.replicate n

  pub replicate_to-Soft : (n : Node V S) (peer : ℕ) → Soft n (replicate_to n peer)
  unfolding replicate_to
  replicate_to-Soft n peer = send-Soft n peer Outbound.replicate

  pub reply-Soft :
      (n : Node V S) (peer index : ℕ) (r : Option Rejection) → Soft n (reply n peer index r)
  unfolding reply
  reply-Soft n peer index r = send-Soft n peer _
