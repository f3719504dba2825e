-- ===== src/Node/Peers.antt =====
-- jarl/src/node.rs: the effective membership of a log, and the slots of its peers.
use hubby.Membership
use hubby.Prelude.{
  Bool, List, Option, [], and_then, any, false, get_or, if◌then◌else◌, is_none_or, is_some_and, leb,
  map_or, none, not, position, set, some, somes, take_while, unwrap_or, ℕ, ◌&&◌, ◌==◌, ◌∷◌,
}
use hubby.Types.{Entry, NodeId, is_leader}
use hubby.Membership.{Membership, peers}
use hubby.State.{entries, last}
use hubby.Node.{Node, width}
use hubby.Node.Timer.{follow}

abbrev pub is_peer : NodeId → Option NodeId → Bool
is_peer i o = is_some_and o (λ j. j == i)

-- `self.peers.iter().position(|peer| *peer == Some(id))`.
abbrev pub slot_of : List (Option NodeId) → NodeId → Option ℕ
slot_of peers i = position (is_peer i) peers

-- The loop of `membership_at` over entries up to the index.
unfoldable pub latest :
    {V : Type 0} → (V → Option Membership) → ℕ × Membership → List (Entry V) → ℕ × Membership
latest of_record result [] = result
latest of_record result (e ∷ es) =
    latest of_record (map_or (and_then e.value of_record) result (λ m. (e.id.index, m))) es

-- A slot with no peer, or with one outside the membership.
abbrev pub reusable : Membership → Option NodeId → Bool
reusable m o = is_none_or o (λ j. not (Membership.contains m j))

module _ {V S : Type 0} where
  unfoldable pub membership_at : Node V S → ℕ → ℕ × Membership
  unfolding latest
  membership_at n index = elim n.hooks [
    | none ↦ (0, n.bootstrap)
    | some h ↦
        latest h.of_record
          (map_or n.state.snapshot (0, n.bootstrap) (λ s. (s.last.index, h.of_snapshot s.value)))
          (take_while (λ e. leb e.id.index index) (entries n.state))
  ]

  unfoldable pub election_quorum : Node V S → Bool
  election_quorum n =
      Membership.quorum n.membership
        (λ i. is_some_and (slot_of n.peers i) (λ k. get_or n.votes k false))

  unfoldable pub matched_of : Node V S → NodeId → ℕ
  matched_of n i = map_or (slot_of n.peers i) 0 (λ k. get_or n.matched k 0)

  -- One turn of the loop in `refresh_membership`. Rust panics where no slot is free; here the
  -- node is left alone.
  unfoldable pub admit_peer : Node V S → NodeId → Node V S
  admit_peer n i =
      if any (is_peer i) n.peers then n else elim (position (reusable n.membership) n.peers) [
        | none ↦ n
        | some k ↦ record n {
          peers = set n.peers k (some i);
          votes = set n.votes k false;
          active = set n.active k false;
          next = set n.next k 1;
          matched = set n.matched k 0;
          outbox = set n.outbox k none;
        }
      ]

  unfoldable pub admit_peers : Node V S → List NodeId → Node V S
  unfolding admit_peer
  admit_peers n [] = n
  admit_peers n (i ∷ ids) = admit_peers (admit_peer n i) ids

  -- The end of `refresh_membership`: a leader that is no voter any more steps down once the
  -- configuration is committed.
  unfoldable pub step_down : Node V S → Node V S
  step_down n =
      if is_leader n.role
        && not (Membership.is_voter n.membership n.config.id)
        && leb (membership_at n (last n.state).index).0 n.state.hard.commit
      then follow n none
      else n

  abbrev pub locate : Node V S → Node V S
  locate n = record n { local = unwrap_or (slot_of n.peers n.config.id) (width n) }

  unfoldable pub refresh_membership : Node V S → Node V S
  unfolding admit_peers step_down
  refresh_membership n =
      let m = (membership_at n (last n.state).index).1 in
      step_down (locate (admit_peers (record n { membership = m }) (somes (Membership.peers m))))
