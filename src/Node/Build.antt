-- ===== src/Node/Build.antt =====
-- jarl/src/node.rs: construction of a node, and its move to a larger log.
use hubby.Membership
use hubby.State
use hubby.Membership.{Membership, peers}
use hubby.Prelude.{
  Bool, List, Option, [], any, false, is_some_and, leb, length, ltb, none, not, u64_max, unwrap_or,
  ℕ, ◌/◌, ◌==◌, ◌||◌, ◌∷◌,
}
use hubby.Types.{Config, Error, NodeId, Result, Role, ok, refuse_if, ◌>>=◌, ◌>>◌}
use hubby.State.{State}
use hubby.Node.{MembershipHooks, Node, fill}
use hubby.Node.Timer.{reset_election}
use hubby.Node.Peers.{refresh_membership, slot_of}

-- The tests of `build` on the configuration and the capacity.
abbrev pub bad_timing : ℕ → Config → Bool
bad_timing capacity c =
    capacity == 0
    || c.heartbeat_ticks == 0
    || leb c.election_ticks c.heartbeat_ticks
    || ltb (u64_max / 2) c.election_ticks

-- `members[..i]` holds the id at `i`, for some `i`; `before` holds the ids passed.
unfoldable pub repeats : List NodeId → List NodeId → Bool
repeats before [] = false
repeats before (i ∷ ids) = any (λ j. j == i) before || repeats (i ∷ before) ids

module _ {V S : Type 0} where
  abbrev pub initial : Config → State V S → Membership → Option (MembershipHooks V S) → Node V S
  initial c s m hooks =
      let peers = Membership.peers m in
      record {
        config = c;
        state = s;
        role = Role.follower;
        leader = none;
        local = unwrap_or (slot_of peers c.id) (length m.members);
        membership = m;
        bootstrap = m;
        hooks = hooks;
        peers = peers;
        votes = fill m.members false;
        next = fill m.members 1;
        matched = fill m.members 0;
        outbox = fill m.members none;
        dirty = false;
        log_from = none;
        snapshot_changed = false;
        elapsed = 0;
        election_deadline = 0;
        random = c.seed;
        prevoting = none;
        leader_age = u64_max;
        quorum_elapsed = 0;
        active = fill m.members false;
        extra_reply = none;
        request_from = none;
      }

  unfoldable pub build :
      Config → State V S → Membership → Option (MembershipHooks V S) → Result (Node V S)
  build c s m hooks = do
    refuse_if (bad_timing (length s.slots) c) Error.config
    ok (reset_election (refresh_membership (initial c s m hooks)))

  unfoldable pub new : Config → State V S → Result (Node V S)
  unfolding build repeats
  new c s = do
    refuse_if
        (length c.members == 0
          || not (any (λ i. i == c.id) c.members)
          || bad_timing (length s.slots) c
          || repeats [] c.members)
        Error.config
    refuse_if (is_some_and s.hard.voted_for (λ i. not (any (λ j. j == i) c.members))) Error.state
    m ← Membership.new (length c.members) c.members []
    build c s m none

  unfoldable pub grow : ℕ → Node V S → Node V S
  grow new_capacity n = record n { state = State.grow new_capacity n.state }
