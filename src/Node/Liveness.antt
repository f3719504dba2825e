-- ===== src/Node/Liveness.antt =====
-- The election timer of jarl/src/node.rs runs out: `tick` leads a silent voter to an election.
use hubby.Membership
use hubby.Prelude.{false, suc, true, u64_mod, zero, ℕ, ◌<◌, ◌≡◌}
use hubby.Types.{is_leader, ok}
use hubby.Node.{Node}
use hubby.Node.Timer.{available}
use hubby.Node.Election.{tick}

module _ {V S : Type 0} where
  -- A voter that is not the leader, has nothing to write or to send, and can reach its deadline.
  pub record Waiting (n : Node V S) : Type 0 where
    pub quiet : available n ≡ ok tt
    pub idle : is_leader n.role ≡ false
    pub voter : Membership.is_voter n.membership n.config.id ≡ true
    pub reachable : n.election_deadline < u64_mod

  -- The node after some time, as its clocks show it.
  abbrev pub waited : Node V S → ℕ → ℕ → Node V S
  waited n time age = record n { elapsed = time; leader_age = age }

  abbrev pub tick_times : ℕ → Node V S → Node V S
  tick_times zero n = n
  tick_times (suc k) n = tick_times k (tick n).0
