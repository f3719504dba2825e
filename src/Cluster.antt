-- ===== src/Cluster.antt =====
-- jarl/src/cluster.rs: a node whose log carries membership records, and the changes of membership.
pub mod Change
pub mod Latest
pub mod Calls
pub mod Tests
use hubby.Membership
use hubby.Prelude.{
  Bool, List, Option, all, and_then, any, find, if◌then◌else◌, is_some_and, keep, leb, length, ltb,
  map, map_option, none, not, or_else, replicate, some, ℕ, ◌&&◌, ◌+◌, ◌-◌, ◌==◌, ◌||◌,
}
use hubby.Types.{
  Error, NodeId, LogId, ProposalRange, Result, err, is_leader, ok, refuse_if, ◌>>=◌, ◌>>◌,
}
use hubby.State.{State, entries, last, new}
use hubby.Membership.{Membership}
use hubby.Node.{MembershipHooks, Node}
use hubby.Node.Timer.{available}
use hubby.Node.Peers.{matched_of, membership_at}
use hubby.Node.Propose.{Outcome, compact, propose, propose_batch, returned}
use hubby.Node.Build

pub data Record (V : Type 0) : Type 0 where
  command : V → Record V
  configuration : Membership → Record V

pub record Checkpoint (S : Type 0) : Type 0 where
  pub application : S
  pub membership : Membership

pub record Settings : Type 0 where
  pub heartbeat_ticks : ℕ
  pub election_ticks : ℕ
  pub seed : ℕ

abbrev pub default_settings : Settings
default_settings = record { heartbeat_ticks = 2; election_ticks = 10; seed = 1 }

pub record ClusterState (V S : Type 0) : Type 0 where
  pub id : NodeId
  pub genesis_members : Membership
  pub state : State (Record V) (Checkpoint S)

-- A `Cluster` is its node.
abbrev pub Cluster : Type 0 → Type 0 → Type 0
Cluster V S = Node (Record V) (Checkpoint S)

abbrev pub configuration_of : {V : Type 0} → Record V → Option Membership
configuration_of (command v) = none
configuration_of (configuration m) = some m

-- The reserve of slots for protocol entries.
abbrev pub reserve : ℕ
reserve = 3

abbrev pub command_value : {V : Type 0} → Option V → Option (Record V)
command_value o = map_option o command

module _ {V S : Type 0} where
  abbrev pub cluster_hooks : MembershipHooks (Record V) (Checkpoint S)
  cluster_hooks = record { of_record = configuration_of; of_snapshot = λ c. c.membership }

  -- `ClusterState::restore`.
  unfoldable pub restore_cluster :
      NodeId → Membership → State (Record V) (Checkpoint S) → Result (ClusterState V S)
  restore_cluster id m s = do
    refuse_if (Membership.is_joint m) Error.config
    ok (record { id = id; genesis_members = m; state = s })

  -- `ClusterState::new`.
  unfoldable pub fresh_cluster : ℕ → NodeId → Membership → Result (ClusterState V S)
  unfolding restore_cluster
  fresh_cluster capacity id m = restore_cluster id m (new capacity)

  -- `Cluster::new`.
  unfoldable pub open_cluster : Settings → ClusterState V S → Result (Cluster V S)
  open_cluster settings saved = do
    refuse_if (ltb (length saved.state.slots) 4) Error.config
    Build.build
        (record {
          id = saved.id;
          members = replicate (length saved.genesis_members.members) saved.id;
          heartbeat_ticks = settings.heartbeat_ticks;
          election_ticks = settings.election_ticks;
          seed = settings.seed;
        })
        saved.state saved.genesis_members (some cluster_hooks)

  unfoldable pub remaining : Cluster V S → ℕ
  remaining n = length n.state.slots - length (entries n.state)

  unfoldable pub committed_membership : Cluster V S → Membership
  committed_membership n = (membership_at n n.state.hard.commit).1

  -- The checks that open every proposal.
  abbrev pub leading : Cluster V S → Result (Unit {0})
  leading n = do available n; refuse_if (not (is_leader n.role)) (Error.not_leader n.leader); ok tt

  -- `Cluster::propose`; `none` is a command whose clone unwinds.
  unfoldable pub propose_command : Cluster V S → Option V → Cluster V S × Outcome LogId
  propose_command n value = elim (leading n >> (refuse_if (leb (remaining n) reserve) Error.full)) [
    | err e ↦ (n, returned (err e))
    | ok _ ↦ propose n (command_value value)
  ]

  -- `Cluster::propose_batch`.
  unfoldable pub propose_commands :
      Cluster V S → List (Option V) → Cluster V S × Outcome ProposalRange
  propose_commands n values =
      elim (leading n >> (refuse_if (ltb (remaining n - reserve) (length values)) Error.full)) [
        | err e ↦ (n, returned (err e))
        | ok _ ↦ propose_batch n (map command_value values)
      ]

  -- The term at the commit index, as `change_available` looks it up.
  abbrev pub committed_term : Cluster V S → Option ℕ
  committed_term n =
      or_else
        (map_option (find (λ e. e.id.index == n.state.hard.commit) (entries n.state))
          (λ e. e.id.term))
        (and_then n.state.snapshot
          (λ s. if s.last.index == n.state.hard.commit then some s.last.term else none))

  -- The latest configuration of the log, with its index.
  abbrev pub latest_membership : Cluster V S → ℕ × Membership
  latest_membership n = membership_at n (last n.state).index

  unfoldable pub change_available : Cluster V S → Result (Unit {0})
  change_available n = do
    leading n
    refuse_if
        (Membership.is_joint (latest_membership n).1
          || ltb n.state.hard.commit (latest_membership n).0)
        Error.reconfiguring
    refuse_if (not (is_some_and (committed_term n) (λ t. t == n.state.hard.term)))
        Error.reconfiguring

  abbrev pub propose_membership : Cluster V S → Result Membership → Cluster V S × Outcome LogId
  propose_membership n (err e) = (n, returned (err e))
  propose_membership n (ok m) = propose n (some (configuration m))

  -- The configuration that `set_learners` proposes.
  unfoldable pub learners_change : Cluster V S → List NodeId → Result Membership
  unfolding change_available
  learners_change n ids = do
    change_available n
    refuse_if
        (ltb (length n.membership.members) (length (Membership.voters n.membership) + length ids))
        Error.full
    m ← Membership.with_learners n.membership ids
    refuse_if (leb (remaining n) 2) Error.full
    ok m

  unfoldable pub set_learners : Cluster V S → List NodeId → Cluster V S × Outcome LogId
  unfolding learners_change
  set_learners n ids = propose_membership n (learners_change n ids)

  -- A new voter is a learner that has acknowledged the leader's last entry.
  abbrev pub caught_up : Cluster V S → NodeId → Bool
  caught_up n id =
      any (λ l. l == id) (Membership.learners n.membership)
      && not (ltb (matched_of n id) (last n.state).index)

  -- The configuration that `reconfigure` proposes.
  unfoldable pub joint_change : Cluster V S → Membership → Result Membership
  unfolding change_available
  joint_change n target = do
    change_available n
    refuse_if (Membership.is_joint target) Error.config
    refuse_if
        (not (
          all (caught_up n)
            (keep (λ id. not (Membership.is_voter n.membership id)) (Membership.voters target))))
        Error.not_caught_up
    refuse_if (ltb (remaining n) 3) Error.full
    Membership.joint n.membership target

  unfoldable pub reconfigure : Cluster V S → Membership → Cluster V S × Outcome LogId
  unfolding joint_change
  reconfigure n target = propose_membership n (joint_change n target)

  -- The configuration that `finish_reconfiguration` proposes.
  unfoldable pub final_change : Cluster V S → Result Membership
  final_change n = do
    leading n
    refuse_if
        (not (Membership.is_joint (latest_membership n).1)
          || ltb n.state.hard.commit (latest_membership n).0)
        Error.reconfiguring
    ok (Membership.finalized (latest_membership n).1)

  unfoldable pub finish_reconfiguration : Cluster V S → Cluster V S × Outcome LogId
  unfolding final_change
  finish_reconfiguration n = propose_membership n (final_change n)

  -- `Cluster::compact` attaches the configuration at the index.
  unfoldable pub compact_application : Cluster V S → ℕ → S → Cluster V S × Result (Unit {0})
  compact_application n index application =
      compact n index (record { application = application; membership = (membership_at n index).1 })
