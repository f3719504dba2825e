-- ===== src/Node.antt =====
-- The state of jarl/src/node.rs: one Raft voter with a bounded log and one outgoing message for each
-- peer. The arrays over `N` peers are lists of one length, and `N` is the length of `peers`.
pub mod Timer
pub mod Peers
pub mod Commit
pub mod Election
pub mod Replication
pub mod Step
pub mod Propose
pub mod Outbox
pub mod Build
pub mod Sound
pub mod Evolve
pub mod EvolveStep
pub mod EvolveMessages
pub mod EvolveReceive
pub mod EvolveLocal
pub mod Runs
pub mod Refusals
pub mod Leader
pub mod Elected
pub mod Accepted
pub mod Proposed
pub mod Tests
pub mod Safety
pub mod Liveness
pub mod Fresh
use hubby.Prelude.{Bool, List, Option, length, map, ℕ}
use hubby.Types.{Config, NodeId, Rejection, Role}
use hubby.Membership.{Membership}
use hubby.State.{State}

pub data Outbound : Type 0 where
  pre_vote : (campaign : ℕ) → Outbound
  pre_voted : (campaign : ℕ) (granted : Bool) → Outbound
  vote : Outbound
  voted : (granted : Bool) → Outbound
  replicate : Outbound
  replicated : (index : ℕ) (rejection : Option Rejection) → Outbound

-- `MembershipHooks`: how configurations are read from log entries and snapshots.
pub record MembershipHooks (V S : Type 0) : Type 0 where
  pub of_record : V → Option Membership
  pub of_snapshot : S → Membership

pub record Node (V S : Type 0) : Type 0 where
  pub config : Config
  pub state : State V S
  pub role : Role
  pub leader : Option NodeId
  pub local : ℕ
  pub membership : Membership
  pub bootstrap : Membership
  pub hooks : Option (MembershipHooks V S)
  pub peers : List (Option NodeId)
  pub votes : List Bool
  pub next : List ℕ
  pub matched : List ℕ
  pub outbox : List (Option Outbound)
  pub dirty : Bool
  pub log_from : Option ℕ
  pub snapshot_changed : Bool
  pub elapsed : ℕ
  pub election_deadline : ℕ
  pub random : ℕ
  pub prevoting : Option ℕ
  pub leader_age : ℕ
  pub quorum_elapsed : ℕ
  pub active : List Bool
  pub extra_reply : Option (NodeId × Outbound)
  pub request_from : Option NodeId

-- The constant `N`.
abbrev pub width : {V S : Type 0} → Node V S → ℕ
width n = length n.peers

-- `[v; N]` in place of an array, as `fill` leaves it.
abbrev pub fill {ℓ κ} : {A : Type ℓ} {B : Type κ} → List A → B → List B
fill xs v = map (λ _. v) xs
