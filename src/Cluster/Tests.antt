-- ===== src/Cluster/Tests.antt =====
-- jarl/src/cluster.rs on a leader with one learner, which it promotes.
use hubby.Membership
use hubby.State
use hubby.Membership.Valid
use hubby.Prelude.{
  Bool, List, Option, [], arith, false, map, none, refl, some, true, ℕ, ◌++◌, ◌∷◌, ◌≡◌,
}
use hubby.Types.{Config, Entry, Message, NodeId, Role, ok}
use hubby.Membership.{Member, Membership}
use hubby.State.{HardState, State}
use hubby.State.Restore.{restore_lem}
use hubby.State.Stable.{Keeps, Votes}
use hubby.Node.Propose.{propose, returned}
use hubby.Node.Sound.{Sound}
use hubby.Node.Build.{initial}
use hubby.Node.Runs.{persists, receives, takes_message, ticks}
use hubby.Cluster.{
  Checkpoint, Cluster, Record, cluster_hooks, command, latest_membership, reconfigure, remaining,
  set_learners,
}
use hubby.Cluster.Latest.{reconfigure-blocks}
use hubby.Cluster.Calls.{
  ClusterCall, cluster_calls, cluster_calls_lem, compacts_application, finishes, passes,
  reconfigures,
}
use hubby.Node.Timer.{available}
use hubby.Node.Peers.{matched_of, membership_at}

abbrev member : NodeId → Bool → Bool → Bool → Option Member
member i v o l = some (record { id = i; voter = v; old = o; learner = l })

abbrev first_members : Membership
first_members = record {
  members = member 1 true false false ∷ member 2 false false true ∷ none ∷ none ∷ [];
}

abbrev two_voters : Membership
two_voters = record {
  members = member 1 true false false ∷ member 2 true false false ∷ none ∷ none ∷ [];
}

abbrev settings_of_one : Config
settings_of_one = record {
  id = 1;
  members = 1 ∷ 1 ∷ 1 ∷ 1 ∷ [];
  heartbeat_ticks = 1;
  election_ticks = 2;
  seed = 1;
}

abbrev metadata : HardState
metadata = record { term = 1; voted_for = some 1; commit = 1 }

abbrev log_with : Record ℕ → List (Entry (Record ℕ))
log_with r =
    record { id = record { index = 1; term = 1 }; value = none }
    ∷ record { id = record { index = 2; term = 1 }; value = some r }
    ∷ []

abbrev saved_with : Record ℕ → State (Record ℕ) (Checkpoint ℕ)
saved_with r = record {
  hard = metadata;
  snapshot = none;
  slots = map some (log_with r) ++ none ∷ none ∷ none ∷ none ∷ [];
  len = 2;
}

abbrev leader_with : Record ℕ → Cluster ℕ ℕ
leader_with r = record (initial settings_of_one (saved_with r) first_members (some cluster_hooks)) {
  role = Role.leader;
  matched = 2 ∷ 2 ∷ 0 ∷ 0 ∷ [];
  next = 3 ∷ 3 ∷ 1 ∷ 1 ∷ [];
}

-- A leader whose second entry is a command.
abbrev serving : Cluster ℕ ℕ
serving = leader_with (command 40)

saved_test : State.restore 6 metadata none (log_with (command 40)) ≡ ok (saved_with (command 40))
unfolding State.restore State.restore_entries State.push State.full State.last State.entries
    State.new
saved_test = refl

serving-Sound : Sound serving
serving-Sound = record {
  valid = (restore_lem 6 metadata none (log_with (command 40)) (omega arith) saved_test).0;
  ruling = λ h. omega arith;
  probing = λ t h. cc (h);
}

members_test : Membership.restore 4 (1 ∷ []) [] (2 ∷ []) ≡ ok first_members
unfolding Membership.restore Membership.include_set Membership.include
members_test = refl

members-IsValid : Valid.IsValid first_members
members-IsValid = Valid.restore-IsValid 4 (1 ∷ []) [] (2 ∷ []) members_test

reconfigured : (reconfigure serving two_voters).1 ≡ returned (ok (record { index = 3; term = 1 }))
unfolding reconfigure available Membership.is_joint membership_at State.entries State.last
    Membership.is_voter matched_of Membership.peers remaining Membership.joint
    Membership.include_all Membership.include propose State.push
reconfigured = refl

-- A leader with the log after the change, with no write or message pending, at another commit index.
abbrev changed : Cluster ℕ ℕ
changed = record serving {
  state = record (reconfigure serving two_voters).0.state { hard = metadata };
}

changed_log : State.entries changed.state ≡ State.entries (reconfigure serving two_voters).0.state
unfolding State.entries
changed_log = refl

reconfigure-blocks_example :
    ((latest_membership changed).0 ≡ 3)
    × (Membership.is_joint (latest_membership changed).1 ≡ true)
    × ((reconfigure changed first_members).0 ≡ changed)
    × ((set_learners changed (3 ∷ [])).0 ≡ changed)
reconfigure-blocks_example =
    reconfigure-blocks serving changed two_voters first_members (3 ∷ []) serving-Sound
      members-IsValid reconfigured refl changed_log

-- A promotion, its two configurations and a compaction.
abbrev promotion : List (ClusterCall ℕ ℕ)
promotion =
    reconfigures two_voters
    ∷ passes persists
    ∷ passes takes_message
    ∷ passes (receives (record { from = 2; to = 1; message = Message.replicated 1 3 none }))
    ∷ passes persists
    ∷ finishes
    ∷ compacts_application 1 5
    ∷ passes ticks
    ∷ []

cluster_calls_example :
    Sound (cluster_calls serving promotion)
    × Keeps serving.state (cluster_calls serving promotion).state
    × Votes serving.state (cluster_calls serving promotion).state
cluster_calls_example =
    cluster_calls_lem serving promotion serving-Sound
      (tt, (tt, (tt, ((tt, tt), (tt, (tt, (tt, (tt, tt))))))))
