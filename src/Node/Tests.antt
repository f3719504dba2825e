-- ===== src/Node/Tests.antt =====
-- jarl/src/node.rs on a cluster of one voter, and on one node of three.
use hubby.Membership
use hubby.State
use hubby.Node.Build
use hubby.Prelude.{
  Bool, List, [], arith, false, is_some_and, leb, map, none, refl, some, true, ℕ, ◌++◌, ◌+◌, ◌<◌,
  ◌==◌, ◌∷◌, ◌≡◌,
}
use hubby.State.{
  HardState, State, entries, full, get, holds_id, id_at, last, push, restore, restore_entries,
  truncate, truncate_loop,
}
use hubby.State.Restore.{restore-entries, restore_lem}
use hubby.State.Termination.{goes_on, truncate-ends}
use hubby.State.Valid.{IsValid}
use hubby.Types.{Config, Entry, LogId, Message, Role, genesis, is_leader, ok}
use hubby.Membership.{Membership, insert_sorted, is_joint, median, quorum, quorum_index, sort}
use hubby.Node.{Node}
use hubby.Node.Build.{initial}
use hubby.State.Stable.{Keeps, Votes}
use hubby.Node.Timer.{available, reset_election}
use hubby.Node.Peers.{election_quorum, matched_of, refresh_membership}
use hubby.Node.Commit.{advance_commit, barrier, broadcast, commit_to, send, send_each}
use hubby.Node.Election.{become_leader, campaign, candidacy}
use hubby.Node.Step.{on_voted}
use hubby.Node.Propose.{admit_proposals, propose_admitted, propose_many, push_values, settle}
use hubby.Node.Sound.{Sound}
use hubby.Node.Runs.{Call, calls, compacts, persists, proposes, receives, takes_message, ticks}
use hubby.Node.Refusals.{accepted, propose_many_refused}
use hubby.Node.Accepted.{Took, append-Took}
use hubby.Node.EvolveStep.{Continues}
use hubby.Node.Replication.{append}
use hubby.Node.Leader.{advance_commit-quorum}
use hubby.Node.Elected.{campaign-quorum, polled, supporters_at}
use hubby.Node.Safety.{calls-Keeps, calls-Sound, calls-Votes, new-Sound}

abbrev alone : Config
alone = record { id = 1; members = 1 ∷ []; heartbeat_ticks = 1; election_ticks = 2; seed = 7 }

-- A checkpoint in term 1 with a committed entry of the two that it holds.
abbrev stored : HardState
stored = record { term = 1; voted_for = some 1; commit = 1 }

abbrev held : List (Entry ℕ)
held =
    record { id = record { index = 1; term = 1 }; value = none }
    ∷ record { id = record { index = 2; term = 1 }; value = some 40 }
    ∷ []

abbrev checkpoint : State ℕ ℕ
checkpoint = record {
  hard = stored;
  snapshot = none;
  slots = map some held ++ none ∷ none ∷ [];
  len = 2;
}

abbrev one_voter : Membership
one_voter = record {
  members = some (record { id = 1; voter = true; old = false; learner = false }) ∷ [];
}

abbrev started : Node ℕ ℕ
started = reset_election (refresh_membership (initial alone checkpoint one_voter none))

restore_test : restore 4 stored none held ≡ ok checkpoint
unfolding restore restore_entries push full last entries State.new
restore_test = refl

checkpoint-IsValid : IsValid checkpoint
checkpoint-IsValid = (restore_lem 4 stored none held (omega arith) restore_test).0

restore_lem_example :
    IsValid checkpoint
    × (entries checkpoint ≡ held)
    × (checkpoint.hard ≡ stored)
    × (checkpoint.snapshot ≡ none)
restore_lem_example = restore_lem 4 stored none held (omega arith) restore_test

restore-entries_example : restore 4 stored none (entries checkpoint) ≡ ok checkpoint
restore-entries_example = restore-entries checkpoint checkpoint-IsValid

new_test : Build.new alone checkpoint ≡ ok started
unfolding Build.new Build.build Build.repeats Membership.new Membership.restore
    Membership.include_set Membership.include Membership.peers
new_test = refl

started-Sound : Sound started
started-Sound = new-Sound alone checkpoint checkpoint-IsValid new_test

-- An election, a proposal, a batch, a compaction and a message of a later term.
abbrev script : List (Call ℕ ℕ)
script =
    ticks
    ∷ ticks
    ∷ ticks
    ∷ ticks
    ∷ persists
    ∷ proposes (some 41 ∷ [])
    ∷ persists
    ∷ compacts 2 40
    ∷ persists
    ∷ receives (record { from = 2; to = 1; message = Message.vote 9 genesis })
    ∷ takes_message
    ∷ []

calls-Sound_example : Sound (calls started script)
calls-Sound_example = calls-Sound started script started-Sound (tt, tt)

calls-Keeps_example : Keeps started.state (calls started script).state
calls-Keeps_example = calls-Keeps started script started-Sound (tt, tt)

calls-Votes_example : Votes started.state (calls started script).state
calls-Votes_example = calls-Votes started script started-Sound (tt, tt)

-- The only voter leads.
abbrev leading : Node ℕ ℕ
leading = record (initial alone checkpoint one_voter none) {
  role = Role.leader;
  matched = 2 ∷ [];
  next = 3 ∷ [];
}

leading-Sound : Sound leading
leading-Sound = record {
  valid = checkpoint-IsValid;
  ruling = λ h. omega arith;
  probing = λ t h. cc (h);
}

-- The second of two values unwinds from its construction.
unwinds : accepted (propose_many leading 2 (some 41 ∷ none ∷ [])).1 ≡ false
unfolding propose_many admit_proposals propose_admitted push_values settle push full last entries
    available
unwinds = refl

propose_many_refused_example : (propose_many leading 2 (some 41 ∷ none ∷ [])).0 ≡ leading
propose_many_refused_example =
    propose_many_refused leading 2 (some 41 ∷ none ∷ []) leading-Sound unwinds

advances : (advance_commit leading).1 ≡ true
unfolding advance_commit commit_to quorum_index median sort insert_sorted is_joint matched_of id_at
    get Membership.peers
advances = refl

advance_commit-quorum_example :
    (1 < (advance_commit leading).0.state.hard.commit)
    × (is_some_and
          (id_at checkpoint (advance_commit leading).0.state.hard.commit)
          (λ id. id.term == 1)
        ≡ true)
    × (quorum one_voter
          (λ i. leb (advance_commit leading).0.state.hard.commit (matched_of leading i))
        ≡ true)
advance_commit-quorum_example = advance_commit-quorum leading (omega arith) advances

-- A cluster of three voters.
abbrev three : Config
three = record {
  id = 1;
  members = 1 ∷ 2 ∷ 3 ∷ [];
  heartbeat_ticks = 1;
  election_ticks = 2;
  seed = 7;
}

abbrev idle : Node ℕ ℕ
idle =
    initial three checkpoint
      (record {
        members =
            map (λ i. some (record { id = i; voter = true; old = false; learner = false }))
              three.members;
      })
      none

-- Node 3 refuses, and node 2 grants.
abbrev ballots : List (ℕ × Bool)
ballots = (2, false) ∷ (1, true) ∷ []

elected : is_leader (polled (campaign idle 2) ballots).role ≡ true
unfolding campaign candidacy reset_election send_each send on_voted election_quorum quorum
    Membership.peers become_leader broadcast barrier last Membership.contains Membership.is_voter
    full push quorum_index matched_of
elected = refl

campaign-quorum_example :
    quorum idle.membership (supporters_at idle.peers idle.local ballots) ≡ true
campaign-quorum_example = campaign-quorum idle 2 ballots elected

-- The next entry from a leader that has committed it.
abbrev second_id : LogId
second_id = record { index = 2; term = 1 }

abbrev third : Entry ℕ
third = record { id = record { index = 3; term = 1 }; value = some 42 }

third-Continues : Continues 1 second_id third
third-Continues = record {
  next = refl;
  rising = omega arith;
  positive = omega arith;
  known = omega arith;
  small = omega arith;
}

abbrev following : Node ℕ ℕ
following = initial alone checkpoint one_voter none

following-Sound : Sound following
following-Sound = record {
  valid = checkpoint-IsValid;
  ruling = λ h. cc (h);
  probing = λ t h. cc (h);
}

accepts : (append following second_id (some third) 3).1.1 ≡ none
unfolding append holds_id full push State.truncate last
accepts = refl

append-Took_example :
    (holds_id checkpoint second_id ≡ true)
    × Took following third 3 2 (append following second_id (some third) 3)
append-Took_example =
    append-Took following second_id third 3 2 following-Sound third-Continues (omega arith) accepts

-- A node of one voter before its timer is set.
abbrev fresh : Node ℕ ℕ
fresh = initial alone checkpoint one_voter none

truncate-ends_example :
    (goes_on 2 (truncate checkpoint 2) ≡ false)
    × (truncate_loop (2 + 5) 2 checkpoint ≡ truncate checkpoint 2)
truncate-ends_example = truncate-ends checkpoint 2 5
