-- ===== src/Node/Election.antt =====
-- jarl/src/node.rs: campaigns, leadership and the clock.
use hubby.Membership
use hubby.Prelude.{
  Bool, checked_add, false, get_or, if◌then◌else◌, is_some, is_some_and, leb, none, saturating_add,
  set, some, true, ℕ, ◌&&◌, ◌==◌, ◌||◌,
}
use hubby.Types.{Error, Result, Role, err, is_leader, ok}
use hubby.State.{last}
use hubby.Node.{Node, Outbound, fill, width}
use hubby.Node.Timer.{available, follow, reset_election}
use hubby.Node.Peers.{election_quorum, slot_of}
use hubby.Node.Commit.{barrier, broadcast, match_local, send_each}

module _ {V S : Type 0} where
  unfoldable pub become_leader : Node V S → Node V S
  become_leader n =
      let top = (last n.state).index in
      broadcast (
        barrier (
          match_local
            (record n {
              quorum_elapsed = 0;
              active = fill n.active false;
              role = Role.leader;
              leader = some n.config.id;
              elapsed = 0;
              next = fill n.next (saturating_add top 1);
              matched = fill n.matched 0;
            })
            top))

  -- The state of a candidate before it counts its own vote.
  unfoldable pub candidacy : Node V S → ℕ → Node V S
  candidacy n term = reset_election (record n {
    prevoting = none;
    state = record n.state {
      hard = record n.state.hard { term = term; voted_for = some n.config.id };
    };
    dirty = true;
    role = Role.candidate;
    leader = none;
    votes = set (fill n.votes false) n.local true;
  })

  unfoldable pub campaign : Node V S → ℕ → Node V S
  unfolding become_leader candidacy
  campaign n term =
      let c = candidacy n term in
      if election_quorum c
      then become_leader c
      else send_each (width c) 0 Membership.is_voter Outbound.vote c

  -- A probe for a term, which leaves the durable state alone.
  unfoldable pub probe : Node V S → ℕ → Node V S
  probe n term = reset_election (record n {
    role = Role.follower;
    prevoting = some term;
    votes = set (fill n.votes false) n.local true;
  })

  unfoldable pub stand_dynamic : Node V S → ℕ → Node V S
  unfolding campaign probe
  stand_dynamic n term =
      let p = probe n term in
      if election_quorum p
      then campaign p term
      else send_each (width p) 0 Membership.is_voter (Outbound.pre_vote term) p

  -- The election branch of `tick`, for the incremented term.
  unfoldable pub stand : Node V S → ℕ → Node V S
  unfolding stand_dynamic campaign
  stand n term = if is_some n.hooks then stand_dynamic n term else campaign n term

  -- The leader's check that a quorum was active during an election timeout.
  unfoldable pub has_active_quorum : Node V S → Bool
  has_active_quorum n =
      Membership.quorum n.membership
        (λ i. i == n.config.id || is_some_and (slot_of n.peers i) (λ k. get_or n.active k false))

  -- The second half of `tick`: heartbeats of a leader, elections of the others.
  unfoldable pub tick_role : Node V S → Node V S × Result (Unit {0})
  unfolding stand
  tick_role n =
      if is_leader n.role
      then (
        if leb n.config.heartbeat_ticks n.elapsed
            then broadcast (barrier (record n { elapsed = 0 }))
            else n,
        ok tt,
      )
      else if Membership.is_voter n.membership n.config.id && leb n.election_deadline n.elapsed
      then (elim (checked_add n.state.hard.term 1) [
        | none ↦ (n, err Error.exhausted)
        | some term ↦ (stand n term, ok tt)
      ])
      else (n, ok tt)

  -- The clocks that advance first.
  abbrev pub advance_clock : Node V S → Node V S
  advance_clock n =
      let leads = is_some n.hooks && is_leader n.role in
      record n {
        elapsed = saturating_add n.elapsed 1;
        leader_age = saturating_add n.leader_age 1;
        quorum_elapsed = if leads then saturating_add n.quorum_elapsed 1 else n.quorum_elapsed;
      }

  -- A leader of a dynamic cluster whose quorum check is due.
  abbrev pub check_due : Node V S → Bool
  check_due n = is_some n.hooks && is_leader n.role && leb n.config.election_ticks n.quorum_elapsed

  abbrev pub restart_check : Node V S → Node V S
  restart_check n = record n { quorum_elapsed = 0; active = fill n.active false }

  unfoldable pub tick_due : Node V S → Node V S × Result (Unit {0})
  unfolding tick_role has_active_quorum
  tick_due n =
      if check_due n
      then (if has_active_quorum n
          then tick_role (restart_check n)
          else (follow (restart_check n) none, ok tt))
      else tick_role n

  unfoldable pub tick : Node V S → Node V S × Result (Unit {0})
  unfolding tick_due
  tick n = elim (available n) [ err e ↦ (n, err e) | ok _ ↦ tick_due (advance_clock n) ]
