-- ===== src/Node/Leader.antt =====
-- What gives a leader of jarl/src/node.rs the right to commit.
use hubby.Membership.{quorum, quorum_index, voters}
use hubby.Membership.QuorumIndex.{quorum_index-quorum}
use hubby.Prelude.{
  Bool-cases, ap, arith, false, inl, inr, is_some_and, leb, length, ltb, ltb_iff, refl, sym, true,
  ℕ, ◌<◌, ◌==◌, ◌∙◌, ◌≡◌,
}
use hubby.State.Moves.{with_commit}
use hubby.State.{State, id_at}
use hubby.Node.{Node}
use hubby.Node.Commit.{advance_commit, commit_to, commits}
use hubby.Node.Peers.{matched_of}
use hubby.Node.Sound.{refresh_membership-Soft}

module _ {V S : Type 0} where
  commit_to_reaches :
      (n : Node V S) (c : ℕ) → n.state.hard.commit < c → (commit_to n c).state.hard.commit ≡ c
  unfolding commit_to
  commit_to_reaches n c h =
      let n1 : Node V S = record n { state = with_commit n.state c; dirty = true } in
      let e : ltb n.state.hard.commit c ≡ true = (ltb_iff n.state.hard.commit c).1 h in
      rw (e, commit_to) (ap (λ (s : State V S). s.hard.commit) ((refresh_membership-Soft n1).state))

  -- When a node whose configuration has a voter advances its commit index, the new index is
  -- higher, the entry there is of the node's own term, and a quorum of its configuration, both
  -- majorities of a joint one, has matched it.
  pub advance_commit-quorum :
      (n : Node V S)
      → 0 < length (voters n.membership)
      → (advance_commit n).1 ≡ true
      → (n.state.hard.commit < (advance_commit n).0.state.hard.commit)
        × (is_some_and
              (id_at n.state (advance_commit n).0.state.hard.commit)
              (λ id. id.term == n.state.hard.term)
            ≡ true)
        × (quorum n.membership (λ i. leb (advance_commit n).0.state.hard.commit (matched_of n i))
            ≡ true)
  unfolding advance_commit
  advance_commit-quorum n v h =
      let c : ℕ = quorum_index n.membership (matched_of n) in
      elim (Bool-cases (commits n c)) [
        | inr less ↦
            let no : (advance_commit n).1 ≡ false = rw (less, advance_commit) refl in
            absurd (cc (h, no))
        | inl more ↦
            let lt : n.state.hard.commit < c = ground (arith, more) in
            let own : is_some_and (id_at n.state c) (λ id. id.term == n.state.hard.term) ≡ true =
              ground (arith, more) in
            let top : leb c c ≡ true = ground arith in
            rw (more, advance_commit, commit_to_reaches n c lt)
              (lt, own, sym (quorum_index-quorum n.membership (matched_of n) c v) ∙ top)
      ]
