-- ===== src/Cluster/Change.antt =====
-- What a change of membership in jarl/src/cluster.rs proposes.
use hubby.Membership
use hubby.State
use hubby.Node.Peers.{matched_of}
use hubby.Prelude.{Bool, all, arith, keep, leb, ltb, not, refl, some, true, ◌||◌, ◌≡◌}
use hubby.Types.{>>=-eq-ok, LogId, NodeId, Result, err, ok, ok_injective, refuse_if-eq-ok}
use hubby.Membership.{Membership}
use hubby.Node.Propose.{first_proposed, returned}
use hubby.Node.Sound.{Sound}
use hubby.Node.Proposed.{propose-Logs}
use hubby.State.{State, get}
use hubby.Cluster.{
  Cluster, caught_up, change_available, configuration, joint_change, propose_membership, remaining,
}

module _ {V S : Type 0} where
  -- The node has a voter already, or knows that it holds the last entry.
  abbrev pub is_current : Cluster V S → NodeId → Bool
  is_current n i =
      Membership.is_voter n.membership i || leb (State.last n.state).index (matched_of n i)

  pub propose_membership-eq-ok :
      (n : Cluster V S) (r : Result Membership) {id : LogId}
      → (propose_membership n r).1 ≡ returned (ok id)
      → (m : Membership) × (r ≡ ok m)
  propose_membership-eq-ok n (err e) h = cc
  propose_membership-eq-ok n (ok m) h = (m, refl)

  -- What a successful proposal of a configuration logs.
  pub propose_membership-Logs :
      (n : Cluster V S) (r : Result Membership) (m : Membership) {id : LogId}
      → r ≡ ok m
      → Sound n
      → (propose_membership n r).1 ≡ returned (ok id)
      → (id ≡ first_proposed n)
        × (get (propose_membership n r).0.state (first_proposed n).index
            ≡ some (record { id = first_proposed n; value = some (configuration m) }))
  propose_membership-Logs n (err e) m made v h = cc (made)
  propose_membership-Logs n (ok k) m made v h =
      rw (← ok_injective made) (propose-Logs n (configuration k) v h)

  pub joint_change-eq-ok :
      (n : Cluster V S) (target : Membership) {j : Membership}
      → joint_change n target ≡ ok j
      → (all
            (caught_up n)
            (keep (λ i. not (Membership.is_voter n.membership i)) (Membership.voters target))
          ≡ true)
        × (Membership.joint n.membership target ≡ ok j)
  unfolding joint_change
  joint_change-eq-ok n target made =
      let (_, first, e1) = >>=-eq-ok (change_available n) _ made in
      let (_, e2) = refuse_if-eq-ok (Membership.is_joint target) _ _ e1 in
      let (ready, e3) =
        refuse_if-eq-ok
          (not (
            all (caught_up n)
              (keep (λ i. not (Membership.is_voter n.membership i)) (Membership.voters target))))
          _ _ e2 in
      let (_, e4) = refuse_if-eq-ok (ltb (remaining n) 3) _ _ e3 in (ground (arith, ready), e4)
