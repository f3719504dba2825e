-- ===== src/Cluster/Latest.antt =====
-- The latest configuration after a change of membership in jarl/src/cluster.rs.
use hubby.Membership.{Member, Membership, is_joint, joint, occupied, voters}
use hubby.Types.{>>=-eq-ok, Entry, LogId, NodeId, Result, err, ok, ok_injective, refuse_if-eq-ok}
use hubby.State.Log.{Chain, entries-Holds, last_id-index, last_id-snoc}
use hubby.State.MovesValid.{last_of}
use hubby.Cluster.Change.{joint_change-eq-ok, propose_membership-Logs, propose_membership-eq-ok}
use hubby.Cluster.{
  Cluster, Record, change_available, cluster_hooks, configuration, configuration_of, joint_change,
  latest_membership, leading, learners_change, propose_membership, reconfigure, set_learners,
}
use hubby.State.{base, entries, last, last_id}
use hubby.Node.Propose.{returned}
use hubby.Prelude.{
  List, Option, [], and_then, any, ap, arith, count, false, keep, leb, length, ltb, map_or, refl,
  some, suc, sym, take_while, true, ℕ, ◌++◌, ◌+◌, ◌<◌, ◌||◌, ◌∙◌, ◌∷◌, ◌≡◌, ◌≤◌,
}
use hubby.Node.Peers.{latest, membership_at}
use hubby.Membership.Joint.{joint-Joined, old_in}
use hubby.Membership.Valid.{IsValid}
use hubby.Node.Proposed.{propose-entries, proposed}
use hubby.Node.Sound.{Sound}

module _ {V : Type 0} where
  latest-snoc :
      (f : V → Option Membership) (r : ℕ × Membership) (es : List (Entry V)) (e : Entry V) (v : V)
      (m : Membership)
      → e.value ≡ some v
      → f v ≡ some m
      → latest f r (es ++ e ∷ []) ≡ (e.id.index, m)
  unfolding latest
  latest-snoc f r [] e v m held read = rw (held, read) refl
  latest-snoc f r (x ∷ es) e v m held read =
      latest-snoc f (map_or (and_then x.value f) r (λ k. (x.id.index, k))) es e v m held read

  take_while-snoc :
      (b : LogId) (es : List (Entry V)) (e : Entry V) (i : ℕ)
      → Chain b es
      → (last_id b es).index ≤ i
      → e.id.index ≤ i
      → take_while (λ x. leb x.id.index i) (es ++ e ∷ []) ≡ es ++ e ∷ []
  take_while-snoc b [] e i c h l =
      let within : leb e.id.index i ≡ true = ground (arith, l) in rw within refl
  take_while-snoc b (x ∷ es) e i c h l =
      let top = last_id-index x.id es c.3 in
      let within : leb x.id.index i ≡ true = ground (arith, h, top) in
      rw within (ap (λ xs. x ∷ xs) (take_while-snoc x.id es e i c.3 h l))

any_old : (ks : List Member) → 0 < count (old_in (λ i. true)) ks → any (λ k. k.old) ks ≡ true
any_old [] h = absurd (omega arith)
any_old (k ∷ ks) h = ground (arith, h, any_old ks)

keep_all : (ids : List NodeId) → length (keep (λ i. true) ids) ≡ length ids
keep_all [] = refl
keep_all (i ∷ ids) = ap suc (keep_all ids)

-- A joint configuration of one that has a voter is joint.
joint-is_joint :
    (c t : Membership) {j : Membership} → IsValid c → joint c t ≡ ok j → is_joint j ≡ true
unfolding is_joint
joint-is_joint c t {j} v e =
    let s = (joint-Joined c t v.unique e).old_tally (λ i. true) in
    any_old (occupied j) (omega (arith, s, keep_all (voters c), v.nonempty))

module _ {V S : Type 0} where
  propose_membership-entries :
      (n : Cluster V S) (r : Result Membership) (m : Membership) {id : LogId}
      → r ≡ ok m
      → Sound n
      → (propose_membership n r).1 ≡ returned (ok id)
      → entries (propose_membership n r).0.state
        ≡ entries n.state ++ proposed n (configuration m) ∷ []
  propose_membership-entries n (err e) m made v h = cc (made)
  propose_membership-entries n (ok k) m made v h =
      rw (← ok_injective made) (propose-entries n (configuration k) v h)

  latest_membership-snoc :
      (m : Cluster V S) (b : LogId) (es : List (Entry (Record V))) (e : Entry (Record V))
      (j : Membership)
      → Chain b es
      → e.id.index ≡ (last_id b es).index + 1
      → e.value ≡ some (configuration j)
      → m.hooks ≡ some cluster_hooks
      → entries m.state ≡ es ++ e ∷ []
      → latest_membership m ≡ (e.id.index, j)
  unfolding membership_at last
  latest_membership-snoc m b es e j c next held hooks log =
      let i : ℕ = e.id.index in
      let lastm : (last m.state).index ≡ i =
        ap (λ (l : LogId). l.index)
          (ap (last_id (base m.state)) log ∙ last_id-snoc (base m.state) es e) in
      let start : ℕ × Membership =
        map_or m.state.snapshot (0, m.bootstrap) (λ s. (s.last.index, s.value.membership)) in
      let here : membership_at m i
          ≡ latest configuration_of start (take_while (λ x. leb x.id.index i) (entries m.state)) =
        rw (hooks, membership_at) refl in
      ap (membership_at m) lastm
      ∙ here
      ∙ ap (λ xs. latest configuration_of start (take_while (λ x. leb x.id.index i) xs)) log
      ∙ ap (latest configuration_of start)
          (take_while-snoc b es e i c (omega (arith, next)) (omega arith))
      ∙ latest-snoc configuration_of start es e (configuration j) j held refl

  unstable_refuses :
      (m : Cluster V S) {u : Unit {0}}
      → change_available m ≡ ok u
      → is_joint (latest_membership m).1 ≡ false
  unfolding change_available
  unstable_refuses m e =
      let (_, first, e1) = >>=-eq-ok (leading m) _ e in
      let (settled, e2) =
        refuse_if-eq-ok
          (is_joint (latest_membership m).1 || ltb m.state.hard.commit (latest_membership m).0) _ _
          e1 in
      ground (arith, settled)

  nothing_proposed :
      (m : Cluster V S) (r : Result Membership)
      → ((k : Membership) → r ≡ ok k → ⊥)
      → (propose_membership m r).0 ≡ m
  nothing_proposed m (err e) h = refl
  nothing_proposed m (ok k) h = absurd (h k refl)

  blocked :
      (m : Cluster V S) → is_joint (latest_membership m).1 ≡ true → change_available m ≡ ok tt → ⊥
  blocked m tight e = let stable = unstable_refuses m e in cc (tight, stable)

  joint_change-available :
      (m : Cluster V S) (t : Membership) {k : Membership}
      → joint_change m t ≡ ok k
      → change_available m ≡ ok tt
  unfolding joint_change
  joint_change-available m t e = let (u, p, _) = >>=-eq-ok (change_available m) _ e in p

  learners_change-available :
      (m : Cluster V S) (ids : List NodeId) {k : Membership}
      → learners_change m ids ≡ ok k
      → change_available m ≡ ok tt
  unfolding learners_change
  learners_change-available m ids e = let (u, p, _) = >>=-eq-ok (change_available m) _ e in p

  -- Where the node is sound, its configuration is valid and `reconfigure` succeeds, then on any node
  -- of a dynamic cluster that has the entries of the result, whatever it has committed, the latest
  -- configuration is joint and at the index of the change, and neither `reconfigure` nor
  -- `set_learners` logs another one: both leave the node as it was.
  pub reconfigure-blocks :
      (n m : Cluster V S) (target other : Membership) (ids : List NodeId) {id : LogId}
      → Sound n
      → IsValid n.membership
      → (reconfigure n target).1 ≡ returned (ok id)
      → m.hooks ≡ some cluster_hooks
      → entries m.state ≡ entries (reconfigure n target).0.state
      → ((latest_membership m).0 ≡ id.index)
        × (is_joint (latest_membership m).1 ≡ true)
        × ((reconfigure m other).0 ≡ m)
        × ((set_learners m ids).0 ≡ m)
  unfolding reconfigure set_learners joint_change learners_change last
  reconfigure-blocks n m target other ids {id} s v h hooks log =
      let (j, made) = propose_membership-eq-ok n (joint_change n target) h in
      let joined = (joint_change-eq-ok n target made).1 in
      let same_id = (propose_membership-Logs n (joint_change n target) j made s h).0 in
      let e : Entry (Record V) = proposed n (configuration j) in
      let w = s.valid in
      let held : entries m.state ≡ w.log ++ e ∷ [] =
        log
        ∙ propose_membership-entries n (joint_change n target) j made s h
        ∙ ap (λ xs. xs ++ e ∷ []) (entries-Holds n.state w.log w.room w.holds) in
      let top = ap (λ (l : LogId). l.index) (last_of n.state w) in
      let now : latest_membership m ≡ (e.id.index, j) =
        latest_membership-snoc m (base n.state) w.log e j w.chain (omega (arith, top)) refl hooks
          held in
      let tight : is_joint (latest_membership m).1 ≡ true =
        ap (λ r. is_joint r.1) now ∙ joint-is_joint n.membership target v joined in
      (
        ap (λ r. r.0) now ∙ sym (ap (λ (l : LogId). l.index) same_id),
        tight,
        nothing_proposed m (joint_change m other)
            (λ k p. blocked m tight (joint_change-available m other p)),
        nothing_proposed m (learners_change m ids)
            (λ k p. blocked m tight (learners_change-available m ids p)),
      )
