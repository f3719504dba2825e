-- ===== src/Node/Evolve.antt =====
-- The local operations of jarl/src/node.rs change the checkpoint by moves alone, and keep the
-- invariant of the node.
use hubby.Prelude.{
  Bool-cases, Option-cases, ap, arith, checked_add, checked_add-eq-some, inl, inr, is_some,
  is_some_and, is_some_and-eq-true, leb, ltb, ltb_iff, none, refl, some, some_injective, subst, sym,
  true, ℕ, ◌&&◌, ◌<◌, ◌==◌, ◌∙◌, ◌≡◌, ◌≤◌,
}
use hubby.State.{HardState, State, base, id_at, last, push}
use hubby.State.Valid.{IsValid}
use hubby.State.Moves.{
  Follows, Moves, Moves-eq, Moves-one, Moves-trans, commit_up, extend, new_term, stay, with_commit,
}
use hubby.State.MovesValid.{Moves-IsValid, id_at-id_of, last_of, push-room}
use hubby.State.Index.{id_of-eq-some}
use hubby.Types.{Entry, LogId, Result-cases, Role, is_leader, ok}
use hubby.Membership.{is_voter, quorum_index}
use hubby.Node.{Node, Outbound, width}
use hubby.Node.Peers.{election_quorum, matched_of}
use hubby.Node.Commit.{
  advance_commit, barrier, barrier_entry, broadcast, commit_to, commits, match_local,
}
use hubby.Node.Election.{
  advance_clock, become_leader, campaign, candidacy, check_due, has_active_quorum, probe,
  restart_check, stand, stand_dynamic, tick, tick_due, tick_role,
}
use hubby.Node.Sound.{
  Calm, Evolves, Soft, Sound, broadcast-Soft, follow-Soft, is_ruling, refresh_membership-Soft,
  reset_election-Soft, send_each-Soft, soft,
}
use hubby.Node.Timer.{available, reset_election}

module _ {V S : Type 0} where
  pub Evolves-refl : (n : Node V S) → Sound n → Evolves n n
  Evolves-refl n v = record { moves = stay; sound = v }

  -- One evolution after another.
  pub Evolves-then : {a b c : Node V S} → Evolves a b → (Sound b → Evolves b c) → Evolves a c
  Evolves-then p f =
      let q = f p.sound in record { moves = Moves-trans p.moves q.moves; sound = q.sound }

  -- Moves within a term, by a node that takes no new role of power.
  pub grows :
      (n n' : Node V S)
      → Sound n
      → Moves n.state n'.state
      → n'.state.hard.term ≡ n.state.hard.term
      → Calm n n'
      → Evolves n n'
  grows n n' v m e c = record {
    moves = m;
    sound = record {
      valid = Moves-IsValid m v.valid;
      ruling = λ h. rw e (v.ruling (c.rules h));
      probing = λ t h. rw e (v.probing t (c.probes t h));
    };
  }

  pub Soft-Evolves : {n n' : Node V S} → Soft n n' → Sound n → Evolves n n'
  Soft-Evolves {n} {n'} s v =
      grows n n' v (Moves-eq s.state) (ap (λ (x : State V S). x.hard.term) s.state) s.calm

  pub then-Soft : {a b c : Node V S} → Evolves a b → Soft b c → Evolves a c
  then-Soft p s = Evolves-then p (Soft-Evolves s)

  Calm-fields : (n n' : Node V S) → n'.role ≡ n.role → n'.prevoting ≡ n.prevoting → Calm n n'
  Calm-fields n n' r p = record { rules = λ h. rw (← r) h; probes = λ t h. rw (← p) h }

  pub id_at-le-last :
      (s : State V S) (i : ℕ) {j : LogId} → IsValid s → id_at s i ≡ some j → i ≤ (last s).index
  id_at-le-last s i {j} v e =
      let found = id_of-eq-some (base s) v.log i j v.chain (sym (id_at-id_of s v i) ∙ e) in
      rw (last_of s v) found.2

  -- Committing what the log holds.
  pub commit_to-Evolves :
      (n : Node V S) (c : ℕ) → c ≤ (last n.state).index → Sound n → Evolves n (commit_to n c)
  unfolding commit_to
  commit_to-Evolves n c h v = elim (Bool-cases (ltb n.state.hard.commit c)) [
    | inl more ↦
        let n1 : Node V S = record n { state = with_commit n.state c; dirty = true } in
        let lt = (ltb_iff n.state.hard.commit c).0 more in
        rw (more, commit_to)
          (then-Soft
            (grows n n1 v (Moves-one (commit_up c lt h refl)) refl (Calm-fields n n1 refl refl))
            (refresh_membership-Soft n1))
    | inr less ↦ rw (less, commit_to) (Evolves-refl n v)
  ]

  pub advance_commit-Evolves : (n : Node V S) → Sound n → Evolves n (advance_commit n).0
  unfolding advance_commit
  advance_commit-Evolves n v =
      let c : ℕ = quorum_index n.membership (matched_of n) in
      elim (Bool-cases (commits n c)) [
        | inl more ↦
            let own : is_some_and (id_at n.state c) (λ id. id.term == n.state.hard.term) ≡ true =
              ground (arith, more) in
            let (j, found, _) = is_some_and-eq-true (id_at n.state c) _ own in
            rw (more, advance_commit)
              (commit_to-Evolves n c (id_at-le-last n.state c v.valid found) v)
        | inr less ↦ rw (less, advance_commit) (Evolves-refl n v)
      ]

  -- The entry of `barrier` may follow the log.
  barrier_entry-Follows :
      (n : Node V S) (e : Entry V)
      → Sound n
      → is_ruling n.role ≡ true
      → barrier_entry n ≡ some e
      → Follows n.state e
  barrier_entry-Follows n e v r h =
      let t = v.ruling r in
      let known : (last n.state).term ≤ n.state.hard.term =
        rw (last_of n.state v.valid) v.valid.terms in
      record {
        next = ground (arith, h);
        rising = ground (arith, h);
        positive = ground (arith, h);
        known = ground (arith, h);
        small = ground (arith, h);
      }

  -- A node after an entry of its own has been pushed.
  abbrev pushed : Node V S → State V S → ℕ → Node V S
  pushed n s i = match_local (record n { state = s; dirty = true; log_from = some i }) i

  pub push-frame :
      (s : State V S) (e : Entry V) {t : State V S} → IsValid s → push s e ≡ ok t → t.hard ≡ s.hard
  push-frame s e v p = let (_, _, eh, _) = push-room s v.log v.room e v.holds p in eh

  pushed-Evolves :
      (n : Node V S) (e : Entry V) {s : State V S}
      → Sound n
      → Follows n.state e
      → push n.state e ≡ ok s
      → Evolves n (pushed n s e.id.index)
  pushed-Evolves n e {s} v f p =
      grows n (pushed n s e.id.index) v (Moves-one (extend e f p))
        (ap (λ (h : HardState). h.term) (push-frame n.state e v.valid p))
        (Calm-fields n (pushed n s e.id.index) refl refl)

  pub barrier-Evolves : (n : Node V S) → is_ruling n.role ≡ true → Sound n → Evolves n (barrier n)
  unfolding barrier
  barrier-Evolves n r v = elim (Option-cases (barrier_entry n)) [
    | inl nothing ↦ rw (nothing, barrier) (Evolves-refl n v)
    | inr (e, some_e) ↦ elim (Result-cases (push n.state e)) [
      | inl (s, p) ↦
          rw (some_e, barrier, p)
            (Evolves-then (pushed-Evolves n e v (barrier_entry-Follows n e v r some_e) p)
              (advance_commit-Evolves (pushed n s e.id.index)))
      | inr (x, p) ↦ rw (some_e, barrier, p) (Evolves-refl n v)
    ]
  ]

  pub become_leader-Evolves :
      (n : Node V S) → is_ruling n.role ≡ true → Sound n → Evolves n (become_leader n)
  unfolding become_leader
  become_leader-Evolves n r v =
      then-Soft
        (Evolves-then
          (record {
            moves = stay;
            sound = record { valid = v.valid; ruling = λ _. v.ruling r; probing = v.probing };
          })
          (barrier-Evolves _ refl))
        (broadcast-Soft _)

  candidacy_role : (n : Node V S) (term : ℕ) → (candidacy n term).role ≡ Role.candidate
  unfolding candidacy reset_election
  candidacy_role n term = refl

  candidacy-Evolves :
      (n : Node V S) (term : ℕ) → n.state.hard.term < term → Sound n → Evolves n (candidacy n term)
  unfolding candidacy
  candidacy-Evolves n term h v =
      let m = Moves-one (new_term term (some n.config.id) h refl) in
      then-Soft
        (record {
          moves = m;
          sound = record {
            valid = Moves-IsValid m v.valid;
            ruling = λ _. omega arith;
            probing = λ t e. cc (e);
          };
        })
        (reset_election-Soft _)

  -- A campaign for a later term.
  pub campaign-Evolves :
      (n : Node V S) (term : ℕ) → n.state.hard.term < term → Sound n → Evolves n (campaign n term)
  unfolding campaign
  campaign-Evolves n term h v =
      let c : Node V S = candidacy n term in
      let p = candidacy-Evolves n term h v in
      let r : is_ruling c.role ≡ true = ap is_ruling (candidacy_role n term) in
      elim (Bool-cases (election_quorum c)) [
        | inl won ↦ rw (won, campaign) (Evolves-then p (become_leader-Evolves c r))
        | inr open_ ↦
            rw (open_, campaign) (then-Soft p (send_each-Soft (width c) 0 _ Outbound.vote c))
      ]

  probe_state : (n : Node V S) (term : ℕ) → (probe n term).state ≡ n.state
  unfolding probe reset_election
  probe_state n term = refl

  probe-Evolves :
      (n : Node V S) (term : ℕ) → n.state.hard.term < term → Sound n → Evolves n (probe n term)
  unfolding probe
  probe-Evolves n term h v =
      then-Soft
        (record {
          moves = stay;
          sound = record {
            valid = v.valid;
            ruling = λ e. cc (e);
            probing = λ t e.
                let e' : term ≡ t = some_injective e in subst (λ x. n.state.hard.term < x) e' h;
          };
        })
        (reset_election-Soft _)

  stand-Evolves :
      (n : Node V S) (term : ℕ) → n.state.hard.term < term → Sound n → Evolves n (stand n term)
  unfolding stand stand_dynamic
  stand-Evolves n term h v = elim (Bool-cases (is_some n.hooks)) [
    | inr fixed ↦ rw (fixed, stand) (campaign-Evolves n term h v)
    | inl dynamic ↦
        let p : Node V S = probe n term in
        let q = probe-Evolves n term h v in
        let h' : p.state.hard.term < term = rw (probe_state n term) h in
        elim (Bool-cases (election_quorum p)) [
          | inl alone ↦
              rw (dynamic, stand, alone, stand_dynamic)
                (Evolves-then q (campaign-Evolves p term h'))
          | inr others ↦
              rw (dynamic, stand, others, stand_dynamic)
                (then-Soft q (send_each-Soft (width p) 0 _ (Outbound.pre_vote term) p))
        ]
  ]

  heartbeat-Evolves :
      (n : Node V S)
      → is_leader n.role ≡ true
      → Sound n
      → Evolves n (broadcast (barrier (record n { elapsed = 0 })))
  heartbeat-Evolves n r v =
      let n1 : Node V S = record n { elapsed = 0 } in
      let p : Evolves n n1 = Soft-Evolves (soft n n1 refl refl refl) v in
      then-Soft (Evolves-then p (barrier-Evolves n1 (ground (arith, r)))) (broadcast-Soft _)

  -- The tests of the second half of `tick`.
  tick_role-Evolves : (n : Node V S) → Sound n → Evolves n (tick_role n).0
  unfolding tick_role
  tick_role-Evolves n v = elim (Bool-cases (is_leader n.role)) [
    | inl leads ↦ elim (Bool-cases (leb n.config.heartbeat_ticks n.elapsed)) [
      | inl due ↦ rw (leads, due, tick_role) (heartbeat-Evolves n leads v)
      | inr early ↦ rw (leads, early, tick_role) (Evolves-refl n v)
    ]
    | inr follows ↦
        elim (Bool-cases (is_voter n.membership n.config.id && leb n.election_deadline n.elapsed)) [
          | inr waits ↦ rw (follows, waits, tick_role) (Evolves-refl n v)
          | inl due ↦ elim (Option-cases (checked_add n.state.hard.term 1)) [
            | inl last_term ↦ rw (follows, due, last_term, tick_role) (Evolves-refl n v)
            | inr (term, e) ↦
                let f = checked_add-eq-some n.state.hard.term 1 e in
                rw (follows, due, e, tick_role) (stand-Evolves n term (omega (arith, f)) v)
          ]
        ]
  ]

  tick_due-Evolves : (n : Node V S) → Sound n → Evolves n (tick_due n).0
  unfolding tick_due
  tick_due-Evolves n v = elim (Bool-cases (check_due n)) [
    | inr early ↦ rw (early, tick_due) (tick_role-Evolves n v)
    | inl due ↦
        let n1 : Node V S = restart_check n in
        let p : Evolves n n1 = Soft-Evolves (soft n n1 refl refl refl) v in
        elim (Bool-cases (has_active_quorum n)) [
          | inl held ↦ rw (due, held, tick_due) (Evolves-then p (tick_role-Evolves n1))
          | inr lost ↦ rw (due, lost, tick_due) (then-Soft p (follow-Soft n1 none))
        ]
  ]

  -- A tick, successful or not, changes the checkpoint by moves and keeps the invariant.
  pub tick-Evolves : (n : Node V S) → Sound n → Evolves n (tick n).0
  unfolding tick
  tick-Evolves n v = elim (Result-cases (available n)) [
    | inr (e, refused) ↦ rw (refused, tick) (Evolves-refl n v)
    | inl (_, free) ↦
        let n1 : Node V S = advance_clock n in
        rw (free, tick)
          (Evolves-then (Soft-Evolves (soft n n1 refl refl refl) v) (tick_due-Evolves n1))
  ]
