-- ===== src/Node/EvolveMessages.antt =====
-- The handlers of `Node::step` in jarl/src/node.rs: each changes the checkpoint by moves alone.
use hubby.Prelude.{
  ==_iff, Bool, Bool-cases, List, Option, Option-cases, [], ap, arith, false, if◌then◌else◌, inl,
  inr, is_none_or, is_some_and, is_some_and-eq-true, ltb, ltb_iff, none, refl, set, some, somes,
  subst, true, u64_mod, ℕ, ◌&&◌, ◌+◌, ◌<◌, ◌==◌, ◌∷◌, ◌≡◌, ◌≤◌, ◌⊎◌,
}
use hubby.State.{HardState, State, base, holds_id}
use hubby.State.Moves.{Moves-eq, Moves-one, Moves-trans, cast_vote, compacted, new_term, with_term}
use hubby.State.MovesValid.{Moves-IsValid, install_frame}
use hubby.State.Stable.{Moves-Votes}
use hubby.Types.{Entry, NodeId, LogId, Snapshot, is_candidate}
use hubby.Membership.{eq}
use hubby.Node.{Node}
use hubby.Node.Timer.{follow}
use hubby.Node.Peers.{election_quorum}
use hubby.Node.Replication.{Response, append, append_each}
use hubby.Node.Step.{
  continues, contradicts, count_pre_vote, count_vote, grants, is_news, observe_term, on_append,
  on_append_batch, on_install, on_pre_voted, on_vote, on_voted, record_vote, take_snapshot,
  valid_batch, valid_id,
}
use hubby.Node.Sound.{
  Evolves, Soft, Sound, follow-Soft, follow_prevoting, follow_role, is_ruling,
  refresh_membership-Soft, reply-Soft, reset_election-Soft, send-Soft, soft,
}
use hubby.Node.Evolve.{
  Evolves-refl, Evolves-then, Soft-Evolves, become_leader-Evolves, campaign-Evolves, grows,
  then-Soft,
}
use hubby.Node.EvolveStep.{Continues, EntryFits, append-Evolves, continues-Continues}

module _ {V : Type 0} where
  -- Each entry of a batch continues the one before.
  abbrev BatchFits : ℕ → LogId → List (Entry V) → Type 0
  BatchFits term previous [] = Unit {0}
  BatchFits term previous (e ∷ es) = Continues term previous e × BatchFits term e.id es

  valid_batch-BatchFits :
      (term : ℕ) (previous : LogId) (ended : Bool) (number : ℕ) (slots : List (Option (Entry V)))
      → valid_batch term previous ended number slots ≡ true
      → BatchFits term previous (somes slots)
  unfolding valid_batch
  valid_batch-BatchFits term previous ended number [] h = tt
  valid_batch-BatchFits term previous ended number (none ∷ slots) h =
      valid_batch-BatchFits term previous true number slots h
  valid_batch-BatchFits term previous ended number (some e ∷ slots) h = (
    continues-Continues term previous e (ground (arith, h)),
    valid_batch-BatchFits term e.id ended (number + 1) slots (ground (arith, h)),
  )

  Continues-mono :
      (t t' : ℕ) (previous : LogId) (e : Entry V)
      → t ≤ t'
      → Continues t previous e
      → Continues t' previous e
  Continues-mono t t' previous e h c = record {
    next = c.next;
    rising = c.rising;
    positive = c.positive;
    known = omega (arith, c.known);
    small = c.small;
  }

  entry_fits :
      (t t' : ℕ) (previous : LogId) (entry : Option (Entry V))
      → t ≤ t'
      → is_none_or entry (continues t previous) ≡ true
      → EntryFits t' previous entry
  entry_fits t t' previous none h c = tt
  entry_fits t t' previous (some e) h c =
      Continues-mono t t' previous e h (continues-Continues t previous e c)

module _ {V S : Type 0} where
  append_each-Evolves :
      (n : Node V S) (term : ℕ) (previous : LogId) (accepted : Bool) (response : Response)
      (es : List (Entry V)) (commit : ℕ)
      → Sound n
      → term ≤ n.state.hard.term
      → BatchFits term previous es
      → Evolves n (append_each n previous accepted response es commit).0
  unfolding append_each
  append_each-Evolves n term previous accepted response [] commit v h f = Evolves-refl n v
  append_each-Evolves n term previous accepted response (e ∷ es) commit v h f =
      let p =
        append-Evolves n previous (some e) commit v
          (Continues-mono term n.state.hard.term previous e h f.0) in
      let up = (Moves-Votes p.moves v.valid).term_up in
      elim (Option-cases (append n previous (some e) commit).1.1) [
        | inr (r, refused) ↦ rw (refused, append_each) p
        | inl taken ↦
            rw (taken, append_each)
              (Evolves-then p (λ v'.
                append_each-Evolves (append n previous (some e) commit).0 term e.id true
                  ((append n previous (some e) commit).1.0, none) es commit v' (omega (arith, up))
                  f.1))
      ]

  pub observe_term-Evolves : (n : Node V S) (term : ℕ) → Sound n → Evolves n (observe_term n term)
  unfolding observe_term
  observe_term-Evolves n term v = elim (Bool-cases (ltb n.state.hard.term term)) [
    | inr known ↦ rw (known, observe_term) (Evolves-refl n v)
    | inl later ↦
        let lt = (ltb_iff n.state.hard.term term).0 later in
        let n1 : Node V S = record n { state = with_term n.state term none; dirty = true } in
        let m = Moves-one (new_term term none lt refl) in
        let s : Sound (follow n1 none) = record {
          valid = rw ((follow-Soft n1 none).state) (Moves-IsValid m v.valid);
          ruling = λ r. cc (r, ap is_ruling (follow_role n1 none));
          probing = λ t q. cc (q, follow_prevoting n1 none);
        } in
        rw (later, observe_term)
          (record { moves = Moves-trans m (Moves-eq ((follow-Soft n1 none).state)); sound = s })
  ]

  pub observe_term_reaches :
      (n : Node V S) (term : ℕ) → term ≤ (observe_term n term).state.hard.term
  unfolding observe_term
  observe_term_reaches n term = elim (Bool-cases (ltb n.state.hard.term term)) [
    | inr known ↦ rw (known, observe_term) (ground (arith, known))
    | inl later ↦
        let n1 : Node V S = record n { state = with_term n.state term none; dirty = true } in
        rw (later, observe_term)
          (rw (ap (λ (x : State V S). x.hard.term) ((follow-Soft n1 none).state)) (omega arith))
  ]

  -- A handler that branches on a test.
  pub if-Evolves :
      (n : Node V S) (b : Bool) {x y : Node V S}
      → (b ≡ true → Evolves n x)
      → (b ≡ false → Evolves n y)
      → Evolves n (if b then x else y)
  if-Evolves n true p q = p refl
  if-Evolves n false p q = q refl

  voted_fields : (n : Node V S) (vs : List Bool) → Soft n (record n { votes = vs })
  voted_fields n vs = soft n _ refl refl refl

  pub on_pre_voted-Evolves :
      (n : Node V S) (peer term : ℕ) (granted : Bool)
      → Sound n
      → Evolves n (on_pre_voted n peer term granted)
  unfolding on_pre_voted count_pre_vote
  on_pre_voted-Evolves n peer term granted v =
      if-Evolves n (is_some_and n.prevoting (λ t. t == term) && granted)
        (λ h.
          let n1 : Node V S = record n { votes = set n.votes peer true } in
          let asked : is_some_and n.prevoting (λ t. t == term) ≡ true = ground (arith, h) in
          let (t, probing, eq) = is_some_and-eq-true n.prevoting _ asked in
          let ahead : n.state.hard.term < term =
            subst (λ x. n.state.hard.term < x) ((==_iff t term).0 eq) (v.probing t probing) in
          Evolves-then (Soft-Evolves (voted_fields n _) v) (λ v1.
            if-Evolves n1 (election_quorum n1) (λ _. campaign-Evolves n1 term ahead v1)
              (λ _. Evolves-refl n1 v1)))
        (λ _. Evolves-refl n v)

  pub on_voted-Evolves :
      (n : Node V S) (peer : ℕ) (granted : Bool) → Sound n → Evolves n (on_voted n peer granted)
  unfolding on_voted count_vote
  on_voted-Evolves n peer granted v =
      if-Evolves n (is_candidate n.role && granted)
        (λ h.
          let n1 : Node V S = record n { votes = set n.votes peer true } in
          let r : is_ruling n1.role ≡ true = ground (arith, h) in
          Evolves-then (Soft-Evolves (voted_fields n _) v) (λ v1.
            if-Evolves n1 (election_quorum n1) (λ _. become_leader-Evolves n1 r v1)
              (λ _. Evolves-refl n1 v1)))
        (λ _. Evolves-refl n v)

  record_vote-Evolves :
      (n : Node V S) (from : NodeId) (l : LogId)
      → Sound n
      → 0 < n.state.hard.term
      → grants n from l ≡ true
      → Evolves n (record_vote n from)
  unfolding record_vote
  record_vote-Evolves n from l v h g =
      then-Soft
        (if-Evolves n (is_some_and n.state.hard.voted_for (λ i. i == from)) (λ _. Evolves-refl n v)
          (λ first.
            let fresh : n.state.hard.voted_for ≡ none = ground (arith, first, g) in
            grows n _ v (Moves-one (cast_vote from fresh h refl)) refl
              (record { rules = λ x. x; probes = λ t x. x })))
        (reset_election-Soft _)

  pub on_vote-Evolves :
      (n : Node V S) (peer : ℕ) (from : NodeId) (l : LogId)
      → Sound n
      → 0 < n.state.hard.term
      → Evolves n (on_vote n peer from l)
  unfolding on_vote
  on_vote-Evolves n peer from l v h =
      then-Soft
        (if-Evolves n (grants n from l) (λ g. record_vote-Evolves n from l v h g)
          (λ _. Evolves-refl n v))
        (send-Soft _ peer _)

  -- The term of a valid message is in force when a handler runs.
  follow-term :
      (n : Node V S) (to : Option NodeId) → (follow n to).state.hard.term ≡ n.state.hard.term
  follow-term n to = ap (λ (x : State V S). x.hard.term) ((follow-Soft n to).state)

  pub on_append-Evolves :
      (n : Node V S) (peer : ℕ) (from : NodeId) (term : ℕ) (previous : LogId)
      (entry : Option (Entry V)) (commit : ℕ)
      → Sound n
      → term ≤ n.state.hard.term
      → is_none_or entry (continues term previous) ≡ true
      → Evolves n (on_append n peer from previous entry commit)
  unfolding on_append
  on_append-Evolves n peer from term previous entry commit v h c =
      let f : Node V S = follow n (some from) in
      let h' : term ≤ f.state.hard.term = rw (follow-term n (some from)) h in
      then-Soft
        (Evolves-then (Soft-Evolves (follow-Soft n (some from)) v) (λ v'.
          append-Evolves f previous entry commit v'
            (entry_fits term f.state.hard.term previous entry h' c)))
        (reply-Soft _ peer _ _)

  pub on_append_batch-Evolves :
      (n : Node V S) (peer : ℕ) (from : NodeId) (term : ℕ) (previous : LogId)
      (slots : List (Option (Entry V))) (commit : ℕ)
      → Sound n
      → term ≤ n.state.hard.term
      → valid_batch term previous false 0 slots ≡ true
      → Evolves n (on_append_batch n peer from previous slots commit)
  unfolding on_append_batch
  on_append_batch-Evolves n peer from term previous slots commit v h c =
      let f : Node V S = follow n (some from) in
      let h' : term ≤ f.state.hard.term = rw (follow-term n (some from)) h in
      then-Soft
        (Evolves-then (Soft-Evolves (follow-Soft n (some from)) v) (λ v'.
          append_each-Evolves f term previous false _ (somes slots) commit v' h'
            (valid_batch-BatchFits term previous false 0 slots c)))
        (reply-Soft _ peer _ _)

  take_snapshot-Evolves :
      (n : Node V S) (snap : Snapshot S)
      → Sound n
      → is_news n snap.last ≡ true
      → 0 < snap.last.term
      → snap.last.term ≤ n.state.hard.term
      → snap.last.index < u64_mod
      → Evolves n (take_snapshot n snap)
  unfolding take_snapshot
  take_snapshot-Evolves n snap v news pt known small =
      let lo : (base n.state).index < snap.last.index = ground (arith, news) in
      let m : (holds_id n.state snap.last ≡ true) ⊎ (n.state.hard.commit < snap.last.index) =
        ground (arith, news) in
      let eh = ap (λ (x : HardState). x.term) (install_frame n.state snap).1 in
      then-Soft
        (then-Soft
          (grows n _ v (Moves-one (compacted snap lo pt known small m refl)) eh
            (record { rules = λ x. x; probes = λ t x. x }))
          (refresh_membership-Soft _))
        (soft _ _ refl refl refl)

  pub on_install-Evolves :
      (n : Node V S) (peer : ℕ) (from : NodeId) (term : ℕ) (snap : Snapshot S)
      → Sound n
      → term ≤ n.state.hard.term
      → (ltb 0 snap.last.index && valid_id term snap.last) ≡ true
      → snap.last.index < u64_mod
      → Evolves n (on_install n peer from snap)
  unfolding on_install
  on_install-Evolves n peer from term snap v h c small =
      let f : Node V S = follow n (some from) in
      let h' : term ≤ f.state.hard.term = rw (follow-term n (some from)) h in
      let pt : 0 < snap.last.term = ground (arith, c) in
      let known : snap.last.term ≤ f.state.hard.term = ground (arith, c, h') in
      Evolves-then (Soft-Evolves (follow-Soft n (some from)) v) (λ v'.
        if-Evolves f (contradicts f snap.last) (λ _. Soft-Evolves (reply-Soft f peer _ _) v')
          (λ _.
            then-Soft
              (if-Evolves f (is_news f snap.last)
                (λ news. take_snapshot-Evolves f snap v' news pt known small)
                (λ _. Evolves-refl f v'))
              (reply-Soft _ peer _ _)))
