-- ===== src/Node/EvolveLocal.antt =====
-- Proposals and compaction of jarl/src/node.rs change the checkpoint by moves alone.
use hubby.Prelude.{
  Bool-cases, List, Option, [], ap, arith, false, inl, inr, leb, length, ltb, none, not, refl, some,
  some_injective, subst, suc, sym, true, u64_mod, ℕ, ◌++◌, ◌+◌, ◌-◌, ◌<◌, ◌==◌, ◌||◌, ◌∙◌, ◌∷◌, ◌≡◌,
  ◌≤◌,
}
use hubby.State.{HardState, State, base, entries, holds_id, id_at, install, last, last_id, push}
use hubby.State.Moves.{Follows, Moves, Moves-one, Moves-trans, compacted, cut, extend, stay}
use hubby.State.Suffix.{truncate_frame}
use hubby.Node.EvolveMessages.{if-Evolves}
use hubby.State.MovesValid.{Moves-IsValid, id_at-id_of, install_frame, last_of, push-room}
use hubby.State.Valid.{IsValid}
use hubby.State.Index.{id_of-eq-some, id_of_at_base}
use hubby.State.Log.{Chain, id_of, last-Holds, last_id-snoc, last_id-term}
use hubby.Types.{
  >>=-eq-ok, Entry, LogId, Result-cases, Snapshot, is_leader, log_id_eq_iff, ok, refuse_if-eq-ok,
}
use hubby.Node.{Node}
use hubby.Node.Timer.{available}
use hubby.Node.Commit.{match_local}
use hubby.Node.Propose.{
  Pushed, accept_proposals, admit_compaction, admit_proposals, compact, compact_to, drop_rollback,
  failed, finished, first_proposed, panicked, propose_admitted, propose_many, push_values, settle,
}
use hubby.Node.Sound.{Evolves, Sound, broadcast-Soft, refresh_membership-Soft, soft}
use hubby.Node.Evolve.{
  Evolves-refl, Evolves-then, advance_commit-Evolves, barrier-Evolves, grows, then-Soft,
}

module _ {V : Type 0} where
  -- An id beyond the boundary has a term, which is at most the last one.
  id_of-term :
      (b : LogId) (es : List (Entry V)) (i : ℕ) (j : LogId)
      → Chain b es
      → b.index < i
      → id_of b es i ≡ some j
      → (0 < j.term) × (j.term ≤ (last_id b es).term)
  id_of-term b [] i j c lo h = ground arith
  id_of-term b (e ∷ es) i j c lo h = elim (Bool-cases (i == e.id.index)) [
    | inl hit ↦
        let there : id_of e.id es i ≡ some j = ground (arith, h) in
        let same = some_injective (sym (id_of_at_base e.id es i hit) ∙ there) in
        (
          subst (λ (x : LogId). 0 < x.term) same c.2,
          subst (λ (x : LogId). x.term ≤ (last_id e.id es).term) same (last_id-term e.id es c.3),
        )
    | inr miss ↦
        let there : id_of e.id es i ≡ some j = ground (arith, h) in
        id_of-term e.id es i j c.3 (ground (arith, id_of-eq-some e.id es i j c.3 there, miss)) there
  ]

module _ {V S : Type 0} where
  -- The state that the loop over the values leaves.
  abbrev pub left_by : Pushed V S → State V S
  left_by (finished s) = s
  left_by (failed s e) = s
  left_by (panicked s) = s

  push-last :
      (s : State V S) (e : Entry V) {t : State V S}
      → IsValid s
      → push s e ≡ ok t
      → (last t ≡ e.id) × (t.hard ≡ s.hard)
  push-last s e {t} v p =
      let (r, h, eh, es) = push-room s v.log v.room e v.holds p in
      (last-Holds t (v.log ++ e ∷ []) r h ∙ last_id-snoc (base t) v.log e, eh)

  -- The ids that the loop over the values assigns may follow the log.
  record Assigns (s : State V S) (first : LogId) (offset : ℕ) : Type 0 where
    next : first.index + offset ≡ (last s).index + 1
    rising : (last s).term ≤ first.term
    positive : 0 < first.term
    known : first.term ≤ s.hard.term

  push_values-Moves :
      (s : State V S) (first : LogId) (offset : ℕ) (vs : List (Option V))
      → IsValid s
      → Assigns s first offset
      → first.index + offset + length vs ≤ u64_mod
      → Moves s (left_by (push_values s first offset vs))
        × ((left_by (push_values s first offset vs)).hard ≡ s.hard)
  unfolding push_values
  push_values-Moves s first offset [] v a h = (stay, refl)
  push_values-Moves s first offset (none ∷ vs) v a h = (stay, refl)
  push_values-Moves s first offset (some x ∷ vs) v a h =
      let e : Entry V = record {
        id = record { index = first.index + offset; term = first.term };
        value = some x;
      } in
      let f : Follows s e = record {
        next = a.next;
        rising = a.rising;
        positive = a.positive;
        known = a.known;
        small = omega (arith, h);
      } in
      elim (Result-cases (push s e)) [
        | inr (y, refused) ↦ rw (refused, push_values) (stay, refl)
        | inl (t, p) ↦
            let (el, eh) = push-last s e v p in
            let m = Moves-one (extend e f p) in
            let a' : Assigns t first (suc offset) = record {
              next = omega (arith, ap (λ (i : LogId). i.index) el, a.next);
              rising = omega (arith, ap (λ (i : LogId). i.term) el);
              positive = a.positive;
              known = omega (arith, ap (λ (x : HardState). x.term) eh, a.known);
            } in
            let (ms, es) =
              push_values-Moves t first (suc offset) vs (Moves-IsValid m v) a' (omega (arith, h)) in
            rw (p, push_values) (Moves-trans m ms, es ∙ eh)
      ]

  -- A proposal that is given up is cut off again.
  give_up-Evolves :
      (n : Node V S) (s : State V S)
      → Sound n
      → Moves n.state s
      → s.hard ≡ n.state.hard
      → Evolves n (record n { state = drop_rollback false (first_proposed n).index s })
  unfolding drop_rollback
  give_up-Evolves n s v m e =
      let above : s.hard.commit < (first_proposed n).index =
        rw (e, last_of n.state v.valid) (omega (arith, v.valid.committed)) in
      let back = Moves-one (cut (first_proposed n).index above refl) in
      grows n _ v (Moves-trans m back)
        (ap (λ (h : HardState). h.term) ((truncate_frame s (first_proposed n).index).0 ∙ e))
        (record { rules = λ x. x; probes = λ t x. x })

  settle-Evolves :
      (n : Node V S) (last_index : ℕ) (p : Pushed V S)
      → Sound n
      → Moves n.state (left_by p)
      → (left_by p).hard ≡ n.state.hard
      → Evolves n (settle n last_index p).0
  unfolding settle accept_proposals drop_rollback
  settle-Evolves n last_index (finished s) v m e =
      then-Soft
        (Evolves-then
          (then-Soft
            (then-Soft
              (grows n _ v m (ap (λ (h : HardState). h.term) e)
                (record { rules = λ x. x; probes = λ t x. x }))
              (refresh_membership-Soft _))
            (soft _ (match_local _ last_index) refl refl refl))
          (advance_commit-Evolves _))
        (broadcast-Soft _)
  settle-Evolves n last_index (failed s y) v m e = give_up-Evolves n s v m e
  settle-Evolves n last_index (panicked s) v m e = give_up-Evolves n s v m e

  -- What `admit_proposals` has checked.
  pub admit_proposals-eq-ok :
      (n : Node V S) (number : ℕ) {last_index : ℕ}
      → admit_proposals n number ≡ ok last_index
      → (is_leader n.role ≡ true) × ((last n.state).index + number < u64_mod)
  unfolding admit_proposals
  admit_proposals-eq-ok n number e =
      let (_, free, e1) = >>=-eq-ok (available n) _ e in
      let (leads, e2) = refuse_if-eq-ok (not (is_leader n.role)) _ _ e1 in
      let (_, e3) = refuse_if-eq-ok (number == 0) _ _ e2 in
      let (_, e4) =
        refuse_if-eq-ok (ltb (length n.state.slots - length (entries n.state)) number) _ _ e3 in
      (ground (arith, leads), ground (arith, e4))

  -- Proposals, accepted, refused or unwound, change the checkpoint by moves and keep the invariant.
  pub propose_many-Evolves :
      (n : Node V S) (number : ℕ) (values : List (Option V))
      → Sound n
      → length values ≤ number
      → Evolves n (propose_many n number values).0
  unfolding propose_many propose_admitted
  propose_many-Evolves n number values v h = elim (Result-cases (admit_proposals n number)) [
    | inr (e, refused) ↦ rw (refused, propose_many) (Evolves-refl n v)
    | inl (last_index, taken) ↦
        let (leads, fits) = admit_proposals-eq-ok n number taken in
        let positive = v.ruling (ground (arith, leads)) in
        let rising : (last n.state).term ≤ n.state.hard.term =
          rw (last_of n.state v.valid) v.valid.terms in
        let a : Assigns n.state (first_proposed n) 0 = record {
          next = omega arith;
          rising = rising;
          positive = positive;
          known = omega arith;
        } in
        let (m, e) =
          push_values-Moves n.state (first_proposed n) 0 values v.valid a (omega (arith, fits)) in
        rw (taken, propose_many) (settle-Evolves n last_index _ v m e)
  ]

  -- What `admit_compaction` has checked.
  admit_compaction-eq-ok :
      (n : Node V S) (index : ℕ) {l : LogId}
      → admit_compaction n index ≡ ok l
      → ((base n.state).index < index)
        × (index ≤ n.state.hard.commit)
        × (id_at n.state index ≡ some l)
  unfolding admit_compaction
  admit_compaction-eq-ok n index e =
      let (_, free, e1) = >>=-eq-ok (available n) _ e in
      let (inside, e2) =
        refuse_if-eq-ok (leb index (base n.state).index || ltb n.state.hard.commit index) _ _ e1 in
      (ground (arith, inside), ground (arith, inside), ground (arith, e2))

  holds_id_of : (s : State V S) (l : LogId) → id_at s l.index ≡ some l → holds_id s l ≡ true
  unfolding holds_id
  holds_id_of s l e = rw e ((log_id_eq_iff l l).1 refl)

  -- Compaction to a committed index changes the checkpoint by moves and keeps the invariant.
  pub compact-Evolves :
      (n : Node V S) (index : ℕ) (value : S) → Sound n → Evolves n (compact n index value).0
  unfolding compact compact_to
  compact-Evolves n index value v = elim (Result-cases (admit_compaction n index)) [
    | inr (e, refused) ↦ rw (refused, compact) (Evolves-refl n v)
    | inl (l, taken) ↦
        let (lo, hi, found) = admit_compaction-eq-ok n index taken in
        let there = sym (id_at-id_of n.state v.valid index) ∙ found in
        let (same, above, below, _) =
          id_of-eq-some (base n.state) v.valid.log index l v.valid.chain there in
        let (pt, known) = id_of-term (base n.state) v.valid.log index l v.valid.chain lo there in
        let found' : id_at n.state l.index ≡ some l = ap (id_at n.state) same ∙ found in
        let snap : Snapshot S = record { last = l; value = value } in
        let eh = ap (λ (x : HardState). x.term) (install_frame n.state snap).1 in
        let m = Moves-one (
          compacted snap (omega (arith, same)) pt (omega (arith, known, v.valid.terms))
            (omega (arith, same, below, v.valid.indices)) (inl (holds_id_of n.state l found'))
            refl) in
        let c : Node V S = record n {
          state = install n.state snap;
          dirty = true;
          snapshot_changed = true;
        } in
        let p : Evolves n c = grows n c v m eh (record { rules = λ x. x; probes = λ t x. x }) in
        rw (taken, compact)
          (if-Evolves n (is_leader n.role)
            (λ leads.
              then-Soft (Evolves-then p (barrier-Evolves c (ground (arith, leads))))
                (broadcast-Soft _))
            (λ _. p))
  ]
