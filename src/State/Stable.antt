-- ===== src/State/Stable.antt =====
-- What no change of a checkpoint can undo: the committed log, the term and the vote.
use hubby.Prelude.{
  ==_refl, Bool-cases, List, Option, [], ap, arith, drop, false, get_elem?, inl, inr, length,
  map_or, refl, some, subst, suc, sym, take, true, zero, ℕ, ◌++◌, ◌+◌, ◌-◌, ◌<◌, ◌==◌, ◌∙◌, ◌∷◌,
  ◌≡◌, ◌≤◌,
}
use hubby.State.{HardState, State, base, get, holds_id, id_at, install, push, truncate}
use hubby.State.Log.{Holds, last_id-index}
use hubby.State.Valid.{IsValid, same_base}
use hubby.State.Moves.{
  Move, Moves, cast_vote, commit_up, compacted, cut, extend, move, new_term, stay,
}
use hubby.State.Index.{entry_id, get-Holds, id_of-eq-some}
use hubby.State.MovesValid.{Moves-IsValid, holds_id-id_at, id_at-id_of, install_frame, push-room}
use hubby.State.Suffix.{install_matching, truncate-Holds, truncate_frame}
use hubby.Types.{Entry, NodeId, LogId, Snapshot, genesis, ok}

module _ {ℓ} {A : Type ℓ} where
  get_elem?-append :
      (xs ys : List A) (k : ℕ) → k < length xs → get_elem? (xs ++ ys) k ≡ get_elem? xs k
  get_elem?-append [] ys k h = absurd (omega arith)
  get_elem?-append (x ∷ xs) ys zero h = refl
  get_elem?-append (x ∷ xs) ys (suc k) h = get_elem?-append xs ys k (omega arith)

  get_elem?-take : (n k : ℕ) (xs : List A) → k < n → get_elem? (take n xs) k ≡ get_elem? xs k
  get_elem?-take zero k xs h = absurd (omega arith)
  get_elem?-take (suc n) k [] h = refl
  get_elem?-take (suc n) zero (x ∷ xs) h = refl
  get_elem?-take (suc n) (suc k) (x ∷ xs) h = get_elem?-take n k xs (omega arith)

  get_elem?-drop : (n k : ℕ) (xs : List A) → get_elem? (drop n xs) k ≡ get_elem? xs (n + k)
  get_elem?-drop zero k xs = let e : k ≡ 0 + k = omega arith in ap (get_elem? xs) e
  get_elem?-drop (suc n) k [] = refl
  get_elem?-drop (suc n) k (x ∷ xs) =
      let e : suc (n + k) ≡ suc n + k = omega arith in
      get_elem?-drop n k xs ∙ ap (get_elem? (x ∷ xs)) e

module _ {V S : Type 0} where
  -- From `s` to `t` the committed log only grows, and only a prefix of it is compacted.
  pub record Keeps (s t : State V S) : Type 0 where
    pub base_up : (base s).index ≤ (base t).index
    pub commit_up : s.hard.commit ≤ t.hard.commit
    pub ids : (i : ℕ) → (base t).index ≤ i → i ≤ s.hard.commit → id_at t i ≡ id_at s i
    pub values : (i : ℕ) → (base t).index < i → i ≤ s.hard.commit → get t i ≡ get s i

  -- From `s` to `t` the term does not fall, and a vote stands for the rest of its term.
  pub record Votes (s t : State V S) : Type 0 where
    pub term_up : s.hard.term ≤ t.hard.term
    pub vote_kept :
        (id : NodeId)
        → t.hard.term ≡ s.hard.term
        → s.hard.voted_for ≡ some id
        → t.hard.voted_for ≡ some id

  Keeps-refl : (s : State V S) → Keeps s s
  Keeps-refl s = record {
    base_up = omega arith;
    commit_up = omega arith;
    ids = λ i lo hi. refl;
    values = λ i lo hi. refl;
  }

  Keeps-trans : {s t u : State V S} → Keeps s t → Keeps t u → Keeps s u
  Keeps-trans a b = record {
    base_up = omega (arith, a.base_up, b.base_up);
    commit_up = omega (arith, a.commit_up, b.commit_up);
    ids =
        λ i lo hi. b.ids i lo (omega (arith, a.commit_up)) ∙ a.ids i (omega (arith, b.base_up)) hi;
    values = λ i lo hi.
        b.values i lo (omega (arith, a.commit_up)) ∙ a.values i (omega (arith, b.base_up)) hi;
  }

  Votes-trans : {s t u : State V S} → Votes s t → Votes t u → Votes s u
  Votes-trans a b = record {
    term_up = omega (arith, a.term_up, b.term_up);
    vote_kept = λ id e v.
        b.vote_kept id (omega (arith, a.term_up, b.term_up))
          (a.vote_kept id (omega (arith, a.term_up, b.term_up)) v);
  }

  id_at-get : (s : State V S) (i : ℕ) → (base s).index < i → id_at s i ≡ entry_id (get s i)
  unfolding id_at
  id_at-get s i h = let e : (i == (base s).index) ≡ false = ground arith in rw e

  id_at-base : (s : State V S) → id_at s (base s).index ≡ some (base s)
  unfolding id_at
  id_at-base s = rw (==_refl (base s).index)

  id_at-at_base : (s : State V S) (i : ℕ) → (base s).index ≡ i → id_at s i ≡ some (base s)
  id_at-at_base s i e = subst (λ k. id_at s k ≡ some (base s)) e (id_at-base s)

  -- Ids follow from entries, and from the id at the new boundary.
  Keeps-of :
      (s t : State V S)
      → (base s).index ≤ (base t).index
      → s.hard.commit ≤ t.hard.commit
      → ((base t).index ≤ s.hard.commit → id_at s (base t).index ≡ some (base t))
      → ((i : ℕ) → (base t).index < i → i ≤ s.hard.commit → get t i ≡ get s i)
      → Keeps s t
  Keeps-of s t lo up at_base above = record {
    base_up = lo;
    commit_up = up;
    ids = λ i bi ic. elim (Bool-cases (i == (base t).index)) [
      | inl hit ↦
          let e : (base t).index ≡ i = ground arith in
          id_at-at_base t i e
          ∙ sym (subst (λ k. id_at s k ≡ some (base t)) e (at_base (omega arith)))
      | inr miss ↦
          let past : (base t).index < i = ground arith in
          id_at-get t i past ∙ ap entry_id (above i past ic) ∙ sym (id_at-get s i (omega arith))
    ];
    values = above;
  }

  -- Two logs that agree at a position give the same entry there.
  same_entry :
      (s t : State V S) (es fs : List (Entry V)) (r q i j k : ℕ)
      → Holds s es r
      → Holds t fs q
      → i ≡ (base s).index + suc j
      → i ≡ (base t).index + suc k
      → get_elem? fs k ≡ get_elem? es j
      → get t i ≡ get s i
  same_entry s t es fs r q i j k h g e d same =
      get-Holds t fs q k i g d ∙ same ∙ sym (get-Holds s es r j i h e)

  -- A change of the log with the same boundary that keeps its committed positions.
  Keeps-log :
      (s t : State V S) (es fs : List (Entry V)) (r q : ℕ)
      → Holds s es r
      → Holds t fs q
      → t.snapshot ≡ s.snapshot
      → t.hard ≡ s.hard
      → ((k : ℕ) → (base s).index + suc k ≤ s.hard.commit → get_elem? fs k ≡ get_elem? es k)
      → Keeps s t
  Keeps-log s t es fs r q h g e eh same =
      let eb = same_base s t e in
      let ei : (base t).index ≡ (base s).index = ap (λ (l : LogId). l.index) eb in
      Keeps-of s t (omega arith) (rw eh (omega arith))
        (λ _. id_at-at_base s (base t).index (sym ei) ∙ ap (λ x. some x) (sym eb))
        (λ i lo hi.
          let k : ℕ = i - (base s).index - 1 in
          same_entry s t es fs r q i k k h g (omega arith) (omega arith) (same k (omega arith)))

  -- A change of the metadata alone.
  Keeps-hard :
      (s : State V S) (h : HardState) → s.hard.commit ≤ h.commit → Keeps s (record s { hard = h })
  unfolding get id_at
  Keeps-hard s h up = record {
    base_up = omega arith;
    commit_up = up;
    ids = λ i lo hi. refl;
    values = λ i lo hi. refl;
  }

  extend-Keeps : (s t : State V S) (e : Entry V) → IsValid s → push s e ≡ ok t → Keeps s t
  extend-Keeps s t e v p =
      let (r, h, eh, es) = push-room s v.log v.room e v.holds p in
      let whole = last_id-index (base s) v.log v.chain in
      Keeps-log s t v.log (v.log ++ e ∷ []) v.room r v.holds h es eh
        (λ k hk. get_elem?-append v.log (e ∷ []) k (omega (arith, whole, v.committed)))

  cut-Keeps :
      (s : State V S) (from : ℕ) → IsValid s → s.hard.commit < from → Keeps s (truncate s from)
  cut-Keeps s from v h =
      let (left, hl) = truncate-Holds s from v.log v.room v.holds v.chain in
      let f = truncate_frame s from in
      Keeps-log s (truncate s from) v.log (take (from - suc (base s).index) v.log) v.room left
        v.holds hl f.1 f.0
        (λ k hk. get_elem?-take (from - suc (base s).index) k v.log (omega arith))

  install-base : (s : State V S) (snap : Snapshot S) → base (install s snap) ≡ snap.last
  install-base s snap =
      ap (λ (o : Option (Snapshot S)). map_or o genesis (λ x. x.last)) (install_frame s snap).0

  install-commit :
      (s : State V S) (snap : Snapshot S) → s.hard.commit ≤ (install s snap).hard.commit
  install-commit s snap = rw ((install_frame s snap).1) (omega arith)

  install_matching-Keeps :
      (s : State V S) (snap : Snapshot S)
      → IsValid s
      → holds_id s snap.last ≡ true
      → (base s).index < snap.last.index
      → Keeps s (install s snap)
  install_matching-Keeps s snap v h lo =
      let l : LogId = snap.last in
      let t : State V S = install s snap in
      let k : ℕ = l.index - (base s).index in
      let eb = install-base s snap in
      let ei : (base t).index ≡ l.index = ap (λ (x : LogId). x.index) eb in
      let at_l = holds_id-id_at s l h in
      let inside =
        id_of-eq-some (base s) v.log l.index l v.chain (sym (id_at-id_of s v l.index) ∙ at_l) in
      let whole = last_id-index (base s) v.log v.chain in
      let (room, hi) =
        install_matching s snap v.log v.room v.holds h (omega (arith, inside, whole)) in
      Keeps-of s t (omega arith) (install-commit s snap) (λ _. rw eb at_l)
        (λ i bi ic.
          let j : ℕ = i - l.index - 1 in
          same_entry s t v.log (drop k v.log) v.room room i (k + j) j v.holds hi (omega arith)
            (omega arith) (get_elem?-drop k j v.log))

  install_ahead-Keeps :
      (s : State V S) (snap : Snapshot S)
      → (base s).index < snap.last.index
      → s.hard.commit < snap.last.index
      → Keeps s (install s snap)
  install_ahead-Keeps s snap lo ahead =
      let t : State V S = install s snap in
      let ei : (base t).index ≡ snap.last.index =
        ap (λ (x : LogId). x.index) (install-base s snap) in
      Keeps-of s t (omega arith) (install-commit s snap) (λ h. absurd (omega arith))
        (λ i bi ic. absurd (omega arith))

  Move-Keeps : {s t : State V S} → Move s t → IsValid s → Keeps s t
  Move-Keeps {s} (commit_up c lo hi e) v = rw e (Keeps-hard s _ (omega arith))
  Move-Keeps {s} {t} (extend x f p) v = extend-Keeps s t x v p
  Move-Keeps {s} (cut from h e) v = rw e (cut-Keeps s from v h)
  Move-Keeps {s} (new_term term vote h e) v = rw e (Keeps-hard s _ (omega arith))
  Move-Keeps {s} (cast_vote id n p e) v = rw e (Keeps-hard s _ (omega arith))
  Move-Keeps {s} (compacted snap lo pt known small (inl m) e) v =
      rw e (install_matching-Keeps s snap v m lo)
  Move-Keeps {s} (compacted snap lo pt known small (inr a) e) v =
      rw e (install_ahead-Keeps s snap lo a)

  Votes-of :
      (s t : State V S)
      → t.hard.term ≡ s.hard.term
      → t.hard.voted_for ≡ s.hard.voted_for
      → Votes s t
  Votes-of s t e f = record { term_up = omega arith; vote_kept = λ id _ v. f ∙ v }

  Move-Votes : {s t : State V S} → Move s t → IsValid s → Votes s t
  Move-Votes {s} (commit_up c lo hi e) v = rw e (Votes-of s _ refl refl)
  Move-Votes {s} {t} (extend x f p) v =
      let (r, h, eh, es) = push-room s v.log v.room x v.holds p in
      Votes-of s t (ap (λ (a : HardState). a.term) eh) (ap (λ (a : HardState). a.voted_for) eh)
  Move-Votes {s} (cut from h e) v =
      let eh = (truncate_frame s from).0 in
      rw e
        (Votes-of s _ (ap (λ (a : HardState). a.term) eh) (ap (λ (a : HardState). a.voted_for) eh))
  Move-Votes {s} (new_term term vote h e) v =
      rw e (record { term_up = omega arith; vote_kept = λ id same _. absurd (omega arith) })
  Move-Votes {s} (cast_vote id n p e) v =
      rw e (record { term_up = omega arith; vote_kept = λ i _ w. cc })
  Move-Votes {s} (compacted snap lo pt known small m e) v =
      let eh = (install_frame s snap).1 in
      rw e
        (Votes-of s _ (ap (λ (a : HardState). a.term) eh) (ap (λ (a : HardState). a.voted_for) eh))

  -- Whatever changes a node makes, the committed log is kept up to compaction.
  pub Moves-Keeps : {s t : State V S} → Moves s t → IsValid s → Keeps s t
  Moves-Keeps {s} stay v = Keeps-refl s
  Moves-Keeps (move a m) v = Keeps-trans (Moves-Keeps a v) (Move-Keeps m (Moves-IsValid a v))

  -- Nor does its term fall, and it votes once in a term.
  pub Moves-Votes : {s t : State V S} → Moves s t → IsValid s → Votes s t
  Moves-Votes {s} stay v = Votes-of s s refl refl
  Moves-Votes (move a m) v = Votes-trans (Moves-Votes a v) (Move-Votes m (Moves-IsValid a v))
