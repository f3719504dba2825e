-- ===== src/State/MovesValid.antt =====
-- Every change of a checkpoint keeps it well formed.
use hubby.Prelude.{
  Bool-cases, List, Option, [], ap, arith, drop, false, inl, inr, is_some_and-eq-true, length-take,
  refl, some, subst, suc, sym, take, true, u64_mod, zero, ℕ, ◌++◌, ◌-◌, ◌<◌, ◌∙◌, ◌∷◌, ◌≡◌, ◌≤◌,
  ◌⊎◌,
}
use hubby.State.{State, base, holds_id, id_at, install, last, last_id, push, raise_commit, truncate}
use hubby.State.Log.{
  Chain, Chain-snoc, Chain-take, Holds, id_of, last-Holds, last_id-index, push-Holds,
}
use hubby.State.Valid.{IsValid, last_snoc_eq, push-full, same_base}
use hubby.State.Moves.{
  Follows, Move, Moves, cast_vote, commit_up, compacted, cut, extend, move, new_term, stay,
  with_commit, with_term, with_vote,
}
use hubby.State.Suffix.{install_fresh, install_matching, truncate-Holds, truncate_frame}
use hubby.State.Index.{drop-Chain, id_at-Holds, id_of-eq-some, last_id-take-term}
use hubby.Types.{
  Entry, NodeId, LogId, Snapshot, log_id_eq, log_id_eq_iff, ok, ok-ne-err, ok_injective,
}

module _ {V S : Type 0} where
  commit_up-IsValid :
      (s : State V S) (c : ℕ)
      → IsValid s
      → s.hard.commit < c
      → c ≤ (last s).index
      → IsValid (with_commit s c)
  commit_up-IsValid s c v lo hi =
      let top = rw (last-Holds s v.log v.room v.holds) at hi in
      record {
        log = v.log;
        room = v.room;
        holds = record { len_is = v.holds.len_is; packed = v.holds.packed };
        chain = v.chain;
        terms = v.terms;
        indices = v.indices;
        based = v.based;
        voted = v.voted;
        committed = (omega (arith, v.committed), top);
      }

  new_term-IsValid :
      (s : State V S) (term : ℕ) (vote : Option NodeId)
      → IsValid s
      → s.hard.term < term
      → IsValid (with_term s term vote)
  new_term-IsValid s term vote v h = record {
    log = v.log;
    room = v.room;
    holds = record { len_is = v.holds.len_is; packed = v.holds.packed };
    chain = v.chain;
    terms = omega (arith, v.terms);
    indices = v.indices;
    based = v.based;
    voted = λ e. absurd (omega arith);
    committed = v.committed;
  }

  cast_vote-IsValid :
      (s : State V S) (id : NodeId) → IsValid s → 0 < s.hard.term → IsValid (with_vote s id)
  cast_vote-IsValid s id v h = record {
    log = v.log;
    room = v.room;
    holds = record { len_is = v.holds.len_is; packed = v.holds.packed };
    chain = v.chain;
    terms = v.terms;
    indices = v.indices;
    based = v.based;
    voted = λ e. absurd (omega arith);
    committed = v.committed;
  }

  -- Well-formedness only reads the log, the metadata and the boundary.
  transfer :
      (s t : State V S) (log : List (Entry V)) (room : ℕ)
      → IsValid s
      → Holds t log room
      → t.hard ≡ s.hard
      → t.snapshot ≡ s.snapshot
      → Chain (base s) log
      → (last_id (base s) log).term ≤ s.hard.term
      → (last_id (base s) log).index < u64_mod
      → s.hard.commit ≤ (last_id (base s) log).index
      → IsValid t
  transfer s t log room v h eh es c terms indices committed =
      let eb = same_base s t es in
      record {
        log = log;
        room = room;
        holds = h;
        chain = rw eb c;
        terms = rw (eb, eh) terms;
        indices = rw eb indices;
        based = rw es v.based;
        voted = rw eh v.voted;
        committed = rw (eb, eh) (v.committed.0, committed);
      }

  pub last_of : (s : State V S) (v : IsValid s) → last s ≡ last_id (base s) v.log
  last_of s v = last-Holds s v.log v.room v.holds

  -- A push that succeeds had room.
  pub push-room :
      (s : State V S) (es : List (Entry V)) (room : ℕ) (e : Entry V) {t : State V S}
      → Holds s es room
      → push s e ≡ ok t
      → (r : ℕ) × Holds t (es ++ e ∷ []) r × (t.hard ≡ s.hard) × (t.snapshot ≡ s.snapshot)
  push-room s es zero e h p = absurd (ok-ne-err (sym (push-full s es e h) ∙ p))
  push-room s es (suc room) e {t} h p =
      let (t', p', h', eh, es') = push-Holds s es room e h in
      let same : t' ≡ t = ok_injective (sym p' ∙ p) in
      (
        room,
        subst (λ x. Holds x (es ++ e ∷ []) room) same h',
        subst (λ (x : State V S). x.hard ≡ s.hard) same eh,
        subst (λ (x : State V S). x.snapshot ≡ s.snapshot) same es',
      )

  extend-IsValid :
      (s t : State V S) (e : Entry V) → IsValid s → Follows s e → push s e ≡ ok t → IsValid t
  extend-IsValid s t e v f p =
      let (r, h, eh, es) = push-room s v.log v.room e v.holds p in
      let l = last_of s v in
      let n' = rw l at f.next in
      transfer s t (v.log ++ e ∷ []) r v h eh es
        (Chain-snoc (base s) v.log e v.chain n' (rw l at f.rising) f.positive)
        (last_snoc_eq (base s) v.log e (λ x. x.term ≤ s.hard.term) f.known)
        (last_snoc_eq (base s) v.log e (λ x. x.index < u64_mod) f.small)
        (last_snoc_eq (base s) v.log e (λ x. s.hard.commit ≤ x.index) (omega (arith, v.committed)))

  cut-IsValid :
      (s : State V S) (from : ℕ) → IsValid s → s.hard.commit < from → IsValid (truncate s from)
  cut-IsValid s from v h =
      let (left, hl) = truncate-Holds s from v.log v.room v.holds v.chain in
      let f = truncate_frame s from in
      let k : ℕ = from - suc (base s).index in
      let c = Chain-take (base s) k v.log v.chain in
      let i = last_id-index (base s) (take k v.log) c in
      let whole = last_id-index (base s) v.log v.chain in
      let size = length-take k v.log in
      transfer s (truncate s from) (take k v.log) left v hl f.0 f.1 c
        (omega (arith, last_id-take-term (base s) k v.log v.chain, v.terms))
        (omega (arith, i, whole, size, v.indices)) (omega (arith, i, whole, size, v.committed))

  pub install_frame :
      (s : State V S) (snap : Snapshot S)
      → ((install s snap).snapshot ≡ some snap)
        × ((install s snap).hard ≡ raise_commit s.hard snap.last.index)
  unfolding install
  install_frame s snap = elim (Bool-cases (holds_id s snap.last)) [
    | inl yes_ ↦ rw yes_ (refl, refl)
    | inr no_ ↦ rw no_ (refl, refl)
  ]

  -- What an installed snapshot needs besides its log.
  installed :
      (s : State V S) (snap : Snapshot S) (log : List (Entry V)) (room : ℕ)
      → IsValid s
      → Holds (install s snap) log room
      → 0 < snap.last.index
      → 0 < snap.last.term
      → Chain snap.last log
      → (last_id snap.last log).term ≤ s.hard.term
      → (last_id snap.last log).index < u64_mod
      → s.hard.commit ≤ (last_id snap.last log).index
      → IsValid (install s snap)
  installed s snap log room v h pi pt c terms indices committed =
      let f = install_frame s snap in
      let top = last_id-index snap.last log c in
      record {
        log = log;
        room = room;
        holds = h;
        chain = rw f.0 c;
        terms = rw (f.0, f.1) terms;
        indices = rw f.0 indices;
        based = rw f.0 (λ _. (pi, pt));
        voted = rw f.1 v.voted;
        committed = rw (f.0, f.1) (omega arith, omega (arith, top));
      }

  -- What `holds_id` finds.
  pub holds_id-id_at : (s : State V S) (l : LogId) → holds_id s l ≡ true → id_at s l.index ≡ some l
  unfolding holds_id
  holds_id-id_at s l h =
      let (j, found, eq) = is_some_and-eq-true (id_at s l.index) (λ j. log_id_eq j l) h in
      found ∙ ap (λ x. some x) ((log_id_eq_iff j l).0 eq)

  pub id_at-id_of : (s : State V S) (v : IsValid s) (i : ℕ) → id_at s i ≡ id_of (base s) v.log i
  id_at-id_of s v i = id_at-Holds s v.log v.room i v.holds v.chain

  install_matching-IsValid :
      (s : State V S) (snap : Snapshot S)
      → IsValid s
      → holds_id s snap.last ≡ true
      → (base s).index < snap.last.index
      → 0 < snap.last.term
      → IsValid (install s snap)
  install_matching-IsValid s snap v h lo pt =
      let l : LogId = snap.last in
      let k : ℕ = l.index - (base s).index in
      let found = sym (id_at-id_of s v l.index) ∙ holds_id-id_at s l h in
      let inside = id_of-eq-some (base s) v.log l.index l v.chain found in
      let whole = last_id-index (base s) v.log v.chain in
      let d = drop-Chain (base s) v.log l.index k v.chain found (omega arith) in
      let (room, hi) =
        install_matching s snap v.log v.room v.holds h (omega (arith, inside, whole)) in
      installed s snap (drop k v.log) room v hi (omega arith) pt d.0 (rw d.1 v.terms)
        (rw d.1 v.indices) (rw d.1 v.committed.1)

  install_fresh-IsValid :
      (s : State V S) (snap : Snapshot S)
      → IsValid s
      → holds_id s snap.last ≡ false
      → s.hard.commit < snap.last.index
      → 0 < snap.last.term
      → snap.last.term ≤ s.hard.term
      → snap.last.index < u64_mod
      → IsValid (install s snap)
  install_fresh-IsValid s snap v h ahead pt known small =
      let (room, hi) = install_fresh s snap v.log v.room v.holds h in
      installed s snap [] room v hi (omega arith) pt tt known small (omega arith)

  compacted-IsValid :
      (s : State V S) (snap : Snapshot S)
      → IsValid s
      → (base s).index < snap.last.index
      → 0 < snap.last.term
      → snap.last.term ≤ s.hard.term
      → snap.last.index < u64_mod
      → ((holds_id s snap.last ≡ true) ⊎ (s.hard.commit < snap.last.index))
      → IsValid (install s snap)
  compacted-IsValid s snap v lo pt known small (inl h) = install_matching-IsValid s snap v h lo pt
  compacted-IsValid s snap v lo pt known small (inr ahead) =
      elim (Bool-cases (holds_id s snap.last)) [
        | inl h ↦ install_matching-IsValid s snap v h lo pt
        | inr h ↦ install_fresh-IsValid s snap v h ahead pt known small
      ]

  pub Move-IsValid : {s t : State V S} → Move s t → IsValid s → IsValid t
  Move-IsValid {s} (commit_up c lo hi e) v = rw e (commit_up-IsValid s c v lo hi)
  Move-IsValid {s} {t} (extend x f p) v = extend-IsValid s t x v f p
  Move-IsValid {s} (cut from h e) v = rw e (cut-IsValid s from v h)
  Move-IsValid {s} (new_term term vote h e) v = rw e (new_term-IsValid s term vote v h)
  Move-IsValid {s} (cast_vote id n p e) v = rw e (cast_vote-IsValid s id v p)
  Move-IsValid {s} (compacted snap lo pt known small m e) v =
      rw e (compacted-IsValid s snap v lo pt known small m)

  -- Whatever changes a node makes, its checkpoint stays well formed.
  pub Moves-IsValid : {s t : State V S} → Moves s t → IsValid s → IsValid t
  Moves-IsValid stay v = v
  Moves-IsValid (move a m) v = Move-IsValid m (Moves-IsValid a v)
