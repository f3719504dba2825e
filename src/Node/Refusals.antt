-- ===== src/Node/Refusals.antt =====
-- The calls of jarl/src/node.rs that fail, and `BatchRollback`.
use mathlib.Core.List.{append_assoc, append-nil}
use mathlib.Core.Path.{subst₂}
use hubby.Prelude.{
  Bool, Bool-cases, List, Option, [], ap, arith, false, inl, inr, leb, length, length-set, ltb,
  none, refl, set, some, subst, suc, sym, take, true, zero, ℕ, ◌&&◌, ◌++◌, ◌+◌, ◌-◌, ◌<◌, ◌∙◌, ◌∷◌,
  ◌≡◌, ◌≤◌,
}
use hubby.State.{State, base, full, last, last_id, pop_slot, push, truncate, truncate_loop}
use hubby.State.Valid.{Holds-unique, same_base}
use hubby.State.MovesValid.{last_of, push-room}
use hubby.State.Suffix.{truncate-Holds, truncate_frame}
use hubby.State.Log.{
  Chain, Chain-snoc, Holds, last_id-index, last_id-snoc, length-packed, take-append, take-length,
}
use hubby.Types.{Entry, Error, LogId, ProposalRange, Result-cases, err, ok, ok-ne-err, ok_injective}
use hubby.Node.Propose.{
  Outcome, Pushed, admit_proposals, drop_rollback, failed, finished, first_proposed, panicked,
  propose_admitted, propose_many, push_values, returned, settle, unwound,
}
use hubby.Node.EvolveLocal.{admit_proposals-eq-ok, left_by}
use hubby.Node.{Node}
use hubby.Node.Sound.{Sound}

-- Whether a call of `propose_many` returned a range.
abbrev pub accepted : Outcome ProposalRange → Bool
accepted unwound = false
accepted (returned (err e)) = false
accepted (returned (ok r)) = true

module _ {V S : Type 0} where
  -- The log has grown, within the same slots.
  record Grown (s t : State V S) (old : List (Entry V)) : Type 0 where
    added : List (Entry V)
    room : ℕ
    holds : Holds t (old ++ added) room
    chain : Chain (base s) (old ++ added)
    same_hard : t.hard ≡ s.hard
    same_snapshot : t.snapshot ≡ s.snapshot
    same_slots : length t.slots ≡ length s.slots

  Grown-refl :
      (s : State V S) (old : List (Entry V)) (room : ℕ)
      → Holds s old room
      → Chain (base s) old
      → Grown s s old
  Grown-refl s old room h c = record {
    added = [];
    room = room;
    holds = rw append-nil h;
    chain = rw append-nil c;
    same_hard = refl;
    same_snapshot = refl;
    same_slots = refl;
  }

  Grown-shift :
      (s s1 t : State V S) (old : List (Entry V)) (x : Entry V)
      → s1.hard ≡ s.hard
      → s1.snapshot ≡ s.snapshot
      → length s1.slots ≡ length s.slots
      → Grown s1 t (old ++ x ∷ [])
      → Grown s t old
  Grown-shift s s1 t old x eh es el g =
      let eb = same_base s s1 es in
      let grouped = append_assoc old (x ∷ []) g.added in
      record {
        added = x ∷ g.added;
        room = g.room;
        holds = subst (λ l. Holds t l g.room) grouped g.holds;
        chain = subst₂ Chain eb grouped g.chain;
        same_hard = g.same_hard ∙ eh;
        same_snapshot = g.same_snapshot ∙ es;
        same_slots = g.same_slots ∙ el;
      }

  push-slots :
      (s : State V S) (e : Entry V) {t : State V S}
      → push s e ≡ ok t
      → length t.slots ≡ length s.slots
  unfolding push
  push-slots s e {t} p = elim (Bool-cases (full s)) [
    | inl no_room ↦
        let q : push s e ≡ err Error.full = rw (no_room, push) refl in
        absurd (ok-ne-err (sym q ∙ p))
    | inr room ↦
        let t' : State V S = record s { slots = set s.slots s.len (some e); len = s.len + 1 } in
        let q : push s e ≡ ok t' = rw (room, push) refl in
        let same : t' ≡ t = ok_injective (sym q ∙ p) in
        ap (λ (x : State V S). length x.slots) (sym same) ∙ length-set s.slots s.len (some e)
  ]

  push_values-Grown :
      (s : State V S) (first : LogId) (offset : ℕ) (vs : List (Option V)) (old : List (Entry V))
      (room : ℕ)
      → Holds s old room
      → Chain (base s) old
      → first.index + offset ≡ (last_id (base s) old).index + 1
      → (last_id (base s) old).term ≤ first.term
      → 0 < first.term
      → Grown s (left_by (push_values s first offset vs)) old
  unfolding push_values
  push_values-Grown s first offset [] old room h c i t p = Grown-refl s old room h c
  push_values-Grown s first offset (none ∷ vs) old room h c i t p = Grown-refl s old room h c
  push_values-Grown s first offset (some x ∷ vs) old room h c i t p =
      let e : Entry V = record {
        id = record { index = first.index + offset; term = first.term };
        value = some x;
      } in
      elim (Result-cases (push s e)) [
        | inr (y, refused) ↦ rw (refused, push_values) (Grown-refl s old room h c)
        | inl (s1, taken) ↦
            let (r, h1, eh, es) = push-room s old room e h taken in
            let eb = same_base s s1 es in
            let el = last_id-snoc (base s1) old e in
            rw (taken, push_values)
              (Grown-shift s s1 _ old e eh es (push-slots s e taken) (
                push_values-Grown s1 first (suc offset) vs (old ++ e ∷ []) r h1
                  (rw eb (Chain-snoc (base s) old e c i t p))
                  (omega (arith, ap (λ (l : LogId). l.index) el))
                  (omega (arith, ap (λ (l : LogId). l.term) el)) p))
      ]

  truncate_loop-slots :
      (k from : ℕ) (s : State V S) → length (truncate_loop k from s).slots ≡ length s.slots
  unfolding truncate_loop
  truncate_loop-slots zero from s = refl
  truncate_loop-slots (suc k) from s = elim (Bool-cases (leb from (last s).index && ltb 0 s.len)) [
    | inl more ↦
        rw (more, truncate_loop)
          (truncate_loop-slots k from (pop_slot s) ∙ length-set s.slots (s.len - 1) none)
    | inr done ↦ rw (done, truncate_loop) refl
  ]

  -- A log has one representation in an array of a given length.
  Holds-sized :
      (s t : State V S) (es : List (Entry V)) (r r' : ℕ)
      → Holds s es r
      → Holds t es r'
      → s.hard ≡ t.hard
      → s.snapshot ≡ t.snapshot
      → length s.slots ≡ length t.slots
      → s ≡ t
  Holds-sized s t es r r' h h' eh es' el =
      let n = ap (λ (x : List (Option (Entry V))). length x) h.packed ∙ length-packed es r in
      let m = ap (λ (x : List (Option (Entry V))). length x) h'.packed ∙ length-packed es r' in
      let same : r ≡ r' = omega (arith, n, m, el) in
      Holds-unique s t es r h (subst (Holds t es) (sym same) h') eh es'

  -- Dropping what was pushed after the last id of a log gives back that log.
  truncate-Grown :
      (s t : State V S) (old : List (Entry V)) (room from : ℕ)
      → Holds s old room
      → Chain (base s) old
      → Grown s t old
      → from ≡ (last_id (base s) old).index + 1
      → truncate t from ≡ s
  unfolding truncate
  truncate-Grown s t old room from h c g e =
      let f = truncate_frame t from in
      let eb = same_base s t g.same_snapshot in
      let (left, k) = truncate-Holds t from (old ++ g.added) g.room g.holds (rw eb g.chain) in
      let bi = ap (λ (l : LogId). l.index) eb in
      let size : from - suc (base t).index ≡ length old =
        omega (arith, last_id-index (base s) old c, bi, e) in
      let kept : take (from - suc (base t).index) (old ++ g.added) ≡ old =
        ap (λ i. take i (old ++ g.added)) size
        ∙ take-append (length old) old g.added (omega arith)
        ∙ take-length (length old) old (omega arith) in
      Holds-sized (truncate t from) s old left room
        (subst (λ l. Holds (truncate t from) l left) kept k) h (f.0 ∙ g.same_hard)
        (f.1 ∙ g.same_snapshot) (truncate_loop-slots t.len from t ∙ g.same_slots)

  settle_refused :
      (n : Node V S) (last_index : ℕ) (p : Pushed V S)
      → accepted (settle n last_index p).1 ≡ false
      → truncate (left_by p) (first_proposed n).index ≡ n.state
      → (settle n last_index p).0 ≡ n
  unfolding settle drop_rollback
  settle_refused n last_index (finished s) h e = absurd (ground (arith, h))
  settle_refused n last_index (failed s y) h e = ap (λ (x : State V S). record n { state = x }) e
  settle_refused n last_index (panicked s) h e = ap (λ (x : State V S). record n { state = x }) e

  -- A proposal of one or many values that fails, or that unwinds from the construction of a value,
  -- leaves a sound node exactly as it was, with every pushed entry taken back.
  pub propose_many_refused :
      (n : Node V S) (number : ℕ) (values : List (Option V))
      → Sound n
      → accepted (propose_many n number values).1 ≡ false
      → (propose_many n number values).0 ≡ n
  unfolding propose_many propose_admitted
  propose_many_refused n number values v h = elim (Result-cases (admit_proposals n number)) [
    | inr (e, refused) ↦ rw (refused, propose_many) refl
    | inl (last_index, taken) ↦
        let (leads, fits) = admit_proposals-eq-ok n number taken in
        let positive = v.ruling (ground (arith, leads)) in
        let l = last_of n.state v.valid in
        let li = ap (λ (x : LogId). x.index) l in
        let g =
          push_values-Grown n.state (first_proposed n) 0 values v.valid.log v.valid.room
            v.valid.holds v.valid.chain (omega (arith, li)) v.valid.terms positive in
        let back =
          truncate-Grown n.state (left_by (push_values n.state (first_proposed n) 0 values))
            v.valid.log v.valid.room (first_proposed n).index v.valid.holds v.valid.chain g
            (omega (arith, li)) in
        rw (taken, propose_many)
          (settle_refused n last_index _ (rw (taken, propose_many) at h) back)
  ]
