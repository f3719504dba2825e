-- ===== src/State/Valid.antt =====
-- The well-formed checkpoints of jarl/src/state.rs, and what `State::restore` accepts.
use mathlib.Core.List.{append_assoc, append-nil}
use mathlib.Core.Path.{subst₂}
use hubby.Prelude.{
  Bool, List, Option, [], ap, arith, checked_add, false, is_some, is_some_and, length, ltb, map_or,
  not, refl, subst, suc, sym, true, u64_mod, zero, ℕ, ◌++◌, ◌+◌, ◌<◌, ◌==◌, ◌||◌, ◌∙◌, ◌∷◌, ◌≡◌,
  ◌≤◌,
}
use hubby.State.{State, base, last, last_id, push, restore_entries}
use hubby.State.Log.{
  Chain, Chain-snoc, Chain-suffix, Holds, full-Holds, last-Holds, last_id-append, last_id-index,
  last_id-snoc, last_id-term, push-Holds,
}
use hubby.Types.{
  Entry, Error, LogId, Snapshot, err, genesis, ok, ok-ne-err, ok_injective, refuse_if-eq-ok,
}

module _ {V : Type 0} where
  -- The last id of a log with one more entry.
  pub last_snoc_eq :
      (b : LogId) (es : List (Entry V)) (e : Entry V) (P : LogId → Type 0)
      → P e.id
      → P (last_id b (es ++ e ∷ []))
  last_snoc_eq b es e P h = subst P (sym (last_id-snoc b es e)) h

module _ {V S : Type 0} where
  pub record IsValid (s : State V S) : Type 0 where
    pub log : List (Entry V)
    pub room : ℕ
    pub holds : Holds s log room
    pub chain : Chain (base s) log
    pub terms : (last_id (base s) log).term ≤ s.hard.term
    pub indices : (last_id (base s) log).index < u64_mod
    pub based : is_some s.snapshot ≡ true → (0 < (base s).index) × (0 < (base s).term)
    pub voted : s.hard.term ≡ 0 → is_some s.hard.voted_for ≡ false
    pub committed :
        ((base s).index ≤ s.hard.commit) × (s.hard.commit ≤ (last_id (base s) log).index)

  -- What the loop over the entries has done when it succeeds.
  pub record Extended (s s' : State V S) (old added : List (Entry V)) : Type 0 where
    pub room : ℕ
    pub holds : Holds s' (old ++ added) room
    pub chain : Chain (base s) (old ++ added)
    pub terms : (last_id (base s) (old ++ added)).term ≤ s.hard.term
    pub indices : (last_id (base s) (old ++ added)).index < u64_mod
    pub same_hard : s'.hard ≡ s.hard
    pub same_snapshot : s'.snapshot ≡ s.snapshot

  -- The tests of one turn of the loop.
  unfit : State V S → Entry V → Bool
  unfit s e =
      not (is_some_and (checked_add (last s).index 1) (λ i. i == e.id.index))
      || e.id.term == 0
      || ltb e.id.term (last s).term
      || ltb s.hard.term e.id.term

  record Fits (s : State V S) (e : Entry V) (es : List (Entry V)) : Type 0 where
    next : e.id.index ≡ (last_id (base s) es).index + 1
    positive : 0 < e.id.term
    rising : (last_id (base s) es).term ≤ e.id.term
    known : e.id.term ≤ s.hard.term
    small : e.id.index < u64_mod

  unfit-Fits :
      (s : State V S) (e : Entry V) (es : List (Entry V)) (room : ℕ)
      → Holds s es room
      → unfit s e ≡ false
      → Fits s e es
  unfolding unfit
  unfit-Fits s e es room h t =
      let t' = rw (last-Holds s es room h) at t in
      record {
        next = ground (arith, t');
        positive = ground (arith, t');
        rising = ground (arith, t');
        known = ground (arith, t');
        small = ground (arith, t');
      }

  Fits-unfit :
      (s : State V S) (e : Entry V) (es : List (Entry V)) (room : ℕ)
      → Holds s es room
      → Fits s e es
      → unfit s e ≡ false
  unfolding unfit
  Fits-unfit s e es room h f = rw (last-Holds s es room h) (ground arith)

  pub push-full :
      (s : State V S) (es : List (Entry V)) (e : Entry V) → Holds s es 0 → push s e ≡ err Error.full
  unfolding push
  push-full s es e h = rw (full-Holds s es 0 h) (ground arith)

  pub Holds-unique :
      (s t : State V S) (es : List (Entry V)) (room : ℕ)
      → Holds s es room
      → Holds t es room
      → s.hard ≡ t.hard
      → s.snapshot ≡ t.snapshot
      → s ≡ t
  Holds-unique s t es room h k e f = λ i. record {
    hard = e i;
    snapshot = f i;
    slots = (h.packed ∙ sym k.packed) i;
    len = (h.len_is ∙ sym k.len_is) i;
  }

  Fits-Chain :
      (s : State V S) (e : Entry V) (es : List (Entry V))
      → Chain (base s) es
      → Fits s e es
      → Chain (base s) (es ++ e ∷ [])
  Fits-Chain s e es c f = Chain-snoc (base s) es e c f.next f.rising f.positive

  pub same_base : (s t : State V S) → t.snapshot ≡ s.snapshot → base t ≡ base s
  same_base s t e = ap (λ (o : Option (Snapshot S)). map_or o genesis (λ x. x.last)) e

  -- After a push, what the rest of the loop does.
  Extended-shift :
      (s s1 s' : State V S) (old : List (Entry V)) (x : Entry V) (es : List (Entry V))
      → s1.hard ≡ s.hard
      → s1.snapshot ≡ s.snapshot
      → Extended s1 s' (old ++ x ∷ []) es
      → Extended s s' old (x ∷ es)
  Extended-shift s s1 s' old x es eh es' g =
      let eb = same_base s s1 es' in
      let grouped = append_assoc old (x ∷ []) es in
      record {
        room = g.room;
        holds = subst (λ l. Holds s' l g.room) grouped g.holds;
        chain = subst₂ Chain eb grouped g.chain;
        terms =
            subst₂ (λ b l. (last_id b l).term ≤ s.hard.term) eb grouped
              (subst (λ h. (last_id (base s1) ((old ++ x ∷ []) ++ es)).term ≤ h.term) eh g.terms);
        indices = subst₂ (λ b l. (last_id b l).index < u64_mod) eb grouped g.indices;
        same_hard = g.same_hard ∙ eh;
        same_snapshot = g.same_snapshot ∙ es';
      }

  pub restore_entries-Extended :
      (s : State V S) (old es : List (Entry V)) (room : ℕ) {s' : State V S}
      → Holds s old room
      → Chain (base s) old
      → (last_id (base s) old).term ≤ s.hard.term
      → (last_id (base s) old).index < u64_mod
      → restore_entries s es ≡ ok s'
      → Extended s s' old es
  unfolding restore_entries unfit
  restore_entries-Extended s old [] room h c t i e =
      let e' = ok_injective e in
      rw (← e') (record {
        room = room;
        holds = rw append-nil h;
        chain = rw append-nil c;
        terms = rw append-nil t;
        indices = rw append-nil i;
        same_hard = refl;
        same_snapshot = refl;
      })
  restore_entries-Extended s old (x ∷ es) zero {s'} h c t i e =
      let (good, pushed) = refuse_if-eq-ok (unfit s x) Error.state _ e in
      absurd (ok-ne-err (rw (push-full s old x h) at pushed))
  restore_entries-Extended s old (x ∷ es) (suc room) {s'} h c t i e =
      let (good, pushed) = refuse_if-eq-ok (unfit s x) Error.state _ e in
      let (s1, p, h1, eh, es') = push-Holds s old room x h in
      let f = unfit-Fits s x old (suc room) h good in
      let eb = same_base s s1 es' in
      Extended-shift s s1 s' old x es eh es' (
        restore_entries-Extended s1 (old ++ x ∷ []) es room h1 (rw eb (Fits-Chain s x old c f))
          (rw (eb, eh) (last_snoc_eq (base s) old x (λ l. l.term ≤ s.hard.term) f.known))
          (rw eb (last_snoc_eq (base s) old x (λ l. l.index < u64_mod) f.small)) (rw p at pushed))

  Chain-Fits :
      (s : State V S) (old : List (Entry V)) (x : Entry V) (es : List (Entry V))
      → Chain (base s) (old ++ x ∷ es)
      → (last_id (base s) (old ++ x ∷ es)).term ≤ s.hard.term
      → (last_id (base s) (old ++ x ∷ es)).index < u64_mod
      → Fits s x old
  Chain-Fits s old x es c t i =
      let c' = Chain-suffix (base s) old (x ∷ es) c in
      let whole = last_id-append (base s) old (x ∷ es) in
      let t' = rw whole at t in
      let i' = rw whole at i in
      record {
        next = c'.0;
        positive = c'.2;
        rising = c'.1;
        known = omega (arith, last_id-term x.id es c'.3);
        small = omega (arith, last_id-index x.id es c'.3);
      }

  -- A valid suffix that fits is accepted.
  pub restore_entries_total :
      (s : State V S) (old es : List (Entry V)) (room : ℕ)
      → Holds s old (length es + room)
      → Chain (base s) (old ++ es)
      → (last_id (base s) (old ++ es)).term ≤ s.hard.term
      → (last_id (base s) (old ++ es)).index < u64_mod
      → (s' : State V S) × (restore_entries s es ≡ ok s')
        × Holds s' (old ++ es) room
        × (s'.hard ≡ s.hard)
        × (s'.snapshot ≡ s.snapshot)
  unfolding restore_entries unfit
  restore_entries_total s old [] room h c t i =
      let e : 0 + room ≡ room = omega arith in
      (s, refl, rw append-nil (subst (Holds s old) e h), refl, refl)
  restore_entries_total s old (x ∷ es) room h c t i =
      let e : suc (length es) + room ≡ suc (length es + room) = omega arith in
      let (s1, p, h1, eh, es') = push-Holds s old (length es + room) x (subst (Holds s old) e h) in
      let eb = same_base s s1 es' in
      let grouped = sym (append_assoc old (x ∷ []) es) in
      let (s', q, hs, eh', es'') =
        restore_entries_total s1 (old ++ x ∷ []) es room h1 (subst₂ Chain (sym eb) grouped c)
          (rw (eb, eh) (subst (λ l. (last_id (base s) l).term ≤ s.hard.term) grouped t))
          (rw eb (subst (λ l. (last_id (base s) l).index < u64_mod) grouped i)) in
      (
        s',
        rw
            (
              Fits-unfit s x old (suc (length es + room)) (subst (Holds s old) e h)
                  (Chain-Fits s old x es c t i),
              p,
            )
            q,
        subst (λ l. Holds s' l room) (sym grouped) hs,
        eh' ∙ eh,
        es'' ∙ es',
      )
