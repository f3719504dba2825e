-- ===== src/Node/EvolveStep.antt =====
-- `Node::step` of jarl/src/node.rs changes the checkpoint by moves alone, and keeps the invariant.
use hubby.Prelude.{
  Bool-cases, Option, [], ap, arith, inl, inr, leb, ltb, min, none, refl, some, suc, sym, take,
  true, u64_mod, ℕ, ◌&&◌, ◌++◌, ◌+◌, ◌-◌, ◌<◌, ◌∙◌, ◌∷◌, ◌≡◌, ◌≤◌,
}
use hubby.State.{HardState, State, base, full, holds_id, last, last_id, truncate}
use hubby.State.Valid.{IsValid, same_base}
use hubby.State.Moves.{Follows, Moves, Moves-one, cut, extend, move}
use hubby.State.MovesValid.{Moves-IsValid, holds_id-id_at, id_at-id_of, push-room}
use hubby.State.Index.{id_of-eq-some, last_id-take}
use hubby.State.Suffix.{truncate-Holds, truncate_frame}
use hubby.State.Log.{last-Holds, last_id-snoc}
use hubby.Types.{Entry, LogId, Result-cases, ok}
use hubby.Node.Replication.{append, append_new, lower_from, replace_suffix}
use hubby.Node.Step.{continues}
use hubby.Node.{Node}
use hubby.Node.Peers.{refresh_membership}
use hubby.Node.Commit.{commit_to}
use hubby.Node.Sound.{Calm, Evolves, Sound, refresh_membership-Soft, soft}
use hubby.Node.Evolve.{
  Evolves-refl, Evolves-then, commit_to-Evolves, grows, id_at-le-last, then-Soft,
}

module _ {V : Type 0} where
  -- What a valid message of a term says of an entry and its predecessor.
  pub record Continues (term : ℕ) (previous : LogId) (e : Entry V) : Type 0 where
    pub next : e.id.index ≡ previous.index + 1
    pub rising : previous.term ≤ e.id.term
    pub positive : 0 < e.id.term
    pub known : e.id.term ≤ term
    pub small : e.id.index < u64_mod

  pub continues-Continues :
      (term : ℕ) (previous : LogId) (e : Entry V)
      → continues term previous e ≡ true
      → Continues term previous e
  continues-Continues term previous e c = record {
    next = ground (arith, c);
    rising = ground (arith, c);
    positive = ground (arith, c);
    known = ground (arith, c);
    small = ground (arith, c);
  }

  -- What the entry of a message must meet, if there is one.
  abbrev pub EntryFits : ℕ → LogId → Option (Entry V) → Type 0
  EntryFits term previous none = Unit {0}
  EntryFits term previous (some e) = Continues term previous e

module _ {V S : Type 0} where
  -- After the suffix is dropped, the predecessor is the last id, and the entry may follow.
  truncated-Follows :
      (s : State V S) (previous : LogId) (e : Entry V)
      → IsValid s
      → holds_id s previous ≡ true
      → Continues s.hard.term previous e
      → Follows (truncate s e.id.index) e
  truncated-Follows s previous e v h c =
      let (left, hl) = truncate-Holds s e.id.index v.log v.room v.holds v.chain in
      let f = truncate_frame s e.id.index in
      let k : ℕ = e.id.index - suc (base s).index in
      let found = sym (id_at-id_of s v previous.index) ∙ holds_id-id_at s previous h in
      let inside = id_of-eq-some (base s) v.log previous.index previous v.chain found in
      let eb = same_base s (truncate s e.id.index) f.1 in
      let e1 : previous.index ≡ (base s).index + k = omega (arith, c.next, inside) in
      let at_end : last (truncate s e.id.index) ≡ previous =
        last-Holds (truncate s e.id.index) (take k v.log) left hl
        ∙ ap (λ b. last_id b (take k v.log)) eb
        ∙ last_id-take (base s) v.log previous.index k v.chain found e1 in
      record {
        next = rw at_end c.next;
        rising = rw at_end c.rising;
        positive = c.positive;
        known = rw f.0 c.known;
        small = c.small;
      }

  -- Replacing an uncommitted suffix.
  pub replaced-Moves :
      (s : State V S) (previous : LogId) (e : Entry V) {t : State V S}
      → IsValid s
      → holds_id s previous ≡ true
      → Continues s.hard.term previous e
      → s.hard.commit < e.id.index
      → replace_suffix s e ≡ ok t
      → Moves s t
  replaced-Moves s previous e v h c fresh p =
      move (Moves-one (cut e.id.index fresh refl))
        (extend e (truncated-Follows s previous e v h c) p)

  pub replaced-last :
      (s : State V S) (e : Entry V) {t : State V S}
      → IsValid (truncate s e.id.index)
      → replace_suffix s e ≡ ok t
      → (last t ≡ e.id) × (t.hard ≡ s.hard)
  replaced-last s e {t} v p =
      let (r, h, eh, es) = push-room (truncate s e.id.index) v.log v.room e v.holds p in
      (
        last-Holds t (v.log ++ e ∷ []) r h ∙ last_id-snoc (base t) v.log e,
        eh ∙ (truncate_frame s e.id.index).0,
      )

  replace-Evolves :
      (n : Node V S) (previous : LogId) (e : Entry V) (commit : ℕ) {s : State V S}
      → Sound n
      → holds_id n.state previous ≡ true
      → Continues n.state.hard.term previous e
      → n.state.hard.commit < e.id.index
      → replace_suffix n.state e ≡ ok s
      → let r = refresh_membership (record n { state = s }) in
        Evolves n (
          commit_to
            (record r { dirty = true; log_from = lower_from r.log_from e.id.index })
            (min commit e.id.index))
  replace-Evolves n previous e commit {s} v h c fresh p =
      let n1 : Node V S = record n { state = s } in
      let r : Node V S = refresh_membership n1 in
      let m = replaced-Moves n.state previous e v.valid h c fresh p in
      let cut_valid = Moves-IsValid (Moves-one (cut e.id.index fresh refl)) v.valid in
      let l = replaced-last n.state e cut_valid p in
      let quiet : Calm n n1 = record { rules = λ x. x; probes = λ t x. x } in
      let first = grows n n1 v m (ap (λ (x : HardState). x.term) l.1) quiet in
      let rs = refresh_membership-Soft n1 in
      let top : last r.state ≡ e.id = ap last rs.state ∙ l.0 in
      Evolves-then (then-Soft (then-Soft first rs) (soft r _ refl refl refl))
        (commit_to-Evolves _ (min commit e.id.index) (rw top (omega arith)))

  truncated-Evolves :
      (n : Node V S) (from : ℕ)
      → Sound n
      → n.state.hard.commit < from
      → Evolves n (record n { state = truncate n.state from })
  truncated-Evolves n from v h =
      grows n _ v (Moves-one (cut from h refl))
        (ap (λ (x : HardState). x.term) (truncate_frame n.state from).0)
        (record { rules = λ x. x; probes = λ t x. x })

  append_new-Evolves :
      (n : Node V S) (previous : LogId) (e : Entry V) (commit : ℕ)
      → Sound n
      → holds_id n.state previous ≡ true
      → Continues n.state.hard.term previous e
      → Evolves n (append_new n previous e commit).0
  unfolding append_new
  append_new-Evolves n previous e commit v h c =
      elim (Bool-cases (leb e.id.index n.state.hard.commit)) [
        | inl old ↦ rw (old, append_new) (Evolves-refl n v)
        | inr fresh ↦ elim (Bool-cases (full n.state && ltb (last n.state).index e.id.index)) [
          | inl no_room ↦
              let held =
                id_at-le-last n.state previous.index v.valid (holds_id-id_at n.state previous h) in
              rw (fresh, no_room, append_new)
                (commit_to-Evolves n (min commit previous.index) (omega (arith, held)) v)
          | inr room ↦
              let lt : n.state.hard.commit < e.id.index = ground (arith, fresh) in
              elim (Result-cases (replace_suffix n.state e)) [
                | inl (s, p) ↦
                    rw (fresh, room, append_new, p) (replace-Evolves n previous e commit v h c lt p)
                | inr (x, p) ↦ rw (fresh, room, append_new, p) (truncated-Evolves n e.id.index v lt)
              ]
        ]
      ]

  pub append-Evolves :
      (n : Node V S) (previous : LogId) (entry : Option (Entry V)) (commit : ℕ)
      → Sound n
      → EntryFits n.state.hard.term previous entry
      → Evolves n (append n previous entry commit).0
  unfolding append
  append-Evolves n previous none commit v c = elim (Bool-cases (holds_id n.state previous)) [
    | inr miss ↦ rw (miss, append) (Evolves-refl n v)
    | inl h ↦
        let held =
          id_at-le-last n.state previous.index v.valid (holds_id-id_at n.state previous h) in
        rw (h, append) (commit_to-Evolves n (min commit previous.index) (omega (arith, held)) v)
  ]
  append-Evolves n previous (some e) commit v c = elim (Bool-cases (holds_id n.state previous)) [
    | inr miss ↦ rw (miss, append) (Evolves-refl n v)
    | inl h ↦ elim (Bool-cases (holds_id n.state e.id)) [
      | inl known ↦
          let held = id_at-le-last n.state e.id.index v.valid (holds_id-id_at n.state e.id known) in
          rw (h, append, known)
            (commit_to-Evolves n (min commit e.id.index) (omega (arith, held)) v)
      | inr new_ ↦ rw (h, append, new_) (append_new-Evolves n previous e commit v h c)
    ]
  ]
