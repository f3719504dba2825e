-- ===== src/Node/Accepted.antt =====
-- What a follower of jarl/src/node.rs has done when it accepts an entry.
use hubby.Prelude.{
  Bool-cases, List, [], ap, arith, checked_sub_below, checked_sub_exact, false, get_elem?,
  if◌then◌else◌, inl, inr, leb, length, ltb, max, min, none, refl, some, suc, sym, take, true, zero,
  ℕ, ◌&&◌, ◌++◌, ◌+◌, ◌-◌, ◌<◌, ◌∙◌, ◌∷◌, ◌≡◌, ◌≤◌,
}
use hubby.State.{HardState, State, base, full, get, holds_id, id_at, last, truncate}
use hubby.State.Moves.{Moves-one, cut, with_commit}
use hubby.State.MovesValid.{Moves-IsValid, holds_id-id_at, id_at-id_of, last_of, push-room}
use hubby.State.Valid.{IsValid, same_base}
use hubby.State.Suffix.{truncate-Holds, truncate_frame}
use hubby.State.Log.{last_id-index}
use hubby.State.Index.{get-Holds, id_of-eq-some, id_of-last}
use hubby.Types.{Entry, LogId, Result-cases, ok}
use hubby.Node.{Node}
use hubby.Node.Peers.{refresh_membership}
use hubby.Node.Commit.{commit_to}
use hubby.Node.Replication.{Response, append, append_new, lower_from, replace_suffix}
use hubby.Node.Sound.{Sound, refresh_membership-Soft}
use hubby.Node.EvolveStep.{Continues, replaced-Moves, replaced-last}

module _ {V : Type 0} where
  get_elem?-take :
      (k j : ℕ) (es fs : List (Entry V))
      → j < k
      → k ≤ length es
      → get_elem? (take k es ++ fs) j ≡ get_elem? es j
  get_elem?-take zero j es fs h w = absurd (omega (arith, h))
  get_elem?-take (suc k) j [] fs h w = absurd (omega (arith, w))
  get_elem?-take (suc k) zero (x ∷ es) fs h w = refl
  get_elem?-take (suc k) (suc j) (x ∷ es) fs h w =
      get_elem?-take k j es fs (omega (arith, h)) (omega (arith, w))

  get_elem?-next :
      (k : ℕ) (es : List (Entry V)) (e : Entry V)
      → k ≤ length es
      → get_elem? (take k es ++ e ∷ []) k ≡ some e
  get_elem?-next zero es e w = refl
  get_elem?-next (suc k) [] e w = absurd (omega (arith, w))
  get_elem?-next (suc k) (x ∷ es) e w = get_elem?-next k es e (omega (arith, w))

module _ {V S : Type 0} where
  -- The answer names the entry; the log holds the id of the entry, with the entry that it held under
  -- that id before or else with this one; the entry at `i` is what it was; and the commit index has
  -- followed the leader's.
  abbrev pub Took : Node V S → Entry V → ℕ → ℕ → Node V S × Response → Type 0
  Took n e commit i (n', (index, rejection)) =
      (index ≡ e.id.index)
      × (id_at n'.state e.id.index ≡ some e.id)
      × (get n'.state e.id.index
          ≡ (if holds_id n.state e.id then get n.state e.id.index else some e))
      × (get n'.state i ≡ get n.state i)
      × (n'.state.hard.commit ≡ max n.state.hard.commit (min commit e.id.index))

  id_at-with_commit : (s : State V S) (c i : ℕ) → id_at (with_commit s c) i ≡ id_at s i
  unfolding id_at get
  id_at-with_commit s c i = refl

  get-with_commit : (s : State V S) (c i : ℕ) → get (with_commit s c) i ≡ get s i
  unfolding get
  get-with_commit s c i = refl

  -- The entry at an index at or below the boundary is gone.
  get_compacted : (s : State V S) (i : ℕ) → i ≤ (base s).index → get s i ≡ none
  unfolding get
  get_compacted s i h = elim (Bool-cases (ltb i (base s).index)) [
    | inl below ↦ rw (checked_sub_below i (base s).index (ground (arith, below))) refl
    | inr at_ ↦ rw (checked_sub_exact i (base s).index 0 (ground (arith, at_, h))) refl
  ]

  -- `commit_to` keeps every entry.
  pub get-commit_to : (n : Node V S) (c i : ℕ) → get (commit_to n c).state i ≡ get n.state i
  unfolding commit_to
  get-commit_to n c i = elim (Bool-cases (ltb n.state.hard.commit c)) [
    | inr less ↦ rw (less, commit_to) refl
    | inl more ↦
        let n2 : Node V S = record n { state = with_commit n.state c; dirty = true } in
        rw (more, commit_to)
          (ap (λ (x : State V S). get x i) (refresh_membership-Soft n2).state
            ∙ get-with_commit n.state c i)
  ]

  -- `commit_to` leaves the log alone, and raises the commit index to what it is given.
  commit_to-Took :
      (n n1 : Node V S) (e : Entry V) (commit i : ℕ)
      → id_at n1.state e.id.index ≡ some e.id
      → get n1.state e.id.index ≡ (if holds_id n.state e.id then get n.state e.id.index else some e)
      → get n1.state i ≡ get n.state i
      → n1.state.hard.commit ≡ n.state.hard.commit
      → Took n e commit i (commit_to n1 (min commit e.id.index), (e.id.index, none))
  unfolding commit_to
  commit_to-Took n n1 e commit i h g p k =
      let c : ℕ = min commit e.id.index in
      elim (Bool-cases (ltb n1.state.hard.commit c)) [
        | inr less ↦ rw (less, commit_to) (refl, h, g, p, ground (arith, less, k))
        | inl more ↦
            let n2 : Node V S = record n1 { state = with_commit n1.state c; dirty = true } in
            let s = (refresh_membership-Soft n2).state in
            let same_get : (j : ℕ) → get (refresh_membership n2).state j ≡ get n1.state j =
              λ j. ap (λ (x : State V S). get x j) s ∙ get-with_commit n1.state c j in
            rw (more, commit_to)
              (
                refl,
                ap (λ (x : State V S). id_at x e.id.index) s
                    ∙ id_at-with_commit n1.state c e.id.index
                    ∙ h,
                same_get e.id.index ∙ g,
                same_get i ∙ p,
                ap (λ (x : State V S). x.hard.commit) s ∙ ground (arith, more, k),
              )
      ]

  -- A replaced suffix consists of the entry, after the entries before it.
  replaced-get :
      (s : State V S) (previous : LogId) (e : Entry V) (i : ℕ) {t : State V S}
      → IsValid s
      → holds_id s previous ≡ true
      → e.id.index ≡ previous.index + 1
      → i < e.id.index
      → replace_suffix s e ≡ ok t
      → (get t e.id.index ≡ some e) × (get t i ≡ get s i)
  replaced-get s previous e i {t} v h next below p =
      let (left, hl) = truncate-Holds s e.id.index v.log v.room v.holds v.chain in
      let f = truncate_frame s e.id.index in
      let k : ℕ = e.id.index - suc (base s).index in
      let (r, ht, eh, es) = push-room (truncate s e.id.index) (take k v.log) left e hl p in
      let bt = ap (λ (l : LogId). l.index) (same_base s t (es ∙ f.1)) in
      let found = sym (id_at-id_of s v previous.index) ∙ holds_id-id_at s previous h in
      let inside = id_of-eq-some (base s) v.log previous.index previous v.chain found in
      let many = last_id-index (base s) v.log v.chain in
      let short : k ≤ length v.log = omega (arith, next, inside.1, inside.2, many) in
      (
        get-Holds t (take k v.log ++ e ∷ []) r k e.id.index ht (omega (arith, next, inside.1, bt))
            ∙ get_elem?-next k v.log e short,
        elim (Bool-cases (leb i (base s).index)) [
          | inl low ↦
              let gone : i ≤ (base s).index = ground (arith, low) in
              get_compacted t i (omega (arith, gone, bt)) ∙ sym (get_compacted s i gone)
          | inr high ↦
              let j : ℕ = i - suc (base s).index in
              let at_ : i ≡ (base s).index + suc j = ground (arith, high) in
              get-Holds t (take k v.log ++ e ∷ []) r j i ht (omega (arith, at_, bt))
              ∙ get_elem?-take k j v.log (e ∷ []) (omega (arith, at_, below)) short
              ∙ sym (get-Holds s v.log v.room j i v.holds at_)
        ],
      )

  last-id_at : (s : State V S) (l : LogId) → IsValid s → last s ≡ l → id_at s l.index ≡ some l
  last-id_at s l v e =
      let e' = sym (last_of s v) ∙ e in
      id_at-id_of s v l.index
      ∙ id_of-last (base s) v.log l.index v.chain (sym (ap (λ (i : LogId). i.index) e'))
      ∙ ap some e'

  replace-Took :
      (n : Node V S) (previous : LogId) (e : Entry V) (commit i : ℕ) {s : State V S}
      → Sound n
      → i < e.id.index
      → holds_id n.state e.id ≡ false
      → holds_id n.state previous ≡ true
      → Continues n.state.hard.term previous e
      → n.state.hard.commit < e.id.index
      → replace_suffix n.state e ≡ ok s
      → let r = refresh_membership (record n { state = s }) in
        Took n e commit i (
          commit_to
              (record r { dirty = true; log_from = lower_from r.log_from e.id.index })
              (min commit e.id.index),
          (e.id.index, none),
        )
  replace-Took n previous e commit i {s} v below new_ h c fresh p =
      let n1 : Node V S = record n { state = s } in
      let valid_s = Moves-IsValid (replaced-Moves n.state previous e v.valid h c fresh p) v.valid in
      let cut_valid = Moves-IsValid (Moves-one (cut e.id.index fresh refl)) v.valid in
      let l = replaced-last n.state e cut_valid p in
      let rs = (refresh_membership-Soft n1).state in
      let (mine, before) = replaced-get n.state previous e i v.valid h c.next below p in
      commit_to-Took n _ e commit i
        (ap (λ (x : State V S). id_at x e.id.index) rs ∙ last-id_at s e.id valid_s l.0)
        (ap (λ (x : State V S). get x e.id.index) rs ∙ mine ∙ rw new_ refl)
        (ap (λ (x : State V S). get x i) rs ∙ before)
        (ap (λ (x : State V S). x.hard.commit) rs ∙ ap (λ (x : HardState). x.commit) l.1)

  append_new-Took :
      (n : Node V S) (previous : LogId) (e : Entry V) (commit i : ℕ)
      → Sound n
      → i < e.id.index
      → holds_id n.state e.id ≡ false
      → holds_id n.state previous ≡ true
      → Continues n.state.hard.term previous e
      → (append_new n previous e commit).1.1 ≡ none
      → Took n e commit i (append_new n previous e commit)
  unfolding append_new
  append_new-Took n previous e commit i v below new_ h c a =
      elim (Bool-cases (leb e.id.index n.state.hard.commit)) [
        | inl old ↦ absurd (let b = rw (old, append_new) at a in cc (b))
        | inr fresh ↦ elim (Bool-cases (full n.state && ltb (last n.state).index e.id.index)) [
          | inl no_room ↦ absurd (let b = rw (fresh, no_room, append_new) at a in cc (b))
          | inr room ↦
              let lt : n.state.hard.commit < e.id.index = ground (arith, fresh) in
              elim (Result-cases (replace_suffix n.state e)) [
                | inl (s, p) ↦
                    rw (fresh, room, append_new, p)
                      (replace-Took n previous e commit i v below new_ h c lt p)
                | inr (x, p) ↦ absurd (let b = rw (fresh, room, append_new, p) at a in cc (b))
              ]
        ]
      ]

  -- When a sound follower accepts an entry that continues the leader's predecessor, its log held the
  -- predecessor before. After it, the log holds the entry's id at the entry's index, with the entry
  -- itself, or, where the log held that id already, with the entry that it held under it; every entry
  -- at a smaller index is what it was; the answer names the entry's index; and the commit index is the
  -- larger of the old one and the leader's, bounded by the entry.
  pub append-Took :
      (n : Node V S) (previous : LogId) (e : Entry V) (commit i : ℕ)
      → Sound n
      → Continues n.state.hard.term previous e
      → i < e.id.index
      → (append n previous (some e) commit).1.1 ≡ none
      → (holds_id n.state previous ≡ true) × Took n e commit i (append n previous (some e) commit)
  unfolding append
  append-Took n previous e commit i v c below a = elim (Bool-cases (holds_id n.state previous)) [
    | inr miss ↦ absurd (let b = rw (miss, append) at a in cc (b))
    | inl h ↦ elim (Bool-cases (holds_id n.state e.id)) [
      | inl known ↦
          let took =
            commit_to-Took n n e commit i (holds_id-id_at n.state e.id known) (rw known refl) refl
              refl in
          rw (h, append, known) (refl, rw known at took)
      | inr new_ ↦
          let b : (append_new n previous e commit).1.1 ≡ none = rw (h, append, new_) at a in
          let took = append_new-Took n previous e commit i v below new_ h c b in
          rw (h, append, new_) (refl, rw new_ at took)
    ]
  ]
