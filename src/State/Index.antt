-- ===== src/State/Index.antt =====
-- `State::get` and `State::id_at` of jarl/src/state.rs look a contiguous log up by index.
use hubby.Prelude.{
  Bool-cases, List, Option, [], arith, checked_sub_below, checked_sub_exact, drop, get_elem?, inl,
  inr, ltb, ltb_iff, map_option, none, refl, some, some_injective, suc, sym, take, true, zero, ℕ,
  ◌++◌, ◌+◌, ◌-◌, ◌<◌, ◌==◌, ◌∙◌, ◌∷◌, ◌≡◌, ◌≤◌,
}
use hubby.State.{State, base, get, id_at, last_id}
use hubby.State.Log.{Chain, Holds, get-packed, id_of, last_id-index, last_id-term}
use hubby.Types.{Entry, LogId}

module _ {V : Type 0} where
  abbrev pub entry_id : Option (Entry V) → Option LogId
  entry_id o = map_option o (λ e. e.id)

  pub id_of_below :
      (b : LogId) (es : List (Entry V)) (i : ℕ) → Chain b es → i < b.index → id_of b es i ≡ none
  id_of_below b [] i c h = ground arith
  id_of_below b (e ∷ es) i c h = ground (arith, id_of_below e.id es i c.3)

  -- Above the boundary, the search agrees with the position in the list.
  id_of-get_elem? :
      (b : LogId) (es : List (Entry V)) (i k : ℕ)
      → Chain b es
      → i ≡ b.index + suc k
      → id_of b es i ≡ entry_id (get_elem? es k)
  id_of-get_elem? b [] i k c h = ground arith
  id_of-get_elem? b (e ∷ []) i zero c h = ground arith
  id_of-get_elem? b (e ∷ f ∷ es) i zero c h = ground arith
  id_of-get_elem? b (e ∷ es) i (suc k) c h = ground (arith, id_of-get_elem? e.id es i k c.3)

  pub id_of-append :
      (b : LogId) (es fs : List (Entry V)) (i : ℕ)
      → Chain b es
      → i ≤ (last_id b es).index
      → Chain (last_id b es) fs
      → id_of b (es ++ fs) i ≡ id_of b es i
  id_of-append b [] [] i c h d = refl
  id_of-append b [] (f ∷ fs) i c h d = elim (Bool-cases (i == b.index)) [
    | inl hit ↦ ground (arith, hit)
    | inr miss ↦ ground (arith, miss, id_of_below f.id fs i d.3)
  ]
  id_of-append b (e ∷ es) fs i c h d = ground (arith, id_of-append e.id es fs i c.3 h d)

  pub id_of-take :
      (b : LogId) (k : ℕ) (es : List (Entry V)) (i : ℕ)
      → Chain b es
      → i ≤ b.index + k
      → id_of b (take k es) i ≡ id_of b es i
  id_of-take b zero [] i c h = refl
  id_of-take b zero (e ∷ es) i c h = ground (arith, id_of_below e.id es i c.3)
  id_of-take b (suc k) [] i c h = refl
  id_of-take b (suc k) (e ∷ es) i c h = ground (arith, id_of-take e.id k es i c.3)

  pub id_of-last :
      (b : LogId) (es : List (Entry V)) (i : ℕ)
      → Chain b es
      → i ≡ (last_id b es).index
      → id_of b es i ≡ some (last_id b es)
  id_of-last b [] i c h = ground arith
  id_of-last b (e ∷ es) i c h =
      ground (arith, last_id-index e.id es c.3, id_of-last e.id es i c.3 h)

  -- What is found has that index, which lies in the log.
  pub id_of-eq-some :
      (b : LogId) (es : List (Entry V)) (i : ℕ) (j : LogId)
      → Chain b es
      → id_of b es i ≡ some j
      → (j.index ≡ i) × (b.index ≤ i) × (i ≤ (last_id b es).index) × (b.term ≤ j.term)
  id_of-eq-some b [] i j c h = ground arith
  id_of-eq-some b (e ∷ es) i j c h =
      ground (arith, last_id-index e.id es c.3, id_of-eq-some e.id es i j c.3)

  -- A log after `b` holds an id at each index from `b` to its last.
  pub id_of_inside :
      (b : LogId) (es : List (Entry V)) (i : ℕ)
      → Chain b es
      → b.index ≤ i
      → i ≤ (last_id b es).index
      → (j : LogId) × (id_of b es i ≡ some j)
  id_of_inside b [] i c lo hi = (b, ground arith)
  id_of_inside b (e ∷ es) i c lo hi = elim (Bool-cases (i == b.index)) [
    | inl hit ↦ (b, rw hit)
    | inr miss ↦ rw miss (id_of_inside e.id es i c.3 (ground arith) hi)
  ]

  pub id_of_above :
      (b : LogId) (es : List (Entry V)) (i : ℕ)
      → Chain b es
      → (last_id b es).index < i
      → id_of b es i ≡ none
  id_of_above b [] i c h = ground arith
  id_of_above b (e ∷ es) i c h =
      ground (arith, last_id-index e.id es c.3, id_of_above e.id es i c.3 h)

  pub id_of_at_base :
      (b : LogId) (es : List (Entry V)) (i : ℕ) → (i == b.index) ≡ true → id_of b es i ≡ some b
  id_of_at_base b [] i h = rw h
  id_of_at_base b (e ∷ es) i h = rw h

module _ {V S : Type 0} where
  pub get-Holds :
      (s : State V S) (es : List (Entry V)) (room k i : ℕ)
      → Holds s es room
      → i ≡ (base s).index + suc k
      → get s i ≡ get_elem? es k
  unfolding get
  get-Holds s es room k i h e =
      rw
        (
          checked_sub_exact i (base s).index (suc k) e,
          checked_sub_exact (suc k) 1 k (omega arith),
          h.packed,
        )
        (get-packed es room k)

  get_below : (s : State V S) (i : ℕ) → i < (base s).index → get s i ≡ none
  unfolding get
  get_below s i h = rw (checked_sub_below i (base s).index h)

  -- `id_at` finds the id that the log has at an index, and nothing outside it.
  pub id_at-Holds :
      (s : State V S) (es : List (Entry V)) (room i : ℕ)
      → Holds s es room
      → Chain (base s) es
      → id_at s i ≡ id_of (base s) es i
  unfolding id_at
  id_at-Holds s es room i h c = elim (Bool-cases (i == (base s).index)) [
    | inl hit ↦ rw hit (sym (id_of_at_base (base s) es i hit))
    | inr miss ↦ elim (Bool-cases (ltb i (base s).index)) [
      | inl lt ↦
          let below : i < (base s).index = (ltb_iff i (base s).index).0 lt in
          rw (miss, get_below s i below, id_of_below (base s) es i c below)
      | inr ge ↦
          let k : ℕ = i - (base s).index - 1 in
          let e : i ≡ (base s).index + suc k = ground arith in
          rw (miss, get-Holds s es room k i h e, id_of-get_elem? (base s) es i k c e)
    ]
  ]

module _ {V : Type 0} where
  pub last_id-take-term :
      (b : LogId) (k : ℕ) (es : List (Entry V))
      → Chain b es
      → (last_id b (take k es)).term ≤ (last_id b es).term
  last_id-take-term b zero es c = last_id-term b es c
  last_id-take-term b (suc k) [] c = omega arith
  last_id-take-term b (suc k) (e ∷ es) c = last_id-take-term e.id k es c.3

  -- Cutting a log right after a position that it holds leaves that position last.
  pub last_id-take :
      (b : LogId) (es : List (Entry V)) (i k : ℕ) {j : LogId}
      → Chain b es
      → id_of b es i ≡ some j
      → i ≡ b.index + k
      → last_id b (take k es) ≡ j
  last_id-take b es i zero c e h = some_injective (sym (id_of_at_base b es i (ground arith)) ∙ e)
  last_id-take b [] i (suc k) c e h = absurd (ground (arith, e))
  last_id-take b (x ∷ es) i (suc k) c e h =
      last_id-take x.id es i k c.3 (ground (arith, e)) (omega (arith, c.0))

  -- Dropping a prefix up to a position that it holds leaves a log after that position.
  pub drop-Chain :
      (b : LogId) (es : List (Entry V)) (i k : ℕ) {j : LogId}
      → Chain b es
      → id_of b es i ≡ some j
      → i ≡ b.index + k
      → Chain j (drop k es) × (last_id j (drop k es) ≡ last_id b es)
  drop-Chain b es i zero {j} c e h =
      let same : b ≡ j = some_injective (sym (id_of_at_base b es i (ground arith)) ∙ e) in
      rw (← same) (c, refl)
  drop-Chain b [] i (suc k) c e h = absurd (ground (arith, e))
  drop-Chain b (x ∷ es) i (suc k) c e h =
      drop-Chain x.id es i k c.3 (ground (arith, e)) (omega (arith, c.0))
