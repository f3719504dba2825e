-- ===== src/State/Log.antt =====
-- The array of jarl/src/state.rs as a list of entries: what each operation does to that list.
use hubby.Prelude.{
  List, Option, [], ap, arith, drop, from_fn_at, get_elem?, if◌then◌else◌, inl, inr, length,
  length-append, length-replicate, map, none, refl, replicate, set, some, somes, suc, take, zero, ℕ,
  ◌++◌, ◌+◌, ◌<◌, ◌==◌, ◌∷◌, ◌≡◌, ◌≤◌, ◌⊎◌,
}
use hubby.State.{State, base, entries, full, join_slot, last, last_id, new, push}
use hubby.Types.{Entry, LogId, ok}

-- The first `len` slots hold the entries, and the others are empty.
module _ {V S : Type 0} where
  pub record Holds (s : State V S) (es : List (Entry V)) (room : ℕ) : Type 0 where
    pub len_is : s.len ≡ length es
    pub packed : s.slots ≡ map some es ++ replicate room none

-- Contiguous indices after `b`, in terms that never fall.
abbrev pub Chain : {V : Type 0} → LogId → List (Entry V) → Type 0
Chain b [] = Unit {0}
Chain b (e ∷ es) =
    (e.id.index ≡ b.index + 1) × (b.term ≤ e.id.term) × (0 < e.id.term) × Chain e.id es

-- The id at an index of a log after `b`, by search.
abbrev pub id_of : {V : Type 0} → LogId → List (Entry V) → ℕ → Option LogId
id_of b [] i = if i == b.index then some b else none
id_of b (e ∷ es) i = let rest = id_of e.id es i in if i == b.index then some b else rest

module _ {V : Type 0} where
  from_fn-none : (i n : ℕ) → from_fn_at {A = Option (Entry V)} i n (λ _. none) ≡ replicate n none
  from_fn-none i zero = refl
  from_fn-none i (suc n) = ap (◌∷◌ none) (from_fn-none (suc i) n)

  pub somes-map-some : (es : List (Entry V)) → somes (map some es) ≡ es
  somes-map-some [] = refl
  somes-map-some (e ∷ es) = ap (◌∷◌ e) (somes-map-some es)

  pub take-packed :
      (es : List (Entry V)) (rest : List (Option (Entry V)))
      → take (length es) (map some es ++ rest) ≡ map some es
  take-packed [] rest = refl
  take-packed (e ∷ es) rest = ap (◌∷◌ (some e)) (take-packed es rest)

  pub drop-packed :
      (es : List (Entry V)) (rest : List (Option (Entry V)))
      → drop (length es) (map some es ++ rest) ≡ rest
  drop-packed [] rest = refl
  drop-packed (e ∷ es) rest = drop-packed es rest

  pub length-packed :
      (es : List (Entry V)) (room : ℕ)
      → length (map some es ++ replicate {A = Option (Entry V)} room none) ≡ length es + room
  length-packed [] room = omega (arith, length-replicate {A = Option (Entry V)} room none)
  length-packed (e ∷ es) room = omega (arith, length-packed es room)

  pub set-packed :
      (es : List (Entry V)) (e : Entry V) (rest : List (Option (Entry V)))
      → set (map some es ++ none ∷ rest) (length es) (some e) ≡ map some (es ++ e ∷ []) ++ rest
  set-packed [] e rest = refl
  set-packed (x ∷ es) e rest = ap (◌∷◌ (some x)) (set-packed es e rest)

  pub unset-packed :
      (es : List (Entry V)) (e : Entry V) (rest : List (Option (Entry V)))
      → set (map some (es ++ e ∷ []) ++ rest) (length es) none ≡ map some es ++ none ∷ rest
  unset-packed [] e rest = refl
  unset-packed (x ∷ es) e rest = ap (◌∷◌ (some x)) (unset-packed es e rest)

  pub get-packed :
      (es : List (Entry V)) (room k : ℕ)
      → join_slot (get_elem? (map some es ++ replicate room none) k) ≡ get_elem? es k
  get-packed [] zero k = refl
  get-packed [] (suc room) zero = refl
  get-packed [] (suc room) (suc k) = get-packed [] room k
  get-packed (e ∷ es) room zero = refl
  get-packed (e ∷ es) room (suc k) = get-packed es room k

  pub last_id-snoc :
      (b : LogId) (es : List (Entry V)) (e : Entry V) → last_id b (es ++ e ∷ []) ≡ e.id
  last_id-snoc b [] e = refl
  last_id-snoc b (x ∷ es) e = last_id-snoc x.id es e

  pub last_id-index :
      (b : LogId) (es : List (Entry V)) → Chain b es → (last_id b es).index ≡ b.index + length es
  last_id-index b [] c = omega arith
  last_id-index b (e ∷ es) c = omega (arith, last_id-index e.id es c.3)

  pub last_id-term : (b : LogId) (es : List (Entry V)) → Chain b es → b.term ≤ (last_id b es).term
  last_id-term b [] c = omega arith
  last_id-term b (e ∷ es) c = omega (arith, last_id-term e.id es c.3)

  -- A list is empty or has a last element.
  pub Snoc-cases :
      (es : List (Entry V))
      → (es ≡ []) ⊎ ((front : List (Entry V)) × (e : Entry V) × (es ≡ front ++ e ∷ []))
  Snoc-cases [] = inl refl
  Snoc-cases (x ∷ es) = elim (Snoc-cases es) [
    | inl e ↦ inr ([], x, rw e)
    | inr (front, y, e) ↦ inr (x ∷ front, y, rw e)
  ]

  pub length-snoc : (es : List (Entry V)) (e : Entry V) → length (es ++ e ∷ []) ≡ suc (length es)
  length-snoc es e = omega (arith, length-append es (e ∷ []))

  pub take-length : (k : ℕ) (es : List (Entry V)) → length es ≤ k → take k es ≡ es
  take-length zero [] h = refl
  take-length zero (e ∷ es) h = absurd (omega arith)
  take-length (suc k) [] h = refl
  take-length (suc k) (e ∷ es) h = ap (◌∷◌ e) (take-length k es (omega arith))

  pub take-append : (k : ℕ) (es fs : List (Entry V)) → k ≤ length es → take k (es ++ fs) ≡ take k es
  take-append zero es fs h = refl
  take-append (suc k) [] fs h = absurd (omega arith)
  take-append (suc k) (e ∷ es) fs h = ap (◌∷◌ e) (take-append k es fs (omega arith))

  pub Chain-snoc :
      (b : LogId) (es : List (Entry V)) (e : Entry V)
      → Chain b es
      → e.id.index ≡ (last_id b es).index + 1
      → (last_id b es).term ≤ e.id.term
      → 0 < e.id.term
      → Chain b (es ++ e ∷ [])
  Chain-snoc b [] e c i t p = (i, t, p, tt)
  Chain-snoc b (x ∷ es) e c i t p = (c.0, c.1, c.2, Chain-snoc x.id es e c.3 i t p)

  pub Chain-suffix :
      (b : LogId) (es fs : List (Entry V)) → Chain b (es ++ fs) → Chain (last_id b es) fs
  Chain-suffix b [] fs c = c
  Chain-suffix b (e ∷ es) fs c = Chain-suffix e.id es fs c.3

  pub last_id-append :
      (b : LogId) (es fs : List (Entry V)) → last_id b (es ++ fs) ≡ last_id (last_id b es) fs
  last_id-append b [] fs = refl
  last_id-append b (e ∷ es) fs = last_id-append e.id es fs

  pub Chain-take : (b : LogId) (k : ℕ) (es : List (Entry V)) → Chain b es → Chain b (take k es)
  Chain-take b zero es c = tt
  Chain-take b (suc k) [] c = tt
  Chain-take b (suc k) (e ∷ es) c = (c.0, c.1, c.2, Chain-take e.id k es c.3)

module _ {V S : Type 0} where
  pub entries-Holds :
      (s : State V S) (es : List (Entry V)) (room : ℕ) → Holds s es room → entries s ≡ es
  unfolding entries
  entries-Holds s es room h =
      rw (h.len_is, h.packed, take-packed es (replicate room none)) (somes-map-some es)

  pub last-Holds :
      (s : State V S) (es : List (Entry V)) (room : ℕ)
      → Holds s es room
      → last s ≡ last_id (base s) es
  unfolding last
  last-Holds s es room h = ap (last_id (base s)) (entries-Holds s es room h)

  pub full-Holds :
      (s : State V S) (es : List (Entry V)) (room : ℕ) → Holds s es room → full s ≡ (room == 0)
  unfolding full
  full-Holds s es room h = rw (h.len_is, h.packed, length-packed es room) (ground arith)

  -- A push with room appends the entry.
  pub push-Holds :
      (s : State V S) (es : List (Entry V)) (room : ℕ) (e : Entry V)
      → Holds s es (suc room)
      → (s' : State V S) × (push s e ≡ ok s')
        × Holds s' (es ++ e ∷ []) room
        × (s'.hard ≡ s.hard)
        × (s'.snapshot ≡ s.snapshot)
  unfolding push
  push-Holds s es room e h = (
    record s { slots = set s.slots s.len (some e); len = s.len + 1 },
    rw (full-Holds s es (suc room) h) (ground arith),
    record {
      len_is = omega (arith, h.len_is, length-snoc es e);
      packed = rw (h.len_is, h.packed) (set-packed es e (replicate room none));
    },
    refl,
    refl,
  )

  pub new-Holds : (capacity : ℕ) → Holds (new {V = V} {S = S} capacity) [] capacity
  unfolding new
  new-Holds capacity = record { len_is = refl; packed = from_fn-none 0 capacity }
