-- ===== src/State/Suffix.antt =====
-- `State::truncate` and `State::install` of jarl/src/state.rs remove a suffix and a prefix of the log.
use mathlib.Core.List.{append_assoc}
use hubby.Prelude.{
  Bool-cases, List, Option, [], ap, arith, drop, drop-map, false, inl, inr, leb, length,
  length-drop, length-take, ltb, map, none, refl, replicate, rotate_left, some, subst, suc, take,
  take-map, true, zero, ℕ, ◌&&◌, ◌++◌, ◌+◌, ◌-◌, ◌∙◌, ◌∷◌, ◌≡◌, ◌≤◌,
}
use hubby.State.{
  State, base, clear_from, holds_id, install, last, pop_slot, truncate, truncate_loop,
}
use hubby.State.Log.{
  Chain, Chain-take, Holds, Snoc-cases, drop-packed, last-Holds, last_id-index, length-packed,
  length-snoc, take-append, take-length, take-packed, unset-packed,
}
use hubby.Types.{Entry, LogId, Snapshot}

module _ {V S : Type 0} where
  -- `truncate` touches nothing but the log.
  truncate_loop_frame :
      (n from : ℕ) (s : State V S)
      → ((truncate_loop n from s).hard ≡ s.hard) × ((truncate_loop n from s).snapshot ≡ s.snapshot)
  unfolding truncate_loop
  truncate_loop_frame zero from s = (refl, refl)
  truncate_loop_frame (suc n) from s = elim (Bool-cases (leb from (last s).index && ltb 0 s.len)) [
    | inl more ↦ rw (more, truncate_loop) (truncate_loop_frame n from (pop_slot s))
    | inr done ↦ rw (done, truncate_loop) (refl, refl)
  ]

  pop_slot-Holds :
      (s : State V S) (es : List (Entry V)) (e : Entry V) (room : ℕ)
      → Holds s (es ++ e ∷ []) room
      → Holds (pop_slot s) es (suc room)
  pop_slot-Holds s es e room h =
      let at_end : s.len - 1 ≡ length es = omega (arith, h.len_is, length-snoc es e) in
      record {
        len_is = at_end;
        packed = rw (at_end, h.packed) (unset-packed es e (replicate room none));
      }

  stop_case :
      (from : ℕ) (s : State V S) (es : List (Entry V)) (room : ℕ)
      → Holds s es room
      → Chain (base s) es
      → (leb from (last s).index && ltb 0 s.len) ≡ false
      → take (from - suc (base s).index) es ≡ es
  stop_case from s es room h c done = take-length (from - suc (base s).index) es (
      ground (
        arith,
        h.len_is,
        ap (λ (i : LogId). i.index) (last-Holds s es room h),
        last_id-index (base s) es c,
      ))

  -- One turn of the loop drops the last entry, which lies at or above `from`.
  pop_case :
      (n from : ℕ) (s : State V S) (es : List (Entry V)) (room : ℕ)
      → Holds s es room
      → Chain (base s) es
      → length es ≤ suc n
      → (leb from (last s).index && ltb 0 s.len) ≡ true
      → ((fs : List (Entry V)) (r : ℕ)
          → Holds (pop_slot s) fs r
          → Chain (base s) fs
          → length fs ≤ n
          → (left : ℕ) × Holds
              (truncate_loop n from (pop_slot s))
              (take (from - suc (base s).index) fs)
              left)
      → (left : ℕ) × Holds
          (truncate_loop n from (pop_slot s))
          (take (from - suc (base s).index) es)
          left
  pop_case n from s es room h c m more rec = elim (Snoc-cases es) [
    | inl e ↦ absurd (ground (arith, h.len_is, ap (λ (xs : List (Entry V)). length xs) e, more))
    | inr (front, e, eq) ↦
        let h' : Holds s (front ++ e ∷ []) room = rw (← eq) h in
        let size : length es ≡ suc (length front) =
          ap (λ (xs : List (Entry V)). length xs) eq ∙ length-snoc front e in
        let short : from - suc (base s).index ≤ length front = ground (
          arith,
          ap (λ (i : LogId). i.index) (last-Holds s es room h),
          last_id-index (base s) es c,
          size,
        ) in
        let c' : Chain (base s) front =
          subst (Chain (base s))
            (ap (take (length front)) eq
              ∙ take-append (length front) front (e ∷ []) (omega arith)
              ∙ take-length (length front) front (omega arith))
            (Chain-take (base s) (length front) es c) in
        rw (eq, take-append (from - suc (base s).index) front (e ∷ []) short)
          (rec front (suc room) (pop_slot-Holds s front e room h') c' (omega (arith, size)))
  ]

  truncate_loop-Holds :
      (n from : ℕ) (s : State V S) (es : List (Entry V)) (room : ℕ)
      → Holds s es room
      → Chain (base s) es
      → length es ≤ n
      → (left : ℕ) × Holds (truncate_loop n from s) (take (from - suc (base s).index) es) left
  unfolding truncate_loop
  truncate_loop-Holds zero from s [] room h c m =
      (room, rw (take-length {V = V} (from - suc (base s).index) [] (omega arith)) h)
  truncate_loop-Holds zero from s (e ∷ es) room h c m = absurd (omega arith)
  truncate_loop-Holds (suc n) from s es room h c m =
      elim (Bool-cases (leb from (last s).index && ltb 0 s.len)) [
        | inl more ↦
            rw (more, truncate_loop)
              (pop_case n from s es room h c m more (truncate_loop-Holds n from (pop_slot s)))
        | inr done ↦ rw (done, truncate_loop, stop_case from s es room h c done) (room, h)
      ]

  pub truncate_frame :
      (s : State V S) (from : ℕ)
      → ((truncate s from).hard ≡ s.hard) × ((truncate s from).snapshot ≡ s.snapshot)
  unfolding truncate
  truncate_frame s from = truncate_loop_frame s.len from s

  -- `truncate` keeps exactly the entries below `from`, and frees the slots of the others.
  pub truncate-Holds :
      (s : State V S) (from : ℕ) (es : List (Entry V)) (room : ℕ)
      → Holds s es room
      → Chain (base s) es
      → (left : ℕ) × Holds (truncate s from) (take (from - suc (base s).index) es) left
  unfolding truncate
  truncate-Holds s from es room h c =
      truncate_loop-Holds s.len from s es room h c (omega (arith, h.len_is))

module _ {V : Type 0} where
  map-none :
      (xs : List (Option (Entry V)))
      → map {B = Option (Entry V)} (λ _. none) xs ≡ replicate (length xs) none
  map-none [] = refl
  map-none (x ∷ xs) = ap (◌∷◌ none) (map-none xs)

  replicate-append :
      (n m : ℕ)
      → replicate {A = Option (Entry V)} n none ++ replicate m none ≡ replicate (n + m) none
  replicate-append zero m = let e : m ≡ 0 + m = omega arith in ap (λ k. replicate k none) e
  replicate-append (suc n) m =
      let e : suc (n + m) ≡ suc n + m = omega arith in
      ap (◌∷◌ none) (replicate-append n m) ∙ ap (λ k. replicate k none) e

  cleared :
      (es : List (Entry V)) (room : ℕ)
      → map {B = Option (Entry V)}
          (λ _. none)
          (map some es ++ replicate {A = Option (Entry V)} room none)
        ≡ replicate (length es + room) none
  cleared es room =
      map-none (map some es ++ replicate room none)
      ∙ ap (λ k. replicate k none) (length-packed es room)

  -- Rotating a prefix to the end, then clearing it.
  rotated :
      (k room : ℕ) (es : List (Entry V))
      → k ≤ length es
      → clear_from
          (length es - k)
          (rotate_left k (map some es) ++ replicate {A = Option (Entry V)} room none)
        ≡ map some (drop k es) ++ replicate (k + room) none
  rotated k room es h =
      let size : length es - k ≡ length (drop k es) = omega (arith, length-drop k es) in
      let front : length (take k es) + room ≡ k + room = omega (arith, length-take k es) in
      rw (
        drop-map some k es,
        take-map some k es,
        append_assoc,
        size,
        take-packed (drop k es) (map some (take k es) ++ replicate room none),
        drop-packed (drop k es) (map some (take k es) ++ replicate room none),
        cleared (take k es) room,
        front,
      )

  blank_all :
      (es : List (Entry V)) (room : ℕ)
      → map {B = Option (Entry V)} (λ _. none) (map some es)
          ++ replicate {A = Option (Entry V)} room none
        ≡ replicate (length es + room) none
  blank_all [] room = let e : room ≡ 0 + room = omega arith in ap (λ k. replicate k none) e
  blank_all (x ∷ es) room =
      let e : suc (length es + room) ≡ suc (length es) + room = omega arith in
      ap (◌∷◌ none) (blank_all es room) ∙ ap (λ k. replicate k none) e

module _ {V S : Type 0} where
  -- `install` with a matching id drops the prefix up to it.
  pub install_matching :
      (s : State V S) (snap : Snapshot S) (es : List (Entry V)) (room : ℕ)
      → Holds s es room
      → holds_id s snap.last ≡ true
      → snap.last.index - (base s).index ≤ length es
      → (left : ℕ) × Holds (install s snap) (drop (snap.last.index - (base s).index) es) left
  unfolding install
  install_matching s snap es room h m inside =
      let k : ℕ = snap.last.index - (base s).index in
      (
        k + room,
        rw
            (
              m,
              h.len_is,
              h.packed,
              take-packed es (replicate room none),
              drop-packed es (replicate room none),
            )
            (record {
              len_is = omega (arith, length-drop k es);
              packed = rotated k room es inside;
            }),
      )

  -- `install` of any other snapshot empties the log.
  pub install_fresh :
      (s : State V S) (snap : Snapshot S) (es : List (Entry V)) (room : ℕ)
      → Holds s es room
      → holds_id s snap.last ≡ false
      → (left : ℕ) × Holds (install s snap) [] left
  unfolding install
  install_fresh s snap es room h m = (
    length es + room,
    rw
        (
          m,
          h.len_is,
          h.packed,
          take-packed es (replicate room none),
          drop-packed es (replicate room none),
        )
        (record { len_is = refl; packed = blank_all es room }),
  )
