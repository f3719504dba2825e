-- ===== src/State/Termination.antt =====
-- The loop of `State::truncate` of jarl/src/state.rs ends.
use hubby.Prelude.{
  Bool, Bool-cases, ap, arith, false, inl, inr, leb, ltb, refl, suc, sym, true, zero, ℕ, ◌&&◌, ◌+◌,
  ◌∙◌, ◌≡◌, ◌≤◌,
}
use hubby.State.{State, last, pop_slot, truncate, truncate_loop}

module _ {V S : Type 0} where
  -- The condition of the loop.
  abbrev pub goes_on : ℕ → State V S → Bool
  goes_on from s = leb from (last s).index && ltb 0 s.len

  turn_off : (n from : ℕ) (s : State V S) → goes_on from s ≡ false → truncate_loop n from s ≡ s
  unfolding truncate_loop
  turn_off zero from s stop = refl
  turn_off (suc n) from s stop = rw (stop, truncate_loop) refl

  turn_on :
      (n from : ℕ) (s : State V S)
      → goes_on from s ≡ true
      → truncate_loop (suc n) from s ≡ truncate_loop n from (pop_slot s)
  unfolding truncate_loop
  turn_on n from s on = rw (on, truncate_loop) refl

  ends :
      (n from : ℕ) (s : State V S)
      → s.len ≤ n
      → (goes_on from (truncate_loop n from s) ≡ false)
        × ((k : ℕ) → truncate_loop (n + k) from s ≡ truncate_loop n from s)
  ends zero from s h =
      let stop : goes_on from s ≡ false = ground (arith, h) in
      (
        ap (goes_on from) (turn_off zero from s stop) ∙ stop,
        λ k. turn_off (0 + k) from s stop ∙ sym (turn_off zero from s stop),
      )
  ends (suc n) from s h = elim (Bool-cases (goes_on from s)) [
    | inr stop ↦ (
      ap (goes_on from) (turn_off (suc n) from s stop) ∙ stop,
      λ k. turn_off (suc n + k) from s stop ∙ sym (turn_off (suc n) from s stop),
    )
    | inl on ↦
        let (ended, more) = ends n from (pop_slot s) (omega (arith, h)) in
        (
          ap (goes_on from) (turn_on n from s on) ∙ ended,
          λ k.
              let e : suc n + k ≡ suc (n + k) = omega arith in
              ap (λ m. truncate_loop m from s) e
              ∙ turn_on (n + k) from s on
              ∙ more k
              ∙ sym (turn_on n from s on),
        )
  ]

  -- The number of entries is enough fuel for the loop of `truncate`: the loop ends because its condition
  -- has become false, and more fuel gives the same result.
  pub truncate-ends :
      (s : State V S) (from k : ℕ)
      → (goes_on from (truncate s from) ≡ false)
        × (truncate_loop (s.len + k) from s ≡ truncate s from)
  unfolding truncate
  truncate-ends s from k = let (ended, more) = ends s.len from s (omega arith) in (ended, more k)
