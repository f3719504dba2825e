-- ===== src/State/Tests.antt =====
-- Transactions of a small log.
use hubby.Prelude.{List, [], arith, false, length, map, none, refl, some, ℕ, ◌++◌, ◌∷◌, ◌≡◌}
use hubby.Types.{Entry, ok}
use hubby.State.{HardState, State, entries, full, last, new, push, restore, restore_entries, write}
use hubby.State.Valid.{IsValid}
use hubby.State.Restore.{restore_lem}
use hubby.State.Replay.{replay, replay-replay, replay-stored, stored}

abbrev stored_hard : HardState
stored_hard = record { term = 2; voted_for = none; commit = 1 }

abbrev entry_of : ℕ → ℕ → ℕ → Entry ℕ
entry_of index term value = record {
  id = record { index = index; term = term };
  value = some value;
}

abbrev two_entries : List (Entry ℕ)
two_entries = entry_of 1 1 30 ∷ entry_of 2 1 40 ∷ []

abbrev state_of : List (Entry ℕ) → State ℕ ℕ
state_of es = record {
  hard = stored_hard;
  snapshot = none;
  slots = map some es ++ none ∷ none ∷ [];
  len = length es;
}

restore_two : restore 4 stored_hard none two_entries ≡ ok (state_of two_entries)
unfolding restore restore_entries push full last entries new
restore_two = refl

two_entries-IsValid : IsValid (state_of two_entries)
two_entries-IsValid = (restore_lem 4 stored_hard none two_entries (omega arith) restore_two).0

replay-replay_example :
    replay (write (state_of two_entries) (some 2) false) (
      replay
        (write (state_of two_entries) (some 2) false)
        (stored (state_of (entry_of 1 1 30 ∷ []))))
    ≡ replay
        (write (state_of two_entries) (some 2) false)
        (stored (state_of (entry_of 1 1 30 ∷ [])))
replay-replay_example =
    replay-replay (state_of two_entries) (some 2) false (stored (state_of (entry_of 1 1 30 ∷ [])))
      two_entries-IsValid

-- The second entry is replaced by one of a later term.
replay-stored_example :
    replay
      (write (state_of (entry_of 1 1 30 ∷ entry_of 2 2 50 ∷ [])) (some 2) false)
      (stored (state_of two_entries))
    ≡ stored (state_of (entry_of 1 1 30 ∷ entry_of 2 2 50 ∷ []))
replay-stored_example =
    replay-stored (state_of two_entries) (state_of (entry_of 1 1 30 ∷ entry_of 2 2 50 ∷ []))
      two_entries (entry_of 2 2 50 ∷ []) 1 2 2 (record { len_is = refl; packed = refl })
      (refl, omega arith, omega arith, (refl, omega arith, omega arith, tt)) refl (omega arith)
      (record { len_is = refl; packed = refl })
