-- ===== src/State.antt =====
-- jarl/src/state.rs: the bounded checkpoint of a node, and its log in a fixed array.
-- The array `entries: [Option<Entry<V>>; CAP]` is the list `slots`, whose length is `CAP`.
pub mod Log
pub mod Index
pub mod Suffix
pub mod Termination
pub mod Replay
pub mod Tests
pub mod Valid
pub mod Restore
pub mod Moves
pub mod MovesValid
pub mod Stable
use hubby.Prelude.{
  Bool, List, Option, [], and_then, checked_add, checked_sub, drop, false, from_fn, get_elem?,
  if◌then◌else◌, is_some, is_some_and, leb, length, ltb, map, map_option, map_or, max, min, none,
  not, rotate_left, set, some, somes, suc, take, true, zero, ℕ, ◌&&◌, ◌++◌, ◌+◌, ◌-◌, ◌==◌, ◌||◌,
  ◌∷◌,
}
use hubby.Types.{
  Entry, Error, NodeId, LogId, Result, Snapshot, err, genesis, log_id_eq, ok, refuse_if, state,
  ◌>>=◌, ◌>>◌,
}

pub record HardState : Type 0 where
  pub term : ℕ
  pub voted_for : Option NodeId
  pub commit : ℕ

pub record State (V S : Type 0) : Type 0 where
  pub hard : HardState
  pub snapshot : Option (Snapshot S)
  pub slots : List (Option (Entry V))
  pub len : ℕ

-- The transaction of jarl/src/ready.rs: `entries` is a slice of the slots.
pub record Write (V S : Type 0) : Type 0 where
  pub hard : HardState
  pub snapshot : Option (Snapshot S)
  pub truncate_from : Option ℕ
  pub slice : List (Option (Entry V))

abbrev pub fresh_hard : HardState
fresh_hard = record { term = 0; voted_for = none; commit = 0 }

-- `next_back().map_or(b, |e| e.id)` on the entries.
abbrev pub last_id : {V : Type 0} → LogId → List (Entry V) → LogId
last_id b [] = b
last_id b (e ∷ es) = last_id e.id es

abbrev pub join_slot : {V : Type 0} → Option (Option (Entry V)) → Option (Entry V)
join_slot none = none
join_slot (some o) = o

-- `for entry in &mut self.entries[n..] { *entry = None; }`
abbrev pub clear_from : {V : Type 0} → ℕ → List (Option (Entry V)) → List (Option (Entry V))
clear_from n xs = take n xs ++ map (λ _. none) (drop n xs)

-- `for entry in &mut self.entries[..n] { *entry = None; }`
abbrev pub clear_to : {V : Type 0} → ℕ → List (Option (Entry V)) → List (Option (Entry V))
clear_to n xs = map (λ _. none) (take n xs) ++ drop n xs

abbrev pub raise_commit : HardState → ℕ → HardState
raise_commit h index = record h { commit = max h.commit index }

-- The first test of `restore`.
abbrev pub bad_metadata : {S : Type 0} → HardState → Option (Snapshot S) → LogId → Bool
bad_metadata hard snapshot b =
    is_some snapshot && (b.index == 0 || b.term == 0)
    || ltb hard.term b.term
    || hard.term == 0 && is_some hard.voted_for

-- The last test of `restore`.
abbrev pub bad_commit : ℕ → LogId → LogId → Bool
bad_commit commit b l = ltb commit b.index || ltb l.index commit

module _ {V S : Type 0} where
  unfoldable pub new : ℕ → State V S
  new capacity = record {
    hard = fresh_hard;
    snapshot = none;
    slots = from_fn capacity (λ _. none);
    len = 0;
  }

  unfoldable pub entries : State V S → List (Entry V)
  entries s = somes (take s.len s.slots)

  abbrev pub base : State V S → LogId
  base s = map_or s.snapshot genesis (λ x. x.last)

  unfoldable pub last : State V S → LogId
  unfolding entries
  last s = last_id (base s) (entries s)

  -- `usize::try_from` of an offset never fails on a 64-bit target.
  unfoldable pub get : State V S → ℕ → Option (Entry V)
  get s index =
      and_then (checked_sub index (base s).index)
        (λ d. and_then (checked_sub d 1) (λ offset. join_slot (get_elem? s.slots offset)))

  unfoldable pub id_at : State V S → ℕ → Option LogId
  unfolding get
  id_at s index =
      if index == (base s).index then some (base s) else map_option (get s index) (λ e. e.id)

  unfoldable pub full : State V S → Bool
  full s = s.len == length s.slots

  unfoldable pub push : State V S → Entry V → Result (State V S)
  unfolding full
  push s e =
      if full s
      then err Error.full
      else ok (record s { slots = set s.slots s.len (some e); len = s.len + 1 })

  -- One turn of the loop in `truncate`.
  abbrev pub pop_slot : State V S → State V S
  pop_slot s = record s { slots = set s.slots (s.len - 1) none; len = s.len - 1 }

  -- `while self.last().index >= from && self.len > 0`, at most `n` times.
  unfoldable pub truncate_loop : ℕ → ℕ → State V S → State V S
  truncate_loop zero from s = s
  truncate_loop (suc n) from s = elim (leb from (last s).index && ltb 0 s.len) [
    | true ↦ truncate_loop n from (pop_slot s)
    | false ↦ s
  ]

  unfoldable pub truncate : State V S → ℕ → State V S
  unfolding truncate_loop
  truncate s from = truncate_loop s.len from s

  unfoldable pub holds_id : State V S → LogId → Bool
  unfolding id_at
  holds_id s id = is_some_and (id_at s id.index) (λ j. log_id_eq j id)

  unfoldable pub install : State V S → Snapshot S → State V S
  unfolding holds_id
  install s snapshot =
      let remove = snapshot.last.index - (base s).index in
      let rotated = rotate_left remove (take s.len s.slots) ++ drop s.len s.slots in
      if holds_id s snapshot.last
      then record {
        hard = raise_commit s.hard snapshot.last.index;
        snapshot = some snapshot;
        slots = clear_from (s.len - remove) rotated;
        len = s.len - remove;
      }
      else record {
        hard = raise_commit s.hard snapshot.last.index;
        snapshot = some snapshot;
        slots = clear_to s.len s.slots;
        len = 0;
      }

  -- The loop over the entries in `restore`.
  unfoldable pub restore_entries : State V S → List (Entry V) → Result (State V S)
  unfolding push last
  restore_entries s [] = ok s
  restore_entries s (e ∷ es) = do
    refuse_if
        (not (is_some_and (checked_add (last s).index 1) (λ i. i == e.id.index))
          || e.id.term == 0
          || ltb e.id.term (last s).term
          || ltb s.hard.term e.id.term)
        Error.state
    s' ← push s e
    restore_entries s' es

  unfoldable pub restore : ℕ → HardState → Option (Snapshot S) → List (Entry V) → Result (State V S)
  unfolding restore_entries new last
  restore capacity hard snapshot es = do
    let start = record (new capacity) { hard = hard; snapshot = snapshot }
    refuse_if (bad_metadata hard snapshot (base start)) Error.state
    s ← restore_entries start es
    refuse_if (bad_commit hard.commit (base start) (last s)) Error.state
    ok s

  unfoldable pub write : State V S → Option ℕ → Bool → Write V S
  write s from snapshot_changed =
      let offset = map_or from s.len (λ index. min (index - (base s).index - 1) s.len) in
      record {
        hard = s.hard;
        snapshot = if snapshot_changed then s.snapshot else none;
        truncate_from = from;
        slice = drop offset (take s.len s.slots);
      }

  -- `Write::entries`.
  abbrev pub write_entries : Write V S → List (Entry V)
  write_entries w = somes w.slice

  unfoldable pub grow : ℕ → State V S → State V S
  grow new_cap s = record s {
    slots = from_fn new_cap (λ i. if ltb i s.len then join_slot (get_elem? s.slots i) else none);
  }
