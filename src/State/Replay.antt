-- ===== src/State/Replay.antt =====
-- The transactions of jarl/src/ready.rs, applied by a storage in the way that the documentation there
-- asks for.
use hubby.Prelude.{
  All, Bool, Bool-cases, List, Option, [], ap, arith, drop, drop-map, false, inl, inr, is_none_or,
  keep, leb, length, length-append, length-take, ltb, map_or, min, none, or_else, refl, replicate,
  some, suc, sym, take, true, zero, ℕ, ◌&&◌, ◌++◌, ◌+◌, ◌-◌, ◌∙◌, ◌∷◌, ◌≡◌, ◌≤◌,
}
use hubby.Types.{Entry, LogId, Snapshot}
use hubby.State.{HardState, State, Write, base, entries, write, write_entries}
use hubby.State.Log.{Chain, Holds, entries-Holds, somes-map-some, take-packed}
use hubby.State.Valid.{IsValid, same_base}

-- What a storage holds.
pub record Stored (V S : Type 0) : Type 0 where
  pub hard : HardState
  pub snapshot : Option (Snapshot S)
  pub log : List (Entry V)

-- An entry stays if it is beyond the boundary of a new snapshot and before a replaced suffix.
abbrev pub survives : {V S : Type 0} → Write V S → Entry V → Bool
survives w e =
    is_none_or w.snapshot (λ x. ltb x.last.index e.id.index)
    && is_none_or w.truncate_from (λ t. ltb e.id.index t)

-- Discard, append, and replace the metadata.
abbrev pub replay : {V S : Type 0} → Write V S → Stored V S → Stored V S
replay w d = record {
  hard = w.hard;
  snapshot = or_else w.snapshot d.snapshot;
  log = keep (survives w) d.log ++ write_entries w;
}

-- The checkpoint of a state, as a storage holds it.
abbrev pub stored : {V S : Type 0} → State V S → Stored V S
stored s = record { hard = s.hard; snapshot = s.snapshot; log = entries s }

module _ {A : Type 0} where
  keep-++ : (p : A → Bool) (xs ys : List A) → keep p (xs ++ ys) ≡ keep p xs ++ keep p ys
  keep-++ p [] ys = refl
  keep-++ p (x ∷ xs) ys = elim (Bool-cases (p x)) [
    | inl hit ↦ rw hit (ap (λ zs. x ∷ zs) (keep-++ p xs ys))
    | inr miss ↦ rw miss (keep-++ p xs ys)
  ]

  keep-keep : (p : A → Bool) (xs : List A) → keep p (keep p xs) ≡ keep p xs
  keep-keep p [] = refl
  keep-keep p (x ∷ xs) = elim (Bool-cases (p x)) [
    | inl hit ↦ rw (hit, hit) (ap (λ zs. x ∷ zs) (keep-keep p xs))
    | inr miss ↦ rw miss (keep-keep p xs)
  ]

  keep-none : (p : A → Bool) (xs : List A) → All (λ x. p x ≡ false) xs → keep p xs ≡ []
  keep-none p [] h = refl
  keep-none p (x ∷ xs) h = rw (h.0) (keep-none p xs h.1)

  append_nil : (xs : List A) → xs ++ [] ≡ xs
  append_nil [] = refl
  append_nil (x ∷ xs) = ap (λ zs. x ∷ zs) (append_nil xs)

  or_else_twice : (a b : Option A) → or_else a (or_else a b) ≡ or_else a b
  or_else_twice none b = refl
  or_else_twice (some x) b = refl

  All-map : {P Q : A → Type 0} (xs : List A) → ((x : A) → P x → Q x) → All P xs → All Q xs
  All-map [] f h = tt
  All-map (x ∷ xs) f h = (f x h.0, All-map xs f h.1)

module _ {V : Type 0} where
  -- The entries after some of a contiguous log are beyond them.
  drop-late :
      (b : LogId) (es : List (Entry V)) (k from : ℕ)
      → Chain b es
      → from ≤ b.index + k + 1
      → All (λ (e : Entry V). from ≤ e.id.index) (drop k es)
  drop-late b [] zero from c h = tt
  drop-late b [] (suc k) from c h = tt
  drop-late b (e ∷ es) zero from c h =
      (omega (arith, h, c.0), drop-late e.id es zero from c.3 (omega (arith, h, c.0)))
  drop-late b (e ∷ es) (suc k) from c h = drop-late e.id es k from c.3 (omega (arith, h, c.0))

  keep-before-none :
      (b : LogId) (es : List (Entry V)) (from : ℕ)
      → Chain b es
      → from ≤ b.index + 1
      → keep (λ (e : Entry V). ltb e.id.index from) es ≡ []
  keep-before-none b [] from c h = refl
  keep-before-none b (e ∷ es) from c h =
      let off : ltb e.id.index from ≡ false = ground (arith, h, c.0) in
      rw off (keep-before-none e.id es from c.3 (omega (arith, h, c.0)))

  -- Of a contiguous log, the entries before an index are a prefix.
  keep-before :
      (b : LogId) (es : List (Entry V)) (k from : ℕ)
      → Chain b es
      → from ≡ b.index + k + 1
      → keep (λ (e : Entry V). ltb e.id.index from) es ≡ take k es
  keep-before b es zero from c h = keep-before-none b es from c (omega (arith, h))
  keep-before b [] (suc k) from c h = refl
  keep-before b (e ∷ es) (suc k) from c h =
      let on : ltb e.id.index from ≡ true = ground (arith, h, c.0) in
      rw on (ap (λ l. e ∷ l) (keep-before e.id es k from c.3 (omega (arith, h, c.0))))

  drop-prefix :
      (k : ℕ) (es added : List (Entry V)) → k ≤ length es → drop k (take k es ++ added) ≡ added
  drop-prefix zero es added h = refl
  drop-prefix (suc k) [] added h = absurd (omega (arith, h))
  drop-prefix (suc k) (e ∷ es) added h = drop-prefix k es added (omega (arith, h))

  drop-all : (es : List (Entry V)) → drop (length es) es ≡ []
  drop-all [] = refl
  drop-all (e ∷ es) = drop-all es

module _ {V S : Type 0} where
  written :
      (s : State V S) (es : List (Entry V)) (room : ℕ) (from : Option ℕ) (changed : Bool)
      → Holds s es room
      → write_entries (write s from changed)
        ≡ drop (map_or from s.len (λ index. min (index - (base s).index - 1) s.len)) es
  unfolding write
  written s es room from changed h =
      rw (h.packed, h.len_is, take-packed es (replicate room none), drop-map some _ es)
        (somes-map-some _)

  -- No entry of a transaction survives the transaction's own cut.
  written-late :
      (s : State V S) (es : List (Entry V)) (room : ℕ) (from : Option ℕ) (changed : Bool)
      → Holds s es room
      → Chain (base s) es
      → All (λ e. survives (write s from changed) e ≡ false) (write_entries (write s from changed))
  unfolding write
  written-late s es room none changed h c =
      let none_left =
        written s es room none changed h ∙ ap (λ n. drop n es) h.len_is ∙ drop-all es in
      rw none_left tt
  written-late s es room (some t) changed h c =
      let late : All (λ (e : Entry V). t ≤ e.id.index) (write_entries (write s (some t) changed)) =
        elim (Bool-cases (leb (t - (base s).index - 1) s.len)) [
          | inl within ↦
              let e : min (t - (base s).index - 1) s.len ≡ t - (base s).index - 1 =
                ground (arith, within) in
              rw (written s es room (some t) changed h, e)
                (drop-late (base s) es (t - (base s).index - 1) t c (omega arith))
          | inr beyond ↦
              let e : min (t - (base s).index - 1) s.len ≡ length es =
                ground (arith, beyond, h.len_is) in
              rw (written s es room (some t) changed h, e, drop-all es) tt
        ] in
      All-map _ (λ e later. ground (arith, later)) late

  -- Applying the transaction of a well-formed state twice is applying it once, whatever the storage
  -- holds, from whichever index the transaction replaces the log, and with or without a new snapshot.
  pub replay-replay :
      (s : State V S) (from : Option ℕ) (changed : Bool) (d : Stored V S)
      → IsValid s
      → replay (write s from changed) (replay (write s from changed) d)
        ≡ replay (write s from changed) d
  replay-replay s from changed d v =
      let w = write s from changed in
      let p = survives w in
      let logs : keep p (keep p d.log ++ write_entries w) ++ write_entries w
          ≡ keep p d.log ++ write_entries w =
        ap (λ l. l ++ write_entries w)
          (keep-++ p (keep p d.log) (write_entries w)
            ∙ ap (λ l. keep p (keep p d.log) ++ l)
                (keep-none p (write_entries w)
                  (written-late s v.log v.room from changed v.holds v.chain))
            ∙ append_nil (keep p (keep p d.log))
            ∙ keep-keep p d.log) in
      let shots : or_else w.snapshot (or_else w.snapshot d.snapshot)
          ≡ or_else w.snapshot d.snapshot =
        or_else_twice w.snapshot d.snapshot in
      λ i. record { hard = w.hard; snapshot = shots i; log = logs i }

  -- If a state differs from an earlier one, whose log is contiguous, by its hard state and a replaced
  -- suffix of the log alone, then applying its transaction from the first index of that suffix, without
  -- a snapshot, to what the storage held of the earlier state gives its whole checkpoint.
  pub replay-stored :
      (old s : State V S) (log added : List (Entry V)) (k gap room : ℕ)
      → Holds old log gap
      → Chain (base old) log
      → s.snapshot ≡ old.snapshot
      → k ≤ length log
      → Holds s (take k log ++ added) room
      → replay (write s (some ((base old).index + k + 1)) false) (stored old) ≡ stored s
  unfolding write
  replay-stored old s log added k gap room held chain same short h =
      let from = (base old).index + k + 1 in
      let bases : base s ≡ base old = same_base old s same in
      let offset : min (from - (base s).index - 1) s.len ≡ k = ground (
        arith,
        h.len_is,
        length-append (take k log) added,
        length-take k log,
        short,
        ap (λ (b : LogId). b.index) bases,
      ) in
      let kept : keep (λ (e : Entry V). ltb e.id.index from) (entries old) ≡ take k log =
        ap (keep (λ (e : Entry V). ltb e.id.index from)) (entries-Holds old log gap held)
        ∙ keep-before (base old) log k from chain refl in
      let tail_ : write_entries (write s (some from) false) ≡ added =
        written s (take k log ++ added) room (some from) false h
        ∙ ap (λ n. drop n (take k log ++ added)) offset
        ∙ drop-prefix k log added short in
      let logs : keep (λ (e : Entry V). ltb e.id.index from) (entries old)
            ++ write_entries (write s (some from) false)
          ≡ entries s =
        (λ i. kept i ++ tail_ i) ∙ sym (entries-Holds s (take k log ++ added) room h) in
      λ i. record { hard = s.hard; snapshot = sym same i; log = logs i }
