-- ===== src/State/Restore.antt =====
-- `State::restore` and `State::grow` of jarl/src/state.rs against the well-formed checkpoints.
use hubby.Prelude.{
  List, Option, [], ap, arith, false, is_some, length, map_or, subst, true, u64_mod, ℕ, ◌+◌, ◌<◌,
  ◌∙◌, ◌≡◌, ◌≤◌,
}
use hubby.State.Valid.{
  Extended, Holds-unique, IsValid, restore_entries-Extended, restore_entries_total,
}
use hubby.State.{
  HardState, State, bad_commit, bad_metadata, base, entries, last, last_id, new, restore,
  restore_entries,
}
use hubby.State.Log.{Holds, entries-Holds, last-Holds, last_id-term, length-packed, new-Holds}
use hubby.Types.{
  >>=-eq-ok, Entry, Error, LogId, Snapshot, genesis, ok, ok_injective, refuse_if-eq-ok,
}

module _ {S : Type 0} where
  -- The boundary that a snapshot sets.
  abbrev boundary : Option (Snapshot S) → LogId
  boundary o = map_or o genesis (λ x. x.last)

  metadata_based :
      (hard : HardState) (snapshot : Option (Snapshot S)) (b : LogId)
      → bad_metadata hard snapshot b ≡ false
      → (is_some snapshot ≡ true → (0 < b.index) × (0 < b.term))
        × (hard.term ≡ 0 → is_some hard.voted_for ≡ false)
        × (b.term ≤ hard.term)
  metadata_based hard snapshot b h = ground (arith, h)

module _ {V S : Type 0} where
  -- The checkpoint that `restore` starts from.
  abbrev start : ℕ → HardState → Option (Snapshot S) → State V S
  start capacity hard snapshot = record (new capacity) { hard = hard; snapshot = snapshot }

  start-Holds :
      (capacity : ℕ) (hard : HardState) (snapshot : Option (Snapshot S))
      → Holds (start capacity hard snapshot) [] capacity
  start-Holds capacity hard snapshot =
      let h = new-Holds {V = V} {S = S} capacity in record { len_is = h.len_is; packed = h.packed }

  commit_inside :
      (s1 : State V S) (es : List (Entry V)) (c : ℕ) (b : LogId)
      → last s1 ≡ last_id b es
      → bad_commit c b (last s1) ≡ false
      → (b.index ≤ c) × (c ≤ (last_id b es).index)
  commit_inside s1 es c b l h = let h' = rw l at h in ground (arith, h')

  restored :
      (capacity : ℕ) (hard : HardState) (snapshot : Option (Snapshot S)) (s1 : State V S)
      (es : List (Entry V))
      → Extended (start capacity hard snapshot) s1 [] es
      → bad_metadata hard snapshot (boundary snapshot) ≡ false
      → bad_commit hard.commit (boundary snapshot) (last s1) ≡ false
      → IsValid s1
  restored capacity hard snapshot s1 es g metadata inside =
      let m = metadata_based hard snapshot (boundary snapshot) metadata in
      let same : last s1 ≡ last_id (boundary snapshot) es =
        last-Holds s1 es g.room g.holds
        ∙ ap (λ (o : Option (Snapshot S)). last_id (boundary o) es) g.same_snapshot in
      record {
        log = es;
        room = g.room;
        holds = g.holds;
        chain = rw g.same_snapshot g.chain;
        terms = rw (g.same_snapshot, g.same_hard) g.terms;
        indices = rw g.same_snapshot g.indices;
        based = rw g.same_snapshot m.0;
        voted = rw g.same_hard m.1;
        committed =
            rw (g.same_snapshot, g.same_hard)
              (commit_inside s1 es hard.commit (boundary snapshot) same inside);
      }

  -- Where `State::restore` succeeds with a snapshot whose index is a u64, or with none, the
  -- checkpoint is well formed and has the given entries, metadata and snapshot.
  pub restore_lem :
      (capacity : ℕ) (hard : HardState) (snapshot : Option (Snapshot S)) (es : List (Entry V))
      {s : State V S}
      → (map_or snapshot genesis (λ x. x.last)).index < u64_mod
      → restore capacity hard snapshot es ≡ ok s
      → IsValid s × (entries s ≡ es) × (s.hard ≡ hard) × (s.snapshot ≡ snapshot)
  unfolding restore
  restore_lem capacity hard snapshot es {s} small e =
      let s0 : State V S = start capacity hard snapshot in
      let (metadata, e1) = refuse_if-eq-ok (bad_metadata hard snapshot (base s0)) Error.state _ e in
      let (s1, loop, e2) = >>=-eq-ok (restore_entries s0 es) _ e1 in
      let (inside, e3) =
        refuse_if-eq-ok (bad_commit hard.commit (base s0) (last s1)) Error.state (ok s1) e2 in
      let known = (metadata_based hard snapshot (boundary snapshot) metadata).2 in
      let g =
        restore_entries-Extended s0 [] es capacity (start-Holds capacity hard snapshot) tt known
          small loop in
      rw (← ok_injective e3) (
        restored capacity hard snapshot s1 es g metadata inside,
        entries-Holds s1 es g.room g.holds,
        g.same_hard,
        g.same_snapshot,
      )

  good_metadata : (s : State V S) → IsValid s → bad_metadata s.hard s.snapshot (base s) ≡ false
  good_metadata s v = ground (arith, v.based, v.voted, last_id-term (base s) v.log v.chain)

  good_commit : (s : State V S) → IsValid s → bad_commit s.hard.commit (base s) (last s) ≡ false
  good_commit s v = rw (last-Holds s v.log v.room v.holds) (ground arith)

  -- Restoring the metadata, snapshot and entries of a well-formed checkpoint, at its capacity,
  -- succeeds and gives the same checkpoint.
  pub restore-entries :
      (s : State V S) → IsValid s → restore (length s.slots) s.hard s.snapshot (entries s) ≡ ok s
  unfolding restore
  restore-entries s v =
      let s0 : State V S = start (length s.slots) s.hard s.snapshot in
      let size : length s.slots ≡ length v.log + v.room =
        ap length v.holds.packed ∙ length-packed v.log v.room in
      let h0 = subst (Holds s0 []) size (start-Holds (length s.slots) s.hard s.snapshot) in
      let (s1, p, h, eh, es') =
        restore_entries_total s0 [] v.log v.room h0 v.chain v.terms v.indices in
      let same = Holds-unique s1 s v.log v.room h v.holds eh es' in
      rw (good_metadata s v, entries-Holds s v.log v.room v.holds, p, same, good_commit s v)
