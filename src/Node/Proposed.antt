-- ===== src/Node/Proposed.antt =====
-- What a node of jarl/src/node.rs logs when a proposal of one value succeeds.
use hubby.State.{State, base, entries, get, last, push}
use hubby.State.Log.{entries-Holds, last_id-index}
use hubby.State.Moves.{with_commit}
use hubby.Node.Commit.{advance_commit, commit_to, commits, match_local}
use hubby.Prelude.{
  Bool-cases, List, [], ap, arith, get_elem?, inl, inr, length, ltb, refl, some, sym, true, ℕ, ◌++◌,
  ◌+◌, ◌∙◌, ◌∷◌, ◌≡◌,
}
use hubby.State.Valid.{IsValid, same_base}
use hubby.State.Index.{get-Holds}
use hubby.State.MovesValid.{last_of, push-room}
use hubby.Types.{Entry, Error, LogId, Result-cases, err, ok}
use hubby.Node.{Node}
use hubby.Node.Peers.{matched_of, refresh_membership}
use hubby.Node.Propose.{
  Pushed, accept_proposals, admit_proposals, drop_rollback, failed, finished, first_proposed,
  propose, propose_admitted, propose_many, push_values, returned, settle,
}
use hubby.Node.Sound.{Sound, broadcast-Soft, refresh_membership-Soft}
use hubby.Membership.{quorum_index}
use hubby.Node.Accepted.{get-commit_to}

get_elem?-snoc : {A : Type 0} (xs : List A) (x : A) → get_elem? (xs ++ x ∷ []) (length xs) ≡ some x
get_elem?-snoc [] x = refl
get_elem?-snoc (y ∷ xs) x = get_elem?-snoc xs x

module _ {V S : Type 0} where
  get-advance_commit : (n : Node V S) (i : ℕ) → get (advance_commit n).0.state i ≡ get n.state i
  unfolding advance_commit
  get-advance_commit n i =
      elim (Bool-cases (commits n (quorum_index n.membership (matched_of n)))) [
        | inl more ↦ rw (more, advance_commit) (get-commit_to n _ i)
        | inr less ↦ rw (less, advance_commit) refl
      ]

  get-accept_proposals :
      (n : Node V S) (s : State V S) (first : LogId) (last_index i : ℕ)
      → get (accept_proposals n s first last_index).state i ≡ get s i
  unfolding accept_proposals
  get-accept_proposals n s first last_index i =
      let n1 : Node V S = record n { state = s; dirty = true; log_from = some first.index } in
      let n2 : Node V S = match_local (refresh_membership n1) last_index in
      ap (λ (x : State V S). get x i) (broadcast-Soft (advance_commit n2).0).state
      ∙ get-advance_commit n2 i
      ∙ ap (λ (x : State V S). get x i) (refresh_membership-Soft n1).state

  -- The entry that a proposal appends.
  abbrev pub proposed : Node V S → V → Entry V
  proposed n x = record { id = first_proposed n; value = some x }

  pushed-get :
      (s : State V S) (e : Entry V) {t : State V S}
      → IsValid s
      → e.id.index ≡ (last s).index + 1
      → push s e ≡ ok t
      → get t e.id.index ≡ some e
  pushed-get s e {t} v next p =
      let (r, h, eh, es) = push-room s v.log v.room e v.holds p in
      let bt = ap (λ (l : LogId). l.index) (same_base s t es) in
      let top = ap (λ (l : LogId). l.index) (last_of s v) in
      let many = last_id-index (base s) v.log v.chain in
      get-Holds t (v.log ++ e ∷ []) r (length v.log) e.id.index h
        (omega (arith, next, bt, top, many))
      ∙ get_elem?-snoc v.log e

  -- The entry as the loop over the values builds it.
  abbrev numbered : Node V S → V → Entry V
  numbered n x = record {
    id = record { index = (first_proposed n).index + 0; term = n.state.hard.term };
    value = some x;
  }

  numbered_lem : (n : Node V S) (x : V) → numbered n x ≡ proposed n x
  numbered_lem n x =
      let at : (first_proposed n).index + 0 ≡ (first_proposed n).index = omega arith in
      ap (λ (i : ℕ). record { id = record { index = i; term = n.state.hard.term }; value = some x })
        at

  push_values_one :
      (n : Node V S) (x : V) {t : State V S}
      → push n.state (numbered n x) ≡ ok t
      → push_values n.state (first_proposed n) 0 (some x ∷ []) ≡ finished t
  unfolding push_values
  push_values_one n x success = rw (success, push_values) refl

  push_values_failed :
      (n : Node V S) (x : V) {e : Error}
      → push n.state (numbered n x) ≡ err e
      → push_values n.state (first_proposed n) 0 (some x ∷ []) ≡ failed n.state e
  unfolding push_values
  push_values_failed n x failure = rw (failure, push_values) refl

  -- An admitted proposal of one value, by how its loop ends.
  propose_settled :
      (n : Node V S) (x : V) {last_index : ℕ} {p : Pushed V S}
      → admit_proposals n 1 ≡ ok last_index
      → push_values n.state (first_proposed n) 0 (some x ∷ []) ≡ p
      → propose_many n 1 (some x ∷ []) ≡ settle n last_index p
  unfolding propose_many propose_admitted
  propose_settled n x taken ends = rw (taken, propose_many) (rw (ends, propose_admitted) refl)

  -- A proposal of one value that succeeds returns the id after the last one of the log, in the node's
  -- term, and has logged the value there.
  pub propose-Logs :
      (n : Node V S) (x : V) {id : LogId}
      → Sound n
      → (propose n (some x)).1 ≡ returned (ok id)
      → (id ≡ first_proposed n)
        × (get (propose n (some x)).0.state (first_proposed n).index ≡ some (proposed n x))
  unfolding propose propose_many settle drop_rollback
  propose-Logs n x {id} v h = elim (Result-cases (admit_proposals n 1)) [
    | inr (e, refused) ↦ let h' = rw (refused, propose_many, propose) at h in cc (h')
    | inl (last_index, taken) ↦ elim (Result-cases (push n.state (numbered n x))) [
      | inr (e, failure) ↦
          let h' = rw (propose_settled n x taken (push_values_failed n x failure), propose) at h in
          cc (h')
      | inl (t, success) ↦
          let ends = propose_settled n x taken (push_values_one n x success) in
          let h' = rw (ends, propose) at h in
          let logged = rw (numbered_lem n x) at success in
          rw (ends, propose)
            (
              cc (h'),
              get-accept_proposals n t (first_proposed n) last_index (first_proposed n).index
                  ∙ pushed-get n.state (proposed n x) v.valid refl logged,
            )
    ]
  ]

  entries-commit_to : (n : Node V S) (c : ℕ) → entries (commit_to n c).state ≡ entries n.state
  unfolding commit_to entries
  entries-commit_to n c = elim (Bool-cases (ltb n.state.hard.commit c)) [
    | inr less ↦ rw (less, commit_to) refl
    | inl more ↦
        let n2 : Node V S = record n { state = with_commit n.state c; dirty = true } in
        rw (more, commit_to) (ap (λ (x : State V S). entries x) (refresh_membership-Soft n2).state)
  ]

  entries-advance_commit : (n : Node V S) → entries (advance_commit n).0.state ≡ entries n.state
  unfolding advance_commit
  entries-advance_commit n =
      elim (Bool-cases (commits n (quorum_index n.membership (matched_of n)))) [
        | inl more ↦ rw (more, advance_commit) (entries-commit_to n _)
        | inr less ↦ rw (less, advance_commit) refl
      ]

  entries-accept_proposals :
      (n : Node V S) (s : State V S) (first : LogId) (last_index : ℕ)
      → entries (accept_proposals n s first last_index).state ≡ entries s
  unfolding accept_proposals
  entries-accept_proposals n s first last_index =
      let n1 : Node V S = record n { state = s; dirty = true; log_from = some first.index } in
      let n2 : Node V S = match_local (refresh_membership n1) last_index in
      ap (λ (x : State V S). entries x) (broadcast-Soft (advance_commit n2).0).state
      ∙ entries-advance_commit n2
      ∙ ap (λ (x : State V S). entries x) (refresh_membership-Soft n1).state

  pushed-entries :
      (s : State V S) (e : Entry V) {t : State V S}
      → IsValid s
      → push s e ≡ ok t
      → entries t ≡ entries s ++ e ∷ []
  pushed-entries s e {t} v p =
      let (r, h, eh, es) = push-room s v.log v.room e v.holds p in
      entries-Holds t (v.log ++ e ∷ []) r h
      ∙ ap (λ xs. xs ++ e ∷ []) (sym (entries-Holds s v.log v.room v.holds))

  -- A proposal of one value that succeeds appends one entry to the log.
  pub propose-entries :
      (n : Node V S) (x : V) {id : LogId}
      → Sound n
      → (propose n (some x)).1 ≡ returned (ok id)
      → entries (propose n (some x)).0.state ≡ entries n.state ++ proposed n x ∷ []
  unfolding propose propose_many settle drop_rollback
  propose-entries n x {id} v h = elim (Result-cases (admit_proposals n 1)) [
    | inr (e, refused) ↦ let h' = rw (refused, propose_many, propose) at h in cc (h')
    | inl (last_index, taken) ↦ elim (Result-cases (push n.state (numbered n x))) [
      | inr (e, failure) ↦
          let h' = rw (propose_settled n x taken (push_values_failed n x failure), propose) at h in
          cc (h')
      | inl (t, success) ↦
          let ends = propose_settled n x taken (push_values_one n x success) in
          let logged = rw (numbered_lem n x) at success in
          rw (ends, propose)
            (entries-accept_proposals n t (first_proposed n) last_index
              ∙ pushed-entries n.state (proposed n x) v.valid logged)
    ]
  ]
