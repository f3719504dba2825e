-- ===== src/Node/Safety.antt =====
-- What no sequence of calls of jarl/src/node.rs can undo.
use hubby.Membership
use hubby.Node.Build
use hubby.Membership.{Membership}
use hubby.Prelude.{
  Bool, List, Option, Option-cases, [], any, arith, false, get_or, if◌then◌else◌, inl, inr, is_some,
  is_some_and, length, none, not, position, refl, some, subst, true, ℕ, ◌==◌, ◌||◌, ◌∷◌, ◌≡◌,
}
use hubby.State.{State}
use hubby.State.Valid.{IsValid}
use hubby.State.Stable.{Keeps, Moves-Keeps, Moves-Votes, Votes}
use hubby.Types.{>>=-eq-ok, Config, Envelope, ok, ok_injective, refuse_if-eq-ok}
use hubby.Node.{MembershipHooks, Node, Outbound}
use hubby.Node.Election.{tick}
use hubby.Node.Step.{step}
use hubby.Node.Propose.{compact, propose_batch}
use hubby.Node.Outbox.{next_message, persisted, take_extra, take_slot}
use hubby.Node.Sound.{
  Evolves, Soft, Soft-refl, Soft-trans, Sound, refresh_membership-Soft, reset_election-Soft, soft,
}
use hubby.Node.Evolve.{Evolves-refl, Evolves-then, Soft-Evolves, tick-Evolves}
use hubby.Node.EvolveReceive.{step-Evolves}
use hubby.Node.EvolveLocal.{compact-Evolves, propose_many-Evolves}
use hubby.Node.Runs.{
  AllInRange, Call, call, calls, compacts, persists, proposes, receives, takes_message, ticks,
}
use hubby.Node.Build.{bad_timing, build, initial, repeats}

module _ {V S : Type 0} where
  take_slot-Soft : (n : Node V S) (peer : ℕ) (out : Outbound) → Soft n (take_slot n peer out).0
  unfolding take_slot
  take_slot-Soft n peer out = elim (Option-cases (get_or n.peers peer none)) [
    | inl e ↦ rw (e, take_slot) (Soft-refl n)
    | inr (to, e) ↦ rw (e, take_slot) (soft n _ refl refl refl)
  ]

  -- A branch on an optional value that leaves the node alone when there is none.
  option-Soft :
      {A B : Type 0} (n : Node V S) (o : Option A) (f : A → Node V S × Option B)
      → ((a : A) → Soft n (f a).0)
      → Soft n (elim o as (λ x. Node V S × Option B) [ none ↦ (n, none) | some a ↦ f a ]).0
  option-Soft n none f h = Soft-refl n
  option-Soft n (some a) f h = h a

  take_extra-Soft : (n : Node V S) → Soft n (take_extra n).0
  unfolding take_extra
  take_extra-Soft n = option-Soft n n.extra_reply _ (λ p. soft n _ refl refl refl)

  slot-Soft :
      (n : Node V S) (o : Option ℕ)
      → Soft n
          (elim o as (λ x. Node V S × Option (Envelope V S)) [
            | none ↦ take_extra n
            | some peer ↦
                elim (get_or n.outbox peer none) as (λ x. Node V S × Option (Envelope V S)) [
                  | none ↦ (n, none)
                  | some out ↦ take_slot n peer out
                ]
          ]).0
  slot-Soft n none = take_extra-Soft n
  slot-Soft n (some peer) =
      option-Soft n (get_or n.outbox peer none) _ (λ out. take_slot-Soft n peer out)

  gate-Soft :
      {B : Type 0} (n : Node V S) (b : Bool) (x : Node V S × Option B)
      → Soft n x.0
      → Soft n (if b then (n, none) else x).0
  gate-Soft n true x h = Soft-refl n
  gate-Soft n false x h = h

  next_message-Soft : (n : Node V S) → Soft n (next_message n).0
  unfolding next_message
  next_message-Soft n = gate-Soft n n.dirty _ (slot-Soft n (position (λ o. is_some o) n.outbox))

  persisted-Soft : (n : Node V S) → Soft n (persisted n)
  unfolding persisted
  persisted-Soft n = soft n _ refl refl refl

  pub propose_batch-Evolves :
      (n : Node V S) (values : List (Option V)) → Sound n → Evolves n (propose_batch n values).0
  unfolding propose_batch
  propose_batch-Evolves n values v = propose_many-Evolves n (length values) values v (omega arith)

  pub calls-Evolves :
      (n : Node V S) (cs : List (Call V S)) → Sound n → AllInRange cs → Evolves n (calls n cs)
  unfolding calls call
  calls-Evolves n [] v r = Evolves-refl n v
  calls-Evolves n (receives envelope ∷ cs) v r =
      Evolves-then (step-Evolves n envelope v r.0)
        (λ v'. calls-Evolves (step n envelope).0 cs v' r.1)
  calls-Evolves n (ticks ∷ cs) v r =
      Evolves-then (tick-Evolves n v) (λ v'. calls-Evolves (tick n).0 cs v' r)
  calls-Evolves n (proposes values ∷ cs) v r =
      Evolves-then (propose_batch-Evolves n values v)
        (λ v'. calls-Evolves (propose_batch n values).0 cs v' r)
  calls-Evolves n (compacts index value ∷ cs) v r =
      Evolves-then (compact-Evolves n index value v)
        (λ v'. calls-Evolves (compact n index value).0 cs v' r)
  calls-Evolves n (takes_message ∷ cs) v r =
      Evolves-then (Soft-Evolves (next_message-Soft n) v)
        (λ v'. calls-Evolves (next_message n).0 cs v' r)
  calls-Evolves n (persists ∷ cs) v r =
      Evolves-then (Soft-Evolves (persisted-Soft n) v) (λ v'. calls-Evolves (persisted n) cs v' r)

  -- From a sound node, any sequence of ticks, proposals, compactions, taken messages, confirmed
  -- writes and received messages, in which the index of each snapshot is a u64, leads to a sound
  -- node: its checkpoint is well formed, a candidate or leader has a positive term, and a probe is
  -- for a later term.
  pub calls-Sound :
      (n : Node V S) (cs : List (Call V S)) → Sound n → AllInRange cs → Sound (calls n cs)
  calls-Sound n cs v r = (calls-Evolves n cs v r).sound

  -- From a sound node, no sequence of ticks, proposals, compactions, taken messages, confirmed
  -- writes and received messages, in which the index of each snapshot is a u64, changes what is
  -- committed: at each index that was committed, the node holds the same entry as before, unless
  -- the index has been compacted away, and the same id also at the boundary. The commit index and
  -- the boundary do not fall.
  pub calls-Keeps :
      (n : Node V S) (cs : List (Call V S))
      → Sound n
      → AllInRange cs
      → Keeps n.state (calls n cs).state
  calls-Keeps n cs v r = Moves-Keeps (calls-Evolves n cs v r).moves v.valid

  -- From a sound node, no sequence of ticks, proposals, compactions, taken messages, confirmed
  -- writes and received messages, in which the index of each snapshot is a u64, lowers the term,
  -- or changes or withdraws a vote within a term.
  pub calls-Votes :
      (n : Node V S) (cs : List (Call V S))
      → Sound n
      → AllInRange cs
      → Votes n.state (calls n cs).state
  calls-Votes n cs v r = Moves-Votes (calls-Evolves n cs v r).moves v.valid

  build-Sound :
      (c : Config) (s : State V S) (m : Membership) (hooks : Option (MembershipHooks V S))
      {n : Node V S}
      → IsValid s
      → build c s m hooks ≡ ok n
      → Sound n
  unfolding build
  build-Sound c s m hooks {n} v e =
      let made = (refuse_if-eq-ok (bad_timing (length s.slots) c) _ _ e).1 in
      let n0 : Node V S = initial c s m hooks in
      let start : Sound n0 = record { valid = v; ruling = λ h. cc (h); probing = λ t h. cc (h) } in
      let p =
        Soft-Evolves (Soft-trans (refresh_membership-Soft n0) (reset_election-Soft _)) start in
      subst Sound (ok_injective made) p.sound

  -- Where `Node::new` succeeds on a well-formed checkpoint, the node is sound.
  pub new-Sound :
      (c : Config) (s : State V S) {n : Node V S} → IsValid s → Build.new c s ≡ ok n → Sound n
  unfolding Build.new
  new-Sound c s v e =
      let e1 =
        (refuse_if-eq-ok
          (length c.members == 0
            || not (any (λ i. i == c.id) c.members)
            || bad_timing (length s.slots) c
            || repeats [] c.members)
          _ _ e).1 in
      let e2 =
        (refuse_if-eq-ok (is_some_and s.hard.voted_for (λ i. not (any (λ j. j == i) c.members))) _ _
          e1).1 in
      let (m, made, e3) = >>=-eq-ok (Membership.new (length c.members) c.members []) _ e2 in
      build-Sound c s m none v e3
