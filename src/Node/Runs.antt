-- ===== src/Node/Runs.antt =====
-- Sequences of calls of the public operations of `Node`, in jarl/src/node.rs and jarl/src/ready.rs.
use hubby.Prelude.{List, Option, [], ℕ, ◌∷◌}
use hubby.Types.{Envelope}
use hubby.Node.{Node}
use hubby.Node.Election.{tick}
use hubby.Node.Step.{step}
use hubby.Node.Propose.{compact, propose_batch}
use hubby.Node.Outbox.{next_message, persisted}
use hubby.Node.EvolveReceive.{InRange}

-- A call of a public operation that changes the node.
pub data Call (V S : Type 0) : Type 0 where
  receives : Envelope V S → Call V S
  ticks : Call V S
  -- A value whose construction unwinds is `none`.
  proposes : List (Option V) → Call V S
  compacts : ℕ → S → Call V S
  takes_message : Call V S
  persists : Call V S

module _ {V S : Type 0} where
  unfoldable pub call : Node V S → Call V S → Node V S
  call n (receives envelope) = (step n envelope).0
  call n ticks = (tick n).0
  call n (proposes values) = (propose_batch n values).0
  call n (compacts index value) = (compact n index value).0
  call n takes_message = (next_message n).0
  call n persists = persisted n

  -- The node after a sequence of calls.
  unfoldable pub calls : Node V S → List (Call V S) → Node V S
  calls n [] = n
  calls n (c ∷ cs) = calls (call n c) cs

  -- The indices in the messages of a sequence of calls are `u64`s.
  abbrev pub AllInRange : List (Call V S) → Type 0
  AllInRange [] = Unit {0}
  AllInRange (receives envelope ∷ cs) = InRange envelope.message × AllInRange cs
  AllInRange (_ ∷ cs) = AllInRange cs
