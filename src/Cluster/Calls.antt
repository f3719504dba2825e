-- ===== src/Cluster/Calls.antt =====
-- Sequences of calls of the operations of `Cluster`, in jarl/src/cluster.rs.
use hubby.Prelude.{List, Option, [], arith, inl, inr, leb, length, ltb, map, some, ℕ, ◌-◌, ◌∷◌}
use hubby.Types.{Error, NodeId, Result, Result-cases, err, ok, refuse_if, ◌>>◌}
use hubby.Membership.{Membership}
use hubby.State.Stable.{Keeps, Moves-Keeps, Moves-Votes, Votes}
use hubby.Node.Propose.{propose}
use hubby.Node.Sound.{Evolves, Sound}
use hubby.Node.Evolve.{Evolves-refl, Evolves-then}
use hubby.Node.EvolveLocal.{compact-Evolves, propose_many-Evolves}
use hubby.Node.Runs.{AllInRange, Call, call, calls}
use hubby.Node.Safety.{calls-Evolves, propose_batch-Evolves}
use hubby.Cluster.{
  Checkpoint, Cluster, Record, command_value, compact_application, configuration, final_change,
  finish_reconfiguration, joint_change, leading, learners_change, propose_command, propose_commands,
  propose_membership, reconfigure, remaining, reserve, set_learners,
}

-- A call of an operation that changes the cluster's node.
pub data ClusterCall (V S : Type 0) : Type 0 where
  -- The calls that a `Cluster` passes on to its node: `step`, `tick`, `next_message`, `ready`.
  passes : Call (Record V) (Checkpoint S) → ClusterCall V S
  proposes_command : Option V → ClusterCall V S
  proposes_commands : List (Option V) → ClusterCall V S
  sets_learners : List NodeId → ClusterCall V S
  reconfigures : Membership → ClusterCall V S
  finishes : ClusterCall V S
  compacts_application : ℕ → S → ClusterCall V S

module _ {V S : Type 0} where
  unfoldable pub cluster_call : Cluster V S → ClusterCall V S → Cluster V S
  cluster_call n (passes c) = call n c
  cluster_call n (proposes_command v) = (propose_command n v).0
  cluster_call n (proposes_commands vs) = (propose_commands n vs).0
  cluster_call n (sets_learners ids) = (set_learners n ids).0
  cluster_call n (reconfigures m) = (reconfigure n m).0
  cluster_call n finishes = (finish_reconfiguration n).0
  cluster_call n (compacts_application index s) = (compact_application n index s).0

  unfoldable pub cluster_calls : Cluster V S → List (ClusterCall V S) → Cluster V S
  cluster_calls n [] = n
  cluster_calls n (c ∷ cs) = cluster_calls (cluster_call n c) cs

  -- The snapshot indices in the messages are `u64`s.
  abbrev CallInRange : ClusterCall V S → Type 0
  CallInRange (passes c) = AllInRange (c ∷ [])
  CallInRange _ = Unit {0}

  abbrev pub CallsInRange : List (ClusterCall V S) → Type 0
  CallsInRange [] = Unit {0}
  CallsInRange (c ∷ cs) = CallInRange c × CallsInRange cs

  propose-Evolves :
      (n : Cluster V S) (value : Option (Record V)) → Sound n → Evolves n (propose n value).0
  unfolding propose
  propose-Evolves n value v = propose_many-Evolves n 1 (value ∷ []) v (omega arith)

  propose_membership-Evolves :
      (n : Cluster V S) (r : Result Membership) → Sound n → Evolves n (propose_membership n r).0
  propose_membership-Evolves n (err e) v = Evolves-refl n v
  propose_membership-Evolves n (ok m) v = propose-Evolves n (some (configuration m)) v

  propose_command-Evolves :
      (n : Cluster V S) (value : Option V) → Sound n → Evolves n (propose_command n value).0
  unfolding propose_command
  propose_command-Evolves n value v =
      elim (Result-cases (leading n >> (refuse_if (leb (remaining n) reserve) Error.full))) [
        | inr (e, refused) ↦ rw (refused, propose_command) (Evolves-refl n v)
        | inl (_, free) ↦ rw (free, propose_command) (propose-Evolves n (command_value value) v)
      ]

  propose_commands-Evolves :
      (n : Cluster V S) (values : List (Option V))
      → Sound n
      → Evolves n (propose_commands n values).0
  unfolding propose_commands
  propose_commands-Evolves n values v =
      elim (Result-cases
        (leading n >> (refuse_if (ltb (remaining n - reserve) (length values)) Error.full))) [
          | inr (e, refused) ↦ rw (refused, propose_commands) (Evolves-refl n v)
          | inl (_, free) ↦
              rw (free, propose_commands) (propose_batch-Evolves n (map command_value values) v)
        ]

  cluster_call-Evolves :
      (n : Cluster V S) (c : ClusterCall V S)
      → Sound n
      → CallInRange c
      → Evolves n (cluster_call n c)
  unfolding cluster_call set_learners reconfigure finish_reconfiguration compact_application calls
  cluster_call-Evolves n (passes c) v r = calls-Evolves n (c ∷ []) v r
  cluster_call-Evolves n (proposes_command x) v r = propose_command-Evolves n x v
  cluster_call-Evolves n (proposes_commands xs) v r = propose_commands-Evolves n xs v
  cluster_call-Evolves n (sets_learners ids) v r =
      propose_membership-Evolves n (learners_change n ids) v
  cluster_call-Evolves n (reconfigures m) v r = propose_membership-Evolves n (joint_change n m) v
  cluster_call-Evolves n finishes v r = propose_membership-Evolves n (final_change n) v
  cluster_call-Evolves n (compacts_application index s) v r = compact-Evolves n index _ v

  cluster_calls-Evolves :
      (n : Cluster V S) (cs : List (ClusterCall V S))
      → Sound n
      → CallsInRange cs
      → Evolves n (cluster_calls n cs)
  unfolding cluster_calls
  cluster_calls-Evolves n [] v r = Evolves-refl n v
  cluster_calls-Evolves n (c ∷ cs) v r =
      Evolves-then (cluster_call-Evolves n c v r.0)
        (λ v'. cluster_calls-Evolves (cluster_call n c) cs v' r.1)

  -- From a sound node of a dynamic cluster, through any sequence of its operations, changes of
  -- membership included, in which the index of each received snapshot is a u64, the node stays
  -- sound, keeps its committed log up to compaction, and neither lowers its term nor changes or
  -- withdraws a vote within a term.
  pub cluster_calls_lem :
      (n : Cluster V S) (cs : List (ClusterCall V S))
      → Sound n
      → CallsInRange cs
      → Sound (cluster_calls n cs)
        × Keeps n.state (cluster_calls n cs).state
        × Votes n.state (cluster_calls n cs).state
  cluster_calls_lem n cs v r =
      let p = cluster_calls-Evolves n cs v r in
      (p.sound, Moves-Keeps p.moves v.valid, Moves-Votes p.moves v.valid)
