-- ===== src/Node/Timer.antt =====
-- jarl/src/node.rs: the busy check, election jitter and stepping down.
use Prim.Native.Nat.{bit_xor}
use hubby.Prelude.{
  Option, any, if◌then◌else◌, is_some, none, wrapping_add, wrapping_mul, ℕ, ◌%◌, ◌+◌, ◌/◌, ◌^◌,
  ◌||◌,
}
use hubby.Types.{Error, NodeId, Result, Role, refuse_if}
use hubby.Node.{Node}

-- The output of SplitMix64 for an advanced state.
unfoldable pub split_mix : ℕ → ℕ
split_mix r =
    let a : ℕ = wrapping_mul (bit_xor r (r / 2 ^ 30)) 0xbf58476d1ce4e5b9 in
    let b : ℕ = wrapping_mul (bit_xor a (a / 2 ^ 27)) 0x94d049bb133111eb in bit_xor b (b / 2 ^ 31)

module _ {V S : Type 0} where
  unfoldable pub available : Node V S → Result (Unit {0})
  available n =
      refuse_if (n.dirty || is_some n.extra_reply || any (λ o. is_some o) n.outbox) Error.busy

  -- The sum is below 2 * `election_ticks`, which is at most the largest `u64`.
  unfoldable pub reset_election : Node V S → Node V S
  reset_election n =
      let r : ℕ = wrapping_add n.random 0x9e3779b97f4a7c15 in
      record n {
        random = r;
        election_deadline = n.config.election_ticks + split_mix r % n.config.election_ticks;
        elapsed = 0;
      }

  unfoldable pub follow : Node V S → Option NodeId → Node V S
  follow n to = reset_election (record n {
    role = Role.follower;
    prevoting = none;
    leader_age = if is_some to then 0 else n.leader_age;
    leader = to;
  })
