-- ===== src/Lib.antt =====
-- Two programs of the repository. Jarl, the Raft consensus core, is a deterministic state machine
-- without I/O, in jarl/src; provium compiles a scalar part of Rust to an intermediate language for
-- proofs, in provium/src, reads attributes of conditional compilation, and audits a ledger of
-- reviews. They share no code.
--
-- A host of jarl feeds it messages and clock ticks, writes each pending transaction to stable
-- storage, confirms it, and only then takes outgoing messages and committed entries.
--
-- The parts of jarl and their files:
-- - Types: jarl/src/lib.rs, the ids, entries, snapshots, messages, errors, and the result monad that
--   stands for the operator `?`.
-- - Membership: jarl/src/membership.rs, configurations of voters, previous voters and learners.
--   `restore`, `include`, `with_learners`, `joint`, `finalized`, `quorum` and `quorum_index` have the
--   names of the source. Children: Quorum, Joint, QuorumIndex, Voters and Valid hold the theorems.
-- - State: jarl/src/state.rs and the transaction of jarl/src/ready.rs, the bounded log with its
--   metadata. Log, Index and Suffix say what each operation does to the list of entries that the
--   array holds, Termination is about the loop of `truncate`, Replay about a storage
--   that applies transactions in the documented way; Valid and Restore are about well-formed
--   checkpoints; Moves, MovesValid and Stable are the step relation of the changes that a node may
--   make, and what it preserves.
-- - Node: jarl/src/node.rs, one replica. The record Node has the fields of the struct; its operations
--   stand in Timer, Peers, Commit, Election, Replication, Step, Propose, Outbox and Build. `step` is
--   `admit`, the checks that change nothing, followed by `receive`, in the order of the source.
--   Sound is the invariant. Evolve, EvolveStep, EvolveMessages, EvolveReceive and EvolveLocal show
--   that each operation changes the checkpoint by moves alone; Runs has sequences of calls, and
--   Safety, Leader, Elected, Accepted, Proposed, Refusals, Liveness and Fresh have the theorems.
-- - Cluster: jarl/src/cluster.rs, a node whose log also carries configurations, and the changes of
--   membership. Change is about what a change proposes, Latest about
--   the configuration that is in the log after it, Calls about sequences of operations.
--
-- The parts of provium and their files:
-- - Provium/Ir: provium/src/ir.rs, expressions with de Bruijn indices and their evaluator. An Expr has
--   its type as the first argument of the constructor for its kind. Typing has the typing rules and
--   says how well-typed expressions run, Renaming is about `map_free`.
-- - Provium/Syntax: the syntax trees that the crate `syn` hands over, as far as the front end reads
--   them. What `syn` makes of a text, of a suffix and of the tokens of a macro is an input.
-- - Provium/Frontend: provium/src/frontend.rs. Frontend has types, patterns, signatures and `parse`;
--   Monad the cache that the compiler threads through; Translate the arms of `Compiler::expr` that do
--   not recurse, as functions of their translated parts; Walk the recursion of `expr` and `stmts`;
--   Compile `function` and `compile`. A call of `function` inside `expr` is a field of Setting, which
--   Compile fills, so that the recursion is on the 32 calls that the stack `active` may hold; the
--   recursion over a tree is structural. Sound with its children, Compiled, Covered and Calls have the
--   theorems.
-- - Provium/Cfg: provium/src/cfg.rs, configurations of rustc, `evaluate_cfg` for `evaluate`, and
--   `attributes`. Meaning gives predicates their meaning, Remaining is about `attributes`, Lines about
--   `read_cfg`, which is `parse`.
-- - Provium/Coverage: provium/src/coverage.rs, the ledger and `audit`. The inventory of the source and
--   the parsed ledger are inputs, and a record Host stands for paths and files. Accounted says what a
--   successful audit means.
-- - Provium/Base: the result type, and postconditions on it.
--
-- Shared:
-- - Prelude: Boolean tests, lists and 64-bit words.
--
-- Conventions. An array of length N or CAP is a list, and its length stands for the constant. A u64
-- is a natural number; `checked_add`, `saturating_add` and `wrapping_add` have the bound 2 ^ 64
-- written out. Indexing out of range, which panics in Rust, reads a default and writes nothing.
-- An operation on `&mut self` returns the new node with its result, which on an error is the node
-- that the source leaves. A value whose clone unwinds is `none` in a proposal, and `Outcome` tells an
-- unwinding from an error. A closure over the application's types, MembershipHooks, is a record of
-- functions. The loop of `State::truncate` runs on fuel, the number of entries, since each turn drops
-- one; the other loops are structural. An error of the front end is the start of its message, without
-- the position and the quoted names.
--
-- Not modelled: jarl/src/host.rs, which only calls the application's storage; a clone that unwinds
-- in compaction, which precedes any change; the copies of messages and diagnostics; the tests, the
-- examples and the proofs in other languages; of provium the names of operators in Lean, the
-- positions and texts in a Function, the part of coverage.rs that collects an inventory from files,
-- and all files but ir.rs, frontend.rs, cfg.rs and coverage.rs, which match methods against templates,
-- write Lean texts and run rustc and Lean; hubby and hubby-core, which are stubs.
pub mod Prelude
pub mod Types
pub mod Membership
pub mod State
pub mod Node
pub mod Cluster
pub mod Provium
