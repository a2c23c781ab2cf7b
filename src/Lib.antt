-- ===== src/Lib.antt =====
-- The kernis runtime kernel (crates/): a model of its core and what is proved of it.
--
-- Kernis keeps three structures apart: capabilities, workflows and execution streams, with the
-- durable facts of a run beside them. This library models the parts that hold the kernel's truth,
-- one module for each, and leaves out what only formats, reads or writes.
--
-- Core: crates/core/src/lib.rs. `Id` is `TextId`, a record around the list of a text's code points;
--   `Id::new` is `new`, with `char::is_whitespace` written out. `Revision` is a number; the bound of
--   its u64 stands in `checked_next`.
-- BTree: `BTreeMap` and `BTreeSet` of the standard library, as lists in the order of their keys, with
--   the laws that the other modules use.
-- Stream: crates/execution-stream/src/lib.rs. `Sequencer` and `Tracker` are `StreamSequencer` and
--   `SequenceTracker`; `Lossless`, `Coalescing` and `Lossy` are the three buffers. The crate keeps no
--   shared state: what a producer, a buffer and a consumer do together is a sequence of calls.
-- Workflow: crates/workflow-graph/src/lib.rs. `Topology` is `WorkflowTopology`, `Cycle` its search
--   for a cycle, `Graph` is `WorkflowGraph` with `complete`, `ready_tasks` and `apply_batch`, and
--   `Replay` is `replay` and `replay_with_facts`. An operation on `&mut self` returns its result and
--   the graph that it leaves, so the roll-back in `apply_mutation` and the candidate of `apply_batch`
--   are in the model.
-- Capability: crates/capability-graph/src/definition.rs and resolver.rs. `Resolver` is `CapabilityGraph`
--   with `resolve`, whose local variables are the record `Visit`.
-- Dfs: what the depth-first searches share: paths, cycles, and the count of unmarked identifiers.
-- Recovery: crates/workflow-recovery/src/model.rs, journal.rs and recovery.rs. `Journal` is
--   `DurableJournal`, `Classify` is `classify_recovery`, which reads a workflow graph and a journal.
-- Recovery/Durable: crates/workflow-recovery/src/durable.rs. `State` is `DurableRunState`, `Apply` is
--   `apply_mutation` arm by arm, `Ledger` and `Snapshot` are the commit ledger with its replay and the
--   snapshot, `Store` is `InMemoryDurableStore`. `Step` says as a relation what a mutation may do, `Steps` what a list of them may. The
--   bytes that postcard makes of a commit are a parameter, `encode`; nothing is asked of it, since the
--   binding is only compared with itself. `View` is `DurableJournal::from_durable_state`, by which the
--   store feeds the recovery decisions.
-- Recovery/Physical: crates/workflow-recovery/src/physical.rs. `Format` is the bytes of a row, `File` the
--   transactions of `FileDurableStore` on the table of rows. What redb answers to each step is an
--   argument (`Answers`), a panic and a busy file included; a commit that redb reports as failed may
--   have taken effect or not. The bytes that postcard makes of a snapshot are parameters, of which
--   `Codes` asks that they are read back.
-- Loader: crates/runtime-loader/src/reference.rs, error.rs, catalog.rs and resolve.rs. `Reference` and
--   `Text` are `ModuleReference` with its order and its text, `Catalog` is `ModuleCatalog`. A factory is
--   a function into a type that stands for `ModuleRegistration`. `Resolve` has the breadth-first
--   closure, `Resolve/Cycles` the cycle check and `Resolve/Construct` the third phase.
-- Runtime: crates/runtime-core/src/definition.rs. `Definition` is the declarations of a run with their
--   validation, which asks the workflow graph and the capability graph; `Validated` says of a
--   definition that it is in order without either graph, by what it declares; `Identity` is the canonical
--   text, where the push functions are given the text that follows instead of a buffer. A text is a
--   list of code points, of which `byte_len` counts the bytes in UTF-8.
-- Base: what the modules share.
--
-- An operation returns an `Outcome`: a value, an error, or a fault. A fault is a panic (an `expect`
-- that fails) or the fuel of a loop running out. The loops on fuel are the three
-- depth-first searches named `visit`, the rounds of the loader's `close`, and `digits`. The fuel of a search bounds
-- the depth of its calls, and one more than the number of tasks, capabilities or references is enough,
-- since every call marks one that was not marked, or returns at once; a round that leads to another
-- one resolves an entry of the catalog. `digits` writes a number on one more fuel than the number,
-- which each digit makes smaller. All other loops go over a list.
-- A u64 is a number with its `checked_add` written out; a usize counts the items of a list and is
-- not bounded. `clone`, borrows and moves leave no trace.
--
-- Not modelled: Display and Error impls (text for people), serde, postcard and redb (third-party),
-- the creation of the store's file, the capability registry and its reactive runtime, of the runtime core the runs, their driver and
-- the factory registry, the composition, and the loader's hand-over to it.
pub mod Base
pub mod Core
pub mod BTree
pub mod Dfs
pub mod Capability
pub mod Stream
pub mod Workflow
pub mod Recovery
pub mod Runtime
pub mod Loader
