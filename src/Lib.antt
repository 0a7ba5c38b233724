-- ===== src/Lib.antt =====
-- A model of the durable core of bee-agent: the Chronicle event log and what is projected from it (the
-- Kanban task store with its dispatcher, the scheduler, threads, grants, the recovery of a turn), with
-- the assembly of a model's context, and the theorems that make them correct.
--
-- Parts and files.
-- * Chronicle (Chronicle.antt and its children): packages/knowledge/src/envelope.ts and registry.ts
--   (event envelopes, the registry that validates an append) and
--   adapters/storage/sqlite/src/sqlite-chronicle-store.ts (the default store). `Db` has the two
--   tables of the migration; `append` validates every event, then runs `append_locked`, the
--   transaction, which carries no state when it throws.
-- * Kanban (Kanban.antt and its children): packages/kanban/src. Status is the transition table and
--   the search of state-machine.ts, Task the records and schemas of protocol.ts, Transition
--   `applyTransition`, Construct `newKanbanTask`, Fold `foldTask`, Store the class
--   `ChronicleKanbanStore` of store.ts. Each writing operation of the store builds one event,
--   appends it to the stream `kanban:<id>` at the sequence that the task's version implies, and
--   indexes the new task.
-- * The dispatcher (Kanban.Dispatcher): packages/kanban/src/dispatcher.ts, `KanbanDispatcher` over the
--   store; its `list` queries are Kanban.Store.Listing.
-- * Scheduler (Scheduler.antt and its children): packages/runtime/src/scheduler.ts. `AgentScheduler`
--   has the log and the triggers in memory; `fire` (Scheduler.Fire) runs a turn through the parameter
--   `TurnPort` and records it by `settle`. Scheduler.Ticking is `tick` and `notify`.
-- * Thread (Thread.antt and its children): packages/thread/src. Protocol and Schema are protocol.ts;
--   Build has the constructors and event builders of index.ts, Store the append and the paged read
--   over the Chronicle, Summary the list of conversations.
-- * Grants (Grants.antt and its children): packages/execution/src/grant-events.ts and
--   packages/runtime/src/grant-store.ts, a set of capabilities in memory and its facts in the log.
-- * Context (Context.antt and its children): packages/context/src/context-budget.ts and
--   context-manifest.ts (Budget, Manifest), packages/runtime/src/context-policy.ts (Policy), and
--   `canonicalJson` of packages/kernel/src/structure.ts (Json).
-- * Agent (Agent.antt and its children): packages/runtime/src/agent-loop.ts. History is the message
--   history of a turn, Rebuild its recovery by `#rebuild`, Approval `#findPendingApproval`. Live is
--   what the loop appends and pushes when a call or a generation settles, Recorded its log and its
--   history, action by action.
-- * Sse (Sse.antt and its children): packages/client/src/sse.ts, the parser of event streams.
-- * The events (Events.antt): packages/kanban/src/events.ts, and the events of
--   packages/runtime/src/scheduler-events.ts; an event type with its payload is one constructor of
--   `Body`.
-- * The rest: Prelude has lists, results and JavaScript's `Map` in insertion order; Errors the error
--   classes; Tests the concrete instances.
--
-- How the code is written down. A method that may throw returns a `Result`. Where the source throws
-- before it changes anything, the error carries no state; where it may throw later (`reclaimExpired`,
-- `tick`, `notify`, `#fire`), the state is returned beside the result. What `crypto.randomUUID()` and
-- the clock give is the argument `Call`; that an event id is fresh is the hypothesis `Fresh`. Instants
-- are numbers of milliseconds: the code compares ISO texts, which order as the instants do when they
-- have one precision, as `toISOString` writes them. The uuid test of zod, the
-- hash of node's `crypto`, and `localeCompare` on the ids of triggers are parameters; a registry has
-- the schemas that were registered. A
-- text that the code measures, cuts or hashes is the list of its UTF-16 code units. The search over
-- ten statuses runs on fuel 11, which the theorem on `shortest_transition_path` shows to be enough;
-- the loop over the frames in a buffer on the length of the buffer, which the theorem on
-- `parse_sse_stream` shows to be enough; the retry loop of the scheduler's `#append` has the three
-- attempts of the source.
--
-- Not modelled. The scope ids that no modelled code reads; interleavings of two calls at an `await`
-- (each operation is one step, except that Scheduler.Races splits `#fire` at its turn and
-- Kanban.Store.Race splits `create` at its append, and the append of a grant has the writes of others
-- before it); the timer and the promise queue of the scheduler; generation and the dispatch of tools
-- in the agent loop, and the guards of `resumeTurn` and `recoverTurn`; the streaming `TextDecoder`;
-- I/O, HTTP, the web and command line programs, the model providers, the plugin kernel, memory and
-- learning.
pub mod Prelude
pub mod Errors
pub mod Chronicle
pub mod Kanban
pub mod Scheduler
pub mod Context
pub mod Events
pub mod Thread
pub mod Grants
pub mod Agent
pub mod Sse
pub mod Tests
