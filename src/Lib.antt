-- ===== src/Lib.antt =====
-- A verification library of durabletask-rs, an SDK in which durable orchestrations are written as
-- async Rust. A sidecar keeps the history of each orchestration. For every turn it sends the
-- history to a worker, which runs the orchestrator's code from its start against that history (a
-- replay) and answers with the actions that the code asks for next.
--
-- The parts and where they are modelled:
-- - Prelude: the library's names, Boolean tests, lists by native index, Rust's i32 (Prelude/Int),
--   code that may panic (Prelude/Outcome), maps (Prelude/HashMap), Rust's Result (Prelude/Result),
--   decimal numbers (Prelude/Decimal), texts split at a character and read as hexadecimal digits
--   (Prelude/Text).
-- - Proto: the protobuf types that crates/proto generates, with the fields that the code uses.
-- - Internal: crates/sdk/src/internal.rs; the constructors of events (Internal/Events) and of
--   actions (Internal/Actions), names and task ids (Internal/Names), the summaries of lists
--   (Internal/Summary), the texts of runtime statuses (Internal/Status), trace contexts as texts
--   (Internal/Trace), the spans that are started (Internal/Trace/Spans), default names
--   (Internal/Defaults).
-- - Oneshot: tokio's oneshot channels, a parameter with the documented laws that the code relies
--   on.
-- - Task: crates/sdk/src/task.rs, the future CompletableTask.
-- - Types: crates/sdk/src/types.rs; async code as a tree (Types/Code), OrchestratorContext and its
--   calls (Types/Context), the poll of async code (Types/Async), the typed interface of user
--   functions (Types/Function).
-- - Registry: crates/sdk/src/registry.rs.
-- - Executor: crates/sdk/src/executor.rs; its context and the drains (Executor/Context), the poll
--   of the orchestrator's future (Executor/Poll), process_event (Executor/Event), process_events
--   and OrchestrationExecutor::execute (Executor/Execute), with proofs in
--   Executor/Marked and Executor/Replay, Executor/Invariant, Executor/Signals, Executor/Ignored,
--   Executor/Clock, Executor/Quiet and Executor/Unregistered.
-- - Environment: crates/sdk/src/environment.rs, values by their types.
-- - Worker: crates/sdk/src/worker.rs, the answers to work items (Worker/Laws and
--   Worker/Activities have the proofs). An
--   activity's context and the wrapping of activity functions are in Types/Activity,
--   ActivityExecutor in Executor/Activity.
-- - Api: crates/sdk/src/api.rs, the builders of requests (Api/Requests) and the metadata
--   (Api/Metadata).
-- - Filter: crates/sdk/src/filter.rs, the log filter's state on spans.
-- - Client: crates/client/src/lib.rs; Client/Events follows an event from a client to an
--   orchestrator.
-- - Sequential: orchestrators that await each request before the next, with their meaning given
--   apart from the executor (Script), and the proofs that relate the two (Sequential/Replay);
--   orchestrators that start all of their requests before they await them (Sequential/FanOut), as a
--   caller can with timers, whose create_timer is no async function, or that wait for two by join! (Sequential/Join), that await an event first (Sequential/Signal) or
--   that are terminated (Sequential/Terminated, from what Sequential/Waiting shows of an
--   orchestrator that waits), events that come again (Sequential/Stale),
--   requests and events in a row with replies and events in any order (Sequential/Reactive), and
--   histories at which the two part (Sequential/Edge, Sequential/Lost).
-- - Examples: orchestrators of examples/src (activity_sequence.rs in Examples/Sequence,
--   external_events.rs and terminate_test.rs in Examples/Signals, sub_orchestrator.rs in
--   Examples/SubOrchestrator, and its sub-orchestrator in Examples/SubSequence, parallel.rs in
--   Examples/Parallel).
-- - Tests: concrete channels, orchestrators and histories.
--
-- How the parts interact: the executor starts a registered orchestrator's code with a new
-- OrchestratorContext. The code's calls send numbered actions and the senders of oneshot channels
-- to the executor, and the code waits at a CompletableTask. An event of the history acknowledges
-- an action, or sends a result to a task and polls the code, which goes on.
--
-- State is passed explicitly. A function that may panic returns an Outcome: a value or the panic,
-- which unwinds the task that runs the code. Async code is a tree of the calls that it makes
-- (Async), and its poll runs it to the first task that is not ready; what a real orchestrator does
-- between two calls is a function of the answers that it got. The oneshot channels lie in one
-- list, and a sender or a receiver is an index in it; the mpsc channels are lists, oldest first. A
-- HashMap is a list of entries with one entry per key. Numbers of actions are i32 with its wrap-
-- around at 2 ^ 31 - 1. The loops are over lists, with no fuel; a number is written in at most ten
-- digits, which an i32 needs at most (Prelude/Decimal).
--
-- The law that a poll receives what was sent describes a poll by a tokio task that has cooperative
-- budget left; tokio gives a task 128 for a poll, and the executor replays a history in one poll. The
-- theorems on replies are therefore about histories with fewer awaits than that in a turn, or about
-- code that runs outside a tokio task. The histories of Sequential leave out the events that start a
-- turn and those that process_event has no arm for (Executor/Clock and Executor/Ignored are about
-- those), and one that stops between an acknowledgement and its reply is in Sequential/Reactive. The
-- actions of an answer stand in the order of the model's
-- list; the program iterates a HashMap, so an answer of several actions is to be read up to order.
--
-- Parameters: the oneshot channels, join! of futures_util (JoinApi in Types/Context), Unicode's
-- lower case and the clock (Host in Types/Context), serde (Json in Types/Function), the names that
-- prost generates for a status (StatusNames), the types that an environment holds (Value), the
-- ids, trace states and tracer of OpenTelemetry (TraceApi in Internal/Trace, Tracer in
-- Internal/Trace/Spans), and the sidecar's service (Sidecar in Client).
--
-- Not modelled: the gRPC streams, the logging, the spans of tracing, what a tracer does with a span, the
-- functions of internal.rs that would change a span's context (they assign to temporaries); the
-- protobuf types are generated from a submodule that the repository does not hold.
pub mod Prelude
pub mod Proto
pub mod Internal
pub mod Oneshot
pub mod Task
pub mod Types
pub mod Registry
pub mod Environment
pub mod Executor
pub mod Worker
pub mod Api
pub mod Filter
pub mod Client
pub mod Sequential
pub mod Examples
mod Tests
