-- ===== src/Sequential.antt =====
-- Orchestrators that await what they ask for before they go on, as those of examples/src do. A
-- script is such an orchestrator; its meaning is given with no executor, history or channel.
pub mod Poll
pub mod Round
pub mod Replay
pub mod Edge
pub mod Lost
pub mod Signal
pub mod Join
pub mod FanOut
pub mod Waiting
pub mod Terminated
pub mod Stale
pub mod Reactive
use durabletask_rs.Prelude.{ℕ, suc, ◌+◌, String, Option, none, some, List, [], ◌∷◌, ◌++◌}
use durabletask_rs.Prelude.Int.{ℤ, pos}
use durabletask_rs.Prelude.Outcome.{Outcome, Panic, returns, panics}
use durabletask_rs.Proto.{
  Timestamp, HistoryEvent, OrchestratorAction, sub_orchestration_instance_completed,
}
use durabletask_rs.Internal.Events.{
  no_id, new_task_scheduled_event, new_task_completed_event, new_timer_created_event,
  new_timer_fired_event, new_sub_orchestration_created_event,
}
use durabletask_rs.Internal.Actions.{
  new_schedule_task_action, new_create_timer_action, new_create_sub_orchestration_action,
}
use durabletask_rs.Task.{CompletableTask}
use durabletask_rs.Types.Async.{
  AsyncWith, Async, output, abort, ask_timer, ask_activity, ask_sub_orchestrator, await_task,
}
use durabletask_rs.Types.Function.{OrchestratorResult}
use durabletask_rs.Executor.Poll.{completion_action}

pub data Request : Type 0 where
  activity : String → Option String → Request
  sub_orchestrator : String → String → Option String → Request
  timer : ℕ → Request

pub data Script : Type 0 where
  finish : OrchestratorResult String → Script
  ask : Request → (String → Script) → Script
  -- a panic of the code, as `call_activity` has where a result cannot be read
  fault : Panic → Script

-- The code of a script: each request is started and its task awaited.
abbrev pub start_request :
    {J A : Type 0} → Request → (CompletableTask → AsyncWith J A) → AsyncWith J A
start_request (activity name input) k = ask_activity name input k
start_request (sub_orchestrator name instance_id input) k =
    ask_sub_orchestrator name instance_id input k
start_request (timer millis) k = ask_timer millis k

abbrev pub code_of : Script → Async (OrchestratorResult String)
code_of (finish result) = output result
code_of (fault p) = abort p
code_of (ask q k) = start_request q (λ task. await_task task (λ r. code_of (k r)))

-- What the code receives for a reply: a timer has no value of its own.
abbrev pub reply : Request → String → String
reply (timer millis) r = ""
reply _ r = r

-- The clock of the timers: `clock id millis`, as in `Host`.
module _ (clock : ℤ → ℕ → Timestamp) where
  -- The action that a request is sent as, under a number.
  abbrev pub request_action : Request → ℤ → OrchestratorAction
  request_action (activity name input) id = new_schedule_task_action id name input
  request_action (sub_orchestrator name instance_id input) id =
      new_create_sub_orchestration_action id name instance_id input
  request_action (timer millis) id = new_create_timer_action id (clock id millis)

  -- The one action that is due at a script's `n`-th step: its request, or its completion.
  abbrev pub due : ℕ → Script → Outcome OrchestratorAction
  due n (finish result) = returns (completion_action (pos n) result)
  due n (ask q k) = returns (request_action q (pos n))
  due n (fault p) = panics p

  -- What is due once the first requests, the `n`-th and those that follow, had these replies.
  abbrev pub due_after : ℕ → Script → List String → Outcome OrchestratorAction
  due_after n (finish result) replies = due n (finish result)
  due_after n (fault p) replies = due n (fault p)
  due_after n (ask q k) [] = due n (ask q k)
  due_after n (ask q k) (r ∷ replies) = due_after (suc n) (k (reply q r)) replies

  -- The events by which the sidecar tells of a request and of the reply to it, at the time `now`.
  module _ (now : Timestamp) where
    unfoldable pub asked_event : Request → ℤ → HistoryEvent
    unfolding new_task_scheduled_event new_sub_orchestration_created_event new_timer_created_event
    asked_event (activity name input) id = new_task_scheduled_event now id name none input none
    asked_event (sub_orchestrator name instance_id input) id =
        new_sub_orchestration_created_event now id name none input instance_id none
    asked_event (timer millis) id = new_timer_created_event now id (clock id millis)

    unfoldable pub replied_event : Request → ℤ → String → HistoryEvent
    unfolding new_task_completed_event new_timer_fired_event
    replied_event (activity name input) id r = new_task_completed_event now id (some r)
    replied_event (sub_orchestrator name instance_id input) id r = record {
      event_id = no_id;
      timestamp = some now;
      event_type = some (
          sub_orchestration_instance_completed
            (record { task_scheduled_id = id; result = some r }));
    }
    replied_event (timer millis) id r = new_timer_fired_event now id (clock id millis)

    -- The history of a script's run, from its `n`-th request on.
    unfoldable pub history_of : ℕ → Script → List String → List HistoryEvent
    unfolding asked_event replied_event
    history_of n (finish result) replies = []
    history_of n (fault p) replies = []
    history_of n (ask q k) [] = []
    history_of n (ask q k) (r ∷ replies) =
        asked_event q (pos n)
        ∷ replied_event q (pos n) r
        ∷ history_of (suc n) (k (reply q r)) replies
