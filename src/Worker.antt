-- ===== src/Worker.antt =====
-- crates/sdk/src/worker.rs: what a worker keeps, and how it answers a work item. Each item of the
-- stream is handled by a task of its own, which sends at most one reply; a panic ends that task.
pub mod Laws
pub mod Activities
use durabletask_rs.Prelude.{ℕ, String, Option, none, some, List, [], map}
use durabletask_rs.Prelude.Int.{pos}
use durabletask_rs.Prelude.Outcome.{Outcome, returns, panics, ◌>>=◌}
use durabletask_rs.Prelude.Result.{Result, ok, err, ok_or}
use durabletask_rs.Proto.{
  OrchestratorAction, OrchestrationInstance, OrchestratorRequest, OrchestratorResponse,
  ActivityRequest, ActivityResponse, Request, orchestrator_request, activity_request,
  entity_request, health_ping, WorkItem,
}
use durabletask_rs.Environment.{Environment, insert_value}
use durabletask_rs.Types.Context.{Host}
use durabletask_rs.Types.Function.{OrchestratorFunction}
use durabletask_rs.Types.Activity.{ActivityFunction}
use durabletask_rs.Registry as R
use durabletask_rs.Registry.{Registry}
use durabletask_rs.Executor.Execute.{execute}
use durabletask_rs.Executor.Activity.{execute_by_name}

-- The call that a task makes when its request was carried out.
pub data Reply : Type 0 where
  complete_orchestrator_task : OrchestratorResponse → Reply
  complete_activity_task : ActivityResponse → Reply

-- `ActivityResponse::default()`
abbrev pub default_response : ActivityResponse
default_response = record {
  instance_id = "";
  task_id = pos 0;
  result = none;
  failure_details = none;
}

module _ (Value : ℕ → Type 0) where
  pub record Worker : Type 0 where
    pub host : String
    pub registry : Registry (ActivityFunction Value)
    pub environment : Option (Environment Value)

  -- `Worker::new`
  unfoldable pub new_worker : String → Worker
  new_worker host = record {
    host = host;
    registry = record { orchestrators = []; activities = [] };
    environment = some (record { entries = [] });
  }

  unfoldable pub add_orchestrator : String → OrchestratorFunction → Worker → Worker
  unfolding R.add_orchestrator
  add_orchestrator name func w = record w { registry = R.add_orchestrator w.registry name func }

  unfoldable pub add_activity : String → ActivityFunction Value → Worker → Worker
  unfolding R.add_activity
  add_activity name func w = record w { registry = R.add_activity w.registry name func }

  abbrev with_value : (t : ℕ) → Value t → Option (Environment Value) → Option (Environment Value)
  with_value t val none = none
  with_value t val (some env) = some (insert_value Value t val env).1

  unfoldable pub add_environment : (t : ℕ) → Value t → Worker → Worker
  unfolding insert_value
  add_environment t val w = record w { environment = with_value t val w.environment }

  module _ {Chan : Type 0} (host : Host Chan) (registry : Registry (ActivityFunction Value)) where
    abbrev orchestrator_response :
        String → Result String (List OrchestratorAction) → Result String OrchestratorResponse
    orchestrator_response instance_id (ok actions) =
        ok (record { instance_id = instance_id; actions = actions; custom_status = none })
    orchestrator_response instance_id (err e) = err e

    unfoldable pub execute_orchestrator :
        OrchestratorRequest → Outcome (Result String OrchestratorResponse)
    unfolding execute
    execute_orchestrator request = do
      actions ← execute host registry request.instance_id request.past_events request.new_events
      returns (orchestrator_response request.instance_id actions)

    module _ (environment : Environment Value) where
      abbrev pub activity_response :
          ActivityRequest → String → Result String (Option String) → Result String ActivityResponse
      activity_response request instance_id (ok output) = ok (record {
        instance_id = instance_id;
        task_id = request.task_id;
        result = output;
        failure_details = none;
      })
      activity_response request instance_id (err e) = err e

      abbrev pub execute_in :
          ActivityRequest → Option OrchestrationInstance → Outcome (Result String ActivityResponse)
      execute_in request none = returns (ok default_response)
      execute_in request (some inst) = do
        output ←
            execute_by_name Value registry environment inst.instance_id request.name request.task_id
              request.input
        returns (activity_response request inst.instance_id output)

      unfoldable pub execute_activity : ActivityRequest → Outcome (Result String ActivityResponse)
      unfolding execute_by_name
      execute_activity request = execute_in request request.orchestration_instance

      abbrev pub orchestrator_reply : Result String OrchestratorResponse → Option Reply
      orchestrator_reply (ok response) = some (complete_orchestrator_task response)
      orchestrator_reply (err e) = none

      abbrev pub activity_reply : Result String ActivityResponse → Option Reply
      activity_reply (ok response) = some (complete_activity_task response)
      activity_reply (err e) = none

      abbrev handle_request : Request → Outcome (Option Reply)
      handle_request (orchestrator_request request) = do
        response ← execute_orchestrator request
        returns (orchestrator_reply response)
      handle_request (activity_request request) = do
        response ← execute_activity request
        returns (activity_reply response)
      handle_request entity_request = returns none
      handle_request health_ping = returns none

      abbrev handle_of : Option Request → Outcome (Option Reply)
      handle_of none = returns none
      handle_of (some request) = handle_request request

      -- The body of the task that is spawned for an item of the stream.
      unfoldable pub handle_item : Result String WorkItem → Outcome (Option Reply)
      unfolding execute_orchestrator execute_activity
      handle_item (ok item) = handle_of item.request
      handle_item (err e) = returns none

      -- What a spawned task sends.
      abbrev pub spawned : Outcome (Option Reply) → Option Reply
      spawned (returns reply) = reply
      spawned (panics p) = none

      abbrev serve : List (Result String WorkItem) → List (Option Reply)
      serve items = map (λ item. spawned (handle_item item)) items

  -- `start`, on a stream of these items: the replies to them, which may be sent in any order.
  unfoldable pub start :
      {Chan : Type 0}
      → Host Chan
      → Worker
      → List (Result String WorkItem)
      → Result String (List (Option Reply))
  unfolding handle_item
  start host w items = elim w.environment [
    | none ↦ err "environment should exist"
    | some environment ↦ ok (serve host w.registry environment items)
  ]
