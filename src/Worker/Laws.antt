-- ===== src/Worker/Laws.antt =====
-- What a worker answers to requests to run orchestrators, and to activities that return.
use durabletask_rs.Prelude.{
  ℕ, ◌<◌, ◌≡◌, refl, ◌⊎◌, inl, inr, String, false, Option, none, some, List, [], ◌∷◌, ◌++◌, length,
  ◌==◌, string_eq,
}
use durabletask_rs.Prelude.Int.{ℤ, i32_max}
use durabletask_rs.Prelude.Outcome.{Outcome, Panic, returns, panics, ◌>>=◌}
use durabletask_rs.Prelude.Result.{Result, ok, err}
use durabletask_rs.Proto.{
  Timestamp, OrchestratorAction, OrchestrationInstance, OrchestratorRequest, Request,
  orchestrator_request, activity_request,
}
use durabletask_rs.Internal.Events.{new_execution_started_event}
use durabletask_rs.Environment.{Environment}
use durabletask_rs.Types.Context.{Host, new_context}
use durabletask_rs.Types.Async.{Async, output, ask_activity}
use durabletask_rs.Types.Function.{
  Json, OrchestratorFunction, call_activity, await_value, deserialized,
}
use durabletask_rs.Types.Activity.{ActivityContext, ActivityFunction, into_activity_fn}
use durabletask_rs.Registry.{Registry, get_orchestrator, get_activity}
use durabletask_rs.Executor.Execute.{execute}
use durabletask_rs.Executor.Activity.{execute_by_name}
use durabletask_rs.Executor.Invariant.{Holds}
use durabletask_rs.Executor.Invariant.Answer.{IsAnswer, execute-IsAnswer}
use durabletask_rs.Sequential.{Request as Ask, Script, ask, code_of, due_after, history_of}
use durabletask_rs.Sequential.Replay.{answer_due, execute-history_of}
use durabletask_rs.Worker.{
  Reply, complete_orchestrator_task, complete_activity_task, execute_orchestrator, execute_activity,
  orchestrator_reply, orchestrator_response, handle_item, spawned,
}

abbrev pub response_to : OrchestratorRequest → List OrchestratorAction → Reply
response_to request actions =
    complete_orchestrator_task
      (record { instance_id = request.instance_id; actions = actions; custom_status = none })

-- The reply with an action that is due.
abbrev pub reply_due : OrchestratorRequest → Outcome OrchestratorAction → Option Reply
reply_due request (returns action) = some (response_to request (action ∷ []))
reply_due request (panics p) = none

module _ (Value : ℕ → Type 0) {Chan : Type 0} (host : Host Chan)
    (registry : Registry (ActivityFunction Value)) (environment : Environment Value) where
  abbrev pub answer : Request → Option Reply
  answer request =
      spawned Value host registry environment
        (handle_item Value host registry environment (ok (record { request = some request })))

  -- A request to run an orchestrator is answered unless the run panics: with its own instance id, and
  -- with the executor's actions on the request's past and new events. A run that panics is not
  -- answered at all.
  pub answer-orchestrator_request :
      (request : OrchestratorRequest)
      → ((actions : List OrchestratorAction) × (execute host registry request.instance_id
              request.past_events request.new_events
            ≡ returns (ok actions))
          × (answer (orchestrator_request request) ≡ some (response_to request actions)))
        ⊎ ((p : Panic) × (execute host registry request.instance_id request.past_events
                request.new_events
              ≡ panics p)
            × (answer (orchestrator_request request) ≡ none))
  unfolding handle_item execute_orchestrator
  answer-orchestrator_request request =
      go (execute host registry request.instance_id request.past_events request.new_events)
        (execute-IsAnswer host registry request.instance_id request.past_events request.new_events)
        refl
    where
      go :
          (o : Outcome (Result String (List OrchestratorAction)))
          → Holds IsAnswer o
          → execute host registry request.instance_id request.past_events request.new_events ≡ o
          → ((actions : List OrchestratorAction) × (execute host registry request.instance_id
                  request.past_events request.new_events
                ≡ returns (ok actions))
              × (answer (orchestrator_request request) ≡ some (response_to request actions)))
            ⊎ ((p : Panic) × (execute host registry request.instance_id request.past_events
                    request.new_events
                  ≡ panics p)
                × (answer (orchestrator_request request) ≡ none))
      go (returns (ok actions)) h e = inl (actions, e, rw e refl)
      go (returns (err m)) h e = absurd h
      go (panics p) h e = inr (p, e, rw e refl)

  -- The executor's answer to a script's history, as the worker sends it.
  pub answer-history_of :
      (now : Timestamp) (uuid name : String) (input : Option String) (f : OrchestratorFunction)
      (q : Ask) (k : String → Script) (replies : List String) (request : OrchestratorRequest)
      → get_orchestrator registry name ≡ some f
      → f (new_context request.instance_id input) ≡ code_of (ask q k)
      → length replies < i32_max
      → request.past_events ++ request.new_events
        ≡ new_execution_started_event now uuid name request.instance_id input none none none
          ∷ history_of host.clock now 1 (ask q k) replies
      → answer (orchestrator_request request)
        ≡ reply_due request (due_after host.clock 1 (ask q k) replies)
  unfolding handle_item execute_orchestrator
  answer-history_of now uuid name input f q k replies request found code few cut =
      rw
        (execute-history_of host registry request.instance_id now uuid name input f q k replies
          request.past_events request.new_events found code few cut)
        (go (due_after host.clock 1 (ask q k) replies))
    where
      go :
          (due : Outcome OrchestratorAction)
          → spawned Value host registry environment (
              answer_due due
              >>= (λ r. returns (orchestrator_response Value host registry request.instance_id r))
              >>= λ r. returns (orchestrator_reply Value host registry environment r))
            ≡ reply_due request due
      go (returns a) = refl
      go (panics p) = refl

  module _ {A O : Type 0} (input_json : Json A) (output_json : Json O)
      (f : ActivityContext Value → A → Outcome (Result String O)) where
    -- An activity that is called and returns: the call schedules it under its name with its input as
    -- text, the worker runs it on that text and responds with its output as text, and that text is
    -- the activity's output for the orchestrator. serde reads back what it wrote of both values, and
    -- the name is not empty.
    pub activity_roundtrip :
        (name type_name : String) (inst : OrchestrationInstance) (task_id : ℤ) (a : A) (o : O)
        (text out : String)
        → get_activity registry name ≡ some (into_activity_fn Value input_json output_json f)
        → (name == "") ≡ false
        → input_json.as_json_payload a ≡ ok text
        → input_json.from_json_payload text ≡ ok a
        → f
            (record {
              orchestration_id = inst.instance_id;
              task_id = task_id;
              environment = environment;
            })
            a
          ≡ returns (ok o)
        → output_json.as_json_payload o ≡ ok out
        → output_json.from_json_payload out ≡ ok o
        → ◌≡◌ {A = Async O}
            (call_activity input_json output_json type_name (record { activity_type = name }) a)
            (ask_activity name (some text) (await_value output_json))
          × (answer (
                activity_request (record {
                  name = name;
                  input = some text;
                  orchestration_instance = some inst;
                  task_id = task_id;
                }))
              ≡ some (
                  complete_activity_task (record {
                    instance_id = inst.instance_id;
                    task_id = task_id;
                    result = some out;
                    failure_details = none;
                  })))
          × ◌≡◌ {A = Async O} (deserialized (output_json.from_json_payload out)) (output o)
    unfolding handle_item execute_activity execute_by_name into_activity_fn call_activity
    activity_roundtrip name type_name inst task_id a o text out found named wrote read ran wrote'
          read' =
        (rw (wrote, named) refl, rw (found, read, ran, wrote') refl, rw read' refl)
