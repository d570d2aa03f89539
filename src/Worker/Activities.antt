-- ===== src/Worker/Activities.antt =====
-- What a worker answers to requests to run activities, those that fail among them.
use durabletask_rs.Prelude.{ℕ, ◌≡◌, refl, String, Option, none, some, string_eq}
use durabletask_rs.Prelude.Int.{pos}
use durabletask_rs.Prelude.Outcome.{Outcome, returns, panics, ◌>>=◌}
use durabletask_rs.Prelude.Result.{Result, ok, err}
use durabletask_rs.Proto.{OrchestrationInstance, ActivityRequest, activity_request}
use durabletask_rs.Environment.{Environment}
use durabletask_rs.Types.Context.{Host}
use durabletask_rs.Types.Activity.{ActivityFunction}
use durabletask_rs.Registry.{Registry, get_activity}
use durabletask_rs.Executor.Activity.{execute_by_name, call_found, some_output}
use durabletask_rs.Worker.{
  Reply, complete_activity_task, execute_activity, activity_reply, activity_response, execute_in,
  handle_item, spawned,
}
use durabletask_rs.Worker.Laws.{answer}

-- What an activity's run is answered by: its text, an empty response where no activity of the name is
-- registered, and nothing where it failed or panicked.
abbrev pub reply_for :
    ActivityRequest → String → Option (Outcome (Result String String)) → Option Reply
reply_for request instance_id none = some (
    complete_activity_task (record {
      instance_id = instance_id;
      task_id = request.task_id;
      result = none;
      failure_details = none;
    }))
reply_for request instance_id (some (returns (ok text))) = some (
    complete_activity_task (record {
      instance_id = instance_id;
      task_id = request.task_id;
      result = some text;
      failure_details = none;
    }))
reply_for request instance_id (some (returns (err e))) = none
reply_for request instance_id (some (panics p)) = none

module _ (Value : ℕ → Type 0) {Chan : Type 0} (host : Host Chan)
    (registry : Registry (ActivityFunction Value)) (environment : Environment Value) where
  -- The run of the activity that is registered under a request's name, on the request's input, with
  -- the instance, the request's task id and the worker's environment as its context.
  abbrev pub activity_run :
      ActivityRequest
      → String
      → Option (ActivityFunction Value)
      → Option (Outcome (Result String String))
  activity_run request instance_id none = none
  activity_run request instance_id (some activity_fn) = some (
      activity_fn
        (record {
          orchestration_id = instance_id;
          task_id = request.task_id;
          environment = environment;
        })
        request.input)

  -- The answer to a request, by the instance that it names.
  abbrev pub answer_for : ActivityRequest → Option OrchestrationInstance → Option Reply
  answer_for request none = some (
      complete_activity_task
        (record { instance_id = ""; task_id = pos 0; result = none; failure_details = none }))
  answer_for request (some inst) =
      reply_for request inst.instance_id
        (activity_run request inst.instance_id (get_activity registry request.name))

  -- A request to run an activity for an instance is answered by the activity's output, under the
  -- instance's id and the request's task id; without a result, but not as failed, if no activity of
  -- that name is registered; and not at all if the activity fails or panics. A request that names no
  -- instance is answered without a result, with an empty id and the number 0, and runs no activity.
  pub answer-activity_request :
      (request : ActivityRequest)
      → answer Value host registry environment (activity_request request)
        ≡ answer_for request request.orchestration_instance
  unfolding handle_item execute_activity execute_by_name
  answer-activity_request request = by_instance request.orchestration_instance
    where
      ran :
          (inst : OrchestrationInstance) (o : Outcome (Result String String))
          → spawned Value host registry environment (
              o
              >>= (λ output. returns (some_output Value output))
              >>= (λ output. returns (
                  activity_response Value host registry environment request inst.instance_id
                    output))
              >>= λ response. returns (activity_reply Value host registry environment response))
            ≡ reply_for request inst.instance_id (some o)
      ran inst (returns (ok text)) = refl
      ran inst (returns (err e)) = refl
      ran inst (panics p) = refl

      by_name :
          (inst : OrchestrationInstance) (activity : Option (ActivityFunction Value))
          → spawned Value host registry environment (
              call_found Value
                (record {
                  orchestration_id = inst.instance_id;
                  task_id = request.task_id;
                  environment = environment;
                })
                request.input
                activity
              >>= (λ output. returns (
                  activity_response Value host registry environment request inst.instance_id
                    output))
              >>= λ response. returns (activity_reply Value host registry environment response))
            ≡ reply_for request inst.instance_id (activity_run request inst.instance_id activity)
      by_name inst none = refl
      by_name inst (some activity_fn) = ran inst (
          activity_fn
            (record {
              orchestration_id = inst.instance_id;
              task_id = request.task_id;
              environment = environment;
            })
            request.input)

      by_instance :
          (inst : Option OrchestrationInstance)
          → spawned Value host registry environment (
              execute_in Value host registry environment request inst >>= λ response.
              returns (activity_reply Value host registry environment response))
            ≡ answer_for request inst
      by_instance none = refl
      by_instance (some inst) = by_name inst (get_activity registry request.name)
