-- ===== src/Tests/Reactive.antt =====
-- An orchestrator that calls an activity and then awaits an event, which comes before the reply.
use durabletask_rs.Prelude.{◌<◌, ◌≡◌, refl, String, Option, none, some, List, [], ◌∷◌, arith}
use durabletask_rs.Prelude.Int.{pos, i32_max}
use durabletask_rs.Prelude.Outcome.{returns}
use durabletask_rs.Prelude.Result.{ok}
use durabletask_rs.Proto.{HistoryEvent}
use durabletask_rs.Internal.Events.{new_execution_started_event, new_event_raised_event}
use durabletask_rs.Types.Function.{OrchestratorFunction, value}
use durabletask_rs.Registry.{Registry, get_orchestrator}
use durabletask_rs.Executor.Poll.{completion_action}
use durabletask_rs.Executor.Execute.{execute}
use durabletask_rs.Sequential.{activity, asked_event, replied_event}
use durabletask_rs.Sequential.Reactive.{
  Program, done, call, event, code_of, Stimulus, raise, confirm, answer, settle,
}
use durabletask_rs.Sequential.Reactive.Run.{opening, Fits, follow, execute-run}
use durabletask_rs.Tests.Host.{host}
use durabletask_rs.Tests.Executor.{now}

abbrev approved : Program
approved = call (activity "test" none) (λ r. event "approval" (λ x. done (ok (value x))))

abbrev awaits_approval : OrchestratorFunction
awaits_approval octx = code_of approved

abbrev registry : Registry Unit
registry = record { orchestrators = ("approved", awaits_approval) ∷ []; activities = [] }

found : get_orchestrator registry "approved" ≡ some awaits_approval
unfolding get_orchestrator
found = refl

abbrev early : List (String × Option String)
early = ("approval", some "yes") ∷ []

abbrev stimuli : List Stimulus
stimuli =
    raise "other" (some "no")
    ∷ raise "approval" (some "no")
    ∷ confirm
    ∷ answer "a"
    ∷ raise "approval" (some "late")
    ∷ []

few : 5 < i32_max
unfolding i32_max
few = omega arith

fits :
    follow
      (Unit {0})
      (Fits host stimuli)
      (opening host registry "id" none now "uuid" "approved" awaits_approval found approved early)
unfolding settle
fits = (tt, (tt, (tt, (tt, (tt, tt)))))

abbrev told_events : List HistoryEvent
told_events =
    new_event_raised_event now "approval" (some "yes")
    ∷ new_execution_started_event now "uuid" "approved" "id" none none none none
    ∷ new_event_raised_event now "other" (some "no")
    ∷ new_event_raised_event now "approval" (some "no")
    ∷ asked_event host.clock now (activity "test" none) (pos 1)
    ∷ replied_event host.clock now (activity "test" none) (pos 1) "a"
    ∷ new_event_raised_event now "approval" (some "late")
    ∷ []

execute-run_example :
    execute host registry "id" [] told_events
    ≡ returns (ok (completion_action (pos 2) (ok (value "yes")) ∷ []))
unfolding settle
execute-run_example =
    execute-run host registry "id" none now "uuid" "approved" awaits_approval found approved early
      stimuli [] told_events refl tt fits few refl
