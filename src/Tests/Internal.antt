-- ===== src/Tests/Internal.antt =====
-- The theorems on the texts of internal.rs, at concrete lists and at the names of the proto file.
use Prim.Native.String.{◌++◌}
use durabletask_rs.Prelude.{
  ◌≡◌, refl, ap, ◌∙◌, ◌↔◌, String, Option, none, some, List, [], ◌∷◌, arith, ◌==◌, string_eq,
  if◌then◌else◌,
}
use durabletask_rs.Prelude.Outcome.{returns}
use durabletask_rs.Proto.{
  OrchestrationStatus, running, completed, continued_as_new, failed, canceled, terminated, pending,
  suspended,
}
use durabletask_rs.Internal.Status.{
  StatusNames, status_prefix, to_runtime_status_string, from_runtime_status_string,
  from_runtime_status_string_iff,
}
use durabletask_rs.Internal.Summary.{history_list_summary}
use durabletask_rs.Internal.Summary.Laws.{item_texts, joined, listed, history_list_summary_lem}
use durabletask_rs.Tests.Executor.{now}
use durabletask_rs.Internal.Events.{
  new_execution_started_event, new_task_scheduled_event, new_task_completed_event,
}
use durabletask_rs.Proto.{HistoryEvent, ParentInstanceInfo}
use durabletask_rs.Prelude.Int.{pos}
use durabletask_rs.Prelude.Decimal.{to_string}
use durabletask_rs.Internal.Names.{get_history_event_type_name}

abbrev short_name : OrchestrationStatus → String
short_name running = "RUNNING"
short_name completed = "COMPLETED"
short_name continued_as_new = "CONTINUED_AS_NEW"
short_name failed = "FAILED"
short_name canceled = "CANCELED"
short_name terminated = "TERMINATED"
short_name pending = "PENDING"
short_name suspended = "SUSPENDED"

abbrev as_str_name : OrchestrationStatus → String
as_str_name s = status_prefix ++ short_name s

abbrev find : String → List OrchestrationStatus → Option OrchestrationStatus
find name [] = none
find name (s ∷ rest) = if as_str_name s == name then some s else find name rest

abbrev statuses : List OrchestrationStatus
statuses =
    running ∷ completed ∷ continued_as_new ∷ failed ∷ canceled ∷ terminated ∷ pending ∷ suspended
    ∷ []

found_lem :
    (name : String) (s : OrchestrationStatus) (xs : List OrchestrationStatus)
    → find name xs ≡ some s
    → name ≡ as_str_name s
found_lem name s [] h = cc
found_lem name s (x ∷ xs) h =
    ground (arith, string_eq.eq_iff (as_str_name x) name, found_lem name s xs)

finds : (s : OrchestrationStatus) → find (as_str_name s) statuses ≡ some s
finds running = refl
finds completed = refl
finds continued_as_new = refl
finds failed = refl
finds canceled = refl
finds terminated = refl
finds pending = refl
finds suspended = refl

abbrev names : StatusNames
names = record {
  as_str_name = as_str_name;
  from_str_name = λ name. find name statuses;
  short_name = short_name;
  as_str_name-prefix = λ s. refl;
  from_str_name_iff =
      λ name s. (found_lem name s statuses, λ e. ap (λ (n : String). find n statuses) e ∙ finds s);
}

from_runtime_status_string_example :
    (from_runtime_status_string names "FAILED" ≡ returns failed)
    ↔ (to_runtime_status_string names failed ≡ returns "FAILED")
from_runtime_status_string_example = from_runtime_status_string_iff names "FAILED" failed

-- An event as the sidecar sends those that it does not number.
abbrev unnumbered : HistoryEvent → HistoryEvent
unnumbered e = record e { event_id = pos 0 }

abbrev parent : ParentInstanceInfo
parent = record { task_scheduled_id = pos 7; name = none; orchestration_instance = none }

-- A start that replies to the request 7 of a parent, an acknowledgement and a reply.
abbrev numbered_history : List HistoryEvent
numbered_history =
    unnumbered (new_execution_started_event now "uuid" "test" "test" none (some parent) none none)
    ∷ new_task_scheduled_event now (pos 1) "test" none none none
    ∷ unnumbered (new_task_completed_event now (pos 1) (some "hello"))
    ∷ []

history_list_summary_example :
    history_list_summary numbered_history
    ≡ returns "[ExecutionStarted#7, TaskScheduled#1, TaskCompleted#1]"
unfolding item_texts joined listed new_execution_started_event new_task_scheduled_event
    new_task_completed_event get_history_event_type_name to_string
history_list_summary_example = history_list_summary_lem numbered_history
