-- ===== src/Executor/Context.antt =====
-- `OrchestrationExecutorContext` of executor.rs, and how it takes what an orchestrator sent.
use durabletask_rs.Prelude.{
  ℕ, String, Bool, false, Option, none, some, List, [], ◌∷◌, ◌++◌, if◌then◌else◌, string_eq, get_or,
  set,
}
use durabletask_rs.Prelude.Int.{ℤ, pos, int_eq, i32_succ, is_pos}
use durabletask_rs.Prelude.HashMap.{HashMap, lookup, insert, remove, values}
use durabletask_rs.Proto.{Timestamp, OrchestrationStatus, OrchestratorAction}
use durabletask_rs.Types.Context.{Host, OrchestratorContext, Events}
use durabletask_rs.Types.Async.{Async}
use durabletask_rs.Types.Function.{OrchestratorResult}

-- The future of an orchestrator, with the three channels that it sends on: the executor stores their
-- receivers at the moment it stores the future. `code` is `none` once the future has returned.
pub record Orchestrator : Type 0 where
  pub code : Option (Async (OrchestratorResult String))
  pub octx : OrchestratorContext

-- `orchestrator_fn` stands for the fields `orchestrator_fn`, `action_rx`, `task_rx` and `events_rx`.
-- `channels` holds the oneshot channels that `pending_tasks` and `pending_events` have senders of.
-- `completion_status` is `none` for the default.
pub record OrchestrationExecutorContext (Chan : Type 0) : Type 0 where
  pub is_replaying : Bool
  pub is_complete : Bool
  pub sequence_number : ℤ
  pub current_time_utc : Timestamp
  pub pending_actions : HashMap ℤ OrchestratorAction
  pub pending_tasks : HashMap ℤ ℕ
  pub received_events : Events
  pub pending_events : HashMap String (List ℕ)
  pub orchestrator_fn : Option Orchestrator
  pub completion_status : Option OrchestrationStatus
  pub channels : List Chan

module _ {Chan : Type 0} where
  -- `OrchestrationExecutorContext::new`
  unfoldable pub new_executor_context : OrchestrationExecutorContext Chan
  new_executor_context = record {
    is_replaying = false;
    is_complete = false;
    sequence_number = pos 0;
    current_time_utc = record { seconds = pos 0; nanos = pos 0 };
    pending_actions = [];
    pending_tasks = [];
    received_events = [];
    pending_events = [];
    orchestrator_fn = none;
    completion_status = none;
    channels = [];
  }

  unfoldable pub next_sequence_number :
      OrchestrationExecutorContext Chan → ℤ × OrchestrationExecutorContext Chan
  unfolding i32_succ
  next_sequence_number ctx =
      let n = i32_succ ctx.sequence_number in (n, record ctx { sequence_number = n })

  -- In the order of the model's list: a `HashMap` iterates in an order of its own, so that several
  -- actions are to be read up to order.
  unfoldable pub get_actions : OrchestrationExecutorContext Chan → List OrchestratorAction
  unfolding values
  get_actions ctx = values ctx.pending_actions

  unfoldable pub set_complete :
      OrchestrationStatus → OrchestrationExecutorContext Chan → OrchestrationExecutorContext Chan
  set_complete status ctx =
      if ctx.is_complete then ctx else record ctx { completion_status = some status }

  unfoldable pub insert_action :
      ℤ → OrchestratorAction → OrchestrationExecutorContext Chan → OrchestrationExecutorContext Chan
  unfolding insert
  insert_action id action ctx = record ctx {
    pending_actions = insert id action ctx.pending_actions;
  }

  -- `ctx.pending_actions.remove(&task_id)`, at an event that acknowledges an action.
  unfoldable pub acknowledge :
      ℤ → OrchestrationExecutorContext Chan → OrchestrationExecutorContext Chan
  unfolding remove
  acknowledge id ctx = record ctx { pending_actions = remove id ctx.pending_actions }

  -- The loop over `action_rx` in `process_events`.
  unfoldable pub drain_actions :
      List (ℤ × OrchestratorAction)
      → OrchestrationExecutorContext Chan
      → OrchestrationExecutorContext Chan
  unfolding insert_action
  drain_actions [] ctx = ctx
  drain_actions ((n, action) ∷ rest) ctx =
      let ctx' = insert_action n action ctx in
      drain_actions rest
        (record ctx' { sequence_number = if is_pos n then n else ctx.sequence_number })

-- An orchestrator whose three channels were emptied.
abbrev pub take_sent : Orchestrator → Orchestrator
take_sent o = record o { octx = record o.octx { actions_tx = []; tasks_tx = []; events_tx = [] } }

-- The queue at a name, made empty where there is none.
abbrev pub or_empty : {A : Type 0} → Option (List A) → List A
or_empty none = []
or_empty (some xs) = xs

-- `push_back` on the queue at a name.
unfoldable pub push_back :
    {A : Type 0} → String → A → HashMap String (List A) → HashMap String (List A)
unfolding insert lookup
push_back name a queues = insert name (or_empty (lookup name queues) ++ a ∷ []) queues

module _ {Chan : Type 0} where
  -- The loop over `events_rx`.
  unfoldable pub drain_events :
      List (String × ℕ) → OrchestrationExecutorContext Chan → OrchestrationExecutorContext Chan
  unfolding push_back
  drain_events [] ctx = ctx
  drain_events ((name, task) ∷ rest) ctx =
      drain_events rest (record ctx { pending_events = push_back name task ctx.pending_events })

module _ {Chan : Type 0} (host : Host Chan) where
  abbrev pub drop_sender : Option ℕ → List Chan → List Chan
  drop_sender none channels = channels
  drop_sender (some i) channels =
      set channels i (host.oneshot.drop_sender (get_or channels i host.oneshot.channel))

  -- The loop over `task_rx`: a sender that is replaced is dropped.
  unfoldable pub drain_tasks :
      List (ℤ × ℕ) → OrchestrationExecutorContext Chan → OrchestrationExecutorContext Chan
  unfolding insert lookup
  drain_tasks [] ctx = ctx
  drain_tasks ((n, task) ∷ rest) ctx = drain_tasks rest (record ctx {
    pending_tasks = insert n task ctx.pending_tasks;
    channels = drop_sender (lookup n ctx.pending_tasks) ctx.channels;
  })

  abbrev pub drain_from :
      Option Orchestrator → OrchestrationExecutorContext Chan → OrchestrationExecutorContext Chan
  drain_from none ctx = ctx
  drain_from (some o) ctx =
      let ctx₁ = drain_actions o.octx.actions_tx ctx in
      let ctx₂ = drain_tasks o.octx.tasks_tx ctx₁ in
      let ctx₃ = drain_events o.octx.events_tx ctx₂ in
      record ctx₃ { orchestrator_fn = some (take_sent o) }

  -- The three loops that follow each event.
  unfoldable pub drain : OrchestrationExecutorContext Chan → OrchestrationExecutorContext Chan
  unfolding drain_actions drain_tasks drain_events
  drain ctx = drain_from ctx.orchestrator_fn ctx
