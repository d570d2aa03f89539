-- ===== src/Types/Context.antt =====
-- `OrchestratorContext` of types.rs: it numbers what the orchestrator asks for and sends it to the
-- executor. The three `mpsc` channels of std are lists, oldest first; they are unbounded, and a send
-- succeeds, since the executor keeps their receivers as long as the orchestrator's future.
use durabletask_rs.Prelude.{
  ◌≡◌, ℕ, String, Option, none, some, List, [], ◌∷◌, ◌++◌, get_or, string_eq, string_eq, set,
}
use durabletask_rs.Prelude.Int.{ℤ, pos, i32_succ}
use durabletask_rs.Prelude.Outcome.{Outcome, Panic, returns, panics, unwrap_none}
use durabletask_rs.Prelude.HashMap.{HashMap, lookup, insert, remove}
use durabletask_rs.Proto.{Timestamp, OrchestratorAction}
use durabletask_rs.Internal.Actions.{
  new_schedule_task_action, new_create_timer_action, new_create_sub_orchestration_action,
}
use durabletask_rs.Oneshot.{OneshotApi}
use durabletask_rs.Types.Code.{Arm, ProgressWith, Joined, joined_of}
use durabletask_rs.Task.{CompletableTask, complete, new_task}

pub record OrchestratorContext : Type 0 where
  pub instance_id : String
  pub input : Option String
  pub sequence_number : ℤ
  pub actions_tx : List (ℤ × OrchestratorAction)
  pub tasks_tx : List (ℤ × ℕ)
  pub events_tx : List (String × ℕ)
  -- The receivers that the orchestrator's future still holds; they are dropped with it.
  pub held : List ℕ

-- `OrchestratorContext::new`
unfoldable pub new_context : String → Option String → OrchestratorContext
new_context instance_id input = record {
  instance_id = instance_id;
  input = input;
  sequence_number = pos 0;
  actions_tx = [];
  tasks_tx = [];
  events_tx = [];
  held = [];
}

abbrev pub Events : Type 0
Events = HashMap String (List (Option String))

-- What an orchestrator's code can change: its context, the events that came before it asked for
-- them, which the executor shares with it, and the oneshot channels.
pub record World (Chan : Type 0) : Type 0 where
  pub octx : OrchestratorContext
  pub open octx use *
  pub received_events : Events
  pub channels : List Chan

-- futures_util's `join!` of two futures, which is not the repository's code: a parameter of the
-- model. Its arms are polled in their order; one that is done keeps its value and is not run again;
-- the whole is done once both are; and a panic of an arm is its own.
pub record JoinApi (Chan : Type 0) : Type 0 where
  pub poll_join :
      (Arm → World Chan → Outcome (ProgressWith ⊥ String × World Chan))
      → Arm × Arm
      → World Chan
      → Outcome (Joined (Arm × Arm) × World Chan)
  pub join-returns :
      (poll : Arm → World Chan → Outcome (ProgressWith ⊥ String × World Chan)) (arm₁ arm₂ : Arm)
      (w w₁ w₂ : World Chan) (progress₁ progress₂ : ProgressWith ⊥ String)
      → poll arm₁ w ≡ returns (progress₁, w₁)
      → poll arm₂ w₁ ≡ returns (progress₂, w₂)
      → poll_join poll (arm₁, arm₂) w ≡ returns (joined_of progress₁ progress₂, w₂)
  pub join_panics_first :
      (poll : Arm → World Chan → Outcome (ProgressWith ⊥ String × World Chan)) (arm₁ arm₂ : Arm)
      (w : World Chan) (p : Panic)
      → poll arm₁ w ≡ panics p
      → poll_join poll (arm₁, arm₂) w ≡ panics p
  pub join_panics_second :
      (poll : Arm → World Chan → Outcome (ProgressWith ⊥ String × World Chan)) (arm₁ arm₂ : Arm)
      (w w₁ : World Chan) (progress₁ : ProgressWith ⊥ String) (p : Panic)
      → poll arm₁ w ≡ returns (progress₁, w₁)
      → poll arm₂ w₁ ≡ panics p
      → poll_join poll (arm₁, arm₂) w ≡ panics p

-- What the code takes from its environment: the oneshot channels, `join!`, Unicode's lower
-- case, and the clock. `clock id millis` is the time `millis` after the clock's reading at the timer numbered `id`.
pub record Host (Chan : Type 0) : Type 0 where
  pub oneshot : OneshotApi Chan
  pub join_api : JoinApi Chan
  pub to_lowercase : String → String
  pub clock : ℤ → ℕ → Timestamp

-- `received_events.pop_front()` and, where one event or none was left, `lock.remove(&name)`.
unfoldable pub take_event : String → List (Option String) → Events → Option (Option String) × Events
unfolding remove insert
take_event name [] events = (none, remove name events)
take_event name (e ∷ []) events = (some e, remove name events)
take_event name (e ∷ rest) events = (some e, insert name rest events)

module _ {Chan : Type 0} (host : Host Chan) where
  open host use {oneshot, to_lowercase, clock}

  -- The context with a new task; its receiver is the future's.
  unfoldable pub start_task : World Chan → CompletableTask × ℕ × World Chan
  unfolding new_task
  start_task w =
      let (task, unblock, channels) = new_task oneshot w.channels in
      (
        task,
        unblock,
        record w { octx = record w.octx { held = unblock ∷ w.held }; channels = channels },
      )

  -- What `create_timer`, `schedule_activity` and `schedule_sub_orchestrator` share: the next number,
  -- an action and a task are sent under it.
  unfoldable pub send_request : (ℤ → OrchestratorAction) → World Chan → CompletableTask × World Chan
  unfolding i32_succ start_task
  send_request action w =
      let id = i32_succ w.sequence_number in
      let (task, unblock, w') = start_task w in
      (
        task,
        record w' {
          octx = record w'.octx {
            sequence_number = id;
            actions_tx = w.actions_tx ++ (id, action id) ∷ [];
            tasks_tx = w.tasks_tx ++ (id, unblock) ∷ [];
          };
        },
      )

  unfoldable pub create_timer : ℕ → World Chan → CompletableTask × World Chan
  unfolding send_request new_create_timer_action
  create_timer fire_after_millis =
      send_request (λ id. new_create_timer_action id (clock id fire_after_millis))

  unfoldable pub schedule_activity :
      String → Option String → World Chan → CompletableTask × World Chan
  unfolding send_request new_schedule_task_action
  schedule_activity name input = send_request (λ id. new_schedule_task_action id name input)

  unfoldable pub schedule_sub_orchestrator :
      String → String → Option String → World Chan → CompletableTask × World Chan
  unfolding send_request new_create_sub_orchestration_action
  schedule_sub_orchestrator name instance_id input =
      send_request (λ id. new_create_sub_orchestration_action id name instance_id input)

  -- An event that has come completes the task, `event.unwrap().unwrap()`, and the sender is dropped.
  abbrev pub complete_signal :
      CompletableTask
      → ℕ
      → World Chan
      → Option (Option String)
      → Outcome (CompletableTask × World Chan)
  complete_signal task unblock w none = panics unwrap_none
  complete_signal task unblock w (some none) = panics unwrap_none
  complete_signal task unblock w (some (some input)) =
      let chan = oneshot.drop_sender (get_or w.channels unblock oneshot.channel) in
      returns (complete task input, record w { channels = set w.channels unblock chan })

  abbrev pub signal_task_from :
      String
      → CompletableTask
      → ℕ
      → World Chan
      → Option (List (Option String))
      → Outcome (CompletableTask × World Chan)
  signal_task_from name task unblock w (some events) =
      let (event, received) = take_event name events w.received_events in
      complete_signal task unblock (record w { received_events = received }) event
  signal_task_from name task unblock w none =
      returns (
        task,
        record w { octx = record w.octx { events_tx = w.events_tx ++ (name, unblock) ∷ [] } },
      )

  -- `await_signal_event` up to its `.await`.
  unfoldable pub signal_task : String → World Chan → Outcome (CompletableTask × World Chan)
  unfolding start_task lookup take_event complete
  signal_task name w =
      let name = to_lowercase name in
      let (task, unblock, w') = start_task w in
      signal_task_from name task unblock w' (lookup name w'.received_events)
