-- ===== src/Sequential/Join/Order.antt =====
-- Two requests that an orchestrator joins by `join!`: their replies can come in either order.
use durabletask_rs.Prelude.{
  ◌∙◌, ℕ, ◌<◌, ◌≡◌, refl, ap, String, Option, none, some, List, [], ◌∷◌, arith,
}
use durabletask_rs.Prelude.Int.{ℤ, pos, i32_max, i32_max_pos, int_eq}
use durabletask_rs.Prelude.HashMap.{insert, lookup, remove}
use durabletask_rs.Prelude.Outcome.{returns, bind_returns, ◌>>=◌}
use durabletask_rs.Prelude.Result.{ok}
use durabletask_rs.Proto.{Timestamp, HistoryEvent, OrchestratorAction}
use durabletask_rs.Internal.Events.{new_execution_started_event}
use durabletask_rs.Types.Context.{Host, World, new_context}
use durabletask_rs.Sequential.{
  activity, sub_orchestrator, timer, Request, request_action, start_request,
}
use durabletask_rs.Types.Async.{
  Async, Arm, join, output, finished, suspended, await_task, poll_arm, poll_async,
}
use durabletask_rs.Types.Function.{OrchestratorResult, OrchestratorFunction}
use durabletask_rs.Registry.{Registry, get_orchestrator}
use durabletask_rs.Executor.Context.{
  OrchestrationExecutorContext, new_executor_context, get_actions, drain, acknowledge,
}
use durabletask_rs.Executor.Poll.{poll_unwrap}
use durabletask_rs.Executor.Execute.{round, process_events, execute}
use durabletask_rs.Sequential.Poll.{idle_world, fresh, task_on}
use durabletask_rs.Sequential.Round.{context}
use durabletask_rs.Sequential.{Script, code_of, due, reply, asked_event, replied_event}
use durabletask_rs.Sequential.Replay.{zero_time, answer_due}
use durabletask_rs.Sequential.FanOut.Sent.{
  around, answer_on, replied_round, polled_suspended, polled_into,
}
use durabletask_rs.Sequential.Join.{poll_joined, arm_sent, arm_waits, arm_asks, asked_world}

one_below : 1 < i32_max
unfolding i32_max
one_below = omega arith

two_below : 2 < i32_max
unfolding i32_max
two_below = omega arith

module _ {Chan Act : Type 0} (host : Host Chan) (registry : Registry Act) (id : String)
    (now : Timestamp) (uuid name : String) (input : Option String) (f : OrchestratorFunction)
    (q₁ q₂ : Request) (k₁ k₂ : String → Arm)
    (k : String → String → Async (OrchestratorResult String))
    (found : get_orchestrator registry name ≡ some f)
    (code : f (new_context id input)
      ≡ join
          (start_request q₁ (λ t. await_task t k₁), start_request q₂ (λ t. await_task t k₂))
          k) where
  abbrev both : Async (OrchestratorResult String)
  both = join (await_task (task_on 0) k₁, await_task (task_on 1) k₂) k

  abbrev waiting_both : List (ℤ × OrchestratorAction) → OrchestrationExecutorContext Chan
  waiting_both actions =
      context host id input zero_time 2 (some both) (1 ∷ 0 ∷ []) actions
        ((pos 1, 0) ∷ (pos 2, 1) ∷ []) (fresh host ∷ fresh host ∷ [])

  abbrev start : HistoryEvent
  start = new_execution_started_event now uuid name id input none none none

  abbrev first_world : World Chan
  first_world = record { octx = new_context id input; received_events = []; channels = [] }

  first_poll :
      poll_async host
        (join (start_request q₁ (λ t. await_task t k₁), start_request q₂ (λ t. await_task t k₂)) k)
        first_world
      ≡ returns (suspended both, asked_world host q₂ 1 1 (asked_world host q₁ 0 0 first_world))
  unfolding new_context
  first_poll =
      poll_joined host _ _ k first_world (asked_world host q₁ 0 0 first_world)
        (asked_world host q₂ 1 1 (asked_world host q₁ 0 0 first_world)) (suspended _) (suspended _)
        (arm_asks host q₁ 0 0 k₁ first_world refl i32_max_pos refl)
        (arm_asks host q₂ 1 1 k₂ (asked_world host q₁ 0 0 first_world) refl one_below refl)

  both_started :
      round host registry id start new_executor_context
      ≡ returns (
          waiting_both (
            (pos 1, request_action host.clock q₁ (pos 1))
            ∷ (pos 2, request_action host.clock q₂ (pos 2))
            ∷ []))
  unfolding round new_execution_started_event new_executor_context new_context drain insert lookup
  both_started = rw (found, code, first_poll)

  acknowledged :
      (q : Request) (i : ℕ) (actions : List (ℤ × OrchestratorAction))
      → round host registry id (asked_event host.clock now q (pos i)) (waiting_both actions)
        ≡ returns (waiting_both (remove (pos i) actions))
  unfolding asked_event acknowledge drain round
  acknowledged (activity name text) i actions = refl
  acknowledged (sub_orchestrator name inst text) i actions = refl
  acknowledged (timer millis) i actions = refl

  abbrev around₂ :
      Async (OrchestratorResult String)
      → List ℕ
      → List (ℤ × ℕ)
      → List Chan
      → OrchestrationExecutorContext Chan
  around₂ = around host registry id input now 2

  module _ (r₁ r₂ x₁ x₂ : String) (goal : Script) (read₁ : k₁ (reply q₁ r₁) ≡ output x₁)
      (read₂ : k₂ (reply q₂ r₂) ≡ output x₂) (goes_on : k x₁ x₂ ≡ code_of goal) where
    abbrev left_done : Async (OrchestratorResult String)
    left_done = join (output x₁, await_task (task_on 1) k₂) k

    abbrev right_done : Async (OrchestratorResult String)
    right_done = join (await_task (task_on 0) k₁, output x₂) k

    abbrev first_reply : HistoryEvent
    first_reply = replied_event host.clock now q₁ (pos 1) r₁

    abbrev second_reply : HistoryEvent
    second_reply = replied_event host.clock now q₂ (pos 2) r₂

    -- The first reply comes first: the second arm still waits.
    round_first :
        (c : Chan) × (round host registry id first_reply (waiting_both [])
          ≡ returns (around₂ left_done (1 ∷ []) ((pos 2, 1) ∷ []) (c ∷ fresh host ∷ [])))
    unfolding lookup remove
    round_first =
        let (d, e, got) =
          replied_round host registry id input now 2 q₁ r₁ 0 both (1 ∷ 0 ∷ [])
            ((pos 1, 0) ∷ (pos 2, 1) ∷ []) (fresh host ∷ fresh host ∷ []) refl refl in
        let w = idle_world host id input [] 2 (1 ∷ 0 ∷ []) (d ∷ fresh host ∷ []) in
        let w' =
          idle_world host id input [] 2 (1 ∷ []) ((host.oneshot.poll_recv d).1 ∷ fresh host ∷ []) in
        (
          (host.oneshot.poll_recv d).1,
          e
              ∙ polled_suspended host registry id input now 2 both left_done (1 ∷ 0 ∷ []) (1 ∷ [])
                  ((pos 2, 1) ∷ []) (d ∷ fresh host ∷ [])
                  ((host.oneshot.poll_recv d).1 ∷ fresh host ∷ [])
                  (poll_joined host _ _ k w w' w' (finished x₁) (suspended _)
                    (arm_sent host 0 k₁ w (reply q₁ r₁) x₁ got read₁)
                    (arm_waits host 1 k₂ w' refl)),
        )

    -- The second reply comes first: the first arm still waits.
    round_second :
        (c : Chan) × (round host registry id second_reply (waiting_both [])
          ≡ returns (around₂ right_done (0 ∷ []) ((pos 1, 0) ∷ []) (fresh host ∷ c ∷ [])))
    unfolding lookup remove
    round_second =
        let (d, e, got) =
          replied_round host registry id input now 2 q₂ r₂ 1 both (1 ∷ 0 ∷ [])
            ((pos 1, 0) ∷ (pos 2, 1) ∷ []) (fresh host ∷ fresh host ∷ []) refl refl in
        let w = idle_world host id input [] 2 (1 ∷ 0 ∷ []) (fresh host ∷ d ∷ []) in
        let w' =
          idle_world host id input [] 2 (0 ∷ []) (fresh host ∷ (host.oneshot.poll_recv d).1 ∷ []) in
        (
          (host.oneshot.poll_recv d).1,
          e
              ∙ polled_suspended host registry id input now 2 both right_done (1 ∷ 0 ∷ []) (0 ∷ [])
                  ((pos 1, 0) ∷ []) (fresh host ∷ d ∷ [])
                  (fresh host ∷ (host.oneshot.poll_recv d).1 ∷ [])
                  (poll_joined host _ _ k w w w' (suspended _) (finished x₂)
                    (arm_waits host 0 k₁ w refl) (arm_sent host 1 k₂ w (reply q₂ r₂) x₂ got read₂)),
        )

    -- The last reply: the code goes on with both.
    round_last_second :
        (c : Chan)
        → (channels : List Chan) × (round host registry id second_reply
              (around₂ left_done (1 ∷ []) ((pos 2, 1) ∷ []) (c ∷ fresh host ∷ []))
            ≡ (poll_unwrap host (around₂ (code_of goal) [] [] channels) >>= λ x.
                returns (drain host x)))
    unfolding lookup remove poll_arm
    round_last_second c =
        let (d, e, got) =
          replied_round host registry id input now 2 q₂ r₂ 1 left_done (1 ∷ []) ((pos 2, 1) ∷ [])
            (c ∷ fresh host ∷ []) refl refl in
        let w = idle_world host id input [] 2 (1 ∷ []) (c ∷ d ∷ []) in
        let w' = idle_world host id input [] 2 [] (c ∷ (host.oneshot.poll_recv d).1 ∷ []) in
        (
          c ∷ (host.oneshot.poll_recv d).1 ∷ [],
          e
              ∙ polled_into host registry id input now 2 left_done (code_of goal) (1 ∷ []) [] []
                  (c ∷ d ∷ []) (c ∷ (host.oneshot.poll_recv d).1 ∷ [])
                  (poll_joined host _ _ k w w w' (finished x₁) (finished x₂) refl
                      (arm_sent host 1 k₂ w (reply q₂ r₂) x₂ got read₂)
                    ∙ ap (λ a. poll_async host a w') goes_on),
        )

    round_last_first :
        (c : Chan)
        → (channels : List Chan) × (round host registry id first_reply
              (around₂ right_done (0 ∷ []) ((pos 1, 0) ∷ []) (fresh host ∷ c ∷ []))
            ≡ (poll_unwrap host (around₂ (code_of goal) [] [] channels) >>= λ x.
                returns (drain host x)))
    unfolding lookup remove poll_arm
    round_last_first c =
        let (d, e, got) =
          replied_round host registry id input now 2 q₁ r₁ 0 right_done (0 ∷ []) ((pos 1, 0) ∷ [])
            (fresh host ∷ c ∷ []) refl refl in
        let w = idle_world host id input [] 2 (0 ∷ []) (d ∷ c ∷ []) in
        let w' = idle_world host id input [] 2 [] ((host.oneshot.poll_recv d).1 ∷ c ∷ []) in
        (
          (host.oneshot.poll_recv d).1 ∷ c ∷ [],
          e
              ∙ polled_into host registry id input now 2 right_done (code_of goal) (0 ∷ []) [] []
                  (d ∷ c ∷ []) ((host.oneshot.poll_recv d).1 ∷ c ∷ [])
                  (poll_joined host _ _ k w w' w' (finished x₁) (finished x₂)
                      (arm_sent host 0 k₁ w (reply q₁ r₁) x₁ got read₁) refl
                    ∙ ap (λ a. poll_async host a w') goes_on),
        )

    abbrev history_with : List HistoryEvent → List HistoryEvent
    history_with replies =
        start
        ∷ asked_event host.clock now q₁ (pos 1)
        ∷ asked_event host.clock now q₂ (pos 2)
        ∷ replies

    -- Two requests that `join!` waits for: both are asked for at the start, and whichever reply comes
    -- first, the code has each reply for its own request, and the executor answers the one action that
    -- is due behind them; it panics only where the code itself does.
    pub execute_joined :
        (execute host registry id [] (start ∷ [])
          ≡ returns (
              ok
                (request_action host.clock q₁ (pos 1) ∷ request_action host.clock q₂ (pos 2) ∷ [])))
        × (execute host registry id [] (history_with (first_reply ∷ second_reply ∷ []))
            ≡ answer_due (due host.clock 3 goal))
        × (execute host registry id [] (history_with (second_reply ∷ first_reply ∷ []))
            ≡ answer_due (due host.clock 3 goal))
    unfolding execute process_events new_executor_context remove get_actions
    execute_joined =
        let (c, first) = round_first in
        let (left, last₂) = round_last_second c in
        let (d, second) = round_second in
        let (right, last₁) = round_last_first d in
        (
          rw both_started,
          rw (both_started, acknowledged q₁ 1, acknowledged q₂ 2, first, last₂, bind_returns)
              (answer_on host registry id input now 2 goal [] [] left two_below),
          rw (both_started, acknowledged q₁ 1, acknowledged q₂ 2, second, last₁, bind_returns)
              (answer_on host registry id input now 2 goal [] [] right two_below),
        )
