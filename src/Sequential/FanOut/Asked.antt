-- ===== src/Sequential/FanOut/Asked.antt =====
-- The executor from the start of the orchestrator to the last event that acknowledges a request.
use durabletask_rs.Prelude.{
  ℕ, zero, suc, ◌+◌, ◌<◌, ◌≡◌, refl, ap, String, Option, none, some, List, [], ◌++◌, map, All,
  arith, subst, ◌-◌,
}
use durabletask_rs.Prelude.Int.{ℤ, pos, int_eq, i32_max}
use durabletask_rs.Prelude.HashMap.{HashMap, remove}
use durabletask_rs.Prelude.Outcome.{returns}
use durabletask_rs.Proto.{Timestamp, HistoryEvent, OrchestratorAction}
use durabletask_rs.Internal.Events.{new_execution_started_event}
use durabletask_rs.Types.Context.{Host, new_context}
use durabletask_rs.Types.Async.{suspended, poll_async}
use durabletask_rs.Executor.Event.{started}
use durabletask_rs.Types.Function.{OrchestratorFunction}
use durabletask_rs.Registry.{Registry, get_orchestrator}
use durabletask_rs.Executor.Context.{
  OrchestrationExecutorContext, new_executor_context, drain, drain_events, acknowledge,
}
use durabletask_rs.Executor.Execute.{round, process_events}
use durabletask_rs.Sequential.{
  Request, activity, sub_orchestrator, timer, Script, code_of, asked_event,
}
use durabletask_rs.Sequential.Poll.{task_on}
use durabletask_rs.Sequential.Round.{context}
use durabletask_rs.Sequential.Replay.{zero_time}
use durabletask_rs.Sequential.FanOut.{start_all, await_all, indices}
use durabletask_rs.Sequential.FanOut.Wait.{poll_undone}
use durabletask_rs.Sequential.FanOut.Start.{
  get_or-fresh_channels, receivers, fresh_channels, octx_at, world_at, poll-start_all,
}
use durabletask_rs.Sequential.FanOut.Drain.{
  tasks_map, actions_map, drain_actions_lem, drain_tasks_lem, IsFrom, remove-IsFrom, none_left,
}

module _ {Chan Act : Type 0} (host : Host Chan) (registry : Registry Act) (id : String)
    (input : Option String) (now : Timestamp) (requests : ℕ → Request) (n : ℕ) where
  -- The executor's context while the code waits for all of its requests.
  abbrev pub listening :
      (List String → Script) → HashMap ℤ OrchestratorAction → OrchestrationExecutorContext Chan
  listening k actions =
      context host id input zero_time n
        (some (await_all (map task_on (indices n 0)) (λ rs. code_of (k rs))))
        (receivers host id input requests n) actions (tasks_map n)
        (fresh_channels host id input requests n)

  acknowledged_one :
      (q : Request) (i : ℕ) (k : List String → Script) (actions : HashMap ℤ OrchestratorAction)
      → round host registry id (asked_event host.clock now q (pos (suc i))) (listening k actions)
        ≡ returns (listening k (remove (pos (suc i)) actions))
  unfolding round acknowledge asked_event drain
  acknowledged_one (activity name text) i k actions = refl
  acknowledged_one (sub_orchestrator name instance_id text) i k actions = refl
  acknowledged_one (timer millis) i k actions = refl

  abbrev pub asked_events : ℕ → ℕ → List HistoryEvent
  asked_events left j =
      map (λ (i : ℕ). asked_event host.clock now (requests i) (pos (suc i))) (indices left j)

  pub rounds_acknowledged :
      (left j : ℕ) (k : List String → Script) (actions : HashMap ℤ OrchestratorAction)
      (rest : List HistoryEvent)
      → left + j ≡ n
      → All (IsFrom n j) actions
      → process_events host registry id (asked_events left j ++ rest) (listening k actions)
        ≡ process_events host registry id rest (listening k [])
  unfolding process_events
  rounds_acknowledged zero j k actions rest sum h =
      ap
        (λ (m : HashMap ℤ OrchestratorAction). process_events host registry id rest (listening k m))
        (none_left n actions (let same : j ≡ n = omega arith in rw same at h))
  rounds_acknowledged (suc left) j k actions rest sum h =
      rw (acknowledged_one (requests j) j k actions) (
        rounds_acknowledged left (suc j) k (remove (pos (suc j)) actions) rest (omega arith)
          (remove-IsFrom n j actions h))

  -- Nothing was sent to the tasks when the code first waits for them.
  waits_first :
      (m : ℕ) (k : List String → Script)
      → suc m ≡ n
      → poll_async host
          (await_all (map task_on (indices n 0)) (λ rs. code_of (k rs)))
          (world_at host id input requests n)
        ≡ returns (
          suspended (await_all (map task_on (indices n 0)) (λ rs. code_of (k rs))),
          world_at host id input requests n,
        )
  waits_first m k positive =
      subst
        (λ (l : ℕ).
          poll_async host (await_all (map task_on (indices l 0)) (λ rs. code_of (k rs)))
            (world_at host id input requests l)
          ≡ returns (
            suspended (await_all (map task_on (indices l 0)) (λ rs. code_of (k rs))),
            world_at host id input requests l,
          ))
        positive
        (poll_undone host (octx_at host id input requests (suc m)) [] (suc m) (λ i. "") (k []) m 0 k
          (receivers host id input requests (suc m)) (fresh_channels host id input requests (suc m))
          (get_or-fresh_channels host id input requests (suc m) 0))

  -- The executor's context when the code has just been polled.
  abbrev polled_first : (List String → Script) → OrchestrationExecutorContext Chan
  polled_first k = started host new_executor_context (
    suspended (await_all (map task_on (indices n 0)) (λ rs. code_of (k rs))),
    world_at host id input requests n,
  )

  drained_first :
      (k : List String → Script)
      → drain host (polled_first k) ≡ listening k (actions_map host id input requests n)
  unfolding drain drain_events new_executor_context
  drained_first k = rw (
    drain_actions_lem host id input requests n (polled_first k) refl refl,
    drain_tasks_lem host id input requests n
        (record (polled_first k) {
          pending_actions = actions_map host id input requests n;
          sequence_number = pos n;
        })
        refl,
  )

  pub started_all :
      (uuid name : String) (f : OrchestratorFunction) (k : List String → Script)
      → get_orchestrator registry name ≡ some f
      → f (new_context id input)
        ≡ start_all (map requests (indices n 0)) (λ tasks. await_all tasks (λ rs. code_of (k rs)))
      → 0 < n
      → n < i32_max
      → round host registry id
          (new_execution_started_event now uuid name id input none none none)
          new_executor_context
        ≡ returns (listening k (actions_map host id input requests n))
  unfolding round new_execution_started_event new_context new_executor_context
  started_all uuid name f k found code some_request few =
      rw
        (
          found,
          code,
          poll-start_all host id input requests n n 0
              (λ tasks. await_all tasks (λ rs. code_of (k rs))) (omega arith) few,
          waits_first (n - 1) k (omega arith),
        )
        (ap returns (drained_first k))
