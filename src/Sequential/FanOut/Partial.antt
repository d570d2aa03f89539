-- ===== src/Sequential/FanOut/Partial.antt =====
-- Requests that run at the same time, of which some have not been replied to.
use durabletask_rs.Prelude.{
  ℕ, suc, ◌<◌, ◌≡◌, refl, ap, ◌∙◌, String, Bool, true, false, Option, none, some, List, [], ◌∷◌,
  ◌++◌, map, arith,
}
use durabletask_rs.Prelude.Int.{pos, int_eq, i32_max}
use durabletask_rs.Prelude.Outcome.{returns}
use durabletask_rs.Prelude.Result.{ok}
use durabletask_rs.Proto.{Timestamp, HistoryEvent}
use durabletask_rs.Internal.Events.{new_execution_started_event}
use durabletask_rs.Types.Context.{Host, new_context}
use durabletask_rs.Types.Function.{OrchestratorFunction}
use durabletask_rs.Registry.{Registry, get_orchestrator}
use durabletask_rs.Executor.Context.{
  OrchestrationExecutorContext, new_executor_context, get_actions,
}
use durabletask_rs.Executor.Execute.{process_events, execute}
use durabletask_rs.Executor.Replay.{execute-append}
use durabletask_rs.Sequential.{Request, Script, code_of, reply, asked_event, replied_event}
use durabletask_rs.Sequential.FanOut.{IsPartial, start_all, await_all, indices, mark}
use durabletask_rs.Sequential.FanOut.Drain.{actions_map-IsFrom}
use durabletask_rs.Sequential.FanOut.Asked.{rounds_acknowledged, started_all}
use durabletask_rs.Sequential.FanOut.Replied.{waits_at}
use durabletask_rs.Sequential.FanOut.Step.{
  IsWaiting, reply_to, after_reply, listening-IsWaiting, still, resumed,
}
use durabletask_rs.Sequential.FanOut.Order.{answer_at}

module _ {Chan Act : Type 0} (host : Host Chan) (registry : Registry Act) (id : String)
    (input : Option String) (now : Timestamp) (requests : ℕ → Request) (results : ℕ → String)
    (n : ℕ) (goal : Script) where
  some_left :
      (done : ℕ → Bool) (order : List ℕ)
      → ((i : ℕ) → i < n → done i ≡ true)
      → IsPartial n done order
      → ⊥
  some_left done [] all (i, lt, undone) = absurd (let bad = all i lt in cc)
  some_left done (i ∷ order) all (lt, undone, h) = absurd (let bad = all i lt in cc)

  rest_awaited :
      (order : List ℕ) (done : ℕ → Bool) (c : OrchestrationExecutorContext Chan)
      → IsPartial n done order
      → IsWaiting host registry id input now requests results n goal done c
      → answer_at host registry id input now requests results n goal (
          process_events host registry id
            (map (reply_to host registry id input now requests results n goal) order)
            c)
        ≡ returns (ok [])
  unfolding process_events get_actions
  rest_awaited [] done c h
        (waits_at left j k held tasks channels sum ends undone below carried has e) =
      rw e refl
  rest_awaited (i ∷ order) done c (lt, undone, h) w =
      elim (after_reply host registry id input now requests results n goal done i c w lt undone) [
        | still c' e w' ↦ rw e (rest_awaited order (mark i done) c' h w')
        | resumed held tasks channels all e ↦ absurd (some_left (mark i done) order all h)
      ]

module _ {Chan Act : Type 0} (host : Host Chan) (registry : Registry Act) (id : String)
    (now : Timestamp) (uuid name : String) (input : Option String) (f : OrchestratorFunction)
    (requests : ℕ → Request) (results : ℕ → String) (n : ℕ) (k : List String → Script) where
  -- What the code would receive, in the order of the requests.
  abbrev awaited : List String
  awaited = map (λ (i : ℕ). reply (requests i) (results i)) (indices n 0)

  -- An orchestrator that starts `n` requests before it awaits them, and whose requests are all
  -- acknowledged, is answered with no action as long as a request is not replied to, in whatever
  -- order the other replies came and however the history is cut; nothing panics. There are fewer than
  -- 2 ^ 31 - 1 requests.
  pub execute_partly_replied :
      (order : List ℕ) (old_events new_events : List HistoryEvent)
      → get_orchestrator registry name ≡ some f
      → f (new_context id input)
        ≡ start_all (map requests (indices n 0)) (λ tasks. await_all tasks (λ rs. code_of (k rs)))
      → 0 < n
      → n < i32_max
      → IsPartial n (λ i. false) order
      → old_events ++ new_events
        ≡ new_execution_started_event now uuid name id input none none none
            ∷ map (λ (i : ℕ). asked_event host.clock now (requests i) (pos (suc i))) (indices n 0)
          ++ map
              (λ (i : ℕ). replied_event host.clock now (requests i) (pos (suc i)) (results i))
              order
      → execute host registry id old_events new_events ≡ returns (ok [])
  unfolding execute process_events new_executor_context
  execute_partly_replied order old_events new_events found code some_request few partial cut =
      execute-append host registry id old_events new_events
      ∙ ap (execute host registry id []) cut
      ∙ rw
          (
            started_all host registry id input now requests n uuid name f k found code some_request
                few,
            rounds_acknowledged host registry id input now requests n n 0 k _ _ (omega arith)
                (actions_map-IsFrom host id input requests n n (omega arith)),
          )
          (rest_awaited host registry id input now requests results n (k awaited) order (λ i. false)
            _ partial
            (listening-IsWaiting host registry id input now requests results n (k awaited) k
              some_request refl))
