-- ===== src/Sequential/FanOut/Order.antt =====
-- Requests that run at the same time: the replies can come in any order.
use durabletask_rs.Prelude.{
  ℕ, suc, ◌<◌, ◌≡◌, refl, ap, ◌∙◌, String, Bool, true, false, Option, none, some, List, [], ◌∷◌,
  ◌++◌, map, arith,
}
use durabletask_rs.Prelude.Int.{pos, int_eq, i32_max}
use durabletask_rs.Prelude.Outcome.{Outcome, returns, bind_returns, ◌>>=◌}
use durabletask_rs.Prelude.Result.{Result, ok}
use durabletask_rs.Proto.{Timestamp, HistoryEvent, OrchestratorAction}
use durabletask_rs.Internal.Events.{new_execution_started_event}
use durabletask_rs.Types.Context.{Host, new_context}
use durabletask_rs.Types.Function.{OrchestratorFunction}
use durabletask_rs.Registry.{Registry, get_orchestrator}
use durabletask_rs.Executor.Context.{
  OrchestrationExecutorContext, new_executor_context, get_actions,
}
use durabletask_rs.Executor.Execute.{process_events, execute}
use durabletask_rs.Executor.Replay.{execute-append}
use durabletask_rs.Sequential.{Request, Script, code_of, due, reply, asked_event, replied_event}
use durabletask_rs.Sequential.Replay.{answer_due}
use durabletask_rs.Sequential.FanOut.{start_all, await_all, indices, mark, IsOrder}
use durabletask_rs.Sequential.FanOut.Drain.{actions_map-IsFrom}
use durabletask_rs.Sequential.FanOut.Asked.{rounds_acknowledged, started_all}
use durabletask_rs.Sequential.FanOut.Sent.{answer_on}
use durabletask_rs.Sequential.FanOut.Replied.{waits_at}
use durabletask_rs.Sequential.FanOut.Step.{
  IsWaiting, reply_to, after_reply, listening-IsWaiting, still, resumed,
}

module _ {Chan Act : Type 0} (host : Host Chan) (registry : Registry Act) (id : String)
    (input : Option String) (now : Timestamp) (requests : ℕ → Request) (results : ℕ → String)
    (n : ℕ) (goal : Script) where
  -- No event is left once all requests are done.
  none_left :
      (done : ℕ → Bool) (order : List ℕ)
      → ((i : ℕ) → i < n → done i ≡ true)
      → IsOrder n done order
      → order ≡ []
  none_left done [] all h = refl
  none_left done (i ∷ order) all (lt, open_request, h) = absurd (let bad = all i lt in cc)

  abbrev pub answer_at :
      Outcome (OrchestrationExecutorContext Chan)
      → Outcome (Result String (List OrchestratorAction))
  answer_at p = p >>= λ c. returns (ok (get_actions c))

  replies_in_order :
      (order : List ℕ) (done : ℕ → Bool) (c : OrchestrationExecutorContext Chan)
      → n < i32_max
      → IsOrder n done order
      → IsWaiting host registry id input now requests results n goal done c
      → answer_at (
          process_events host registry id
            (map (reply_to host registry id input now requests results n goal) order)
            c)
        ≡ answer_due (due host.clock (suc n) goal)
  unfolding process_events
  replies_in_order [] done c few h
        (waits_at left j k held tasks channels sum ends undone below carried has e) =
      absurd (let all : done j ≡ true = h j (omega arith) in cc)
  replies_in_order (i ∷ order) done c few (lt, open_request, h) w =
      elim (after_reply host registry id input now requests results n goal done i c w lt
        open_request) [
          | still c' e w' ↦ rw e (replies_in_order order (mark i done) c' few h w')
          | resumed held tasks channels all e ↦
              rw (e, none_left (mark i done) order all h, bind_returns)
                (answer_on host registry id input now n goal held tasks channels few)
        ]

module _ {Chan Act : Type 0} (host : Host Chan) (registry : Registry Act) (id : String)
    (now : Timestamp) (uuid name : String) (input : Option String) (f : OrchestratorFunction)
    (requests : ℕ → Request) (results : ℕ → String) (n : ℕ) (k : List String → Script) where
  -- What the code receives, in the order of the requests.
  abbrev received : List String
  received = map (λ (i : ℕ). reply (requests i) (results i)) (indices n 0)

  -- An orchestrator that starts `n` requests before it awaits them: once all of them are acknowledged
  -- and replied to, in whatever order the replies come and however the history is cut, the code has
  -- each reply for its own request, and the executor answers the one action that is due behind them:
  -- the next request, or the completion; it panics only where the code itself does. There is a
  -- request, and there are fewer than 2 ^ 31 - 1.
  pub execute_any_order :
      (order : List ℕ) (old_events new_events : List HistoryEvent)
      → get_orchestrator registry name ≡ some f
      → f (new_context id input)
        ≡ start_all (map requests (indices n 0)) (λ tasks. await_all tasks (λ rs. code_of (k rs)))
      → 0 < n
      → n < i32_max
      → IsOrder n (λ i. false) order
      → old_events ++ new_events
        ≡ new_execution_started_event now uuid name id input none none none
            ∷ map (λ (i : ℕ). asked_event host.clock now (requests i) (pos (suc i))) (indices n 0)
          ++ map
              (λ (i : ℕ). replied_event host.clock now (requests i) (pos (suc i)) (results i))
              order
      → execute host registry id old_events new_events
        ≡ answer_due (due host.clock (suc n) (k received))
  unfolding execute process_events new_executor_context
  execute_any_order order old_events new_events found code some_request few ordered cut =
      execute-append host registry id old_events new_events
      ∙ ap (execute host registry id []) cut
      ∙ rw
          (
            started_all host registry id input now requests n uuid name f k found code some_request
                few,
            rounds_acknowledged host registry id input now requests n n 0 k _ _ (omega arith)
                (actions_map-IsFrom host id input requests n n (omega arith)),
          )
          (replies_in_order host registry id input now requests results n (k received) order
            (λ i. false) _ few ordered
            (listening-IsWaiting host registry id input now requests results n (k received) k
              some_request refl))
