-- ===== src/Sequential/Waiting.antt =====
-- An orchestrator at any point of its history at which it waits, and whatever comes then.
use durabletask_rs.Prelude.{
  ℕ, suc, ◌+◌, ◌<◌, ◌≡◌, refl, sym, ap, ◌∙◌, subst, String, Option, none, some, List, [], ◌∷◌, ◌++◌,
  length, arith,
}
use durabletask_rs.Prelude.Int.{i32_max, int_eq}
use durabletask_rs.Prelude.Outcome.{Outcome, returns, ◌>>=◌}
use durabletask_rs.Prelude.Result.{Result, ok}
use durabletask_rs.Proto.{Timestamp, HistoryEvent, OrchestratorAction}
use durabletask_rs.Internal.Events.{new_execution_started_event}
use durabletask_rs.Types.Context.{Host, new_context}
use durabletask_rs.Types.Function.{OrchestratorFunction}
use durabletask_rs.Registry.{Registry, get_orchestrator}
use durabletask_rs.Executor.Context.{
  OrchestrationExecutorContext, new_executor_context, get_actions,
}
use durabletask_rs.Executor.Execute.{process_events, execute}
use durabletask_rs.Sequential.{Request, Script, finish, ask, fault, code_of, reply, history_of}
use durabletask_rs.Sequential.Round.{current, poll_script, round_asked, round_replied}
use durabletask_rs.Sequential.Replay.{round_started, zero_time}

-- What is left of a script after replies.
abbrev pub left_after : Script → List String → Script
left_after (ask q k) (r ∷ replies) = left_after (k (reply q r)) replies
left_after s _ = s

abbrev IsAsking : Script → Type 0
IsAsking (ask q k) = Unit {0}
IsAsking _ = ⊥

-- The history up to the request that a script waits for after replies, and some events behind it.
abbrev pub history_then :
    {Chan : Type 0}
    → Host Chan
    → String
    → Timestamp
    → Option String
    → String
    → String
    → Script
    → List String
    → List HistoryEvent
    → List HistoryEvent
history_then host id now input uuid name s replies events =
    new_execution_started_event now uuid name id input none none none
    ∷ (history_of host.clock now 1 s replies ++ events)

module _ {Chan Act : Type 0} (host : Host Chan) (registry : Registry Act) (id : String)
    (now : Timestamp) (input : Option String) where
  -- A script that still asks after the replies has reached the request behind them.
  reached :
      (s : Script) (replies : List String) (m : ℕ) (channels : List Chan) (rest : List HistoryEvent)
      → m + length replies < i32_max
      → IsAsking (left_after s replies)
      → (later : List Chan) × ((current host id input zero_time m s channels
            >>= process_events host registry id
                (history_of host.clock now (suc m) s replies ++ rest))
          ≡ (current host id input zero_time (m + length replies) (left_after s replies) later
              >>= process_events host registry id rest))
  unfolding process_events history_of
  reached (finish result) [] m channels rest h asks = absurd asks
  reached (finish result) (r ∷ replies) m channels rest h asks = absurd asks
  reached (fault p) [] m channels rest h asks = absurd asks
  reached (fault p) (r ∷ replies) m channels rest h asks = absurd asks
  reached (ask q k) [] m channels rest h asks =
      let same : m + 0 ≡ m = omega arith in (channels, rw same refl)
  reached (ask q k) (r ∷ replies) m channels rest h asks =
      let (more, e) =
        round_replied host id input zero_time registry now q (λ x. code_of (k x)) m channels r in
      let (later, p) = reached (k (reply q r)) replies (suc m) more rest (omega arith) asks in
      let same : m + suc (length replies) ≡ suc m + length replies = omega arith in
      (
        later,
        rw
            (
              round_asked host id input zero_time registry now q (λ x. code_of (k x)) m channels,
              e,
              poll_script host id input zero_time (k (reply q r)) (suc m) more (omega arith),
              same,
            )
            p,
      )

  abbrev pub actions_of :
      Outcome (OrchestrationExecutorContext Chan)
      → Outcome (Result String (List OrchestratorAction))
  actions_of o = o >>= λ c. returns (ok (get_actions c))

  -- The executor comes to that request, and answers by what is pending behind the events.
  pub execute_then :
      (uuid name : String) (f : OrchestratorFunction) (q : Request) (k : String → Script)
      (replies : List String) (q' : Request) (k' : String → Script) (events : List HistoryEvent)
      → get_orchestrator registry name ≡ some f
      → f (new_context id input) ≡ code_of (ask q k)
      → left_after (ask q k) replies ≡ ask q' k'
      → length replies < i32_max
      → (later : List Chan) × (execute host registry id []
            (history_then host id now input uuid name (ask q k) replies events)
          ≡ actions_of (
              current host id input zero_time (length replies) (ask q' k') later
              >>= process_events host registry id events))
  unfolding execute process_events new_executor_context
  execute_then uuid name f q k replies q' k' events found code waits few =
      let (later, e) =
        reached (ask q k) replies 0 [] events (omega arith) (subst IsAsking (sym waits) tt) in
      let none_before : 0 + length replies ≡ length replies = omega arith in
      (
        later,
        rw (round_started host registry id now uuid name input f q (λ x. code_of (k x)) found code)
            (ap actions_of (e ∙ rw (none_before, waits) refl)),
      )
