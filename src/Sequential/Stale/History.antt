-- ===== src/Sequential/Stale/History.antt =====
-- Histories of scripts in which events come again.
use durabletask_rs.Prelude.{
  ℕ, suc, ◌+◌, ◌<◌, ◌≡◌, refl, ap, ◌∙◌, String, Option, none, some, List, [], ◌∷◌, ◌++◌, length,
  All, arith, true, false,
}
use durabletask_rs.Prelude.Int.{pos, i32_max}
use durabletask_rs.Prelude.Outcome.{returns, ◌>>=◌}
use durabletask_rs.Prelude.Result.{ok}
use durabletask_rs.Proto.{Timestamp, HistoryEvent}
use durabletask_rs.Internal.Events.{new_execution_started_event}
use durabletask_rs.Types.Context.{Host, new_context}
use durabletask_rs.Types.Function.{OrchestratorFunction}
use durabletask_rs.Registry.{Registry, get_orchestrator}
use durabletask_rs.Executor.Context.{new_executor_context, get_actions}
use durabletask_rs.Executor.Execute.{process_events, execute}
use durabletask_rs.Executor.Replay.{execute-append}
use durabletask_rs.Sequential.{
  Request, Script, finish, ask, fault, code_of, due_after, reply, asked_event, replied_event,
  request_action,
}
use durabletask_rs.Sequential.Round.{current, poll_script, round_asked, round_replied}
use durabletask_rs.Sequential.Replay.{round_started, zero_time, answer_due}
use durabletask_rs.Sequential.Stale.{IsStale, process_events_stale}

-- The stale events that come before the request with a number is acknowledged, and behind that.
pub record Extra : Type 0 where
  pub before : ℕ → List HistoryEvent
  pub behind : ℕ → List HistoryEvent
  pub before-IsStale : (n : ℕ) → All (IsStale (pos n)) (before n)
  pub behind-IsStale : (n : ℕ) → All (IsStale (pos n)) (behind n)

module _ {Chan Act : Type 0} (host : Host Chan) (registry : Registry Act) (id : String)
    (now : Timestamp) (extra : Extra) where
  -- The history of a script's run, from its `n`-th request on, with the stale events.
  abbrev pub stale_history : ℕ → Script → List String → List HistoryEvent
  stale_history n (finish result) replies = []
  stale_history n (fault p) replies = []
  stale_history n (ask q k) [] = extra.before n ++ []
  stale_history n (ask q k) (r ∷ replies) =
      extra.before n
      ++ (asked_event host.clock now q (pos n)
          ∷ (extra.behind n
              ++ (replied_event host.clock now q (pos n) r
                  ∷ stale_history (suc n) (k (reply q r)) replies)))

  module _ (input : Option String) (time : Timestamp) where
    replies_lem :
        (m : ℕ) (s : Script) (replies : List String) (channels : List Chan)
        → m + length replies < i32_max
        → (current host id input time m s channels
            >>= process_events host registry id (stale_history (suc m) s replies)
            >>= λ c. returns (ok (get_actions c)))
          ≡ answer_due (due_after host.clock (suc m) s replies)
    unfolding process_events get_actions
    replies_lem m (finish result) replies channels h = refl
    replies_lem m (fault p) replies channels h = refl
    replies_lem m (ask q k) [] channels h =
        rw
          (process_events_stale host registry id input time (λ x. code_of (k x)) m channels
            (request_action host.clock q (pos (suc m))) (extra.before (suc m)) [] true
            (extra.before-IsStale (suc m)))
          refl
    replies_lem m (ask q k) (r ∷ replies) channels h =
        let (rest, e) =
          round_replied host id input time registry now q (λ x. code_of (k x)) m channels r in
        rw
          (
            process_events_stale host registry id input time (λ x. code_of (k x)) m channels
                (request_action host.clock q (pos (suc m))) (extra.before (suc m)) _ true
                (extra.before-IsStale (suc m)),
            round_asked host id input time registry now q (λ x. code_of (k x)) m channels,
            process_events_stale host registry id input time (λ x. code_of (k x)) m channels
                (request_action host.clock q (pos (suc m))) (extra.behind (suc m)) _ false
                (extra.behind-IsStale (suc m)),
            e,
            poll_script host id input time (k (reply q r)) (suc m) rest (omega arith),
          )
          (replies_lem (suc m) (k (reply q r)) replies rest (omega arith))

  from_start :
      (uuid name : String) (input : Option String) (f : OrchestratorFunction) (q : Request)
      (k : String → Script) (replies : List String)
      → get_orchestrator registry name ≡ some f
      → f (new_context id input) ≡ code_of (ask q k)
      → length replies < i32_max
      → execute host registry id [] (
          new_execution_started_event now uuid name id input none none none
          ∷ stale_history 1 (ask q k) replies)
        ≡ answer_due (due_after host.clock 1 (ask q k) replies)
  unfolding execute process_events new_executor_context
  from_start uuid name input f q k replies found code few =
      rw (round_started host registry id now uuid name input f q (λ x. code_of (k x)) found code)
        (replies_lem input zero_time 0 (ask q k) replies [] (omega arith))

  -- An orchestrator that awaits each of its requests, with its first request at its first poll, is
  -- answered as without them where, at any of its steps, before the request is acknowledged or while
  -- its reply is awaited, there come any number of replies, failures and acknowledgements of other
  -- requests: those of earlier requests that are delivered again, or those of requests that were not
  -- made yet. The history may be cut anywhere. Fewer than 2 ^ 31 - 1 requests were replied to.
  pub execute_stale :
      (uuid name : String) (input : Option String) (f : OrchestratorFunction) (q : Request)
      (k : String → Script) (replies : List String) (old_events new_events : List HistoryEvent)
      → get_orchestrator registry name ≡ some f
      → f (new_context id input) ≡ code_of (ask q k)
      → length replies < i32_max
      → old_events ++ new_events
        ≡ new_execution_started_event now uuid name id input none none none
          ∷ stale_history 1 (ask q k) replies
      → execute host registry id old_events new_events
        ≡ answer_due (due_after host.clock 1 (ask q k) replies)
  execute_stale uuid name input f q k replies old_events new_events found code few cut =
      execute-append host registry id old_events new_events
      ∙ ap (execute host registry id []) cut
      ∙ from_start uuid name input f q k replies found code few
