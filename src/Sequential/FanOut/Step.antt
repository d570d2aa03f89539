-- ===== src/Sequential/FanOut/Step.antt =====
-- What a reply does to an orchestrator that started all of its requests: it still waits, or it goes on.
use durabletask_rs.Prelude.{
  ℕ, suc, ◌<◌, ◌≤◌, ◌≡◌, refl, ap, ◌∙◌, sym, subst, String, Bool, true, false, Option, List, [],
  map, arith, set, ◌-◌,
}
use durabletask_rs.Prelude.Int.{ℤ, pos, int_eq}
use durabletask_rs.Prelude.HashMap.{HashMap, remove}
use durabletask_rs.Prelude.Outcome.{Outcome, returns, ◌>>=◌}
use durabletask_rs.Proto.{Timestamp, HistoryEvent}
use durabletask_rs.Types.Context.{Host}
use durabletask_rs.Types.Async.{Async, poll_async}
use durabletask_rs.Types.Function.{OrchestratorResult}
use durabletask_rs.Registry.{Registry}
use durabletask_rs.Executor.Context.{OrchestrationExecutorContext, drain}
use durabletask_rs.Executor.Poll.{poll_unwrap}
use durabletask_rs.Executor.Execute.{round}
use durabletask_rs.Sequential.{Request, Script, code_of, replied_event}
use durabletask_rs.Sequential.Poll.{idle, idle_world}
use durabletask_rs.Sequential.FanOut.{indices, mark}
use durabletask_rs.Sequential.FanOut.Wait.{awaiting, Carries, Polled, waits, goes_on, poll_awaiting}
use durabletask_rs.Sequential.FanOut.Start.{
  receivers, fresh_channels, get_or-fresh_channels, length-fresh_channels,
}
use durabletask_rs.Sequential.FanOut.Drain.{tasks_map, lookup-tasks_map}
use durabletask_rs.Sequential.FanOut.Asked.{listening}
use durabletask_rs.Sequential.FanOut.Sent.{polled_suspended, polled_into, around, replied_round}
use durabletask_rs.Sequential.FanOut.Replied.{
  HasTasks, Waits, waits_at, Carries-mark, HasTasks-mark, replies,
}

module _ {Chan Act : Type 0} (host : Host Chan) (registry : Registry Act) (id : String)
    (input : Option String) (now : Timestamp) (requests : ℕ → Request) (results : ℕ → String)
    (n : ℕ) (goal : Script) where
  abbrev pub IsWaiting : (ℕ → Bool) → OrchestrationExecutorContext Chan → Type 0
  IsWaiting = Waits host registry id input now requests results n goal

  abbrev pub given : ℕ → String
  given = replies host registry id input now requests results n goal

  abbrev pub context_of :
      Async (OrchestratorResult String)
      → List ℕ
      → HashMap ℤ ℕ
      → List Chan
      → OrchestrationExecutorContext Chan
  context_of = around host registry id input now n

  abbrev Holding : (ℕ → Bool) → ℕ → List Chan → Type 0
  Holding = Carries host (idle host id input [] n []) [] n given goal

  abbrev pub code_at : ℕ → ℕ → (List String → Script) → Async (OrchestratorResult String)
  code_at = awaiting host (idle host id input [] n []) [] n given goal

  abbrev pub drained :
      Outcome (OrchestrationExecutorContext Chan) → Outcome (OrchestrationExecutorContext Chan)
  drained p = p >>= λ c. returns (drain host c)

  -- What an event's round comes to.
  pub data After (done : ℕ → Bool) (p : Outcome (OrchestrationExecutorContext Chan)) : Type 0 where
    still :
        (c : OrchestrationExecutorContext Chan) → p ≡ returns c → IsWaiting done c → After done p
    resumed :
        (held : List ℕ) (tasks : HashMap ℤ ℕ) (channels : List Chan)
        → ((i : ℕ) → i < n → done i ≡ true)
        → p ≡ drained (poll_unwrap host (context_of (code_of goal) held tasks channels))
        → After done p

  after_polled :
      (done : ℕ → Bool) (left j : ℕ) (k : List String → Script) (held : List ℕ)
      (tasks : HashMap ℤ ℕ) (channels : List Chan)
      → HasTasks host registry id input now requests results n goal done tasks
      → Polled host
          (idle host id input [] n [])
          []
          n
          given
          goal
          done
          (poll_async host (code_at (suc left) j k) (idle_world host id input [] n held channels))
      → After done
          (drained (poll_unwrap host (context_of (code_at (suc left) j k) held tasks channels)))
  after_polled done left j k held tasks channels has
        (waits left' j' k' held' channels' sum ends undone below carried e) =
      still (context_of (code_at (suc left') j' k') held' tasks channels')
        (polled_suspended host registry id input now n _ _ held held' tasks channels channels' e)
        (waits_at left' j' k' held' tasks channels' sum ends undone below carried has refl)
  after_polled done left j k held tasks channels has (goes_on held' channels' all e) =
      resumed held' tasks channels' all
        (polled_into host registry id input now n _ _ held held' tasks channels channels' e)

  mark_keeps : (i l : ℕ) (done : ℕ → Bool) → done l ≡ true → mark i done l ≡ true
  mark_keeps i l done h = ground arith

  abbrev pub reply_to : ℕ → HistoryEvent
  reply_to i = replied_event host.clock now (requests i) (pos (suc i)) (results i)

  pub after_reply :
      (done : ℕ → Bool) (i : ℕ) (c : OrchestrationExecutorContext Chan)
      → IsWaiting done c
      → i < n
      → done i ≡ false
      → After (mark i done) (round host registry id (reply_to i) c)
  after_reply done i c (waits_at left j k held tasks channels sum ends undone below carried has e)
        lt open_request =
      let le : j ≤ i = ground (arith, below i) in
      let (d, replied, got) =
        replied_round host registry id input now n (requests i) (results i) i
          (code_at (suc left) j k) held tasks channels (has i lt open_request)
          (carried.unsent i le lt open_request) in
      subst (After (mark i done)) (sym (ap (round host registry id (reply_to i)) e ∙ replied)) (
        after_polled (mark i done) left j k held (remove (pos (suc i)) tasks) (set channels i d)
          (HasTasks-mark host registry id input now requests results n goal done i tasks has)
          (poll_awaiting host (idle host id input [] n []) [] n given goal (mark i done) (suc left)
            j k held (set channels i d) sum ends (λ l h. mark_keeps i l done (below l h))
            (Carries-mark host registry id input now requests results n goal done i j channels d lt
              got carried)))

  -- The context once all requests were acknowledged.
  pub listening-IsWaiting :
      (k : List String → Script)
      → 0 < n
      → k (map given (indices n 0)) ≡ goal
      → IsWaiting (λ i. false) (listening host registry id input now requests n k [])
  listening-IsWaiting k some_request ends =
      let positive : suc (n - 1) ≡ n = omega arith in
      waits_at (n - 1) 0 k (receivers host id input requests n) (tasks_map n)
        (fresh_channels host id input requests n) (omega arith)
        (ap (λ (m : ℕ). k (map given (indices m 0))) positive ∙ ends) refl
        (λ i h. absurd (omega arith))
        (record {
          sized = length-fresh_channels host id input requests n;
          sent = λ i le lt bad. absurd (cc);
          unsent = λ i le lt undone. get_or-fresh_channels host id input requests n i;
        })
        (λ i lt undone. lookup-tasks_map i n lt) (ap (λ (m : ℕ). listening_at m) (sym positive))
    where
      listening_at : ℕ → OrchestrationExecutorContext Chan
      listening_at m =
          context_of (code_at m 0 k) (receivers host id input requests n) (tasks_map n)
            (fresh_channels host id input requests n)
