-- ===== src/Sequential/FanOut/Sent.antt =====
-- A reply that comes while the code waits, and the code that goes on.
use durabletask_rs.Prelude.{ℕ, suc, ◌<◌, ◌≡◌, refl, ap, String, Option, some, List, [], get_or, set}
use durabletask_rs.Prelude.Int.{ℤ, pos, int_eq, i32_max}
use durabletask_rs.Prelude.HashMap.{HashMap, lookup, insert, remove}
use durabletask_rs.Prelude.Outcome.{returns, ◌>>=◌}
use durabletask_rs.Prelude.Result.{ok}
use durabletask_rs.Oneshot.{value}
use durabletask_rs.Proto.{Timestamp}
use durabletask_rs.Types.Context.{Host}
use durabletask_rs.Types.Async.{Async, suspended, poll_async}
use durabletask_rs.Types.Function.{OrchestratorResult}
use durabletask_rs.Registry.{Registry}
use durabletask_rs.Executor.Context.{OrchestrationExecutorContext, drain, get_actions}
use durabletask_rs.Executor.Poll.{poll_unwrap}
use durabletask_rs.Executor.Event.{complete_task, send_to}
use durabletask_rs.Executor.Execute.{round}
use durabletask_rs.Sequential.{
  Request, activity, sub_orchestrator, timer, Script, finish, ask, fault, code_of, due, reply,
  replied_event,
}
use durabletask_rs.Sequential.Poll.{fresh, idle_world, poll_ask, i32_succ_below}
use durabletask_rs.Sequential.Round.{context}
use durabletask_rs.Sequential.Replay.{zero_time, answer_due}

module _ {Chan Act : Type 0} (host : Host Chan) (registry : Registry Act) (id : String)
    (input : Option String) (now : Timestamp) (n : ℕ) where
  -- The executor's context while `n` requests are acknowledged and nothing else is to be asked for.
  abbrev pub around :
      Async (OrchestratorResult String)
      → List ℕ
      → HashMap ℤ ℕ
      → List Chan
      → OrchestrationExecutorContext Chan
  around code held tasks channels =
      context host id input zero_time n (some code) held [] tasks channels

  -- The code goes on behind the requests: the executor answers what is due there.
  pub answer_on :
      (s : Script) (held : List ℕ) (tasks : HashMap ℤ ℕ) (channels : List Chan)
      → n < i32_max
      → (poll_unwrap host (around (code_of s) held tasks channels)
          >>= (λ c. returns (drain host c))
          >>= λ c. returns (ok (get_actions c)))
        ≡ answer_due (due host.clock (suc n) s)
  unfolding poll_unwrap drain insert poll_async get_actions
  answer_on (finish result) held tasks channels h = rw (i32_succ_below n h)
  answer_on (fault p) held tasks channels h = refl
  answer_on (ask q k) held tasks channels h =
      rw (poll_ask host id input [] q (λ r. code_of (k r)) n held channels h)

  -- A result that comes is sent to its task, and the code is polled.
  pub sent_to :
      (i : ℕ) (code : Async (OrchestratorResult String)) (held : List ℕ) (tasks : HashMap ℤ ℕ)
      (channels : List Chan) (r : String)
      → lookup (pos (suc i)) tasks ≡ some i
      → get_or channels i (fresh host) ≡ fresh host
      → (d : Chan) × (complete_task host (pos (suc i)) (some r) (around code held tasks channels)
          ≡ returns (around code held (remove (pos (suc i)) tasks) (set channels i d)))
        × ((host.oneshot.poll_recv d).0 ≡ value (some r))
  unfolding complete_task send_to
  sent_to i code held tasks channels r found empty =
      let (d, sent, got) = host.oneshot.send-channel (some r) in (d, rw (found, empty, sent), got)

  -- The reply to a request is sent to its task, and the code is polled.
  pub replied_round :
      (q : Request) (r : String) (i : ℕ) (code : Async (OrchestratorResult String)) (held : List ℕ)
      (tasks : HashMap ℤ ℕ) (channels : List Chan)
      → lookup (pos (suc i)) tasks ≡ some i
      → get_or channels i (fresh host) ≡ fresh host
      → (d : Chan) × (round host registry id
            (replied_event host.clock now q (pos (suc i)) r)
            (around code held tasks channels)
          ≡ (poll_unwrap host (around code held (remove (pos (suc i)) tasks) (set channels i d))
              >>= λ c. returns (drain host c)))
        × ((host.oneshot.poll_recv d).0 ≡ value (some (reply q r)))
  unfolding round replied_event
  replied_round (activity name text) r i code held tasks channels found empty =
      let (d, e, got) = sent_to i code held tasks channels r found empty in
      (d, ap (λ p. p >>= poll_unwrap host >>= λ c. returns (drain host c)) e, got)
  replied_round (sub_orchestrator name inst text) r i code held tasks channels found empty =
      let (d, e, got) = sent_to i code held tasks channels r found empty in
      (d, ap (λ p. p >>= poll_unwrap host >>= λ c. returns (drain host c)) e, got)
  replied_round (timer millis) r i code held tasks channels found empty =
      let (d, e, got) = sent_to i code held tasks channels "" found empty in
      (d, ap (λ p. p >>= poll_unwrap host >>= λ c. returns (drain host c)) e, got)

  -- A poll at which the code goes on waiting, and one at which it runs into other code.
  pub polled_suspended :
      (code code' : Async (OrchestratorResult String)) (held held' : List ℕ) (tasks : HashMap ℤ ℕ)
      (channels channels' : List Chan)
      → poll_async host code (idle_world host id input [] n held channels)
        ≡ returns (suspended code', idle_world host id input [] n held' channels')
      → (poll_unwrap host (around code held tasks channels) >>= λ c. returns (drain host c))
        ≡ returns (around code' held' tasks channels')
  unfolding poll_unwrap drain
  polled_suspended code code' held held' tasks channels channels' e = rw e

  pub polled_into :
      (code code' : Async (OrchestratorResult String)) (held held' : List ℕ) (tasks : HashMap ℤ ℕ)
      (channels channels' : List Chan)
      → poll_async host code (idle_world host id input [] n held channels)
        ≡ poll_async host code' (idle_world host id input [] n held' channels')
      → (poll_unwrap host (around code held tasks channels) >>= λ c. returns (drain host c))
        ≡ (poll_unwrap host (around code' held' tasks channels') >>= λ c. returns (drain host c))
  unfolding poll_unwrap drain
  polled_into code code' held held' tasks channels channels' e = rw e
