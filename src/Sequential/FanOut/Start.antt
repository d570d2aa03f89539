-- ===== src/Sequential/FanOut/Start.antt =====
-- The first poll of code that starts all of its requests, and what the executor takes from it.
use durabletask_rs.Prelude.{
  ℕ, zero, suc, ◌+◌, ◌<◌, ◌≡◌, refl, ap, ◌∙◌, String, Option, List, [], ◌∷◌, ◌++◌, map, length,
  get_or, length-append, arith,
}
use durabletask_rs.Prelude.Int.{ℤ, pos, i32_max}
use durabletask_rs.Proto.{OrchestratorAction}
use durabletask_rs.Task.{CompletableTask, new_task}
use durabletask_rs.Types.Context.{Host, World, OrchestratorContext, send_request, start_task}
use durabletask_rs.Types.Async.{Async, poll_async}
use durabletask_rs.Sequential.{Request, request_action, start_request}
use durabletask_rs.Sequential.Poll.{task_on, fresh, poll_start, i32_succ_below}
use durabletask_rs.Sequential.FanOut.{start_all, indices}

-- A default that is put last is read as the default everywhere.
get_or-append_default {ℓ} :
    {A : Type ℓ} (xs : List A) (i : ℕ) (d : A) → get_or (xs ++ d ∷ []) i d ≡ get_or xs i d
get_or-append_default [] zero d = refl
get_or-append_default [] (suc i) d = refl
get_or-append_default (x ∷ xs) zero d = refl
get_or-append_default (x ∷ xs) (suc i) d = get_or-append_default xs i d

module _ {Chan : Type 0} (host : Host Chan) (id : String) (input : Option String)
    (requests : ℕ → Request) where
  -- What was sent once the first `j` requests were started, and what the code holds.
  abbrev pub action_of : ℕ → OrchestratorAction
  action_of j = request_action host.clock (requests j) (pos (suc j))

  abbrev pub sent_actions : ℕ → List (ℤ × OrchestratorAction)
  sent_actions zero = []
  sent_actions (suc j) = sent_actions j ++ (pos (suc j), action_of j) ∷ []

  abbrev pub sent_tasks : ℕ → List (ℤ × ℕ)
  sent_tasks zero = []
  sent_tasks (suc j) = sent_tasks j ++ (pos (suc j), j) ∷ []

  abbrev pub receivers : ℕ → List ℕ
  receivers zero = []
  receivers (suc j) = j ∷ receivers j

  abbrev pub fresh_channels : ℕ → List Chan
  fresh_channels zero = []
  fresh_channels (suc j) = fresh_channels j ++ fresh host ∷ []

  pub length-fresh_channels : (j : ℕ) → length (fresh_channels j) ≡ j
  length-fresh_channels zero = refl
  length-fresh_channels (suc j) =
      omega (arith, length-append (fresh_channels j) (fresh host ∷ []), length-fresh_channels j)

  pub get_or-fresh_channels : (j i : ℕ) → get_or (fresh_channels j) i (fresh host) ≡ fresh host
  get_or-fresh_channels zero i = refl
  get_or-fresh_channels (suc j) i =
      get_or-append_default (fresh_channels j) i (fresh host) ∙ get_or-fresh_channels j i

  abbrev pub octx_at : ℕ → OrchestratorContext
  octx_at j = record {
    instance_id = id;
    input = input;
    sequence_number = pos j;
    actions_tx = sent_actions j;
    tasks_tx = sent_tasks j;
    events_tx = [];
    held = receivers j;
  }

  abbrev pub world_at : ℕ → World Chan
  world_at j = record { octx = octx_at j; received_events = []; channels = fresh_channels j }

  start_one :
      {A : Type 0} (j : ℕ) (k : CompletableTask → Async A)
      → j < i32_max
      → poll_async host (start_request (requests j) k) (world_at j)
        ≡ poll_async host (k (task_on j)) (world_at (suc j))
  unfolding send_request start_task new_task
  start_one j k h =
      poll_start host (requests j) k (world_at j) ∙ rw (i32_succ_below j h, length-fresh_channels j)

  pub poll-start_all :
      {A : Type 0} (n left j : ℕ) (k : List CompletableTask → Async A)
      → left + j ≡ n
      → n < i32_max
      → poll_async host (start_all (map requests (indices left j)) k) (world_at j)
        ≡ poll_async host (k (map task_on (indices left j))) (world_at n)
  poll-start_all n zero j k sum few =
      let same : j ≡ n = omega arith in ap (λ m. poll_async host (k []) (world_at m)) same
  poll-start_all n (suc left) j k sum few =
      start_one j _ (omega arith)
      ∙ poll-start_all n left (suc j) (λ tasks. k (task_on j ∷ tasks)) (omega arith) few
