-- ===== src/Task.antt =====
-- crates/sdk/src/task.rs: a future that is completed through a oneshot channel.
-- The channels are in a list, and a sender or a receiver is a channel's index in it.
use durabletask_rs.Prelude.{
  ℕ, String, Bool, true, false, Option, none, some, List, [], ◌∷◌, ◌++◌, length, get_or, set,
}
use durabletask_rs.Prelude.Outcome.{Outcome, returns, panics, unwrap_none, resumed_after_completion}
use durabletask_rs.Oneshot.{Received, not_yet, value, closed, called_after_complete, OneshotApi}

pub data Poll {ℓ} (A : Type ℓ) : Type ℓ where
  ready : A → Poll A
  pending : Poll A

pub record CompletableTask : Type 0 where
  pub completed : Bool
  pub result : Option String
  pub unblock_rx : Option ℕ

-- `complete`
unfoldable pub complete : CompletableTask → String → CompletableTask
complete task result = record task { result = some result; completed = true }

-- `fail`, whose body is empty
unfoldable pub fail : CompletableTask → String → CompletableTask
fail task result = task

module _ {Chan : Type 0} (api : OneshotApi Chan) where
  -- `CompletableTask::new`: the task, the sender that unblocks it, and the channels.
  unfoldable pub new_task : List Chan → CompletableTask × ℕ × List Chan
  new_task channels = (
    record { completed = false; result = none; unblock_rx = some (length channels) },
    length channels,
    channels ++ api.channel ∷ [],
  )

  abbrev pub Polled : Type 0
  Polled = Poll String × CompletableTask × List Chan

  -- The match on what the receiver's poll found.
  abbrev pub on_received : CompletableTask → List Chan → Received → Outcome Polled
  on_received task channels (value (some result)) = returns (ready result, task, channels)
  on_received task channels (value none) = panics unwrap_none
  on_received task channels closed = returns (pending, task, channels)
  on_received task channels not_yet = returns (pending, task, channels)
  on_received task channels called_after_complete = panics resumed_after_completion

  abbrev pub poll_receiver : CompletableTask → List Chan → Option ℕ → Outcome Polled
  poll_receiver task channels none = panics unwrap_none
  poll_receiver task channels (some i) =
      let (found, chan) = api.poll_recv (get_or channels i api.channel) in
      on_received task (set channels i chan) found

  -- `self.result.take().unwrap()`
  abbrev pub take_result : CompletableTask → List Chan → Option String → Outcome Polled
  take_result task channels none = panics unwrap_none
  take_result task channels (some result) =
      returns (ready result, record task { result = none }, channels)

  abbrev poll_state : Bool → CompletableTask → List Chan → Outcome Polled
  poll_state true task channels = take_result task channels task.result
  poll_state false task channels = poll_receiver task channels task.unblock_rx

  -- `Future::poll` of a task.
  unfoldable pub poll_task : CompletableTask → List Chan → Outcome Polled
  poll_task task channels = poll_state task.completed task channels
