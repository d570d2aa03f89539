-- ===== src/Oneshot.antt =====
-- tokio's `oneshot` channels, which are not the repository's code: a parameter of the model.
-- `Chan` is the state of one channel, up to the wakers that wait on it. The program sends an
-- `Option<String>`.
use durabletask_rs.Prelude.{String, ◌≡◌, Option, none, some}

-- What a poll of the receiver finds.
pub data Received : Type 0 where
  -- `Poll::Pending`
  not_yet : Received
  -- `Poll::Ready(Ok(value))`
  value : Option String → Received
  -- `Poll::Ready(Err(_))`: the sender was dropped and sent nothing
  closed : Received
  -- tokio panics: the receiver is polled after it was ready
  called_after_complete : Received

pub record OneshotApi (Chan : Type 0) : Type 0 where
  -- `oneshot::channel()`
  pub channel : Chan
  -- `Sender::send`, which consumes the sender; `none` is `Err`, when the receiver was dropped
  pub send : Option String → Chan → Option Chan
  pub drop_sender : Chan → Chan
  pub drop_receiver : Chan → Chan
  -- `poll` of the receiver
  pub poll_recv : Chan → Received × Chan
  -- A receiver waits while nothing is sent.
  pub poll-channel : poll_recv channel ≡ (not_yet, channel)
  -- What is sent to a receiver that lives is received: at a poll outside a tokio task, or by a task
  -- that has cooperative budget left in its current poll.
  pub send-channel :
      (v : Option String) → (c : Chan) × (send v channel ≡ some c) × ((poll_recv c).0 ≡ value v)
  -- A receiver whose sender is gone is told so.
  pub poll-drop_sender : (poll_recv (drop_sender channel)).0 ≡ closed
  -- Nothing can be sent to a receiver that is gone.
  pub send-drop_receiver : (v : Option String) → send v (drop_receiver channel) ≡ none
