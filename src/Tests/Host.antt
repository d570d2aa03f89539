-- ===== src/Tests/Host.antt =====
-- A oneshot channel that behaves as the parameter's laws say, and a host that runs.
use durabletask_rs.Prelude.{String, refl, Option, none, some}
use durabletask_rs.Prelude.Int.{pos}
use durabletask_rs.Oneshot.{Received, not_yet, value, closed, called_after_complete, OneshotApi}
use durabletask_rs.Types.Code.{Arm, ProgressWith, Joined, joined_of}
use durabletask_rs.Types.Context.{Host, JoinApi, World}
use durabletask_rs.Prelude.Outcome.{Outcome, returns, panics}

pub data ChanState : Type 0 where
  empty : ChanState
  full : Option String → ChanState
  no_sender no_receiver taken : ChanState

abbrev pub send : Option String → ChanState → Option ChanState
send v empty = some (full v)
send v _ = none

abbrev pub drop_sender : ChanState → ChanState
drop_sender empty = no_sender
drop_sender c = c

abbrev pub drop_receiver : ChanState → ChanState
drop_receiver c = no_receiver

abbrev pub poll_recv : ChanState → Received × ChanState
poll_recv empty = (not_yet, empty)
poll_recv (full v) = (value v, taken)
poll_recv no_sender = (closed, taken)
poll_recv no_receiver = (called_after_complete, no_receiver)
poll_recv taken = (called_after_complete, taken)

abbrev pub oneshot : OneshotApi ChanState
oneshot = record {
  channel = empty;
  send = send;
  drop_sender = drop_sender;
  drop_receiver = drop_receiver;
  poll_recv = poll_recv;
  poll-channel = refl;
  send-channel = λ v. (full v, refl, refl);
  poll-drop_sender = refl;
  send-drop_receiver = λ v. refl;
}

-- `join!`: the arms one after the other.
module _ (poll : Arm → World ChanState → Outcome (ProgressWith ⊥ String × World ChanState)) where
  abbrev with_second :
      ProgressWith ⊥ String
      → Outcome (ProgressWith ⊥ String × World ChanState)
      → Outcome (Joined (Arm × Arm) × World ChanState)
  with_second progress₁ (panics p) = panics p
  with_second progress₁ (returns (progress₂, w₂)) = returns (joined_of progress₁ progress₂, w₂)

  abbrev with_first :
      Arm
      → Outcome (ProgressWith ⊥ String × World ChanState)
      → Outcome (Joined (Arm × Arm) × World ChanState)
  with_first arm₂ (panics p) = panics p
  with_first arm₂ (returns (progress₁, w₁)) = with_second progress₁ (poll arm₂ w₁)

  abbrev pub poll_both :
      Arm × Arm → World ChanState → Outcome (Joined (Arm × Arm) × World ChanState)
  poll_both (arm₁, arm₂) w = with_first arm₂ (poll arm₁ w)

abbrev pub join_api : JoinApi ChanState
join_api = record {
  poll_join = poll_both;
  join-returns = λ poll arm₁ arm₂ w w₁ w₂ progress₁ progress₂ e₁ e₂. rw (e₁, e₂);
  join_panics_first = λ poll arm₁ arm₂ w p e. rw e;
  join_panics_second = λ poll arm₁ arm₂ w w₁ progress₁ p e₁ e₂. rw (e₁, e₂);
}

abbrev pub host : Host ChanState
host = record {
  oneshot = oneshot;
  join_api = join_api;
  to_lowercase = λ s. s;
  clock = λ id millis. record { seconds = pos millis; nanos = id };
}
