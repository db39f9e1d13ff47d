-- ===== src/Channel/Handles.antt =====
-- lib/channel/src/lib.rs: `Sender`, `Receiver` and `OnDemandReceiver`, with their polls, clones and
-- drops, and the statistics of a channel. A handle is what it holds itself, its listener; the
-- channel that it shares is passed along. A poll loops on fuel; `none` is fuel used up.
pub mod Listening
pub mod Polls
pub mod Receives
pub mod Wakes
pub mod Calls
use pewpew.Prelude.{ℕ, zero, suc, Bool, true, false, Option, none, some, ◌==◌, ltb, if◌then◌else◌}
use Prim.Native.String.{String}
use pewpew.Channel.Crates.{Deps}
use pewpew.Channel.{
  Limit, Channel, new, len, current_limit, send, recv, notify_all_receivers, notify_all_senders,
  increment_sender_count, decrement_sender_count, increment_receiver_count,
  decrement_receiver_count, increment_on_demand_count, decrement_on_demand_count,
}

pub data SendState (T : Type 0) : Type 0 where
  closed full : T → SendState T
  success : SendState T

unfoldable pub is_success : {T : Type 0} → SendState T → Bool
is_success success = true
is_success (closed item) = false
is_success (full item) = false

pub data Poll (A : Type 0) : Type 0 where
  ready : A → Poll A
  pending : Poll A

-- `Result<(), ChannelClosed>`.
pub data SinkResult : Type 0 where
  sink_ok channel_closed : SinkResult

pub record ChannelStats : Type 0 where
  pub timestamp : ℕ
  pub provider : String
  pub len : ℕ
  pub limit : ℕ
  pub receiver_count : ℕ
  pub sender_count : ℕ
  pub on_demand_count : ℕ

module _ {T : Type 0} (d : Deps T) where
  pub record Sender : Type 0 where
    pub listener : Option d.Listener

  pub record Receiver : Type 0 where
    pub listener : Option d.Listener

  pub record OnDemandReceiver : Type 0 where
    pub listener : Option d.Listener

  -- The entry point `channel`.
  unfoldable pub channel : Limit → Bool → String → Sender × Receiver × Channel d
  unfolding new
  channel limit unique name =
      (record { listener = none }, record { listener = none }, new d limit unique name)

  unfoldable pub no_receivers : Channel d → Bool
  no_receivers c = c.receiver_count == 0

  unfoldable pub force_send : T → Channel d → Channel d
  unfolding send
  force_send item c = send d item c

  unfoldable pub try_send : T → Channel d → SendState T × Channel d
  unfolding no_receivers len current_limit force_send
  try_send item c =
      if no_receivers c
      then (closed item, c)
      else if ltb (len d c) (current_limit d c)
      then (success, force_send item c)
      else if no_receivers c
      then (closed item, c)
      else (full item, c)

  -- `self.listener = None`, and the drop of a handle's listener.
  unfoldable pub discard : Option d.Listener → d.Event → d.Event
  discard none e = e
  discard (some l) e = d.discard l e

  unfoldable pub clone_sender : Channel d → Sender × Channel d
  unfolding increment_sender_count
  clone_sender c = (record { listener = none }, (increment_sender_count d c).0)

  unfoldable pub drop_sender : Sender → Channel d → Channel d
  unfolding decrement_sender_count notify_all_receivers discard
  drop_sender s c =
      let (c', count) = decrement_sender_count d c in
      let c'' = if count == 0 then notify_all_receivers d c' else c' in
      record c'' { sender_events = discard s.listener c''.sender_events }

  unfoldable pub clone_receiver : Channel d → Receiver × Channel d
  unfolding increment_receiver_count
  clone_receiver c = (record { listener = none }, (increment_receiver_count d c).0)

  unfoldable pub drop_receiver : Receiver → Channel d → Channel d
  unfolding decrement_receiver_count notify_all_senders discard
  drop_receiver r c =
      let (c', count) = decrement_receiver_count d c in
      let c'' = if count == 0 then notify_all_senders d c' else c' in
      record c'' { receiver_events = discard r.listener c''.receiver_events }

  unfoldable pub new_on_demand : Channel d → OnDemandReceiver × Channel d
  new_on_demand c = (record { listener = none }, c)

  unfoldable pub clone_on_demand : Channel d → OnDemandReceiver × Channel d
  unfolding increment_on_demand_count
  clone_on_demand c = (record { listener = none }, (increment_on_demand_count d c).0)

  unfoldable pub drop_on_demand : OnDemandReceiver → Channel d → Channel d
  unfolding decrement_on_demand_count discard
  drop_on_demand o c =
      let c' = (decrement_on_demand_count d c).0 in
      record c' { on_demand_events = discard o.listener c'.on_demand_events }

  -- The rest of an iteration of `poll_ready`, where the sender holds no listener; `again` is the
  -- next iteration.
  unfoldable pub ready_or_listen :
      (Sender → Channel d → Option (Poll SinkResult × Sender × Channel d))
      → Channel d
      → Option (Poll SinkResult × Sender × Channel d)
  unfolding len current_limit
  ready_or_listen again c =
      if ltb (len d c) (current_limit d c)
      then some (ready sink_ok, record { listener = none }, c)
      else let (l, e) = d.listen c.sender_events in
        again (record { listener = some l }) (record c { sender_events = e })

  unfoldable pub poll_ready : ℕ → Sender → Channel d → Option (Poll SinkResult × Sender × Channel d)
  unfolding no_receivers discard ready_or_listen
  poll_ready zero s c = none
  poll_ready (suc fuel) s c =
      if no_receivers c
      then some (
        ready channel_closed,
        record { listener = none },
        record c { sender_events = discard s.listener c.sender_events },
      )
      else elim s.listener [
        | none ↦ ready_or_listen (poll_ready fuel) c
        | some l ↦
            let (notified, e) = d.poll l c.sender_events in
            let c' = record c { sender_events = e } in
            if notified then ready_or_listen (poll_ready fuel) c' else some (pending, s, c')
      ]

  unfoldable pub start_send : T → Channel d → SinkResult × Channel d
  unfolding force_send
  start_send item c = (sink_ok, force_send item c)

  -- The rest of an iteration of the receiver's `poll_next`, where it holds no listener.
  unfoldable pub recv_or_listen :
      (Receiver → Channel d → Option (Poll (Option T) × Receiver × Channel d))
      → Option T × Channel d
      → Option (Poll (Option T) × Receiver × Channel d)
  recv_or_listen again (some item, c) = some (ready (some item), record { listener = none }, c)
  recv_or_listen again (none, c) =
      if c.sender_count == 0
      then some (ready none, record { listener = none }, c)
      else let (l, e) = d.listen c.receiver_events in
        again (record { listener = some l }) (record c { receiver_events = e })

  unfoldable pub poll_next :
      ℕ → Receiver → Channel d → Option (Poll (Option T) × Receiver × Channel d)
  unfolding recv recv_or_listen
  poll_next zero r c = none
  poll_next (suc fuel) r c = elim r.listener [
    | none ↦ recv_or_listen (poll_next fuel) (recv d c)
    | some l ↦
        let (notified, e) = d.poll l c.receiver_events in
        let c' = record c { receiver_events = e } in
        if notified then recv_or_listen (poll_next fuel) (recv d c') else some (pending, r, c')
  ]

  -- The `poll_next` of an `OnDemandReceiver`: it listens anew after each notice.
  unfoldable pub poll_demand :
      ℕ
      → OnDemandReceiver
      → Channel d
      → Option (Poll (Option (Unit {0})) × OnDemandReceiver × Channel d)
  unfolding discard
  poll_demand zero o c = none
  poll_demand (suc fuel) o c =
      if c.receiver_count == 0
      then some (
        ready none,
        record { listener = none },
        record c { on_demand_events = discard o.listener c.on_demand_events },
      )
      else elim o.listener [
        | some l ↦
            let (notified, e) = d.poll l c.on_demand_events in
            let (l', e') = d.listen e in
            if notified
            then some
                (ready (some tt), record { listener = some l' }, record c { on_demand_events = e' })
            else some (pending, o, record c { on_demand_events = e })
        | none ↦
            let (l, e) = d.listen c.on_demand_events in
            let again = poll_demand fuel in
            again (record { listener = some l }) (record c { on_demand_events = e })
      ]

  unfoldable pub get_stats : String → ℕ → Channel d → ChannelStats
  unfolding len current_limit
  get_stats provider timestamp c = record {
    timestamp = timestamp;
    provider = provider;
    len = len d c;
    limit = current_limit d c;
    receiver_count = c.receiver_count;
    sender_count = c.sender_count;
    on_demand_count = c.on_demand_count;
  }
