-- ===== src/Channel/Handles/Calls.antt =====
-- Histories of a channel of lib/channel/src/lib.rs: the calls that its handles make, one after the
-- other, in any order. A poll gets the two rounds that it needs; `poll_ready` and `start_send` are
-- two calls, between which other handles may call.
pub mod Order
pub mod Keeps
pub mod Induction
pub mod Unique
pub mod Limits
use pewpew.Prelude.{ℕ, Bool, true, Option, none, some, List, [], ◌∷◌, ◌++◌, if◌then◌else◌}
use pewpew.Channel.Crates.{Deps}
use pewpew.Channel.{Channel, send}
use pewpew.Channel.Contents.{accepted}
use pewpew.Channel.Handles.{
  Sender, Receiver, OnDemandReceiver, SendState, closed, full, success, Poll, ready, pending,
  SinkResult, sink_ok, channel_closed, try_send, force_send, start_send, clone_sender, drop_sender,
  clone_receiver, drop_receiver, clone_on_demand, drop_on_demand, poll_ready, poll_next,
  poll_demand,
}

module _ {T : Type 0} (d : Deps T) where
  pub data Call : Type 0 where
    trying forcing : T → Call
    polling_ready : Sender d → Call
    starting : T → Call
    receiving dropping_receiver : Receiver d → Call
    demanding dropping_on_demand : OnDemandReceiver d → Call
    dropping_sender : Sender d → Call
    cloning_sender cloning_receiver cloning_on_demand : Call

  abbrev pub after_ready : Channel d → Option (Poll SinkResult × Sender d × Channel d) → Channel d
  after_ready c none = c
  after_ready c (some (p, s, c')) = c'

  abbrev pub after_next :
      Channel d → Option (Poll (Option T) × Receiver d × Channel d) → List T × Channel d
  after_next c none = ([], c)
  after_next c (some (ready (some x), r, c')) = (x ∷ [], c')
  after_next c (some (ready none, r, c')) = ([], c')
  after_next c (some (pending, r, c')) = ([], c')

  abbrev pub after_demand :
      Channel d → Option (Poll (Option (Unit {0})) × OnDemandReceiver d × Channel d) → Channel d
  after_demand c none = c
  after_demand c (some (p, o, c')) = c'

  -- The items that the call delivers, and the channel after it.
  unfoldable pub step : Call → Channel d → List T × Channel d
  step (trying x) c = ([], (try_send d x c).1)
  step (forcing x) c = ([], force_send d x c)
  step (polling_ready s) c = ([], after_ready c (poll_ready d 2 s c))
  step (starting x) c = ([], (start_send d x c).1)
  step (receiving r) c = after_next c (poll_next d 2 r c)
  step (dropping_receiver r) c = ([], drop_receiver d r c)
  step (demanding o) c = ([], after_demand c (poll_demand d 2 o c))
  step (dropping_on_demand o) c = ([], drop_on_demand d o c)
  step (dropping_sender s) c = ([], drop_sender d s c)
  step cloning_sender c = ([], (clone_sender d c).1)
  step cloning_receiver c = ([], (clone_receiver d c).1)
  step cloning_on_demand c = ([], (clone_on_demand d c).1)

  unfoldable pub run : List Call → Channel d → List T × Channel d
  run [] c = ([], c)
  run (k ∷ ks) c = let (out, c') = step k c in let (outs, c'') = run ks c' in (out ++ outs, c'')
