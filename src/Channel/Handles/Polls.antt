-- ===== src/Channel/Handles/Polls.antt =====
-- `Sink::poll_ready` of `Sender` in lib/channel/src/lib.rs.
use pewpew.Prelude.{
  ℕ, suc, ◌≡◌, refl, ◌⊎◌, inl, inr, ◌<◌, ◌≤◌, true, false, Option, none, some, ltb, Bool-cases,
  ltb→lt, ltb→le,
}
use pewpew.Channel.Crates.{Deps}
use pewpew.Channel.{Channel, len, current_limit}
use pewpew.Channel.Handles.Listening.{HoldsActive, Waits, Unnotified}
use pewpew.Channel.Handles.{
  Sender, Poll, ready, pending, SinkResult, sink_ok, channel_closed, poll_ready, ready_or_listen,
  no_receivers,
}

module _ {T : Type 0} (d : Deps T) where
  abbrev pub ReadyFits :
      Option d.Listener → Channel d → Option (Poll SinkResult × Sender d × Channel d) → Type 0
  ReadyFits l c none = ⊥
  ReadyFits l c (some (ready channel_closed, s', c')) =
      (no_receivers d c ≡ true) × (c'.queue ≡ c.queue)
  ReadyFits l c (some (ready sink_ok, s', c')) =
      (no_receivers d c ≡ false) × (c'.queue ≡ c.queue) × (len d c < current_limit d c)
  ReadyFits l c (some (pending, s', c')) =
      (no_receivers d c ≡ false)
      × (c'.queue ≡ c.queue)
      × Waits d s'.listener c'.sender_events
      × ((current_limit d c ≤ len d c) ⊎ Unnotified d l c.sender_events)

  fresh_sender_pending :
      (n : ℕ) (c : Channel d)
      → no_receivers d c ≡ false
      → let (l, e) = d.listen c.sender_events in
        poll_ready d (suc n) (record { listener = some l }) (record c { sender_events = e })
        ≡ some (pending, record { listener = some l }, record c { sender_events = (d.poll l e).1 })
  unfolding poll_ready
  fresh_sender_pending n c h = rw (h, d.poll-listen c.sender_events)

  ready_or_listen-Fits :
      (n : ℕ) (l : Option d.Listener) (e : d.Event) (c : Channel d)
      → no_receivers d c ≡ false
      → ReadyFits l (record c { sender_events = e }) (ready_or_listen d (poll_ready d (suc n)) c)
  unfolding ready_or_listen no_receivers
  ready_or_listen-Fits n l e c h = elim (Bool-cases (ltb (len d c) (current_limit d c))) [
    | inl room ↦ rw room (h, refl, ltb→lt _ _ room)
    | inr full ↦
        rw (full, fresh_sender_pending n c h)
          (
            h,
            refl,
            d.poll-IsActive _ _ (d.listen-IsActive c.sender_events) (d.poll-listen c.sender_events),
            inl (ltb→le _ _ full),
          )
  ]

  -- One round of the loop, by what is held.
  module _ (n : ℕ) (c : Channel d) (open_ : no_receivers d c ≡ false) where
    free_round :
        poll_ready d (suc n) (record { listener = none }) c ≡ ready_or_listen d (poll_ready d n) c
    unfolding poll_ready
    free_round = rw open_

    notified_round :
        (l : d.Listener)
        → (d.poll l c.sender_events).0 ≡ true
        → poll_ready d (suc n) (record { listener = some l }) c
          ≡ ready_or_listen d
              (poll_ready d n)
              (record c { sender_events = (d.poll l c.sender_events).1 })
    unfolding poll_ready
    notified_round l h = rw (open_, h)

    waiting_round :
        (l : d.Listener)
        → (d.poll l c.sender_events).0 ≡ false
        → poll_ready d (suc n) (record { listener = some l }) c
          ≡ some (
            pending,
            record { listener = some l },
            record c { sender_events = (d.poll l c.sender_events).1 },
          )
    unfolding poll_ready
    waiting_round l h = rw (open_, h)

  open_poll-Fits :
      (n : ℕ) (l : Option d.Listener) (c : Channel d)
      → HoldsActive d l c.sender_events
      → no_receivers d c ≡ false
      → ReadyFits l c (poll_ready d (suc (suc n)) (record { listener = l }) c)
  unfolding no_receivers
  open_poll-Fits n none c active h =
      rw (free_round (suc n) c h) (ready_or_listen-Fits n none c.sender_events c h)
  open_poll-Fits n (some l) c active h = elim (Bool-cases (d.poll l c.sender_events).0) [
    | inl notified ↦ rw (notified_round (suc n) c h l notified) (
        ready_or_listen-Fits n (some l) c.sender_events
          (record c { sender_events = (d.poll l c.sender_events).1 }) h)
    | inr still ↦
        rw (waiting_round (suc n) c h l still)
          (h, refl, d.poll-IsActive _ _ active still, inr still)
  ]

  -- For a sender whose listener, if it holds one, is active: two rounds of `poll_ready` give a result,
  -- and the queue is left alone. It is closed only if there are no receivers; ready only if there are
  -- receivers and the channel is below its limit; and pending only if there are receivers, the sender
  -- then holds an active listener, and the channel is full or the listener held had no notice.
  pub poll_ready-Fits :
      (n : ℕ) (s : Sender d) (c : Channel d)
      → HoldsActive d s.listener c.sender_events
      → ReadyFits s.listener c (poll_ready d (suc (suc n)) s c)
  unfolding poll_ready
  poll_ready-Fits n s c active = elim (Bool-cases (no_receivers d c)) [
    | inl gone ↦ rw (gone, poll_ready) (gone, refl)
    | inr h ↦ open_poll-Fits n s.listener c active h
  ]
