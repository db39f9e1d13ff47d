-- ===== src/Channel/Handles/Receives.antt =====
-- `Stream::poll_next` of `Receiver` in lib/channel/src/lib.rs.
use pewpew.Prelude.{
  ℕ, suc, ◌≡◌, refl, sym, ap, ◌∙◌, ◌⊎◌, inl, inr, false, Option, none, some, [], ◌∷◌, ◌==◌,
  Bool-cases, true,
}
use pewpew.Channel.Crates.{Deps}
use pewpew.Channel.{Channel, recv, notify_on_demand}
use pewpew.Channel.Contents.{items, Recvs, recv-Recvs}
use pewpew.Channel.Handles.{Receiver, Poll, ready, pending, poll_next, recv_or_listen}
use pewpew.Channel.Handles.Listening.{HoldsActive, Waits, Unnotified}

module _ {T : Type 0} (d : Deps T) where
  abbrev pub NextFits :
      Option d.Listener → Channel d → Option (Poll (Option T) × Receiver d × Channel d) → Type 0
  NextFits l c none = ⊥
  NextFits l c (some (ready (some x), r', c')) =
      (items d c ≡ x ∷ items d c') × (c'.sender_count ≡ c.sender_count)
  NextFits l c (some (ready none, r', c')) =
      (items d c ≡ []) × (items d c' ≡ []) × (c.sender_count == 0 ≡ true)
  NextFits l c (some (pending, r', c')) =
      (items d c' ≡ items d c)
      × Waits d r'.listener c'.receiver_events
      × (((items d c ≡ []) × (c.sender_count == 0 ≡ false)) ⊎ Unnotified d l c.receiver_events)

  -- One round of the loop, by what is held.
  module _ (n : ℕ) (c : Channel d) where
    free_round :
        poll_next d (suc n) (record { listener = none }) c
        ≡ recv_or_listen d (poll_next d n) (recv d c)
    unfolding poll_next
    free_round = refl

    notified_round :
        (l : d.Listener)
        → (d.poll l c.receiver_events).0 ≡ true
        → poll_next d (suc n) (record { listener = some l }) c
          ≡ recv_or_listen d
              (poll_next d n)
              (recv d (record c { receiver_events = (d.poll l c.receiver_events).1 }))
    unfolding poll_next
    notified_round l h = rw h

    waiting_round :
        (l : d.Listener)
        → (d.poll l c.receiver_events).0 ≡ false
        → poll_next d (suc n) (record { listener = some l }) c
          ≡ some (
            pending,
            record { listener = some l },
            record c { receiver_events = (d.poll l c.receiver_events).1 },
          )
    unfolding poll_next
    waiting_round l h = rw h

  count_after_miss :
      (c c' : Channel d) → c' ≡ notify_on_demand d c → c'.sender_count ≡ c.sender_count
  unfolding notify_on_demand
  count_after_miss c c' e = ap (λ (k : Channel d). k.sender_count) e

  same_test :
      (c c' : Channel d)
      → c' ≡ notify_on_demand d c
      → (c.sender_count == 0) ≡ (c'.sender_count == 0)
  same_test c c' e = ap (λ (k : ℕ). k == 0) (sym (count_after_miss c c' e))

  items_after_miss : (c c' : Channel d) → c' ≡ notify_on_demand d c → items d c' ≡ items d c
  unfolding notify_on_demand
  items_after_miss c c' e = ap (λ (k : Channel d). items d k) e

  recv_or_listen-Fits :
      (n : ℕ) (l : Option d.Listener) (e : d.Event) (c : Channel d) (out : Option T × Channel d)
      → Recvs d c out
      → NextFits l (record c { receiver_events = e }) (recv_or_listen d (poll_next d (suc n)) out)
  unfolding recv_or_listen
  recv_or_listen-Fits n l e c (some x, c') h = (h.0, h.1.sender_count)
  recv_or_listen-Fits n l e c (none, c') h = elim (Bool-cases (c'.sender_count == 0)) [
    | inl over ↦ rw over (h.0, items_after_miss c c' h.1 ∙ h.0, same_test c c' h.1 ∙ over)
    | inr more ↦
        rw
          (
            more,
            waiting_round n (record c' { receiver_events = (d.listen c'.receiver_events).1 })
                (d.listen c'.receiver_events).0 (d.poll-listen c'.receiver_events),
          )
          (
            items_after_miss c c' h.1,
            d.poll-IsActive _ _ (d.listen-IsActive c'.receiver_events)
                (d.poll-listen c'.receiver_events),
            inl (h.0, same_test c c' h.1 ∙ more),
          )
  ]

  -- For a receiver whose listener, if it holds one, is active: two rounds of `poll_next` give a
  -- result. An item that it returns was the oldest of the queue, which keeps the rest; the stream
  -- ends only if the queue is empty and there are no senders; and it is pending only with the items
  -- as they were, an active listener held, and either an empty queue and some sender, or no notice
  -- for the listener that was held.
  pub poll_next-Fits :
      (n : ℕ) (r : Receiver d) (c : Channel d)
      → HoldsActive d r.listener c.receiver_events
      → NextFits r.listener c (poll_next d (suc (suc n)) r c)
  poll_next-Fits n r c = held r.listener
    where
      held :
          (l : Option d.Listener)
          → HoldsActive d l c.receiver_events
          → NextFits l c (poll_next d (suc (suc n)) (record { listener = l }) c)
      held none active =
          rw (free_round (suc n) c)
            (recv_or_listen-Fits n none c.receiver_events c (recv d c) (recv-Recvs d c))
      held (some l) active = elim (Bool-cases (d.poll l c.receiver_events).0) [
        | inl notified ↦
            rw (notified_round (suc n) c l notified)
              (recv_or_listen-Fits n (some l) c.receiver_events _ _ (recv-Recvs d _))
        | inr still ↦
            rw (waiting_round (suc n) c l still) (refl, d.poll-IsActive _ _ active still, inr still)
      ]
