-- ===== src/Channel/Handles/Wakes.antt =====
-- No waiter of lib/channel/src/lib.rs is left asleep: what the drop of the last sender, a `send` and
-- a `recv` do for the handles that wait.
use pewpew.Prelude.{
  ℕ, suc, ◌≡◌, ◌≢◌, sym, ap, ◌∙◌, inl, inr, ◌<◌, ◌≤◌, true, false, Option, none, some, [], ◌∷◌,
  ◌++◌, List, arith, ◌==◌, usize_max, length,
}
use pewpew.Channel.Crates.{Deps}
use pewpew.Channel.{Channel, recv, send, current_limit, len}
use pewpew.Channel.Contents.{items, accepted, items-send}
use pewpew.Channel.Handles.{
  Sender, Receiver, Poll, ready, pending, SinkResult, sink_ok, channel_closed, poll_next,
  poll_ready, drop_sender, no_receivers,
}
use pewpew.Channel.Handles.Receives.{NextFits, poll_next-Fits}
use pewpew.Channel.Handles.Polls.{ReadyFits, poll_ready-Fits}

module _ {T : Type 0} (d : Deps T) where
  abbrev pub Ended : Option (Poll (Option T) × Receiver d × Channel d) → Type 0
  Ended (some (ready none, r, c)) = d.items c.queue ≡ []
  Ended _ = ⊥

  -- The oldest item of `c` comes out.
  abbrev pub Delivered : Channel d → Option (Poll (Option T) × Receiver d × Channel d) → Type 0
  Delivered c (some (ready (some x), r, c')) = d.items c.queue ≡ x ∷ d.items c'.queue
  Delivered c _ = ⊥

  -- The sender may send: there is room, and `poll_ready` took nothing from the queue.
  abbrev pub Admitted : Channel d → Option (Poll SinkResult × Sender d × Channel d) → Type 0
  Admitted c (some (ready sink_ok, s', c')) = (len d c < current_limit d c) × (c'.queue ≡ c.queue)
  Admitted c _ = ⊥

  Ended-of :
      (l : d.Listener) (c : Channel d) (out : Option (Poll (Option T) × Receiver d × Channel d))
      → NextFits d (some l) c out
      → (d.poll l c.receiver_events).0 ≡ true
      → items d c ≡ []
      → (c.sender_count == 0) ≡ true
      → Ended out
  Ended-of l c none f p q z = f
  Ended-of l c (some (ready (some x), r, c')) f p q z = ground arith
  Ended-of l c (some (ready none, r, c')) f p q z = f.1
  Ended-of l c (some (pending, r, c')) f p q z = ground arith

  Delivered-of :
      (l : d.Listener) (c : Channel d) (out : Option (Poll (Option T) × Receiver d × Channel d))
      → NextFits d (some l) c out
      → (d.poll l c.receiver_events).0 ≡ true
      → items d c ≢ []
      → Delivered c out
  Delivered-of l c none f p q = f
  Delivered-of l c (some (ready (some x), r, c')) f p q = f.0
  Delivered-of l c (some (ready none, r, c')) f p q = q f.0
  Delivered-of l c (some (pending, r, c')) f p q = ground arith

  last_drop_notifies :
      (s : Sender d) (c : Channel d)
      → c.sender_count ≡ 1
      → (drop_sender d s c).receiver_events ≡ d.notify usize_max c.receiver_events
  unfolding drop_sender
  last_drop_notifies s c last = ground arith

  last_drop_count :
      (s : Sender d) (c : Channel d)
      → c.sender_count ≡ 1
      → ((drop_sender d s c).sender_count == 0) ≡ true
  unfolding drop_sender
  last_drop_count s c last = ground arith

  items-drop_sender : (s : Sender d) (c : Channel d) → items d (drop_sender d s c) ≡ items d c
  unfolding drop_sender
  items-drop_sender s c = ground arith

  -- A receiver that waits on an empty channel sees the end of the stream at its next poll once the
  -- last sender is dropped.
  pub drop_sender-Ended :
      (n : ℕ) (l : d.Listener) (s : Sender d) (c : Channel d)
      → d.IsActive l c.receiver_events
      → c.sender_count ≡ 1
      → items d c ≡ []
      → Ended (poll_next d (suc (suc n)) (record { listener = some l }) (drop_sender d s c))
  drop_sender-Ended n l s c active last empty =
      Ended-of l (drop_sender d s c) _
        (poll_next-Fits d n (record { listener = some l }) _
          (rw (last_drop_notifies s c last) (d.notify-IsActive _ l _ active)))
        (rw (last_drop_notifies s c last) (d.notify_all l _ active)) (items-drop_sender s c ∙ empty)
        (last_drop_count s c last)

  sent_not_empty : (xs : List T) (x : T) → xs ++ x ∷ [] ≢ []
  sent_not_empty [] x e = ground arith
  sent_not_empty (y ∷ ys) x e = ground arith

  send_notifies :
      (x : T) (c : Channel d)
      → accepted d x c ≡ x ∷ []
      → (send d x c).receiver_events ≡ d.notify 1 c.receiver_events
  unfolding send
  send_notifies x c taken = ground (arith, taken)

  -- A send whose item is queued (every one to a channel that is not unique, and one of an item
  -- whose hash is not in the set to a unique channel), while some receiver waits, notifies a waiting
  -- receiver: the next poll with its listener returns the oldest item.
  pub send-Delivered :
      (n : ℕ) (x : T) (l : d.Listener) (c : Channel d)
      → d.IsActive l c.receiver_events
      → accepted d x c ≡ x ∷ []
      → (k : d.Listener) × d.IsActive k c.receiver_events
        × Delivered
            (send d x c)
            (poll_next d (suc (suc n)) (record { listener = some k }) (send d x c))
  send-Delivered n x l c active taken =
      let (k, waits, woken) = d.notify_one l c.receiver_events active in
      (
        k,
        waits,
        Delivered-of k (send d x c) _
            (poll_next-Fits d n (record { listener = some k }) _
              (rw (send_notifies x c taken) (d.notify-IsActive 1 k _ waits)))
            (rw (send_notifies x c taken) woken)
            (λ e.
              sent_not_empty (items d c) x
                (sym (items-send d x c ∙ ap (λ xs. items d c ++ xs) taken) ∙ e)),
      )

  Admitted-of :
      (l : d.Listener) (c : Channel d) (out : Option (Poll SinkResult × Sender d × Channel d))
      → ReadyFits d (some l) c out
      → (d.poll l c.sender_events).0 ≡ true
      → no_receivers d c ≡ false
      → len d c < current_limit d c
      → Admitted c out
  Admitted-of l c none f p o r = f
  Admitted-of l c (some (ready sink_ok, s', c')) f p o r = (f.2, f.1)
  Admitted-of l c (some (ready channel_closed, s', c')) f p o r = ground arith
  Admitted-of l c (some (pending, s', c')) f p o r = ground arith

  recv_frees :
      (c : Channel d) (x : T) (rest : d.Queue)
      → d.items c.queue ≡ x ∷ d.items rest
      → d.pop c.queue ≡ some (x, rest)
      → len d c ≤ current_limit d c
      → current_limit d c < usize_max
      → ((recv d c).1.sender_events ≡ d.notify 1 c.sender_events)
        × (len d (recv d c).1 < current_limit d (recv d c).1)
        × (no_receivers d (recv d c).1 ≡ no_receivers d c)
  unfolding recv no_receivers
  recv_frees c x rest held e fits small =
      rw e
        (ground (arith, d.len-items rest, d.len-items c.queue, ap (λ (t : List T). length t) held))

  nonempty_step :
      (c : Channel d) (x : T) (xs : List T)
      → items d c ≡ x ∷ xs
      → (rest : d.Queue) × (d.items c.queue ≡ x ∷ d.items rest) × (d.pop c.queue ≡ some (x, rest))
  nonempty_step c x xs held = elim (d.items-pop c.queue) [
    | inl (empty, _) ↦ ground arith
    | inr (y, rest, h, e) ↦ (rest, ground arith, ground arith)
  ]

  -- A receive from a channel that is not over its limit, while some sender waits, notifies a waiting
  -- sender: the next poll with its listener says that there is room. The limit is below usize::MAX.
  pub recv-Admitted :
      (n : ℕ) (x : T) (xs : List T) (l : d.Listener) (c : Channel d)
      → d.IsActive l c.sender_events
      → no_receivers d c ≡ false
      → items d c ≡ x ∷ xs
      → len d c ≤ current_limit d c
      → current_limit d c < usize_max
      → (k : d.Listener) × d.IsActive k c.sender_events
        × Admitted
            (recv d c).1
            (poll_ready d (suc (suc n)) (record { listener = some k }) (recv d c).1)
  recv-Admitted n x xs l c active open_ held fits small =
      let (rest, h, e) = nonempty_step c x xs held in
      let (notified, room, same) = recv_frees c x rest h e fits small in
      let (k, waits, woken) = d.notify_one l c.sender_events active in
      (
        k,
        waits,
        Admitted-of k (recv d c).1 _
            (poll_ready-Fits d n (record { listener = some k }) _
              (rw notified (d.notify-IsActive 1 k _ waits)))
            (rw notified woken) (same ∙ open_) room,
      )
