-- ===== src/Requests/Sends/Channels.antt =====
-- A channel that is not unique as what a `BlockSender` sends to.
use pewpew.Prelude.{
  ℕ, zero, suc, ◌≡◌, refl, ap, ◌∙◌, subst, inl, inr, Bool-cases, Option, none, some, [], ◌∷◌, ◌++◌,
  ltb, arith,
}
use pewpew.Channel.Crates.{Deps}
use pewpew.Channel.{Channel, len, current_limit, send, should_send, notify_receiver}
use pewpew.Channel.Contents.{items, items-send, accepted}
use pewpew.Channel.Handles.{
  Sender, Poll, ready, pending, SinkResult, sink_ok, channel_closed, poll_ready, ready_or_listen,
  no_receivers,
}
use pewpew.Requests.Sends.{SinkOps, BlockSender, poll_block}
use pewpew.Requests.Sends.Queued.{SinkLaws, Sends, poll_block-Sends, queued}

module _ {T : Type 0} (d : Deps T) where
  -- A poll leaves the items and the set of hashes alone.
  abbrev pub Kept : Channel d → Option (Poll SinkResult × Sender d × Channel d) → Type 0
  Kept c none = Unit
  Kept c (some (p, s, c')) = (c'.unique ≡ c.unique) × (c'.queue ≡ c.queue)

  ready_or_listen-Kept :
      (again : Sender d → Channel d → Option (Poll SinkResult × Sender d × Channel d))
      (c : Channel d)
      → ((s : Sender d) (c' : Channel d) → Kept c' (again s c'))
      → Kept c (ready_or_listen d again c)
  unfolding ready_or_listen
  ready_or_listen-Kept again c h = elim (Bool-cases (ltb (len d c) (current_limit d c))) [
    | inl k ↦ rw k (refl, refl)
    | inr k ↦ rw k (
        h (record { listener = some (d.listen c.sender_events).0 })
          (record c { sender_events = (d.listen c.sender_events).1 }))
  ]

  round-Kept :
      (n : ℕ) (l : Option d.Listener) (c : Channel d)
      → ((s : Sender d) (c' : Channel d) → Kept c' (poll_ready d n s c'))
      → Kept c (poll_ready d (suc n) (record { listener = l }) c)
  unfolding poll_ready
  round-Kept n none c again = elim (Bool-cases (no_receivers d c)) [
    | inl h ↦ rw h (refl, refl)
    | inr h ↦ rw h (ready_or_listen-Kept (poll_ready d n) c again)
  ]
  round-Kept n (some l) c again = elim (Bool-cases (no_receivers d c)) [
    | inl h ↦ rw h (refl, refl)
    | inr h ↦ elim (Bool-cases (d.poll l c.sender_events).0) [
      | inl k ↦
          rw (h, k)
            (ready_or_listen-Kept (poll_ready d n)
              (record c { sender_events = (d.poll l c.sender_events).1 }) again)
      | inr k ↦ rw (h, k) (refl, refl)
    ]
  ]

  pub poll_ready-Kept : (n : ℕ) (s : Sender d) (c : Channel d) → Kept c (poll_ready d n s c)
  unfolding poll_ready
  poll_ready-Kept zero s c = tt
  poll_ready-Kept (suc n) s c = round-Kept n s.listener c (poll_ready-Kept n)

  -- A sender with its channel, which is not unique.
  pub record PlainSender : Type 0 where
    pub sender : Sender d
    pub channel : Channel d
    pub is_plain : channel.unique ≡ none

  pub after_poll :
      (p : PlainSender) (o : Option (Poll SinkResult × Sender d × Channel d))
      → Kept p.channel o
      → Poll SinkResult × PlainSender
  after_poll p none h = (pending, p)
  after_poll p (some (r, s, c)) (e, f) =
      (r, record { sender = s; channel = c; is_plain = e ∙ p.is_plain })

  pub send-plain : (v : T) (c : Channel d) → c.unique ≡ none → (send d v c).unique ≡ none
  unfolding send should_send notify_receiver
  send-plain v c h = ground (arith, h)

  -- A channel, whose `poll_ready` is given the two rounds that it needs.
  unfoldable pub channel_sink : SinkOps PlainSender T
  channel_sink = record {
    poll_ready = λ p.
        after_poll p (poll_ready d 2 p.sender p.channel) (poll_ready-Kept 2 p.sender p.channel);
    start_send = λ v p. (
      sink_ok,
      record {
        sender = p.sender;
        channel = send d v p.channel;
        is_plain = send-plain v p.channel p.is_plain;
      },
    );
    poll_flush = λ p. (ready sink_ok, p);
  }

  after_poll_same :
      (p : PlainSender) (o : Option (Poll SinkResult × Sender d × Channel d)) (h : Kept p.channel o)
      → items d (after_poll p o h).1.channel ≡ items d p.channel
  unfolding after_poll
  after_poll_same p none h = refl
  after_poll_same p (some (r, s, c)) (e, f) = ap d.items f

  accepted_plain : (v : T) (c : Channel d) → c.unique ≡ none → accepted d v c ≡ v ∷ []
  unfolding should_send
  accepted_plain v c h = ground (arith, h)

  sink_ok_open : {A : Type 0} → sink_ok ≡ channel_closed → A
  sink_ok_open e = absurd (subst (λ r. elim r [ sink_ok ↦ Unit | channel_closed ↦ ⊥ ]) e tt)

  -- The items of a channel are what it took, while nothing is received.
  pub channel_laws : SinkLaws channel_sink
  unfolding channel_sink
  channel_laws = record {
    taken = λ p. items d p.channel;
    poll_ready-taken = λ p.
        after_poll_same p (poll_ready d 2 p.sender p.channel)
          (poll_ready-Kept 2 p.sender p.channel);
    poll_flush-taken = λ p. refl;
    start_send_ok = λ v p e.
        items-send d v p.channel
        ∙ ap (λ vs. items d p.channel ++ vs) (accepted_plain v p.channel p.is_plain);
    start_send_closed = λ v p e. sink_ok_open e;
  }

  -- A poll of a `BlockSender` on a channel that is not unique puts the values that it sends behind
  -- the items of the channel, in order, and keeps those that it has not sent.
  channel-Sends :
      {E : Type 0} (s : BlockSender PlainSender T E)
      → Sends channel_sink channel_laws
          (channel_laws.taken s.tx)
          (queued channel_sink channel_laws s)
          (poll_block channel_sink s)
  channel-Sends s = poll_block-Sends channel_sink channel_laws s
