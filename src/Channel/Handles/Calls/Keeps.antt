-- ===== src/Channel/Handles/Calls/Keeps.antt =====
-- What every call keeps: an invariant of the queue, the set, the limit and the flag that a send and
-- a receive keep.
use pewpew.Prelude.{
  inl, inr, refl, ℕ, zero, suc, ◌≡◌, Bool, false, Bool-cases, Option, none, some, ltb, ◌==◌,
}
use pewpew.Channel.Crates.{Deps}
use pewpew.Channel.{Channel, HashSet, Limit, len, current_limit, recv}
use pewpew.Channel.Handles.{
  Sender, Receiver, OnDemandReceiver, Poll, SinkResult, poll_ready, poll_next, poll_demand,
  ready_or_listen, recv_or_listen, no_receivers,
}

module _ {T : Type 0} (d : Deps T) where
  pub record Core : Type 0 where
    pub queue : d.Queue
    pub unique : Option (HashSet d)
    pub limit : Limit
    pub has_maxed : Bool

  abbrev pub core : Channel d → Core
  core c = record { queue = c.queue; unique = c.unique; limit = c.limit; has_maxed = c.has_maxed }

  -- What a `poll_ready` does to the core: nothing.
  abbrev pub ReadyCore : Core → Option (Poll SinkResult × Sender d × Channel d) → Type 0
  ReadyCore k none = Unit
  ReadyCore k (some (p, s, c)) = core c ≡ k

  ready_or_listen-core :
      (again : Sender d → Channel d → Option (Poll SinkResult × Sender d × Channel d))
      (c : Channel d)
      → ((s : Sender d) (e : d.Event)
          → ReadyCore (core c) (again s (record c { sender_events = e })))
      → ReadyCore (core c) (ready_or_listen d again c)
  unfolding ready_or_listen
  ready_or_listen-core again c h = elim (Bool-cases (ltb (len d c) (current_limit d c))) [
    | inl room ↦ rw room refl
    | inr full ↦ rw full (h _ _)
  ]

  ready_round-core :
      (n : ℕ) (c : Channel d) (l : Option d.Listener)
      → ((s : Sender d) (e : d.Event)
          → ReadyCore (core c) (poll_ready d n s (record c { sender_events = e })))
      → no_receivers d c ≡ false
      → ReadyCore (core c) (poll_ready d (suc n) (record { listener = l }) c)
  unfolding poll_ready
  ready_round-core n c none rest open_ = rw open_ (ready_or_listen-core (poll_ready d n) c rest)
  ready_round-core n c (some l) rest open_ = elim (Bool-cases (d.poll l c.sender_events).0) [
    | inl notified ↦ rw (open_, notified) (ready_or_listen-core (poll_ready d n) _ rest)
    | inr still ↦ rw (open_, still) refl
  ]

  pub poll_ready-core :
      (n : ℕ) (s : Sender d) (c : Channel d) → ReadyCore (core c) (poll_ready d n s c)
  unfolding poll_ready
  poll_ready-core zero s c = tt
  poll_ready-core (suc n) s c = elim (Bool-cases (no_receivers d c)) [
    | inl gone ↦ rw gone refl
    | inr open_ ↦
        ready_round-core n c s.listener
          (λ s' e. poll_ready-core n s' (record c { sender_events = e })) open_
  ]

  abbrev pub DemandCore :
      Core → Option (Poll (Option (Unit {0})) × OnDemandReceiver d × Channel d) → Type 0
  DemandCore k none = Unit
  DemandCore k (some (p, o, c)) = core c ≡ k

  demand_round-core :
      (n : ℕ) (c : Channel d) (l : Option d.Listener)
      → ((o : OnDemandReceiver d) (e : d.Event)
          → DemandCore (core c) (poll_demand d n o (record c { on_demand_events = e })))
      → DemandCore (core c) (poll_demand d (suc n) (record { listener = l }) c)
  unfolding poll_demand
  demand_round-core n c l rest = elim (Bool-cases (c.receiver_count == 0)) [
    | inl gone ↦ rw gone refl
    | inr open_ ↦
        elim l as (λ l'. DemandCore (core c) (poll_demand d (suc n) (record { listener = l' }) c)) [
          | none ↦ rw open_ (rest _ _)
          | some l' ↦ elim (Bool-cases (d.poll l' c.on_demand_events).0) [
            | inl notified ↦ rw (open_, notified) refl
            | inr still ↦ rw (open_, still) refl
          ]
        ]
  ]

  pub poll_demand-core :
      (n : ℕ) (o : OnDemandReceiver d) (c : Channel d) → DemandCore (core c) (poll_demand d n o c)
  unfolding poll_demand
  poll_demand-core zero o c = tt
  poll_demand-core (suc n) o c =
      demand_round-core n c o.listener
        (λ o' e. poll_demand-core n o' (record c { on_demand_events = e }))

  module _ (Q : Core → Type 0)
      (received : (c : Channel d) → Q (core c) → Q (core (recv d c).1)) where
    abbrev pub NextKeeps : Option (Poll (Option T) × Receiver d × Channel d) → Type 0
    NextKeeps none = Unit
    NextKeeps (some (p, r, c)) = Q (core c)

    recv_or_listen-keeps :
        (n : ℕ) (out : Option T × Channel d)
        → Q (core out.1)
        → ((r : Receiver d) (e : d.Event)
            → NextKeeps (poll_next d n r (record out.1 { receiver_events = e })))
        → NextKeeps (recv_or_listen d (poll_next d n) out)
    unfolding recv_or_listen
    recv_or_listen-keeps n (some x, c) q rest = q
    recv_or_listen-keeps n (none, c) q rest = elim (Bool-cases (c.sender_count == 0)) [
      | inl over ↦ rw over q
      | inr more ↦ rw more (rest _ _)
    ]

    next_round-keeps :
        (n : ℕ) (c : Channel d) (l : Option d.Listener)
        → ((r : Receiver d) (c' : Channel d) → Q (core c') → NextKeeps (poll_next d n r c'))
        → Q (core c)
        → NextKeeps (poll_next d (suc n) (record { listener = l }) c)
    unfolding poll_next
    next_round-keeps n c none rest q =
        recv_or_listen-keeps n (recv d c) (received c q) (λ r e. rest r _ (received c q))
    next_round-keeps n c (some l) rest q = elim (Bool-cases (d.poll l c.receiver_events).0) [
      | inl notified ↦
          let c' = record c { receiver_events = (d.poll l c.receiver_events).1 } in
          rw notified
            (recv_or_listen-keeps n (recv d c') (received c' q) (λ r e. rest r _ (received c' q)))
      | inr still ↦ rw still q
    ]

    pub poll_next-keeps :
        (n : ℕ) (r : Receiver d) (c : Channel d) → Q (core c) → NextKeeps (poll_next d n r c)
    unfolding poll_next
    poll_next-keeps zero r c q = tt
    poll_next-keeps (suc n) r c q = next_round-keeps n c r.listener (poll_next-keeps n) q
