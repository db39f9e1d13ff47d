-- ===== src/Channel/Handles/Calls/Order.antt =====
-- First in, first out: what the calls on a channel of lib/channel/src/lib.rs deliver.
use pewpew.Prelude.{
  ℕ, zero, suc, ◌≡◌, refl, sym, ap, ◌∙◌, inl, inr, Bool-cases, Option, none, some, List, [], ◌∷◌,
  ◌++◌, append-nil, append_assoc, ltb, ◌==◌,
}
use pewpew.Channel.Crates.{Deps}
use pewpew.Channel.{Channel, recv, notify_on_demand, len, current_limit}
use pewpew.Channel.Contents.{items, accepted, Recvs, recv-Recvs, items-send}
use pewpew.Channel.Handles.{
  Sender, Receiver, OnDemandReceiver, Poll, ready, pending, SinkResult, SendState, closed, full,
  success, try_send, poll_next, recv_or_listen, no_receivers, force_send, start_send, clone_sender,
  clone_receiver, clone_on_demand, drop_on_demand, drop_sender, drop_receiver,
}
use pewpew.Channel.Handles.Calls.{
  Call, trying, forcing, polling_ready, starting, receiving, dropping_receiver, demanding,
  dropping_on_demand, dropping_sender, cloning_sender, cloning_receiver, cloning_on_demand, step,
  run, after_ready, after_next, after_demand,
}
use pewpew.Channel.Handles.Calls.Keeps.{
  Core, core, ReadyCore, poll_ready-core, DemandCore, poll_demand-core,
}
use pewpew.Channel.Handles.Calls.Induction.{drop_receiver-core, drop_sender-core}

module _ {T : Type 0} (d : Deps T) where
  abbrev NextOrder : List T → Option (Poll (Option T) × Receiver d × Channel d) → Type 0
  NextOrder xs none = Unit
  NextOrder xs (some (ready (some x), r, c)) = x ∷ items d c ≡ xs
  NextOrder xs (some (ready none, r, c)) = items d c ≡ xs
  NextOrder xs (some (pending, r, c)) = items d c ≡ xs

  items_after_miss : (c c' : Channel d) → c' ≡ notify_on_demand d c → items d c' ≡ items d c
  unfolding notify_on_demand
  items_after_miss c c' e = ap (λ (k : Channel d). items d k) e

  recv_or_listen-Order :
      (n : ℕ) (c : Channel d) (out : Option T × Channel d)
      → Recvs d c out
      → ((r : Receiver d) (c' : Channel d) → NextOrder (items d c') (poll_next d n r c'))
      → NextOrder (items d c) (recv_or_listen d (poll_next d n) out)
  unfolding recv_or_listen
  recv_or_listen-Order n c (some x, c') h rest = sym h.0
  recv_or_listen-Order n c (none, c') h rest = elim (Bool-cases (c'.sender_count == 0)) [
    | inl over ↦ rw over (items_after_miss c c' h.1)
    | inr more ↦ rw (more, ← items_after_miss c c' h.1) (rest _ _)
  ]

  next_round-Order :
      (n : ℕ) (c : Channel d) (l : Option d.Listener)
      → ((r : Receiver d) (c' : Channel d) → NextOrder (items d c') (poll_next d n r c'))
      → NextOrder (items d c) (poll_next d (suc n) (record { listener = l }) c)
  unfolding poll_next
  next_round-Order n c none rest = recv_or_listen-Order n c (recv d c) (recv-Recvs d c) rest
  next_round-Order n c (some l) rest = elim (Bool-cases (d.poll l c.receiver_events).0) [
    | inl notified ↦ rw notified (
        recv_or_listen-Order n (record c { receiver_events = (d.poll l c.receiver_events).1 }) _
          (recv-Recvs d _) rest)
    | inr still ↦ rw still refl
  ]

  poll_next-Order :
      (n : ℕ) (r : Receiver d) (c : Channel d) → NextOrder (items d c) (poll_next d n r c)
  unfolding poll_next
  poll_next-Order zero r c = tt
  poll_next-Order (suc n) r c = next_round-Order n c r.listener (poll_next-Order n)

  -- What a call puts into the queue.
  abbrev sent_if_success : T → Channel d → SendState T → List T
  sent_if_success x c success = accepted d x c
  sent_if_success x c (closed y) = []
  sent_if_success x c (full y) = []

  pub accepts : Call d → Channel d → List T
  accepts (trying x) c = sent_if_success x c (try_send d x c).0
  accepts (forcing x) c = accepted d x c
  accepts (starting x) c = accepted d x c
  accepts _ c = []

  pub accepts_all : List (Call d) → Channel d → List T
  accepts_all [] c = []
  accepts_all (k ∷ ks) c = accepts k c ++ accepts_all ks (step d k c).1

  items_of_core : (c c' : Channel d) → core d c' ≡ core d c → items d c' ≡ items d c
  items_of_core c c' e = ap (λ (k : Core d). d.items k.queue) e

  after_next-Order :
      (c : Channel d) (out : Option (Poll (Option T) × Receiver d × Channel d))
      → NextOrder (items d c) out
      → (after_next d c out).0 ++ items d (after_next d c out).1 ≡ items d c
  after_next-Order c none h = refl
  after_next-Order c (some (ready (some x), r, c')) h = h
  after_next-Order c (some (ready none, r, c')) h = h
  after_next-Order c (some (pending, r, c')) h = h

  after_ready-Order :
      (c : Channel d) (out : Option (Poll SinkResult × Sender d × Channel d))
      → ReadyCore d (core d c) out
      → items d (after_ready d c out) ≡ items d c
  after_ready-Order c none h = refl
  after_ready-Order c (some (p, s, c')) h = items_of_core c c' h

  after_demand-Order :
      (c : Channel d) (out : Option (Poll (Option (Unit {0})) × OnDemandReceiver d × Channel d))
      → DemandCore d (core d c) out
      → items d (after_demand d c out) ≡ items d c
  after_demand-Order c none h = refl
  after_demand-Order c (some (p, o, c')) h = items_of_core c c' h

  try_send-Order :
      (x : T) (c : Channel d)
      → items d (try_send d x c).1 ≡ items d c ++ sent_if_success x c (try_send d x c).0
  unfolding try_send
  try_send-Order x c = elim (Bool-cases (no_receivers d c)) [
    | inl gone ↦ rw gone (sym (append-nil (items d c)))
    | inr there ↦ elim (Bool-cases (ltb (len d c) (current_limit d c))) [
      | inl room ↦ rw (there, room) (items-send d x c)
      | inr no_room ↦ rw (there, no_room) (sym (append-nil (items d c)))
    ]
  ]

  step-Order :
      (k : Call d) (c : Channel d)
      → (step d k c).0 ++ items d (step d k c).1 ≡ items d c ++ accepts k c
  unfolding step accepts
  step-Order (trying x) c = try_send-Order x c
  step-Order (forcing x) c = unfold force_send in items-send d x c
  step-Order (polling_ready s) c =
      after_ready-Order c _ (poll_ready-core d 2 s c) ∙ sym (append-nil (items d c))
  step-Order (starting x) c = unfold start_send force_send in items-send d x c
  step-Order (receiving r) c =
      after_next-Order c _ (poll_next-Order 2 r c) ∙ sym (append-nil (items d c))
  step-Order (demanding o) c =
      after_demand-Order c _ (poll_demand-core d 2 o c) ∙ sym (append-nil (items d c))
  step-Order (dropping_receiver r) c =
      items_of_core c (drop_receiver d r c) (drop_receiver-core d r c)
      ∙ sym (append-nil (items d c))
  step-Order (dropping_sender s) c =
      items_of_core c (drop_sender d s c) (drop_sender-core d s c) ∙ sym (append-nil (items d c))
  step-Order (dropping_on_demand o) c = unfold drop_on_demand in sym (append-nil (items d c))
  step-Order cloning_sender c = unfold clone_sender in sym (append-nil (items d c))
  step-Order cloning_receiver c = unfold clone_receiver in sym (append-nil (items d c))
  step-Order cloning_on_demand c = unfold clone_on_demand in sym (append-nil (items d c))

  -- Over any history, what receivers got, followed by what is still queued, is what was queued
  -- before, followed by what was accepted, in that order: nothing is lost, made up or reordered.
  pub run-Order :
      (ks : List (Call d)) (c : Channel d)
      → (run d ks c).0 ++ items d (run d ks c).1 ≡ items d c ++ accepts_all ks c
  unfolding run accepts_all
  run-Order [] c = sym (append-nil (items d c))
  run-Order (k ∷ ks) c =
      rw
        (
          append_assoc (step d k c).0 (run d ks (step d k c).1).0 _,
          run-Order ks (step d k c).1,
          ← append_assoc (step d k c).0 (items d (step d k c).1) _,
          step-Order k c,
        )
        (append_assoc (items d c) (accepts k c) _)
