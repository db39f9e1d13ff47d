-- ===== src/Channel/Handles/Calls/Induction.antt =====
-- Induction over a history of calls on a channel of lib/channel/src/lib.rs.
use pewpew.Prelude.{
  ◌≡◌, sym, subst, arith, true, Bool-cases, inl, inr, Option, none, some, List, [], ◌∷◌, All, ltb,
}
use pewpew.Channel.Crates.{Deps}
use pewpew.Channel.{Channel, len, current_limit, send, recv}
use pewpew.Channel.Handles.{
  Sender, Receiver, OnDemandReceiver, Poll, ready, pending, SinkResult, try_send, no_receivers,
  drop_sender, drop_receiver, drop_on_demand, clone_sender, clone_receiver, clone_on_demand,
  start_send, force_send,
}
use pewpew.Channel.Handles.Calls.{
  Call, trying, forcing, polling_ready, starting, receiving, dropping_receiver, demanding,
  dropping_on_demand, dropping_sender, cloning_sender, cloning_receiver, cloning_on_demand, step,
  run, after_ready, after_next, after_demand,
}
use pewpew.Channel.Handles.Calls.Keeps.{
  Core, core, ReadyCore, poll_ready-core, DemandCore, poll_demand-core, NextKeeps, poll_next-keeps,
}

-- The calls that send whether there is room or not.
abbrev pub IsForce : {T : Type 0} {d : Deps T} → Call d → Type 0
IsForce (forcing x) = Unit {0}
IsForce (starting x) = Unit {0}
IsForce _ = ⊥

-- Where every call is allowed.
pub any_calls : {T : Type 0} {d : Deps T} (ks : List (Call d)) → All (λ k. IsForce k → Unit {0}) ks
any_calls [] = tt
any_calls (k ∷ ks) = (λ f. tt, any_calls ks)

module _ {T : Type 0} (d : Deps T) where
  pub drop_receiver-core :
      (r : Receiver d) (c : Channel d) → core d (drop_receiver d r c) ≡ core d c
  unfolding drop_receiver
  drop_receiver-core r c = ground arith

  pub drop_sender-core : (s : Sender d) (c : Channel d) → core d (drop_sender d s c) ≡ core d c
  unfolding drop_sender
  drop_sender-core s c = ground arith

module _ {T : Type 0} (d : Deps T) (Q : Core d → Type 0) (Allowed : Type 0)
    (received : (c : Channel d) → Q (core d c) → Q (core d (recv d c).1))
    (sent : (x : T) (c : Channel d)
      → ltb (len d c) (current_limit d c) ≡ true
      → Q (core d c)
      → Q (core d (send d x c)))
    (forced : (x : T) (c : Channel d) → Allowed → Q (core d c) → Q (core d (send d x c))) where
  try_send-keeps : (x : T) (c : Channel d) → Q (core d c) → Q (core d (try_send d x c).1)
  unfolding try_send
  try_send-keeps x c q = elim (Bool-cases (no_receivers d c)) [
    | inl gone ↦ rw gone q
    | inr there ↦ elim (Bool-cases (ltb (len d c) (current_limit d c))) [
      | inl room ↦ rw (there, room) (sent x c room q)
      | inr full ↦ rw (there, full) q
    ]
  ]

  after_ready-keeps :
      (c : Channel d) (out : Option (Poll SinkResult × Sender d × Channel d))
      → ReadyCore d (core d c) out
      → Q (core d c)
      → Q (core d (after_ready d c out))
  after_ready-keeps c none h q = q
  after_ready-keeps c (some (p, s, c')) h q = subst Q (sym h) q

  after_next-keeps :
      (c : Channel d) (out : Option (Poll (Option T) × Receiver d × Channel d))
      → NextKeeps d Q received out
      → Q (core d c)
      → Q (core d (after_next d c out).1)
  after_next-keeps c none h q = q
  after_next-keeps c (some (ready (some x), r, c')) h q = h
  after_next-keeps c (some (ready none, r, c')) h q = h
  after_next-keeps c (some (pending, r, c')) h q = h

  after_demand-keeps :
      (c : Channel d) (out : Option (Poll (Option (Unit {0})) × OnDemandReceiver d × Channel d))
      → DemandCore d (core d c) out
      → Q (core d c)
      → Q (core d (after_demand d c out))
  after_demand-keeps c none h q = q
  after_demand-keeps c (some (p, o, c')) h q = subst Q (sym h) q

  pub step-keeps :
      (k : Call d) (c : Channel d)
      → (IsForce k → Allowed)
      → Q (core d c)
      → Q (core d (step d k c).1)
  unfolding step
  step-keeps (trying x) c a q = try_send-keeps x c q
  step-keeps (forcing x) c a q = unfold force_send in forced x c (a tt) q
  step-keeps (polling_ready s) c a q = after_ready-keeps c _ (poll_ready-core d 2 s c) q
  step-keeps (starting x) c a q = unfold start_send force_send in forced x c (a tt) q
  step-keeps (receiving r) c a q = after_next-keeps c _ (poll_next-keeps d Q received 2 r c q) q
  step-keeps (demanding o) c a q = after_demand-keeps c _ (poll_demand-core d 2 o c) q
  step-keeps (dropping_receiver r) c a q = subst Q (sym (drop_receiver-core d r c)) q
  step-keeps (dropping_on_demand o) c a q = unfold drop_on_demand in q
  step-keeps (dropping_sender s) c a q = subst Q (sym (drop_sender-core d s c)) q
  step-keeps cloning_sender c a q = unfold clone_sender in q
  step-keeps cloning_receiver c a q = unfold clone_receiver in q
  step-keeps cloning_on_demand c a q = unfold clone_on_demand in q

  pub run-keeps :
      (ks : List (Call d)) (c : Channel d)
      → All (λ k. IsForce k → Allowed) ks
      → Q (core d c)
      → Q (core d (run d ks c).1)
  unfolding run
  run-keeps [] c a q = q
  run-keeps (k ∷ ks) c a q = run-keeps ks (step d k c).1 a.1 (step-keeps k c a.0 q)
