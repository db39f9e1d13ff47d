-- ===== src/Channel/Handles/Calls/Limits.antt =====
-- The soft limit of a channel of lib/channel/src/lib.rs over its histories.
use pewpew.Prelude.{
  ℕ, suc, ◌+◌, ◌≡◌, ◌≤◌, refl, ap, inl, inr, Bool, true, false, List, [], ◌∷◌, length, ltb,
  length-append, arith,
}
use Prim.Native.String.{String}
use pewpew.Channel.Crates.{Deps}
use pewpew.Channel.{Channel, Limit, dynamic, get, new, len, current_limit, send, recv}
use pewpew.Channel.Handles.{force_send, start_send}
use pewpew.Channel.Handles.Calls.{
  Call, trying, forcing, polling_ready, starting, receiving, dropping_receiver, demanding,
  dropping_on_demand, dropping_sender, cloning_sender, cloning_receiver, cloning_on_demand, step,
  run,
}
use pewpew.Channel.Handles.Calls.Keeps.{Core, core}
use pewpew.Channel.Handles.Calls.Induction.{IsForce, any_calls, step-keeps, run-keeps}

module _ {T : Type 0} (d : Deps T) where
  -- At most `n` items more than the limit.
  abbrev Over : ℕ → Core d → Type 0
  Over n k = length (d.items k.queue) ≤ n + get k.limit

  recv-Over : (n : ℕ) (c : Channel d) → Over n (core d c) → Over n (core d (recv d c).1)
  unfolding recv
  recv-Over n c h = elim (d.items-pop c.queue) [
    | inl (empty, e) ↦ rw e (ground arith)
    | inr (x, rest, held, e) ↦
        rw e (ground (arith, d.len-items rest, ap (λ (t : List T). length t) held))
  ]

  send-Over_room :
      (n : ℕ) (x : T) (c : Channel d)
      → ltb (len d c) (current_limit d c) ≡ true
      → Over n (core d c)
      → Over n (core d (send d x c))
  unfolding send len current_limit
  send-Over_room n x c room h = ground (
    arith,
    d.len-items c.queue,
    ap (λ (t : List T). length t) (d.items-push x c.queue),
    length-append {0} (d.items c.queue) (x ∷ []),
  )

  send-Over :
      (n : ℕ) (x : T) (c : Channel d) → Over n (core d c) → Over (suc n) (core d (send d x c))
  unfolding send
  send-Over n x c h = ground (
    arith,
    ap (λ (t : List T). length t) (d.items-push x c.queue),
    length-append {0} (d.items c.queue) (x ∷ []),
  )

  -- The calls that send whether there is room or not, counted.
  abbrev pub unasked : List (Call d) → ℕ
  unasked [] = 0
  unasked (forcing x ∷ ks) = suc (unasked ks)
  unasked (starting x ∷ ks) = suc (unasked ks)
  unasked (_ ∷ ks) = unasked ks

  step-Over :
      (n : ℕ) (k : Call d) (c : Channel d)
      → (IsForce k → ⊥)
      → Over n (core d c)
      → Over n (core d (step d k c).1)
  step-Over n = step-keeps d (Over n) ⊥ (recv-Over n) (send-Over_room n) (λ x c a q. absurd a)

  run-Over :
      (n : ℕ) (ks : List (Call d)) (c : Channel d)
      → Over n (core d c)
      → Over (unasked ks + n) (core d (run d ks c).1)
  unfolding run
  run-Over n [] c h = omega arith
  run-Over n (forcing x ∷ ks) c h =
      let over =
        run-Over (suc n) ks (step d (forcing x) c).1
          (unfold step force_send in send-Over n x c h) in
      omega arith
  run-Over n (starting x ∷ ks) c h =
      let over =
        run-Over (suc n) ks (step d (starting x) c).1
          (unfold step start_send force_send in send-Over n x c h) in
      omega arith
  run-Over n (trying x ∷ ks) c h = run-Over n ks _ (step-Over n (trying x) c (λ f. f) h)
  run-Over n (polling_ready s ∷ ks) c h =
      run-Over n ks _ (step-Over n (polling_ready s) c (λ f. f) h)
  run-Over n (receiving r ∷ ks) c h = run-Over n ks _ (step-Over n (receiving r) c (λ f. f) h)
  run-Over n (dropping_receiver r ∷ ks) c h =
      run-Over n ks _ (step-Over n (dropping_receiver r) c (λ f. f) h)
  run-Over n (demanding o ∷ ks) c h = run-Over n ks _ (step-Over n (demanding o) c (λ f. f) h)
  run-Over n (dropping_on_demand o ∷ ks) c h =
      run-Over n ks _ (step-Over n (dropping_on_demand o) c (λ f. f) h)
  run-Over n (dropping_sender s ∷ ks) c h =
      run-Over n ks _ (step-Over n (dropping_sender s) c (λ f. f) h)
  run-Over n (cloning_sender ∷ ks) c h = run-Over n ks _ (step-Over n cloning_sender c (λ f. f) h)
  run-Over n (cloning_receiver ∷ ks) c h =
      run-Over n ks _ (step-Over n cloning_receiver c (λ f. f) h)
  run-Over n (cloning_on_demand ∷ ks) c h =
      run-Over n ks _ (step-Over n cloning_on_demand c (λ f. f) h)

  -- After any history a new channel, whatever its limit and unique or not, holds at most as many
  -- items more than its limit then is as there were calls that send without asking for room:
  -- `force_send`, and the `start_send` of a sink, between which and its `poll_ready` others may send.
  -- So a channel that only `try_send` fills stays within its limit.
  pub run-within_limit :
      (limit : Limit) (unique : Bool) (name : String) (ks : List (Call d))
      → let c = (run d ks (new d limit unique name)).1 in len d c ≤ unasked ks + current_limit d c
  unfolding len current_limit
  run-within_limit limit unique name ks =
      rw (d.len-items (run d ks (new d limit unique name)).1.queue) (
        let over =
          run-Over 0 ks (new d limit unique name)
            (unfold new in rw d.items-unbounded (omega arith)) in
        omega arith)

  abbrev StuckAtOne : Core d → Type 0
  StuckAtOne k = (k.limit ≡ dynamic 1) × (k.has_maxed ≡ false)

  recv-StuckAtOne : (c : Channel d) → StuckAtOne (core d c) → StuckAtOne (core d (recv d c).1)
  unfolding recv
  recv-StuckAtOne c h = ground arith

  send-StuckAtOne :
      (x : T) (c : Channel d) → StuckAtOne (core d c) → StuckAtOne (core d (send d x c))
  unfolding send
  send-StuckAtOne x c h = ground arith

  -- A channel whose dynamic limit starts at one never grows, whatever is called on it: `recv` looks
  -- at the flag of an emptied channel before it would raise it.
  pub run-limit_one :
      (unique : Bool) (name : String) (ks : List (Call d))
      → (run d ks (new d (dynamic 1) unique name)).1.limit ≡ dynamic 1
  unfolding new
  run-limit_one unique name ks =
      (run-keeps d StuckAtOne (Unit {0}) recv-StuckAtOne (λ x c r. send-StuckAtOne x c)
        (λ x c a. send-StuckAtOne x c) ks (new d (dynamic 1) unique name) (any_calls ks)
        (refl, refl)).0
