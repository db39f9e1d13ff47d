-- ===== src/Channel/Contents.antt =====
-- What `send` and `recv` of lib/channel/src/lib.rs do to the items, and what they leave alone.
use pewpew.Prelude.{
  ℕ, ◌≡◌, refl, inl, inr, true, false, Option, none, some, List, [], ◌∷◌, ◌++◌, length, arith,
  append-nil,
}
use pewpew.Channel.Crates.{Deps}
use pewpew.Channel.{Channel, len, send, should_send, recv, forget, adjust, notify_on_demand}

module _ {T : Type 0} (d : Deps T) where
  abbrev pub items : Channel d → List T
  items c = d.items c.queue

  pub len-items : (c : Channel d) → len d c ≡ length (items c)
  unfolding len
  len-items c = d.len-items c.queue

  -- The handles' counts and the receivers' listeners.
  pub record SameHandles (c c' : Channel d) : Type 0 where
    pub sender_count : c'.sender_count ≡ c.sender_count
    pub receiver_count : c'.receiver_count ≡ c.receiver_count
    pub on_demand_count : c'.on_demand_count ≡ c.on_demand_count
    pub receiver_events : c'.receiver_events ≡ c.receiver_events

  forget-same :
      (x : T) (c : Channel d) → SameHandles c (forget d x c) × (items (forget d x c) ≡ items c)
  unfolding forget
  forget-same x c = ground arith

  adjust-same :
      (n m : ℕ) (c : Channel d)
      → SameHandles c (adjust d n m c) × (items (adjust d n m c) ≡ items c)
  unfolding adjust
  adjust-same n m c = ground arith

  abbrev pub Recvs : Channel d → Option T × Channel d → Type 0
  Recvs c (none, c') = (items c ≡ []) × (c' ≡ notify_on_demand d c)
  Recvs c (some x, c') = (items c ≡ x ∷ items c') × SameHandles c c'

  -- A receive takes the oldest item, or finds none.
  pub recv-Recvs : (c : Channel d) → Recvs c (recv d c)
  unfolding recv
  recv-Recvs c = elim (d.items-pop c.queue) [
    | inl (empty, e) ↦ rw e (empty, refl)
    | inr (x, rest, held, e) ↦ rw e (ground (arith, held))
  ]

  abbrev pub accepted : T → Channel d → List T
  accepted x c = elim (should_send d x c).1 [ true ↦ x ∷ [] | false ↦ [] ]

  -- A send puts the item at the end of the queue, or, if its hash is in the set, nowhere.
  pub items-send : (x : T) (c : Channel d) → items (send d x c) ≡ items c ++ accepted x c
  unfolding send
  items-send x c = ground (arith, d.items-push x c.queue, append-nil (items c))

  pub send-same : (x : T) (c : Channel d) → (send d x c).sender_count ≡ c.sender_count
  unfolding send
  send-same x c = ground arith
