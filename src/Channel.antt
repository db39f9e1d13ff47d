-- ===== src/Channel.antt =====
-- lib/channel: the shared state of a channel (`Limit`, `Channel` and its methods in
-- lib/channel/src/lib.rs, `HashSet` in lib/channel/src/hash_set.rs). A method takes the state and
-- returns the new one; each is one atomic step. Log output is left out.
pub mod Crates
pub mod Contents
pub mod Growth
pub mod Local
mod Tests
pub mod Handles
use pewpew.Prelude.{
  ℕ, ◌+◌, Bool, true, false, Option, none, some, ◌==◌, ltb, if◌then◌else◌, usize_max, wrapping_inc,
  wrapping_dec,
}
use Prim.Native.String.{String}
use Crates.{Deps}

pub data Limit : Type 0 where
  dynamic static : ℕ → Limit

unfoldable pub get : Limit → ℕ
get (dynamic n) = n
get (static n) = n

module _ {T : Type 0} (d : Deps T) where
  pub record HashSet : Type 0 where
    pub inner : d.Hashes

  unfoldable pub new_set : HashSet
  new_set = record { inner = d.no_hashes }

  -- serde_json writes the value into the hasher.
  unfoldable pub get_hash : T → ℕ
  get_hash h = d.hash h

  unfoldable pub insert : T → HashSet → HashSet × Bool
  unfolding get_hash
  insert h s =
      let (inner, is_new) = d.insert (get_hash h) s.inner in (record { inner = inner }, is_new)

  unfoldable pub remove : T → HashSet → HashSet
  unfolding get_hash
  remove h s = record { inner = d.remove (get_hash h) s.inner }

  pub record Channel : Type 0 where
    pub name : String
    pub has_maxed : Bool
    pub limit : Limit
    pub on_demand_events : d.Event
    pub receiver_events : d.Event
    pub sender_events : d.Event
    pub queue : d.Queue
    pub on_demand_count : ℕ
    pub receiver_count : ℕ
    pub sender_count : ℕ
    pub unique : Option HashSet

  unfoldable pub new : Limit → Bool → String → Channel
  unfolding new_set
  new limit unique name = record {
    name = name;
    has_maxed = false;
    limit = limit;
    on_demand_events = d.no_listeners;
    receiver_events = d.no_listeners;
    sender_events = d.no_listeners;
    queue = d.unbounded;
    on_demand_count = 1;
    receiver_count = 1;
    sender_count = 1;
    unique = if unique then some new_set else none;
  }

  unfoldable pub len : Channel → ℕ
  len c = d.len c.queue

  unfoldable pub current_limit : Channel → ℕ
  unfolding get
  current_limit c = get c.limit

  unfoldable pub notify_on_demand : Channel → Channel
  notify_on_demand c = record c { on_demand_events = d.notify 1 c.on_demand_events }

  unfoldable pub notify_sender : Channel → Channel
  notify_sender c = record c { sender_events = d.notify 1 c.sender_events }

  unfoldable pub notify_all_senders : Channel → Channel
  notify_all_senders c = record c { sender_events = d.notify usize_max c.sender_events }

  unfoldable pub notify_receiver : Channel → Channel
  notify_receiver c = record c { receiver_events = d.notify 1 c.receiver_events }

  unfoldable pub notify_all_receivers : Channel → Channel
  notify_all_receivers c = record c { receiver_events = d.notify usize_max c.receiver_events }

  -- Whether an item may be sent, after its hash went into the set of a unique channel.
  unfoldable pub should_send : T → Channel → Channel × Bool
  unfolding insert
  should_send item c = elim c.unique [
    | none ↦ (c, true)
    | some s ↦ let (s', is_new) = insert item s in (record c { unique = some s' }, is_new)
  ]

  unfoldable pub send : T → Channel → Channel
  unfolding should_send notify_receiver
  send item c =
      let (c', fresh) = should_send item c in
      if fresh then notify_receiver (record c' { queue = d.push item c'.queue }) else c'

  -- The hash of a received item leaves the set.
  unfoldable pub forget : T → Channel → Channel
  unfolding remove
  forget item c = elim c.unique [ none ↦ c | some s ↦ record c { unique = some (remove item s) } ]

  -- An emptied channel with a dynamic limit grows by one if it had been full.
  unfoldable pub grow : Channel → Channel
  grow c = elim c.limit [
    | static n ↦ c
    | dynamic n ↦
        if c.has_maxed then record c { has_maxed = false; limit = dynamic (wrapping_inc n) } else c
  ]

  -- What `recv` does to the limit, given the items left and the limit read before.
  unfoldable pub adjust : ℕ → ℕ → Channel → Channel
  unfolding grow
  adjust inner_len limit c =
      if inner_len == 0
      then grow c
      else if limit == inner_len + 1
      then record c { has_maxed = true }
      else c

  unfoldable pub received : Option (T × d.Queue) → Channel → Option T × Channel
  unfolding forget adjust len current_limit notify_sender notify_on_demand
  received none c = (none, notify_on_demand c)
  received (some (item, rest)) c =
      let c' = forget item (record c { queue = rest }) in
      let inner_len = len c' in
      let limit = current_limit c' in
      let c'' = adjust inner_len limit c' in
      (some item, if ltb inner_len limit then notify_sender c'' else c'')

  unfoldable pub recv : Channel → Option T × Channel
  unfolding received
  recv c = received (d.pop c.queue) c

  -- The counts, each with the value that the method returns.
  unfoldable pub increment_sender_count : Channel → Channel × ℕ
  increment_sender_count c =
      (record c { sender_count = wrapping_inc c.sender_count }, wrapping_inc c.sender_count)

  unfoldable pub decrement_sender_count : Channel → Channel × ℕ
  decrement_sender_count c =
      (record c { sender_count = wrapping_dec c.sender_count }, wrapping_dec c.sender_count)

  unfoldable pub increment_receiver_count : Channel → Channel × ℕ
  increment_receiver_count c =
      (record c { receiver_count = wrapping_inc c.receiver_count }, wrapping_inc c.receiver_count)

  unfoldable pub decrement_receiver_count : Channel → Channel × ℕ
  decrement_receiver_count c =
      (record c { receiver_count = wrapping_dec c.receiver_count }, wrapping_dec c.receiver_count)

  unfoldable pub increment_on_demand_count : Channel → Channel × ℕ
  increment_on_demand_count c = (
    record c { on_demand_count = wrapping_inc c.on_demand_count },
    wrapping_inc c.on_demand_count,
  )

  unfoldable pub decrement_on_demand_count : Channel → Channel × ℕ
  decrement_on_demand_count c = (
    record c { on_demand_count = wrapping_dec c.on_demand_count },
    wrapping_dec c.on_demand_count,
  )
