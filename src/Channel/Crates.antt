-- ===== src/Channel/Crates.antt =====
-- What lib/channel takes from other crates, as parameters with their documented behaviour.
-- `hash` is serde_json with ahash (it feeds `HashSet::get_hash` in lib/channel/src/hash_set.rs);
-- `Queue` is concurrent_queue's `ConcurrentQueue`, never closed, so that a push cannot fail;
-- `Hashes` is dashmap's `DashSet<u64>`; `Event` and `Listener` are those of event_listener.
use pewpew.Prelude.{
  ℕ, ◌≡◌, ◌⊎◌, Bool, true, false, not, Option, none, some, List, [], ◌∷◌, ◌++◌, length, ◌==◌,
  if◌then◌else◌, usize_max,
}

pub record Deps (T : Type 0) : Type 1 where
  pub hash : T → ℕ
  pub Queue : Type 0
  pub unbounded : Queue
  pub push : T → Queue → Queue
  pub pop : Queue → Option (T × Queue)
  pub len : Queue → ℕ
  -- The values that a queue holds, oldest first.
  pub items : Queue → List T
  pub items-unbounded : items unbounded ≡ []
  pub items-push : (x : T) (q : Queue) → items (push x q) ≡ items q ++ x ∷ []
  pub items-pop :
      (q : Queue)
      → ((items q ≡ []) × (pop q ≡ none))
        ⊎ ((x : T) × (rest : Queue) × (items q ≡ x ∷ items rest) × (pop q ≡ some (x, rest)))
  pub len-items : (q : Queue) → len q ≡ length (items q)
  pub Hashes : Type 0
  pub no_hashes : Hashes
  -- The set with the hash, and whether it was new.
  pub insert : ℕ → Hashes → Hashes × Bool
  pub remove : ℕ → Hashes → Hashes
  pub has : ℕ → Hashes → Bool
  pub has-no_hashes : (k : ℕ) → has k no_hashes ≡ false
  pub insert_new : (h : ℕ) (s : Hashes) → (insert h s).1 ≡ not (has h s)
  pub has-insert :
      (h k : ℕ) (s : Hashes) → has k (insert h s).0 ≡ (if h == k then true else has k s)
  pub has-remove : (h k : ℕ) (s : Hashes) → has k (remove h s) ≡ (if h == k then false else has k s)
  pub Event : Type 0
  pub Listener : Type 0
  pub no_listeners : Event
  pub listen : Event → Listener × Event
  -- Notifies at least so many of the active listeners, or all of them.
  pub notify : ℕ → Event → Event
  -- Whether the listener has been notified; if so, it is used up.
  pub poll : Listener → Event → Bool × Event
  -- What dropping a listener does.
  pub discard : Listener → Event → Event
  pub IsActive : Listener → Event → Type 0
  pub listen-IsActive : (e : Event) → IsActive (listen e).0 (listen e).1
  pub poll-listen : (e : Event) → (poll (listen e).0 (listen e).1).0 ≡ false
  pub poll-IsActive :
      (l : Listener) (e : Event) → IsActive l e → (poll l e).0 ≡ false → IsActive l (poll l e).1
  pub listen-keeps_active : (l : Listener) (e : Event) → IsActive l e → IsActive l (listen e).1
  pub notify-IsActive : (n : ℕ) (l : Listener) (e : Event) → IsActive l e → IsActive l (notify n e)
  pub notify_all :
      (l : Listener) (e : Event) → IsActive l e → (poll l (notify usize_max e)).0 ≡ true
  pub notify_one :
      (l : Listener) (e : Event)
      → IsActive l e
      → (k : Listener) × IsActive k e × ((poll k (notify 1 e)).0 ≡ true)
