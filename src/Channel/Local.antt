-- ===== src/Channel/Local.antt =====
-- An instance of the crates that lib/channel uses, over numbers: lists for queues, functions for
-- sets, and events that count their listeners. It shows that the parameters can be met.
use pewpew.Prelude.{
  ℕ, ◌+◌, ◌≡◌, ◌<◌, refl, ◌⊎◌, inl, inr, Bool, true, false, not, Option, none, some, List, [], ◌∷◌,
  ◌++◌, ◌==◌, ltb, if◌then◌else◌, usize_max, arith,
}
use pewpew.Channel.Crates.{Deps}

-- Listeners are numbered from 0; those below `bar` have been notified.
pub record Bell : Type 0 where
  pub next : ℕ
  pub bar : ℕ

abbrev listen : Bell → ℕ × Bell
listen e = (e.next, record { next = e.next + 1; bar = if ltb e.bar e.next then e.bar else e.next })

abbrev notify : ℕ → Bell → Bell
notify n e = if n == 0 then e else record e { bar = e.next }

abbrev poll : ℕ → Bell → Bool × Bell
poll l e = (ltb l e.bar, e)

abbrev pop : List ℕ → Option (ℕ × List ℕ)
pop [] = none
pop (x ∷ xs) = some (x, xs)

pub pop_cases :
    (q : List ℕ)
    → ((q ≡ []) × (pop q ≡ none))
      ⊎ ((x : ℕ) × (rest : List ℕ) × (q ≡ x ∷ rest) × (pop q ≡ some (x, rest)))
pop_cases [] = inl (refl, refl)
pop_cases (x ∷ xs) = inr (x, xs, refl, refl)

abbrev length : List ℕ → ℕ
length = pewpew.Prelude.length

pub poll-listen : (e : Bell) → (poll (listen e).0 (listen e).1).0 ≡ false
poll-listen e = ground arith

pub poll-notify : (n l : ℕ) (e : Bell) → 0 < n → l < e.next → (poll l (notify n e)).0 ≡ true
poll-notify n l e p h = ground arith

pub listen-keeps : (l : ℕ) (e : Bell) → l < e.next → l < (listen e).1.next
listen-keeps l e h = omega arith

pub notify-keeps : (n l : ℕ) (e : Bell) → l < e.next → l < (notify n e).next
notify-keeps n l e h = ground arith

pub listen-active : (e : Bell) → (listen e).0 < (listen e).1.next
listen-active e = omega arith

abbrev pub local : Deps ℕ
local = record {
  hash = λ x. x;
  Queue = List ℕ;
  unbounded = [];
  push = λ x q. q ++ x ∷ [];
  pop = pop;
  len = length;
  items = λ q. q;
  items-unbounded = refl;
  items-push = λ x q. refl;
  items-pop = pop_cases;
  len-items = λ q. refl;
  Hashes = ℕ → Bool;
  no_hashes = λ k. false;
  insert = λ h s. (λ k. if h == k then true else s k, not (s h));
  remove = λ h s k. if h == k then false else s k;
  has = λ k s. s k;
  has-no_hashes = λ k. refl;
  insert_new = λ h s. refl;
  has-insert = λ h k s. refl;
  has-remove = λ h k s. refl;
  Event = Bell;
  Listener = ℕ;
  no_listeners = record { next = 0; bar = 0 };
  listen = listen;
  notify = notify;
  poll = poll;
  discard = λ l e. e;
  IsActive = λ l e. l < e.next;
  listen-IsActive = listen-active;
  poll-listen = poll-listen;
  poll-IsActive = λ l e h p. h;
  listen-keeps_active = listen-keeps;
  notify-IsActive = notify-keeps;
  notify_all = λ l e h. poll-notify usize_max l e (omega arith) h;
  notify_one = λ l e h. (l, h, poll-notify 1 l e (omega arith) h);
}
