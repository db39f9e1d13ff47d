-- ===== src/ModInterval/Rounds.antt =====
-- The rounds of the stream: what a call of its closure makes of the state.
use pewpew.Prelude.{
  ℕ, ◌+◌, ◌-◌, ◌≤◌, ◌≡◌, refl, sym, subst, inl, inr, Bool-cases, Option, none, some, List, [], ◌∷◌,
  leb, arith,
}
use pewpew.ModInterval.{
  Floats, LinearSegment, ModIntervalStreamState, ◌>>?◌, minus, wait_in, start_after, start_in,
  start_from, calculate_next_start, sleep_time, StartItem, next_item,
}
use pewpew.ModInterval.Profile.{minus_within}
use pewpew.ModInterval.Schedule.{SleepsBy, IsScheduled, Holds, items}

-- A start that is neither before a time nor after the end.
unfoldable pub StartsWithin : ℕ → ℕ → Option ℕ → Type 0
StartsWithin time end_time none = Unit
StartsWithin time end_time (some start) = (time ≤ start) × (start ≤ end_time)

pub bind-Holds :
    {A B : Type 0} (P : A → Type 0) (Q : B → Type 0) (o : Option A) (f : A → Option B)
    → Holds P o
    → ((a : A) → P a → Holds Q (f a))
    → Holds Q (o >>? f)
unfolding Holds
bind-Holds P Q none f h g = tt
bind-Holds P Q (some a) f h g = g a h

pub minus-Holds : (a b : ℕ) → Holds (λ d. d ≤ a) (minus a b)
unfolding minus Holds
minus-Holds a b = elim (Bool-cases (leb b a)) [ inl h ↦ rw h (omega arith) | inr h ↦ rw h tt ]

pub map-Holds :
    {A : Type 0} (P Q : A → Type 0) (o : Option A) → ((a : A) → P a → Q a) → Holds P o → Holds Q o
unfolding Holds
map-Holds P Q none f h = tt
map-Holds P Q (some a) f h = f a h

pub any-Holds :
    {A B : Type 0} (Q : B → Type 0) (o : Option A) (f : A → Option B)
    → ((a : A) → Holds Q (f a))
    → Holds Q (o >>? f)
unfolding Holds
any-Holds Q none f g = tt
any-Holds Q (some a) f g = g a

start_after-StartsWithin :
    (fl : Floats) (time end_time : ℕ) (w : Option ℕ)
    → StartsWithin time end_time (start_after fl time end_time w)
unfolding start_after StartsWithin
start_after-StartsWithin fl time end_time none = tt
start_after-StartsWithin fl time end_time (some w) = elim (Bool-cases (leb (time + w) end_time)) [
  | inl h ↦ rw h (ground (arith, h))
  | inr h ↦ rw h tt
]

sleep_time-SleepsBy : (now latency start : ℕ) → SleepsBy now (sleep_time now latency start) start
unfolding sleep_time SleepsBy minus
sleep_time-SleepsBy now latency start = elim (Bool-cases (leb latency start)) [
  | inr h ↦ rw h tt
  | inl h ↦ elim (Bool-cases (leb now (start - latency))) [
    | inr k ↦ rw (h, k) tt
    | inl k ↦ rw (h, k) (ground (arith, h, k))
  ]
]

module _ (fl : Floats) where
  -- What a computed start leaves of the state, with the start.
  abbrev pub Computes :
      ModIntervalStreamState fl → ℕ → Option ℕ × ModIntervalStreamState fl → Type 0
  Computes s time (start, s') =
      (s'.start_time + s'.x_offset ≤ time)
      × (s'.end_time ≡ s.end_time)
      × StartsWithin time s.end_time start

  start_in-Computes :
      (s : ModIntervalStreamState fl) (time wait : ℕ)
      → s.start_time + s.x_offset ≤ time
      → Holds (Computes s time) (start_in fl s time wait)
  unfolding start_in Holds
  start_in-Computes s time wait h =
      any-Holds (Computes s time) (wait_in fl s.current_segment s.segments wait)
        (λ w. some (start_after fl time s.end_time w, s))
        (λ w. (h, refl, start_after-StartsWithin fl time s.end_time w))

  start_next-Computes :
      (s : ModIntervalStreamState fl) (segments : List (LinearSegment fl)) (time wait : ℕ)
      → s.start_time + s.x_offset + wait ≡ time
      → s.current_segment.duration ≤ wait
      → Holds (Computes s time) (elim segments [
        | [] ↦ some (none, s)
        | segment ∷ segments ↦
            start_in fl
              (record s {
                x_offset = s.x_offset + s.current_segment.duration;
                current_segment = segment;
                segments = segments;
              })
              time
              (wait - s.current_segment.duration)
      ])
  unfolding Holds StartsWithin
  start_next-Computes s [] time wait h k = (omega (arith, h), refl, tt)
  start_next-Computes s (segment ∷ segments) time wait h k =
      start_in-Computes
        (record s {
          x_offset = s.x_offset + s.current_segment.duration;
          current_segment = segment;
          segments = segments;
        })
        time (wait - s.current_segment.duration) (omega (arith, h, k))

  start_from-Computes :
      (s : ModIntervalStreamState fl) (time wait : ℕ)
      → s.start_time + s.x_offset + wait ≡ time
      → Holds (Computes s time) (start_from fl s time wait)
  unfolding start_from
  start_from-Computes s time wait h = elim (Bool-cases (leb s.current_segment.duration wait)) [
    | inl past ↦ rw past (start_next-Computes s s.segments time wait h (ground (arith, past)))
    | inr within ↦ rw within (start_in-Computes s time wait (omega (arith, h)))
  ]

  pub calculate_next_start-Computes :
      (s : ModIntervalStreamState fl) (time : ℕ)
      → s.start_time + s.x_offset ≤ time
      → Holds (Computes s time) (calculate_next_start fl s time)
  unfolding calculate_next_start
  calculate_next_start-Computes s time h = rw (minus_within time s.start_time (omega (arith, h))) (
      rw (minus_within (time - s.start_time) s.x_offset (omega (arith, h)))
        (start_from-Computes s time (time - s.start_time - s.x_offset) (omega (arith, h))))

  -- A state between two items fl.
  unfoldable pub IsRunning : ModIntervalStreamState fl → ℕ → Type 0
  unfolding StartsWithin
  IsRunning s earliest =
      (s.start_time + s.x_offset ≤ earliest) × StartsWithin earliest s.end_time s.following_start

  -- An item and the state after it.
  unfoldable Steps :
      ModIntervalStreamState fl
      → Option ℕ
      → ℕ
      → ℕ
      → Option StartItem × ModIntervalStreamState fl
      → Type 0
  unfolding StartsWithin SleepsBy IsRunning
  Steps s expected earliest now (none, s') = expected ≡ none
  Steps s expected earliest now (some ((start, following), sleep), s') =
      (expected ≡ some start)
      × (earliest ≤ start × start ≤ s.end_time)
      × SleepsBy now sleep start
      × (s'.end_time ≡ s.end_time)
      × (s'.following_start ≡ following)
      × IsRunning s' start

  next_item-Steps :
      (s : ModIntervalStreamState fl) (expected : Option ℕ) (earliest now : ℕ)
      → IsRunning (record s { following_start = expected }) earliest
      → Holds
          (Steps s expected earliest now)
          (next_item fl now (record s { following_start = expected }))
  unfolding next_item Steps Holds IsRunning StartsWithin
  next_item-Steps s none earliest now h = refl
  next_item-Steps s (some start) earliest now (h, (k, l)) =
      bind-Holds (Computes s start) (Steps s (some start) earliest now)
        (calculate_next_start fl (record s { next_start = start; following_start = some start })
          start)
        (λ (following, s'). some (
          some ((start, following), sleep_time now (now - s.next_start) start),
          record s' { following_start = following },
        ))
        (calculate_next_start-Computes
          (record s { next_start = start; following_start = some start }) start
          (omega (arith, h, k)))
        (λ (following, s') (e, f, g). (
          refl,
          (k, l),
          sleep_time-SleepsBy now (now - s.next_start) start,
          f,
          refl,
          (e, subst (λ t. StartsWithin start t following) (sym f) g),
        ))

  items_after :
      (now : ℕ) (nows : List ℕ) (s : ModIntervalStreamState fl) (earliest : ℕ)
      (item : Option StartItem) (s' : ModIntervalStreamState fl)
      → ((start : ℕ)
          → IsRunning s' start
          → Holds (IsScheduled start s'.end_time s'.following_start nows) (items fl nows s'))
      → Steps s s.following_start earliest now (item, s')
      → Holds
          (IsScheduled earliest s.end_time s.following_start (now ∷ nows))
          (elim item [ none ↦ some [] | some i ↦ (items fl nows s' >>? λ rest. some (i ∷ rest)) ])
  unfolding Holds IsScheduled Steps
  items_after now nows s earliest none s' h k = k
  items_after now nows s earliest (some ((start, following), sleep)) s' h (e, (i, j), l, f, g, k) =
      bind-Holds (IsScheduled start s'.end_time s'.following_start nows)
        (IsScheduled earliest s.end_time s.following_start (now ∷ nows)) (items fl nows s')
        (λ rest. some (((start, following), sleep) ∷ rest)) (h start k)
        (λ rest m. (
          e,
          i,
          j,
          l,
          subst (λ t. IsScheduled start t following nows rest) f
              (subst (λ w. IsScheduled start s'.end_time w nows rest) g m),
        ))

  pub items_go :
      (nows : List ℕ) (s : ModIntervalStreamState fl) (earliest : ℕ)
      → IsRunning s earliest
      → Holds (IsScheduled earliest s.end_time s.following_start nows) (items fl nows s)
  unfolding items Holds IsScheduled
  items_go [] s earliest h = tt
  items_go (now ∷ nows) s earliest h =
      bind-Holds (Steps s s.following_start earliest now)
        (IsScheduled earliest s.end_time s.following_start (now ∷ nows)) (next_item fl now s)
        (λ (item, s'). elim item [
          | none ↦ some []
          | some i ↦ (items fl nows s' >>? λ rest. some (i ∷ rest))
        ])
        (next_item-Steps s s.following_start earliest now h)
        (λ (item, s').
          items_after now nows s earliest item s' (λ start k. items_go nows s' start k))
