-- ===== src/ModInterval.antt =====
-- lib/mod_interval: the times at which an endpoint starts its requests. A `Duration` and an `Instant`
-- are their nanoseconds, an `f64` is of the parameter `Floats`. `none` is a panic.
pub mod Transition
pub mod Profile
pub mod Starts
pub mod Schedule
pub mod Durations
pub mod Rounds
pub mod Timetable
mod Tests
use pewpew.Prelude.{
  ℕ, ◌+◌, ◌-◌, Bool, true, false, ◌||◌, Option, none, some, List, [], ◌∷◌, ◌++◌, leb, ltb,
  if◌then◌else◌,
}

pub record Floats : Type 1 where
  pub Float : Type 0
  pub add : Float → Float → Float
  pub sub : Float → Float → Float
  pub mul : Float → Float → Float
  pub div : Float → Float → Float
  pub abs : Float → Float
  pub sqrt : Float → Float
  pub recip : Float → Float
  pub lt : Float → Float → Bool
  pub is_nan : Float → Bool
  pub is_finite : Float → Bool
  pub is_zero : Float → Bool
  pub of_ℕ : ℕ → Float
  -- `Duration::as_secs_f64`, and `Duration::from_secs_f64` with its panics.
  pub as_secs_f64 : ℕ → Float
  pub from_secs_f64 : Float → Option ℕ

infixl 5 ◌>>?◌
abbrev pub ◌>>?◌ : {A B : Type 0} → Option A → (A → Option B) → Option B
none >>? f = none
some a >>? f = f a

-- The difference of durations or instants, with the panic below 0 (of two instants, before Rust 1.60).
unfoldable pub minus : ℕ → ℕ → Option ℕ
minus a b = if leb b a then some (a - b) else none

pub record LinearSegment (fl : Floats) : Type 0 where
  pub m : fl.Float
  pub b : fl.Float
  pub min_y : fl.Float
  pub y_limit : fl.Float
  pub duration : ℕ

pub record ModInterval (fl : Floats) : Type 0 where
  pub segments : List (LinearSegment fl)
  pub duration : ℕ

pub record ModIntervalStreamState (fl : Floats) : Type 0 where
  pub end_time : ℕ
  pub current_segment : LinearSegment fl
  pub segments : List (LinearSegment fl)
  pub start_time : ℕ
  pub x_offset : ℕ
  pub next_start : ℕ
  pub following_start : Option ℕ

-- The sleep before an item.
unfoldable pub sleep_time : ℕ → ℕ → ℕ → Option ℕ
sleep_time now latency next_start =
    minus next_start latency >>? λ adjusted_trigger_time. minus adjusted_trigger_time now

-- An item with the sleep before it.
abbrev pub StartItem : Type 0
StartItem = (ℕ × Option ℕ) × Option ℕ

module _ (fl : Floats) where
  unfoldable pub new_segment : fl.Float → fl.Float → ℕ → LinearSegment fl
  new_segment start_hps end_hps duration =
      let m = fl.div (fl.sub end_hps start_hps) (fl.as_secs_f64 duration) in
      record {
        m = m;
        b = start_hps;
        min_y =
            fl.recip
              (fl.div (fl.sqrt (fl.mul (fl.of_ℕ 8) (fl.abs m))) (fl.mul (fl.of_ℕ 2) (fl.abs m)));
        y_limit = fl.recip (fl.as_secs_f64 duration);
        duration = duration;
      }

  unfoldable pub get_hps_at : LinearSegment fl → ℕ → fl.Float
  get_hps_at s time =
      let y = fl.add (fl.mul s.m (fl.as_secs_f64 time)) s.b in
      let y' = if fl.is_nan y || fl.lt y s.y_limit then s.min_y else y in
      if fl.is_finite y' then y' else fl.of_ℕ 0

  unfoldable pub as_per_second : fl.Float → fl.Float
  as_per_second x = fl.div x (fl.of_ℕ 60)

  unfoldable pub new_interval : ModInterval fl
  new_interval = record { segments = []; duration = 0 }

  -- `append_segment`, its rates as `PerX` holds them.
  unfoldable pub append_segment : fl.Float → ℕ → fl.Float → ModInterval fl → ModInterval fl
  append_segment start duration end_ mi = record {
    duration = mi.duration + duration;
    segments = mi.segments ++ new_segment (as_per_second start) (as_per_second end_) duration ∷ [];
  }

  -- The time until the next start in a segment, and none if nothing starts any more.
  unfoldable pub wait_in : LinearSegment fl → List (LinearSegment fl) → ℕ → Option (Option ℕ)
  wait_in segment segments wait_time =
      if fl.is_zero (get_hps_at segment wait_time)
      then elim segments [
        | [] ↦ some none
        | s ∷ rest ↦ minus segment.duration wait_time >>? λ w. some (some w)
      ]
      else (fl.from_secs_f64 (fl.recip (get_hps_at segment wait_time)) >>? λ w. some (some w))

  unfoldable pub start_after : ℕ → ℕ → Option ℕ → Option ℕ
  start_after time end_time none = none
  start_after time end_time (some wait_time) =
      if leb (time + wait_time) end_time then some (time + wait_time) else none

  -- A wait in the current segment.
  unfoldable pub start_in :
      ModIntervalStreamState fl → ℕ → ℕ → Option (Option ℕ × ModIntervalStreamState fl)
  start_in s time wait_time = wait_in s.current_segment s.segments wait_time >>? λ w.
      some (start_after time s.end_time w, s)

  -- When the end of the current segment is reached, the next one is taken.
  unfoldable pub start_from :
      ModIntervalStreamState fl → ℕ → ℕ → Option (Option ℕ × ModIntervalStreamState fl)
  start_from s time wait_time =
      if leb s.current_segment.duration wait_time
      then elim s.segments [
        | [] ↦ some (none, s)
        | segment ∷ segments ↦
            start_in
              (record s {
                x_offset = s.x_offset + s.current_segment.duration;
                current_segment = segment;
                segments = segments;
              })
              time (wait_time - s.current_segment.duration)
      ]
      else start_in s time wait_time

  unfoldable pub calculate_next_start :
      ModIntervalStreamState fl → ℕ → Option (Option ℕ × ModIntervalStreamState fl)
  calculate_next_start s time = minus time s.start_time >>? λ elapsed.
      minus elapsed s.x_offset >>? λ wait_time. start_from s time wait_time

  -- `into_stream`: the state that its closure keeps, from its first call on.
  unfoldable pub first_state :
      Option ℕ → ModInterval fl → ℕ → Option (Option (ModIntervalStreamState fl))
  first_state start_at mi now = elim mi.segments [
    | [] ↦ some none
    | segment ∷ segments ↦ minus now (elim start_at [ none ↦ 0 | some d ↦ d ]) >>? λ start_time.
        (calculate_next_start
            (record {
              end_time = now + mi.duration;
              current_segment = segment;
              segments = segments;
              start_time = start_time;
              x_offset = 0;
              next_start = now;
              following_start = none;
            })
            now
          >>? λ (following, s). some (some (record s { following_start = following })))
  ]

  -- A call of the closure at a time, once there is a state.
  unfoldable pub next_item :
      ℕ → ModIntervalStreamState fl → Option (Option StartItem × ModIntervalStreamState fl)
  next_item now s = elim s.following_start [
    | none ↦ some (none, s)
    | some next_start ↦
        calculate_next_start (record s { next_start = next_start }) next_start
        >>? λ (following, s'). some (
          some ((next_start, following), sleep_time now (now - s.next_start) next_start),
          record s' { following_start = following },
        )
  ]
