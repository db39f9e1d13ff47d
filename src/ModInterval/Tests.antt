-- ===== src/ModInterval/Tests.antt =====
-- Rates in whole numbers of starts in 60 nanoseconds.
use pewpew.Prelude.{
  ℕ, ◌+◌, ◌-◌, ◌*◌, ◌/◌, ◌≡◌, ◌≢◌, refl, subst, true, false, none, some, List, [], ◌∷◌, ◌==◌, ltb,
  arith,
}
use pewpew.ModInterval.{
  Floats, LinearSegment, ModInterval, ModIntervalStreamState, minus, new_segment, get_hps_at,
  as_per_second, new_interval, append_segment, wait_in, start_after, start_in, start_from,
  calculate_next_start, first_state, sleep_time, next_item,
}
use pewpew.ModInterval.Profile.{cover, by_end, start_by_rate, start_by_profile, skips, start_of}
use pewpew.ModInterval.Starts.{calculate_next_start_by_profile}
use pewpew.ModInterval.Schedule.{IsTimetable, Holds, items, into_stream}
use pewpew.ModInterval.Timetable.{into_stream-IsTimetable}
use pewpew.ModInterval.Transition.{transition_from}
use pewpew.ModInterval.Durations.{total, IsWhole, transition_from-IsWhole}

abbrev whole : Floats
whole = record {
  Float = ℕ;
  add = λ a b. a + b;
  sub = λ a b. a - b;
  mul = λ a b. a * b;
  div = λ a b. a / b;
  abs = λ a. a;
  sqrt = λ a. a;
  recip = λ a. 60 / a;
  lt = ltb;
  is_nan = λ _. false;
  is_finite = λ _. true;
  is_zero = λ a. a == 0;
  of_ℕ = λ n. n;
  as_secs_f64 = λ d. d;
  from_secs_f64 = λ d. some d;
}

-- Two starts in 60 nanoseconds, for 100 nanoseconds.
unfoldable two_a_minute : ModInterval whole
unfolding append_segment new_interval new_segment as_per_second
two_a_minute = append_segment whole 120 100 120 (new_interval whole)

abbrev paused : ℕ → List (LinearSegment whole) → ModIntervalStreamState whole
paused end_time segments = record {
  end_time = end_time;
  current_segment = new_segment whole 1 1 100;
  segments = segments;
  start_time = 0;
  x_offset = 0;
  next_start = 60;
  following_start = some 120;
}

starts_of_two_a_minute :
    into_stream whole none two_a_minute 1000 (1030 ∷ 1075 ∷ 1090 ∷ [])
    ≡ some
        (((1030, some 1060), some 30) ∷ ((1060, some 1090), some 30) ∷ ((1090, none), some 0) ∷ [])
unfolding into_stream two_a_minute first_state calculate_next_start start_from start_in wait_in
    start_after items next_item sleep_time minus get_hps_at append_segment new_interval new_segment
    as_per_second
starts_of_two_a_minute = refl

-- A start past the whole of a segment without starts panics.
panic_past_pause :
    calculate_next_start whole
      (paused 210 (new_segment whole 0 0 10 ∷ new_segment whole 1 1 100 ∷ []))
      120
    ≡ none
unfolding calculate_next_start start_from start_in wait_in minus get_hps_at new_segment
panic_past_pause = refl

calculate_next_start_by_profile_example :
    start_of whole (
      calculate_next_start whole
        (paused 210 (new_segment whole 0 0 10 ∷ new_segment whole 1 1 100 ∷ []))
        105)
    ≡ start_by_profile whole
        (paused 210 (new_segment whole 0 0 10 ∷ new_segment whole 1 1 100 ∷ []))
        105
unfolding skips new_segment
calculate_next_start_by_profile_example =
    calculate_next_start_by_profile whole
      (paused 210 (new_segment whole 0 0 10 ∷ new_segment whole 1 1 100 ∷ [])) 105 (omega arith)
      refl

start_of_pause :
    start_by_profile whole
      (paused 210 (new_segment whole 0 0 10 ∷ new_segment whole 1 1 100 ∷ []))
      105
    ≡ some (some 110)
unfolding start_by_profile start_by_rate by_end cover get_hps_at new_segment
start_of_pause = refl

into_stream-IsTimetable_example :
    Holds
      (IsTimetable 1000 (1000 + two_a_minute.duration) (1000 ∷ 1030 ∷ 1075 ∷ []))
      (into_stream whole none two_a_minute 1000 (1030 ∷ 1075 ∷ []))
into_stream-IsTimetable_example =
    into_stream-IsTimetable whole none two_a_minute 1000 (1030 ∷ 1075 ∷ [])

not_empty : {A : Type 0} (x : A) (xs : List A) → (x ∷ xs) ≢ []
not_empty x xs e = subst (λ ys. elim ys [ [] ↦ ⊥ | _ ∷ _ ↦ Unit ]) e tt

transition_from-IsWhole_example :
    (mi : ModInterval whole) × (transition_from whole two_a_minute
        (append_segment whole 60 70 60 (new_interval whole))
        50
        20
      ≡ some mi)
    × IsWhole whole mi
    × (mi.duration ≡ two_a_minute.duration - 50)
unfolding two_a_minute IsWhole total append_segment new_interval new_segment
transition_from-IsWhole_example =
    transition_from-IsWhole whole two_a_minute (append_segment whole 60 70 60 (new_interval whole))
      50 20 refl refl (not_empty _ []) (not_empty _ []) (omega arith) (omega arith)
