-- ===== src/ModInterval/Profile.antt =====
-- The whole profile of a rate, which the next start is measured against.
use pewpew.Prelude.{
  ℕ, ◌+◌, ◌-◌, ◌≤◌, ◌<◌, ◌≡◌, Bool, false, Option, none, some, List, [], ◌∷◌, leb, ltb,
  if◌then◌else◌, arith,
}
use pewpew.ModInterval.{Floats, LinearSegment, ModIntervalStreamState, ◌>>?◌, minus, get_hps_at}

pub minus_within : (a b : ℕ) → b ≤ a → minus a b ≡ some (a - b)
unfolding minus
minus_within a b h = ground (arith, h)

-- A time that is not after the end.
unfoldable pub by_end : ℕ → ℕ → Option ℕ
by_end end_time t = if leb t end_time then some t else none

module _ (fl : Floats) where
  -- The segment that covers a time of the profile, with its place and what follows it.
  unfoldable pub cover :
      ℕ
      → LinearSegment fl
      → List (LinearSegment fl)
      → ℕ
      → Option (ℕ × LinearSegment fl × List (LinearSegment fl))
  cover offset segment [] elapsed =
      if ltb elapsed (offset + segment.duration) then some (offset, segment, []) else none
  cover offset segment (s ∷ segments) elapsed =
      let further = cover (offset + segment.duration) s segments elapsed in
      if ltb elapsed (offset + segment.duration)
      then some (offset, segment, s ∷ segments)
      else further

  -- The next start after a time: the rate's reciprocal later, or where the rate is 0 with the segment
  -- that follows. No start is after the end.
  unfoldable pub start_by_rate :
      ModIntervalStreamState fl
      → ℕ
      → ℕ × LinearSegment fl × List (LinearSegment fl)
      → Option (Option ℕ)
  unfolding by_end
  start_by_rate s time (offset, segment, rest) =
      let rate = get_hps_at fl segment (time - s.start_time - offset) in
      if fl.is_zero rate
      then some (elim rest [
        | [] ↦ none
        | _ ∷ _ ↦ by_end s.end_time (s.start_time + offset + segment.duration)
      ])
      else (fl.from_secs_f64 (fl.recip rate) >>? λ w. some (by_end s.end_time (time + w)))

  unfoldable pub start_by_profile : ModIntervalStreamState fl → ℕ → Option (Option ℕ)
  unfolding cover start_by_rate
  start_by_profile s time =
      elim (cover s.x_offset s.current_segment s.segments (time - s.start_time)) [
        | none ↦ some none
        | some c ↦ start_by_rate s time c
      ]

  -- Whether a time is past the segment that follows the current one.
  unfoldable pub skips : ModIntervalStreamState fl → ℕ → Bool
  skips s time = elim s.segments [
    | [] ↦ false
    | segment ∷ _ ↦
        leb (s.x_offset + s.current_segment.duration + segment.duration) (time - s.start_time)
  ]

  unfoldable pub start_of : Option (Option ℕ × ModIntervalStreamState fl) → Option (Option ℕ)
  start_of none = none
  start_of (some (start, s)) = some start

  pub cover_first :
      (offset : ℕ) (segment : LinearSegment fl) (segments : List (LinearSegment fl)) (elapsed : ℕ)
      → elapsed < offset + segment.duration
      → cover offset segment segments elapsed ≡ some (offset, segment, segments)
  unfolding cover
  cover_first offset segment [] elapsed h = ground (arith, h)
  cover_first offset segment (s ∷ segments) elapsed h = ground (arith, h)

  pub cover_last :
      (offset : ℕ) (segment : LinearSegment fl) (elapsed : ℕ)
      → offset + segment.duration ≤ elapsed
      → cover offset segment [] elapsed ≡ none
  unfolding cover
  cover_last offset segment elapsed h = ground (arith, h)

  pub cover_next :
      (offset : ℕ) (segment s : LinearSegment fl) (segments : List (LinearSegment fl)) (elapsed : ℕ)
      → offset + segment.duration ≤ elapsed
      → cover offset segment (s ∷ segments) elapsed
        ≡ cover (offset + segment.duration) s segments elapsed
  unfolding cover
  cover_next offset segment s segments elapsed h = ground (arith, h)
