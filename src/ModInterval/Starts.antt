-- ===== src/ModInterval/Starts.antt =====
-- The next start, against the whole profile of the rate.
use pewpew.Prelude.{
  ℕ, ◌+◌, ◌-◌, ◌≤◌, ◌<◌, ◌≡◌, refl, sym, ap, ◌∙◌, inl, inr, Bool, Bool-cases, true, false, Option,
  none, some, List, [], ◌∷◌, leb, if◌then◌else◌, arith,
}
use pewpew.ModInterval.{
  Floats, LinearSegment, ModIntervalStreamState, ◌>>?◌, minus, get_hps_at, wait_in, start_after,
  start_in, start_from, calculate_next_start,
}
use pewpew.ModInterval.Profile.{
  cover, by_end, start_by_rate, start_by_profile, skips, minus_within, start_of, cover_first,
  cover_last, cover_next,
}

module _ (fl : Floats) where
  abbrev waits : ℕ → ℕ → List (LinearSegment fl) → Bool → Option ℕ → Option (Option ℕ)
  waits duration wait segments zero_rate seconds =
      if zero_rate
      then elim segments [ [] ↦ some none | s ∷ rest ↦ minus duration wait >>? λ w. some (some w) ]
      else (seconds >>? λ w. some (some w))

  start_of-waits :
      (s : ModIntervalStreamState fl) (time wait : ℕ)
      → s.start_time + s.x_offset + wait ≡ time
      → wait < s.current_segment.duration
      → (zero_rate : Bool) (seconds : Option ℕ) (segments : List (LinearSegment fl))
      → start_of fl (
          waits s.current_segment.duration wait segments zero_rate seconds >>? λ w.
          some (start_after fl time s.end_time w, s))
        ≡ (if zero_rate
            then some (elim segments [
              | [] ↦ none
              | _ ∷ _ ↦ by_end s.end_time (s.start_time + s.x_offset + s.current_segment.duration)
            ])
            else (seconds >>? λ w. some (by_end s.end_time (time + w))))
  unfolding start_of start_after by_end
  start_of-waits s time wait e h true seconds [] = refl
  start_of-waits s time wait e h true seconds (x ∷ segments) =
      rw (minus_within s.current_segment.duration wait (omega (arith, h)))
        (ap (λ t. some (if leb t s.end_time then some t else none)) (omega (arith, e, h)))
  start_of-waits s time wait e h false none segments = refl
  start_of-waits s time wait e h false (some w) segments = refl

  start_in-rate :
      (s : ModIntervalStreamState fl) (time wait : ℕ)
      → s.start_time + s.x_offset + wait ≡ time
      → wait < s.current_segment.duration
      → start_of fl (start_in fl s time wait)
        ≡ start_by_rate fl s time (s.x_offset, s.current_segment, s.segments)
  unfolding start_in wait_in start_by_rate
  start_in-rate s time wait e h =
      let rate = get_hps_at fl s.current_segment in
      start_of-waits s time wait e h (fl.is_zero (rate wait))
        (fl.from_secs_f64 (fl.recip (rate wait))) s.segments
      ∙ ap
          (λ w.
            (if fl.is_zero (rate w)
              then some (elim s.segments [
                | [] ↦ none
                | _ ∷ _ ↦ by_end s.end_time (s.start_time + s.x_offset + s.current_segment.duration)
              ])
              else (fl.from_secs_f64 (fl.recip (rate w)) >>? λ v.
                  some (by_end s.end_time (time + v)))))
          (omega (arith, e))

  unfoldable chosen :
      ModIntervalStreamState fl
      → ℕ
      → Option (ℕ × LinearSegment fl × List (LinearSegment fl))
      → Option (Option ℕ)
  chosen s time none = some none
  chosen s time (some c) = start_by_rate fl s time c

  by_chosen :
      (s : ModIntervalStreamState fl) (time : ℕ)
      → start_by_profile fl s time
        ≡ chosen s time (cover fl s.x_offset s.current_segment s.segments (time - s.start_time))
  unfolding start_by_profile chosen
  by_chosen s time = elim (cover fl s.x_offset s.current_segment s.segments (time - s.start_time)) [
    | none ↦ refl
    | some c ↦ refl
  ]

  profile_at :
      (s : ModIntervalStreamState fl) (time : ℕ)
      (c : Option (ℕ × LinearSegment fl × List (LinearSegment fl)))
      → cover fl s.x_offset s.current_segment s.segments (time - s.start_time) ≡ c
      → start_by_profile fl s time ≡ chosen s time c
  profile_at s time c h = by_chosen s time ∙ ap (chosen s time) h

  chosen_same :
      (s s' : ModIntervalStreamState fl) (time : ℕ)
      (c : Option (ℕ × LinearSegment fl × List (LinearSegment fl)))
      → s.start_time ≡ s'.start_time
      → s.end_time ≡ s'.end_time
      → chosen s' time c ≡ chosen s time c
  unfolding chosen start_by_rate
  chosen_same s s' time none h k = refl
  chosen_same s s' time (some (offset, segment, [])) h k = rw (h, k) refl
  chosen_same s s' time (some (offset, segment, _ ∷ rest)) h k = rw (h, k) refl

  not_past : (a b : ℕ) → leb a b ≡ false → b < a
  not_past a b h = ground (arith, h)

  is_past : (a b : ℕ) → leb a b ≡ true → a ≤ b
  is_past a b h = ground (arith, h)

  start_in-profile :
      (s : ModIntervalStreamState fl) (time wait : ℕ)
      → s.start_time + s.x_offset + wait ≡ time
      → wait < s.current_segment.duration
      → start_of fl (start_in fl s time wait) ≡ start_by_profile fl s time
  unfolding chosen
  start_in-profile s time wait e h =
      start_in-rate s time wait e h
      ∙ sym (
          profile_at s time (some (s.x_offset, s.current_segment, s.segments)) (
            cover_first fl s.x_offset s.current_segment s.segments (time - s.start_time)
              (omega (arith, e, h))))

  start_from-next :
      (s : ModIntervalStreamState fl) (segments : List (LinearSegment fl)) (time wait : ℕ)
      → s.start_time + s.x_offset + wait ≡ time
      → s.current_segment.duration ≤ wait
      → skips fl (record s { segments = segments }) time ≡ false
      → start_of fl (elim segments [
        | [] ↦ some (none, s)
        | segment ∷ segments ↦
            start_in fl
              (record s {
                x_offset = s.x_offset + s.current_segment.duration;
                current_segment = segment;
                segments = segments;
              })
              time
              (wait - s.current_segment.duration)
      ])
        ≡ start_by_profile fl (record s { segments = segments }) time
  unfolding skips start_of chosen
  start_from-next s [] time wait e h k = sym (
      profile_at (record s { segments = [] }) time none
        (cover_last fl s.x_offset s.current_segment (time - s.start_time) (omega (arith, e, h))))
  start_from-next s (segment ∷ segments) time wait e h k =
      let later =
        not_past (s.x_offset + s.current_segment.duration + segment.duration) (time - s.start_time)
          k in
      let s' : ModIntervalStreamState fl = record s {
        x_offset = s.x_offset + s.current_segment.duration;
        current_segment = segment;
        segments = segments;
      } in
      start_in-profile s' time (wait - s.current_segment.duration) (omega (arith, e, h))
        (omega (arith, e, h, later))
      ∙ by_chosen s' time
      ∙ chosen_same s s' time (cover fl s'.x_offset segment segments (time - s.start_time)) refl
          refl
      ∙ ap (chosen s time) (
          sym (
            cover_next fl s.x_offset s.current_segment segment segments (time - s.start_time)
              (omega (arith, e, h))))
      ∙ chosen_same (record s { segments = segment ∷ segments }) s time
          (cover fl s.x_offset s.current_segment (segment ∷ segments) (time - s.start_time)) refl
          refl
      ∙ sym (by_chosen (record s { segments = segment ∷ segments }) time)

  start_from-profile :
      (s : ModIntervalStreamState fl) (time wait : ℕ)
      → s.start_time + s.x_offset + wait ≡ time
      → skips fl s time ≡ false
      → start_of fl (start_from fl s time wait) ≡ start_by_profile fl s time
  unfolding start_from
  start_from-profile s time wait e h = elim (Bool-cases (leb s.current_segment.duration wait)) [
    | inl past ↦
        rw past (
          start_from-next s s.segments time wait e (is_past s.current_segment.duration wait past) h)
    | inr within ↦
        rw within (start_in-profile s time wait e (not_past s.current_segment.duration wait within))
  ]

  -- Where the next start is computed for a time that is not past the segment that follows the
  -- current one, it is the start that the whole profile gives from the segment that covers the time,
  -- or none if the profile has ended.
  pub calculate_next_start_by_profile :
      (s : ModIntervalStreamState fl) (time : ℕ)
      → s.start_time + s.x_offset ≤ time
      → skips fl s time ≡ false
      → start_of fl (calculate_next_start fl s time) ≡ start_by_profile fl s time
  unfolding calculate_next_start
  calculate_next_start_by_profile s time h k =
      rw (minus_within time s.start_time (omega (arith, h))) (
        rw (minus_within (time - s.start_time) s.x_offset (omega (arith, h)))
          (start_from-profile s time (time - s.start_time - s.x_offset) (omega (arith, h)) k))
