-- ===== src/ModInterval/Timetable.antt =====
-- The items of a whole stream.
use pewpew.Prelude.{ℕ, ◌+◌, ◌≤◌, ◌≡◌, refl, sym, subst, Option, none, some, List, [], ◌∷◌, arith}
use pewpew.ModInterval.{
  Floats, LinearSegment, ModInterval, ModIntervalStreamState, ◌>>?◌, minus, calculate_next_start,
  first_state, StartItem,
}
use pewpew.ModInterval.Schedule.{IsScheduled, IsTimetable, Holds, items, into_stream}
use pewpew.ModInterval.Rounds.{
  StartsWithin, minus-Holds, bind-Holds, map-Holds, Computes, calculate_next_start-Computes,
  IsRunning, items_go,
}

IsScheduled-IsTimetable :
    (earliest end_time : ℕ) (expected : Option ℕ) (nows : List ℕ) (is : List StartItem)
    → IsScheduled earliest end_time expected nows is
    → IsTimetable earliest end_time nows is
unfolding IsTimetable IsScheduled
IsScheduled-IsTimetable earliest end_time expected nows [] h = tt
IsScheduled-IsTimetable earliest end_time expected [] (item ∷ rest) h = h
IsScheduled-IsTimetable earliest end_time expected (now ∷ nows) (item ∷ rest) (e, h, k, l, m) =
    (refl, h, k, l, m)

module _ (fl : Floats) where
  -- The state that the first call leaves.
  unfoldable Begins : ModInterval fl → ℕ → Option (ModIntervalStreamState fl) → Type 0
  Begins mi now none = Unit
  Begins mi now (some s) = IsRunning fl s now × (s.end_time ≡ now + mi.duration)

  first_state-Begins :
      (start_at : Option ℕ) (mi : ModInterval fl) (segments : List (LinearSegment fl)) (now : ℕ)
      → Holds (Begins mi now) (first_state fl start_at (record mi { segments = segments }) now)
  unfolding first_state Begins Holds IsRunning
  first_state-Begins start_at mi [] now = tt
  first_state-Begins start_at mi (segment ∷ segments) now =
      let begun : ℕ → ModIntervalStreamState fl = λ start_time. record {
        end_time = now + mi.duration;
        current_segment = segment;
        segments = segments;
        start_time = start_time;
        x_offset = 0;
        next_start = now;
        following_start = none;
      } in
      bind-Holds (λ start_time. start_time ≤ now) (Begins mi now)
        (minus now (elim start_at [ none ↦ 0 | some d ↦ d ]))
        (λ start_time. calculate_next_start fl (begun start_time) now >>? λ (following, s).
          some (some (record s { following_start = following })))
        (minus-Holds now (elim start_at [ none ↦ 0 | some d ↦ d ]))
        (λ start_time h.
          bind-Holds (Computes fl (begun start_time) now) (Begins mi now)
            (calculate_next_start fl (begun start_time) now)
            (λ (following, s). some (some (record s { following_start = following })))
            (calculate_next_start-Computes fl (begun start_time) now (omega (arith, h)))
            (λ (following, s) (e, f, g).
              ((e, subst (λ t. StartsWithin now t following) (sym f) g), f)))

  items_of_state :
      (mi : ModInterval fl) (now : ℕ) (nows : List ℕ) (state : Option (ModIntervalStreamState fl))
      → Begins mi now state
      → Holds
          (IsTimetable now (now + mi.duration) (now ∷ nows))
          (elim state [ none ↦ some [] | some s ↦ items fl (now ∷ nows) s ])
  unfolding Begins Holds IsTimetable
  items_of_state mi now nows none h = tt
  items_of_state mi now nows (some s) (h, e) =
      map-Holds (IsScheduled now s.end_time s.following_start (now ∷ nows))
        (IsTimetable now (now + mi.duration) (now ∷ nows)) (items fl (now ∷ nows) s)
        (λ is k.
          IsScheduled-IsTimetable now (now + mi.duration) s.following_start (now ∷ nows) is
            (subst (λ t. IsScheduled now t s.following_start (now ∷ nows) is) e k))
        (items_go fl (now ∷ nows) s now h)

  -- The items fl of a stream that is polled at any times start in the order in which they come, none
  -- before the stream's first poll and none after its end, each at the time that the item before it
  -- foretold; no sleep that precedes an item goes past its start. A panic leaves no items fl to speak of.
  pub into_stream-IsTimetable :
      (start_at : Option ℕ) (mi : ModInterval fl) (now : ℕ) (nows : List ℕ)
      → Holds
          (IsTimetable now (now + mi.duration) (now ∷ nows))
          (into_stream fl start_at mi now nows)
  unfolding into_stream
  into_stream-IsTimetable start_at mi now nows =
      bind-Holds (Begins mi now) (IsTimetable now (now + mi.duration) (now ∷ nows))
        (first_state fl start_at mi now)
        (λ state. elim state [ none ↦ some [] | some s ↦ items fl (now ∷ nows) s ])
        (first_state-Begins start_at mi mi.segments now)
        (λ state h. items_of_state mi now nows state h)
