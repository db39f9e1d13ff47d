-- ===== src/ModInterval/Durations.antt =====
-- The duration of a rate, and the duration of its segments.
use pewpew.Prelude.{
  ℕ, zero, suc, ◌+◌, ◌-◌, ◌≤◌, ◌<◌, ◌≡◌, ◌≢◌, refl, sym, ap, ap₂, ◌∙◌, subst, ◌⊎◌, inl, inr,
  Bool-cases, false, some, List, [], ◌∷◌, ◌++◌, length, ltb, ltb→le, arith,
}
use pewpew.ModInterval.{Floats, LinearSegment, ModInterval, new_segment, get_hps_at}
use pewpew.ModInterval.Profile.{minus_within}
use pewpew.ModInterval.Transition.{
  pop_back, drain_to, put, find_from, find_segment, adjust_segment, transition, transition_from,
}

le→ltb : (a b : ℕ) → b ≤ a → ltb a b ≡ false
le→ltb a b h = ground (arith, h)

drain_to-put :
    {A : Type 0} (xs : List A) (a x : A) (ys : List A)
    → drain_to (length xs) (put (length xs) a (xs ++ x ∷ ys)) ≡ some (a ∷ ys)
unfolding drain_to put
drain_to-put [] a x ys = refl
drain_to-put (y ∷ xs) a x ys = drain_to-put xs a x ys

pop_back_last : {A : Type 0} (xs : List A) (x : A) → pop_back (xs ++ x ∷ []) ≡ xs
unfolding pop_back
pop_back_last [] x = refl
pop_back_last (y ∷ []) x = refl
pop_back_last (y ∷ z ∷ xs) x = ap (λ ys. y ∷ ys) (pop_back_last (z ∷ xs) x)

drain_to_all : {A : Type 0} (xs : List A) → drain_to (length xs) xs ≡ some []
unfolding drain_to
drain_to_all [] = refl
drain_to_all (x ∷ xs) = drain_to_all xs

module _ (fl : Floats) where
  unfoldable pub total : List (LinearSegment fl) → ℕ
  total [] = 0
  total (segment ∷ segments) = segment.duration + total segments

  -- The duration is the sum of the segments' durations.
  unfoldable pub IsWhole : ModInterval fl → Type 0
  IsWhole mi = mi.duration ≡ total mi.segments

  total_append : (xs ys : List (LinearSegment fl)) → total (xs ++ ys) ≡ total xs + total ys
  unfolding total
  total_append [] ys = omega arith
  total_append (x ∷ xs) ys = ap (λ n. x.duration + n) (total_append xs ys) ∙ omega arith

  -- What `find_segment` finds: the segments before it, the segment and those after it.
  abbrev Finds : ℕ → ℕ → List (LinearSegment fl) → ℕ → Type 0
  Finds i x_offset segments time =
      (before : List (LinearSegment fl)) × (segment : LinearSegment fl) × (after : List
        (LinearSegment fl))
      × (segments ≡ before ++ segment ∷ after)
      × (find_from fl i x_offset segments time
          ≡ some (i + length before, segment, x_offset + total before))
      × (x_offset + total before ≤ time)
      × ((time < x_offset + total before + segment.duration) ⊎ (after ≡ []))

  find_from-Finds :
      (i x_offset : ℕ) (segment : LinearSegment fl) (segments : List (LinearSegment fl)) (time : ℕ)
      → x_offset ≤ time
      → Finds i x_offset (segment ∷ segments) time
  unfolding find_from total
  find_from-Finds i x_offset segment [] time h = (
    [],
    segment,
    [],
    refl,
    ap₂ (λ j o. some (j, segment, o)) (omega arith) (omega arith),
    omega (arith, h),
    inr refl,
  )
  find_from-Finds i x_offset segment (s ∷ segments) time h =
      elim (Bool-cases (ltb time (segment.duration + x_offset))) [
        | inl k ↦ (
          [],
          segment,
          s ∷ segments,
          refl,
          rw k (ap₂ (λ j o. some (j, segment, o)) (omega arith) (omega arith)),
          omega (arith, h),
          inl (ground (arith, k)),
        )
        | inr k ↦
            let past = ltb→le time (segment.duration + x_offset) k in
            let (before, found, after, e, f, g, l) =
              find_from-Finds (suc i) (x_offset + segment.duration) s segments time
                (omega (arith, past)) in
            (
              segment ∷ before,
              found,
              after,
              ap (λ ys. segment ∷ ys) e,
              rw k (f ∙ ap₂ (λ j o. some (j, found, o)) (omega arith) (omega arith)),
              omega (arith, g),
              elim l [ inl m ↦ inl (omega (arith, m)) | inr m ↦ inr m ],
            )
      ]

  adjusted :
      (before : List (LinearSegment fl)) (segment : LinearSegment fl)
      (after : List (LinearSegment fl)) (end_hps : fl.Float) (left : ℕ)
      → ((left ≢ 0) ⊎ (after ≡ []))
      → (rest : List (LinearSegment fl)) × (drain_to
            (length before)
            (adjust_segment fl (before ++ segment ∷ after) (length before) segment end_hps left)
          ≡ some rest)
        × (total rest ≡ left + total after)
  unfolding adjust_segment total new_segment
  adjusted before segment after end_hps zero (inl h) = absurd (h refl)
  adjusted before segment after end_hps zero (inr h) = (
    [],
    subst (λ ys. drain_to (length before) (pop_back (before ++ segment ∷ ys)) ≡ some []) (sym h)
        (rw (pop_back_last before segment) (drain_to_all before)),
    ap total (sym h) ∙ omega arith,
  )
  adjusted before segment after end_hps (suc left) h =
      let next = new_segment fl end_hps (get_hps_at fl segment segment.duration) (suc left) in
      (next ∷ after, drain_to-put before next segment after, refl)

  find_segment-Finds :
      (segments : List (LinearSegment fl)) (time : ℕ)
      → segments ≢ []
      → (before : List (LinearSegment fl)) × (segment : LinearSegment fl) × (after : List
          (LinearSegment fl))
        × (segments ≡ before ++ segment ∷ after)
        × (find_segment fl segments time ≡ some (length before, segment, total before))
        × (total before ≤ time)
        × ((time < total before + segment.duration) ⊎ (after ≡ []))
  unfolding find_segment
  find_segment-Finds [] time h = absurd (h refl)
  find_segment-Finds (s ∷ segments) time h =
      let (before, segment, after, e, f, g, l) =
        find_from-Finds 0 0 s segments time (omega arith) in
      (
        before,
        segment,
        after,
        e,
        f ∙ ap₂ (λ j o. some (j, segment, o)) (omega arith) (omega arith),
        omega (arith, g),
        elim l [ inl m ↦ inl (omega (arith, m)) | inr m ↦ inr m ],
      )

  total_found :
      (segments before : List (LinearSegment fl)) (segment : LinearSegment fl)
      (after : List (LinearSegment fl))
      → segments ≡ before ++ segment ∷ after
      → total segments ≡ total before + (segment.duration + total after)
  unfolding total
  total_found segments before segment after e = ap total e ∙ total_append before (segment ∷ after)

  -- The time in the segment that is found, while the time is within the duration.
  found_within :
      (segments before : List (LinearSegment fl)) (segment : LinearSegment fl)
      (after : List (LinearSegment fl)) (time : ℕ)
      → segments ≡ before ++ segment ∷ after
      → ((time < total before + segment.duration) ⊎ (after ≡ []))
      → time ≤ total segments
      → time ≤ total before + segment.duration
  unfolding total
  found_within segments before segment after time e (inl l) h = omega (arith, l)
  found_within segments before segment after time e (inr l) h =
      let t = total_found segments before segment after e in
      let n : total after ≡ 0 = ap total l in omega (arith, t, n, h)

  left_or_last :
      (before : List (LinearSegment fl)) (segment : LinearSegment fl)
      (after : List (LinearSegment fl)) (time : ℕ)
      → total before ≤ time
      → ((time < total before + segment.duration) ⊎ (after ≡ []))
      → (segment.duration - (time - total before) ≢ 0) ⊎ (after ≡ [])
  left_or_last before segment after time g (inl l) = inl (λ e. omega (arith, l, e, g))
  left_or_last before segment after time g (inr l) = inr l

  transition-IsWhole :
      (mi old : ModInterval fl) (at over : ℕ)
      → IsWhole mi
      → mi.segments ≢ []
      → old.segments ≢ []
      → at ≤ total old.segments
      → at + over ≤ mi.duration
      → (mi' : ModInterval fl) × (transition fl mi old at over ≡ some mi')
        × IsWhole mi'
        × (mi'.duration ≡ mi.duration - at)
  unfolding transition IsWhole total new_segment
  transition-IsWhole mi old at over w n n' h k =
      let (b₁, from, a₁, e₁, f₁, g₁, l₁) = find_segment-Finds old.segments at n' in
      let (b, segment, a, e, f, g, l) = find_segment-Finds mi.segments (at + over) n in
      let time = at + over in
      let within = found_within mi.segments b segment a time e l (subst (λ d. time ≤ d) w k) in
      let end_hps = get_hps_at fl segment (time - total b) in
      let (rest, d, t) =
        adjusted b segment a end_hps (segment.duration - (time - total b))
          (left_or_last b segment a time g l) in
      let d' =
        subst
          (λ segments.
            drain_to (length b) (
              adjust_segment fl segments (length b) segment end_hps
                (segment.duration - (time - total b)))
            ≡ some rest)
          (sym e) d in
      let all = total_found mi.segments b segment a e in
      (
        record {
          segments = new_segment fl (get_hps_at fl from (at - total b₁)) end_hps over ∷ rest;
          duration = mi.duration - at;
        },
        rw
            (
              f₁,
              minus_within at (total b₁) g₁,
              f,
              minus_within time (total b) g,
              minus_within segment.duration (time - total b) (omega (arith, within)),
              d',
            )
            refl,
        omega (arith, all, t, w, within, g),
        refl,
      )

  -- A transition at a time that neither rate's duration is short of, where both have segments, does
  -- not panic, and the rate it makes lasts as long as its segments do and as what this one had left.
  pub transition_from-IsWhole :
      (mi old : ModInterval fl) (at over : ℕ)
      → IsWhole mi
      → IsWhole old
      → mi.segments ≢ []
      → old.segments ≢ []
      → at ≤ old.duration
      → at ≤ mi.duration
      → (mi' : ModInterval fl) × (transition_from fl mi old at over ≡ some mi')
        × IsWhole mi'
        × (mi'.duration ≡ mi.duration - at)
  unfolding transition_from IsWhole
  transition_from-IsWhole mi old at over w v n n' h k =
      rw (le→ltb old.duration at h, le→ltb mi.duration at k)
        (elim (Bool-cases (ltb mi.duration (at + over))) [
          | inl m ↦ rw m (
              transition-IsWhole mi old at (mi.duration - at) w n n' (omega (arith, v, h))
                (omega (arith, k)))
          | inr m ↦ rw m (
              transition-IsWhole mi old at over w n n' (omega (arith, v, h))
                (ltb→le mi.duration (at + over) m))
        ])
