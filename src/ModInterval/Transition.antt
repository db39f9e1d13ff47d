-- ===== src/ModInterval/Transition.antt =====
-- `ModInterval::transition_from`: the transition from the rate that a reloaded configuration replaces.
use pewpew.Prelude.{
  ℕ, zero, suc, ◌+◌, ◌-◌, ◌||◌, Option, none, some, List, [], ◌∷◌, ltb, if◌then◌else◌,
}
use pewpew.ModInterval.{Floats, LinearSegment, ModInterval, ◌>>?◌, minus, new_segment, get_hps_at}

unfoldable pub pop_back : {A : Type 0} → List A → List A
pop_back [] = []
pop_back (x ∷ []) = []
pop_back (x ∷ y ∷ xs) = x ∷ pop_back (y ∷ xs)

-- `drain(..i)`: what it leaves, with its panic past the end.
unfoldable pub drain_to : {A : Type 0} → ℕ → List A → Option (List A)
drain_to zero xs = some xs
drain_to (suc i) [] = none
drain_to (suc i) (x ∷ xs) = drain_to i xs

-- A write through the reference to the element at an index.
unfoldable pub put : {A : Type 0} → ℕ → A → List A → List A
put i a [] = []
put zero a (x ∷ xs) = a ∷ xs
put (suc i) a (x ∷ xs) = x ∷ put i a xs

module _ (fl : Floats) where
  -- The loop of `find_segment`, from an index and its offset on. Without segments it panics.
  unfoldable pub find_from : ℕ → ℕ → List (LinearSegment fl) → ℕ → Option (ℕ × LinearSegment fl × ℕ)
  find_from i x_offset [] time = none
  find_from i x_offset (segment ∷ []) time = some (i, segment, x_offset)
  find_from i x_offset (segment ∷ s ∷ segments) time =
      let further = find_from (suc i) (x_offset + segment.duration) (s ∷ segments) time in
      if ltb time (segment.duration + x_offset) then some (i, segment, x_offset) else further

  unfoldable pub find_segment : List (LinearSegment fl) → ℕ → Option (ℕ × LinearSegment fl × ℕ)
  find_segment segments time = find_from 0 0 segments time

  -- The segments with the one after the transition made the size that is left of it.
  unfoldable pub adjust_segment :
      List (LinearSegment fl) → ℕ → LinearSegment fl → fl.Float → ℕ → List (LinearSegment fl)
  adjust_segment segments i segment end_hps zero = pop_back segments
  adjust_segment segments i segment end_hps (suc left) =
      put i (new_segment fl end_hps (get_hps_at fl segment segment.duration) (suc left)) segments

  -- The transition from a rate at a time over a while, that while within the duration.
  unfoldable pub transition : ModInterval fl → ModInterval fl → ℕ → ℕ → Option (ModInterval fl)
  transition mi old at over = find_segment old.segments at >>? λ (_, from, x_offset).
      minus at x_offset >>? λ from_x.
      find_segment mi.segments (at + over) >>? λ (i, segment, x_offset).
      minus (at + over) x_offset >>? λ segment_x. minus segment.duration segment_x >>? λ left.
      drain_to i (adjust_segment mi.segments i segment (get_hps_at fl segment segment_x) left)
      >>? λ segments. some (record {
        segments =
            new_segment fl (get_hps_at fl from from_x) (get_hps_at fl segment segment_x) over
            ∷ segments;
        duration = mi.duration - at;
      })

  unfoldable pub transition_from : ModInterval fl → ModInterval fl → ℕ → ℕ → Option (ModInterval fl)
  transition_from mi old at over =
      if ltb old.duration at || ltb mi.duration at
      then some mi
      else transition mi old at (if ltb mi.duration (at + over) then mi.duration - at else over)
