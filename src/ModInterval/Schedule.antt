-- ===== src/ModInterval/Schedule.antt =====
-- The items of the stream that `into_stream` makes, over the times at which it is polled.
use pewpew.Prelude.{ℕ, ◌+◌, ◌≤◌, ◌≡◌, Option, none, some, List, [], ◌∷◌}
use pewpew.ModInterval.{
  Floats, ModInterval, ModIntervalStreamState, ◌>>?◌, first_state, StartItem, next_item,
}

-- A sleep that does not end after a start.
unfoldable pub SleepsBy : ℕ → Option ℕ → ℕ → Type 0
SleepsBy now none start = Unit
SleepsBy now (some sleep) start = now + sleep ≤ start

-- The items polled at these times each start when the item before said, no earlier than that item
-- and not after the end, and no sleep goes past its item's start. They end before the polls only
-- where the last one said that nothing follows.
unfoldable pub IsScheduled : ℕ → ℕ → Option ℕ → List ℕ → List StartItem → Type 0
unfolding SleepsBy
IsScheduled earliest end_time expected [] [] = Unit
IsScheduled earliest end_time expected [] (item ∷ rest) = ⊥
IsScheduled earliest end_time expected (now ∷ nows) [] = expected ≡ none
IsScheduled earliest end_time expected (now ∷ nows) (((start, following), sleep) ∷ rest) =
    (expected ≡ some start)
    × (earliest ≤ start)
    × (start ≤ end_time)
    × SleepsBy now sleep start
    × IsScheduled start end_time following nows rest

-- The same of a whole stream, whose first item is not foretold.
unfoldable pub IsTimetable : ℕ → ℕ → List ℕ → List StartItem → Type 0
unfolding IsScheduled
IsTimetable earliest end_time nows [] = Unit
IsTimetable earliest end_time nows (((start, following), sleep) ∷ rest) =
    IsScheduled earliest end_time (some start) nows (((start, following), sleep) ∷ rest)

-- What holds of a value wherever there is one: `none` is a panic.
unfoldable pub Holds : {A : Type 0} → (A → Type 0) → Option A → Type 0
Holds P none = Unit
Holds P (some a) = P a

module _ (fl : Floats) where
  -- The items of the stream that is polled at these times, until it ends.
  unfoldable pub items : List ℕ → ModIntervalStreamState fl → Option (List StartItem)
  items [] s = some []
  items (now ∷ nows) s = next_item fl now s >>? λ (item, s'). elim item [
    | none ↦ some []
    | some i ↦ (items nows s' >>? λ rest. some (i ∷ rest))
  ]

  unfoldable pub into_stream : Option ℕ → ModInterval fl → ℕ → List ℕ → Option (List StartItem)
  into_stream start_at mi now nows = first_state fl start_at mi now >>? λ state. elim state [
    | none ↦ some []
    | some s ↦ items (now ∷ nows) s
  ]
