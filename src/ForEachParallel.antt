-- ===== src/ForEachParallel.antt =====
-- lib/for_each_parallel: runs a closure's futures for the items of a stream, so many at a time. The
-- stream, the closure with the spawned future and its channel are the parameter `Tasks`.
pub mod Outcomes
mod Tests
use pewpew.Prelude.{
  ℕ, zero, suc, Bool, true, false, not, ◌&&◌, ◌||◌, Option, none, some, List, [], ◌∷◌, ◌++◌, length,
  ◌==◌, ltb, if◌then◌else◌,
}
use pewpew.Channel.Handles.{Poll, ready, pending}
use pewpew.Select.Expression.{Result, ok, err}

-- `spawn` gives the receiver of the error of the future that the closure made; polling it gives that
-- error, or none when the future is done and the sender is dropped.
pub record Tasks (St StI F E : Type 0) : Type 0 where
  pub poll_next : St → Poll (Option (Result E StI)) × St
  pub spawn : StI → F
  pub poll_future : F → Poll (Option E) × F

module _ {St StI F E : Type 0} (t : Tasks St StI F E) where
  pub record ForEachParallel : Type 0 where
    pub futures : List F
    pub stream : Option St
    pub error : Option E

  unfoldable pub new : St → ForEachParallel
  new stream = record { futures = []; stream = some stream; error = none }

  unfoldable pub pulled :
      Poll (Option (Result E StI)) → St → ForEachParallel → Bool × ForEachParallel
  pulled (ready (some (ok elem))) st s =
      (true, record s { stream = some st; futures = s.futures ++ t.spawn elem ∷ [] })
  pulled (ready none) st s = (false, record s { stream = none })
  pulled pending st s = (false, record s { stream = some st })
  pulled (ready (some (err e))) st s =
      (false, record s { error = some e; futures = []; stream = none })

  -- Tries to pull an item, and says whether that made progress.
  unfoldable pub pull : ℕ → ForEachParallel → Bool × ForEachParallel
  unfolding pulled
  pull limit s = elim s.stream [
    | none ↦ (false, s)
    | some st ↦
        if limit == 0 || ltb (length s.futures) limit
        then pulled (t.poll_next st).0 (t.poll_next st).1 s
        else (false, s)
  ]

  -- The futures that are left, the last error, and whether a future ended.
  unfoldable pub poll_futures : List F → Option E → Bool → List F × Option E × Bool
  poll_futures [] e progress = ([], e, progress)
  poll_futures (f ∷ fs) e progress = elim (t.poll_future f).0 [
    | pending ↦
        let rest = poll_futures fs e progress in ((t.poll_future f).1 ∷ rest.0, rest.1, rest.2)
    | ready (some e') ↦ poll_futures fs (some e') true
    | ready none ↦ poll_futures fs e true
  ]

  unfoldable pub polled : Bool × ForEachParallel → Bool × ForEachParallel
  unfolding poll_futures
  polled (progress, s) =
      let (futures, error, progress') = poll_futures s.futures s.error progress in
      (progress', record s { futures = futures; error = error })

  -- What one round of the loop returns, if it returns, and whether it made progress.
  unfoldable pub returned : Bool → ForEachParallel → Option (Poll (Result E Unit)) × ForEachParallel
  returned progress s = elim s.error [
    | some e ↦ (some (ready (err e)), record { futures = []; stream = none; error = none })
    | none ↦ elim s.futures [
      | [] ↦ elim s.stream [
        | none ↦ (some (ready (ok tt)), s)
        | some st ↦ (if progress then none else some pending, s)
      ]
      | f ∷ fs ↦ (if progress then none else some pending, s)
    ]
  ]

  unfoldable pub round : ℕ → ForEachParallel → Option (Poll (Result E Unit)) × ForEachParallel
  unfolding pull polled returned
  round limit s = let (progress, s') = polled (pull limit s) in returned progress s'

  unfoldable pub rounds : ℕ → ℕ → ForEachParallel → Option (Poll (Result E Unit) × ForEachParallel)
  unfolding round
  rounds zero limit s = none
  rounds (suc fuel) limit s = elim (round limit s).0 [
    | none ↦ rounds fuel limit (round limit s).1
    | some r ↦ some (r, (round limit s).1)
  ]

  unfoldable pub limit_of : Option (ℕ → ℕ) → ForEachParallel → ℕ
  limit_of none s = 0
  limit_of (some lf) s = lf (length s.futures)

  unfoldable pub poll :
      Option (ℕ → ℕ) → ℕ → ForEachParallel → Option (Poll (Result E Unit) × ForEachParallel)
  unfolding limit_of rounds
  poll limit_fn fuel s = rounds fuel (limit_of limit_fn s) s
