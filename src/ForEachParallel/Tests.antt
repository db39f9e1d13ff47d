-- ===== src/ForEachParallel/Tests.antt =====
-- A run of lib/for_each_parallel on a list of futures, each the number of polls that it waits for.
use pewpew.Prelude.{
  ℕ, zero, suc, ◌≤◌, ◌<◌, ◌≡◌, refl, ◌⊎◌, inl, inr, Option, none, some, List, [], ◌∷◌, length,
  arith,
}
use pewpew.Channel.Handles.{Poll, ready, pending}
use pewpew.Select.Expression.{Result, ok, err}
use pewpew.ForEachParallel.{Tasks, ForEachParallel, poll}
use pewpew.ForEachParallel.Outcomes.{
  Finite, work, left_in, Outcome, poll-Outcome, poll-within_limit,
}

next : List ℕ → Poll (Option (Result ℕ ℕ)) × List ℕ
next [] = (ready none, [])
next (n ∷ ns) = (ready (some (ok n)), ns)

wait : ℕ → Poll (Option ℕ) × ℕ
wait zero = (ready none, 0)
wait (suc n) = (pending, n)

abbrev countdowns : Tasks (List ℕ) ℕ ℕ ℕ
countdowns = record { poll_next = next; spawn = λ n. n; poll_future = wait }

countdowns-Finite : Finite countdowns
unfolding next
countdowns-Finite = record { left = length; left_next = shorter }
  where
    shorter :
        (s : List ℕ)
        → (length (next s).1 < length s)
          ⊎ ((length (next s).1 ≤ length s)
              × (((next s).0 ≡ pending)
                  ⊎ ((next s).0 ≡ ready none)
                  ⊎ ((e : ℕ) × ((next s).0 ≡ ready (some (err e))))))
    shorter [] = inr (omega arith, inr (inl refl))
    shorter (n ∷ ns) = inl (omega arith)

abbrev start : ForEachParallel countdowns
start = record { futures = []; stream = some (2 ∷ 0 ∷ 1 ∷ []); error = none }

enough : work countdowns countdowns-Finite start < 7
unfolding work left_in countdowns-Finite
enough = omega arith

two : ℕ → ℕ
two n = 2

two_positive : 0 < two (length start.futures)
unfolding two
two_positive = omega arith

within_two : length start.futures ≤ two (length start.futures)
unfolding two
within_two = omega arith

poll-Outcome_example :
    (r : Poll (Result ℕ Unit)) × (s' : ForEachParallel countdowns) × (poll countdowns none 7 start
      ≡ some (r, s'))
    × Outcome countdowns countdowns-Finite r s'
poll-Outcome_example = poll-Outcome countdowns countdowns-Finite none 7 start enough

poll-within_limit_example :
    (r : Poll (Result ℕ Unit)) × (s' : ForEachParallel countdowns) × (poll countdowns
        (some two)
        7
        start
      ≡ some (r, s'))
    × (length s'.futures ≤ two (length start.futures))
poll-within_limit_example =
    poll-within_limit countdowns countdowns-Finite two 7 start two_positive within_two enough
