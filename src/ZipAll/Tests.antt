-- ===== src/ZipAll/Tests.antt =====
-- Runs of lib/zip_all on streams that are lists of steps.
use pewpew.Prelude.{ℕ, ◌≡◌, refl, ◌⊎◌, inl, inr, Option, none, some, List, [], ◌∷◌}
use pewpew.Channel.Handles.{Poll, ready, pending}
use pewpew.Select.Expression.{Result, ok, err}
use pewpew.ZipAll.{TryStream, poll_next, zip_all}
use pewpew.ZipAll.Lockstep.{Yields, Lockstep, owed_all, poll_next-Lockstep}

data Step : Type 0 where
  wait : Step
  give : ℕ → Step

next : List Step → Poll (Option (Result ℕ ℕ)) × List Step
next [] = (ready none, [])
next (wait ∷ s) = (pending, s)
next (give v ∷ s) = (ready (some (ok v)), s)

steps : TryStream (List Step) ℕ ℕ
steps = record { try_poll_next = next }

given : List Step → List ℕ
given [] = []
given (wait ∷ s) = given s
given (give v ∷ s) = v ∷ given s

steps-Yields : Yields steps
unfolding steps next given
steps-Yields = record { items = given; polled = polled }
  where
    polled :
        (s : List Step)
        → (((next s).0 ≡ pending) × (given (next s).1 ≡ given s))
          ⊎ ((a : ℕ) × ((next s).0 ≡ ready (some (ok a))) × (given s ≡ a ∷ given (next s).1))
          ⊎ (((next s).0 ≡ ready none) × (given s ≡ []))
          ⊎ ((e : ℕ) × ((next s).0 ≡ ready (some (err e))))
    polled [] = inr (inr (inl (refl, refl)))
    polled (wait ∷ s) = inl (refl, refl)
    polled (give v ∷ s) = inr (inl (v, refl, refl))

abbrev two : List (List Step × Option ℕ)
two = zip_all ((give 1 ∷ give 2 ∷ []) ∷ (wait ∷ give 6 ∷ []) ∷ [])

poll_next-Lockstep_example :
    (r : Poll (Option (Result ℕ (List ℕ))) × List (List Step × Option ℕ)) × (poll_next steps two
      ≡ some r)
    × Lockstep steps steps-Yields (owed_all steps steps-Yields two) r
poll_next-Lockstep_example = poll_next-Lockstep steps steps-Yields two
