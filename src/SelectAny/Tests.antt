-- ===== src/SelectAny/Tests.antt =====
-- Streams that give what is listed, and then end.
use pewpew.Prelude.{ℕ, zero, suc, ◌≡◌, refl, Option, none, some, List, [], ◌∷◌, arith}
use pewpew.Channel.Handles.{Poll, ready, pending}
use pewpew.SelectAny.{SelectAny, put_elem, select_any, take_turn, turn_at, take_turns, poll_any}
use pewpew.SelectAny.Turns.{Outcome, poll_any-Outcome}

abbrev poll_list : List (Poll (Option ℕ)) → Poll (Option ℕ) × List (Poll (Option ℕ))
poll_list [] = (ready none, [])
poll_list (p ∷ ps) = (p, ps)

abbrev streams : List (List (Poll (Option ℕ)))
streams =
    (ready (some 1) ∷ ready (some 2) ∷ [])
    ∷ (pending ∷ ready (some 3) ∷ [])
    ∷ []
    ∷ (ready (some 4) ∷ [])
    ∷ []

-- The next ones that are polled, so many times.
abbrev polls_of : ℕ → SelectAny (List (Poll (Option ℕ))) → List (Poll (Option ℕ))
polls_of zero s = []
polls_of (suc n) s = (poll_any poll_list s).0 ∷ polls_of n (poll_any poll_list s).1

items_in_turn :
    elim (select_any streams) [ none ↦ [] | some s ↦ polls_of 6 s ]
    ≡ ready (some 1)
      ∷ ready (some 4)
      ∷ ready (some 2)
      ∷ ready (some 3)
      ∷ ready none
      ∷ ready none
      ∷ []
unfolding select_any poll_any take_turns turn_at take_turn put_elem
items_in_turn = refl

abbrev from_third : SelectAny (List (Poll (Option ℕ)))
from_third = record { elems = streams; last_yield_index = 3 }

poll_any-Outcome_example : Outcome poll_list streams 3 (poll_any poll_list from_third)
poll_any-Outcome_example = poll_any-Outcome poll_list from_third (omega arith)
