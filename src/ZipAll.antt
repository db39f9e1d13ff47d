-- ===== src/ZipAll.antt =====
-- lib/zip_all: a stream of the values that several streams give at the same place. `none` is the
-- panic of an `unwrap`. The streams are a parameter with their `try_poll_next`.
pub mod Lockstep
mod Tests
use pewpew.Prelude.{Bool, true, false, ◌&&◌, Option, none, some, List, [], ◌∷◌}
use pewpew.Channel.Handles.{Poll, ready, pending}
use pewpew.Select.Expression.{Result, ok, err}

pub record TryStream (S A E : Type 0) : Type 0 where
  pub try_poll_next : S → Poll (Option (Result E A)) × S

module _ {S A E : Type 0} (t : TryStream S A E) where
  -- What the loop over the elements comes to: `all_done` and the elements, or an early return.
  pub data Pass : Type 0 where
    passed : Bool → List (S × Option A) → Pass
    failed : E → Pass
    ended : Pass

  unfoldable pub keep : S × Option A → Bool → Pass → Pass
  keep elem done (passed all_done elems) = passed (done && all_done) (elem ∷ elems)
  keep elem done (failed e) = failed e
  keep elem done ended = ended

  -- An element without a result after its stream was polled.
  unfoldable pub keep_polled : Poll (Option (Result E A)) → S → Pass → Pass
  unfolding keep
  keep_polled (ready (some (ok v))) s rest = keep (s, some v) true rest
  keep_polled (ready (some (err e))) s rest = failed e
  keep_polled (ready none) s rest = ended
  keep_polled pending s rest = keep (s, none) false rest

  unfoldable pub poll_elems : List (S × Option A) → Pass
  unfolding keep keep_polled
  poll_elems [] = passed true []
  poll_elems ((s, some v) ∷ elems) = keep (s, some v) true (poll_elems elems)
  poll_elems ((s, none) ∷ elems) =
      keep_polled (t.try_poll_next s).0 (t.try_poll_next s).1 (poll_elems elems)

  -- `take().unwrap()` of every element: the values, and the elements without them.
  unfoldable pub take_all : List (S × Option A) → Option (List A × List (S × Option A))
  take_all [] = some ([], [])
  take_all ((s, o) ∷ elems) =
      let rest = take_all elems in
      elim o [
        | none ↦ none
        | some v ↦ elim rest [
          | none ↦ none
          | some (values, elems') ↦ some (v ∷ values, (s, none) ∷ elems')
        ]
      ]

  unfoldable pub finish : Pass → Option (Poll (Option (Result E (List A))) × List (S × Option A))
  unfolding take_all
  finish (failed e) = some (ready (some (err e)), [])
  finish ended = some (ready none, [])
  finish (passed false elems) = some (pending, elems)
  finish (passed true elems) = elim (take_all elems) [
    | none ↦ none
    | some ([], elems') ↦ some (ready none, elems')
    | some (v ∷ values, elems') ↦ some (ready (some (ok (v ∷ values))), elems')
  ]

  unfoldable pub poll_next :
      List (S × Option A) → Option (Poll (Option (Result E (List A))) × List (S × Option A))
  unfolding poll_elems finish
  poll_next elems = finish (poll_elems elems)

unfoldable pub zip_all : {S A : Type 0} → List S → List (S × Option A)
zip_all [] = []
zip_all (s ∷ elems) = (s, none) ∷ zip_all elems
