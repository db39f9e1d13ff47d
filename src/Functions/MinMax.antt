-- ===== src/Functions/MinMax.antt =====
-- `MinMax`: the least or the greatest number among its arguments.
use pewpew.Prelude.{
  ℕ, ◌+◌, Bool, true, false, Option, none, some, List, [], ◌∷◌, length, ◌==◌, if◌then◌else◌,
}
use pewpew.Select.Json.{Numbers, Value, null}
use pewpew.Select.Expression.{Result, ok, err, ◌>>=◌, f64_value}
use pewpew.Functions.{
  Library, ExecutingExpressionError, executing, Arg, json, computed, Made, call, folded, Creates,
  evaluate_arg,
}

pub record MinMax (n : Numbers) (X : Type 0) : Type 0 where
  pub args : List (Arg n X)
  pub min : Bool

pub data Order : Type 0 where
  less equal greater : Order

-- Whether the left value stays: the arms `Less, true`, `Greater, false` and `None` with a finite
-- left value.
unfoldable pub keeps_left : Option Order → Bool → Bool → Bool
keeps_left (some less) min finite = min
keeps_left (some greater) true finite = false
keeps_left (some greater) false finite = true
keeps_left (some equal) min finite = false
keeps_left none min finite = finite

module _ {n : Numbers} (l : Library n) where
  unfoldable pub partial_cmp : n.Float → n.Float → Option Order
  partial_cmp a b =
      if n.lt a b
      then some less
      else if n.lt b a
      then some greater
      else if n.float_eq a b
      then some equal
      else none

  unfoldable pub better : Bool → Value n → Value n → Value n
  unfolding f64_value partial_cmp keeps_left
  better min left right =
      if keeps_left (partial_cmp (f64_value n left) (f64_value n right)) min
        (l.is_finite (f64_value n left))
      then left
      else if l.is_finite (f64_value n right)
      then right
      else null

  -- `try_fold` from `(Null, 0)`.
  unfoldable pub eval_iter :
      {E : Type 0} → Bool → Value n × ℕ → List (Result E (Value n)) → Result E (Value n × ℕ)
  unfolding better
  eval_iter min acc [] = ok acc
  eval_iter min (left, count) (err e ∷ rest) = err e
  eval_iter min (left, count) (ok right ∷ rest) =
      eval_iter min (better min left right, count + 1) rest

  -- The literals among the arguments.
  unfoldable pub literals :
      {X : Type 0} → List (Arg n X) → List (Result (ExecutingExpressionError n) (Value n))
  literals [] = []
  literals (json v ∷ args) = ok v ∷ literals args
  literals (computed c ∷ args) = literals args

  unfoldable pub new_min_max :
      {X : Type 0} → Bool → List (Arg n X) → Creates n (Made n (MinMax n X))
  unfolding literals eval_iter
  new_min_max min args = elim (eval_iter min (null, 0) (literals args)) [
    | err e ↦ err (executing e)
    | ok (v, count) ↦
        ok (if count == length args then folded v else call (record { args = args; min = min }))
  ]

  -- The loop of `evaluate`: the best finite number so far, with its value.
  unfoldable pub best : Bool → Option (n.Float × Value n) → Value n → Option (n.Float × Value n)
  unfolding f64_value partial_cmp keeps_left
  best min none right =
      if l.is_finite (f64_value n right) then some (f64_value n right, right) else none
  best min (some (f, left)) right =
      if keeps_left (partial_cmp f (f64_value n right)) min (l.is_finite f)
      then some (f, left)
      else if l.is_finite (f64_value n right)
      then some (f64_value n right, right)
      else some (f, left)

  unfoldable pub best_of :
      {X : Type 0}
      → (X → Result (ExecutingExpressionError n) (Value n))
      → Bool
      → Option (n.Float × Value n)
      → List (Arg n X)
      → Result (ExecutingExpressionError n) (Option (n.Float × Value n))
  unfolding evaluate_arg best
  best_of ev min left [] = ok left
  best_of ev min left (fa ∷ args) = do
    right ← evaluate_arg ev fa
    best_of ev min (best min left right) args

  unfoldable pub value_of : Option (n.Float × Value n) → Value n
  value_of none = null
  value_of (some (f, v)) = v

  unfoldable pub evaluate_min_max :
      {X : Type 0}
      → (X → Result (ExecutingExpressionError n) (Value n))
      → MinMax n X
      → Result (ExecutingExpressionError n) (Value n)
  unfolding best_of value_of
  evaluate_min_max ev m = do left ← best_of ev m.min none m.args; ok (value_of left)
