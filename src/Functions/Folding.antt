-- ===== src/Functions/Folding.antt =====
-- Calls that are folded to values, against calls that are evaluated.
use pewpew.Prelude.{◌≡◌, refl, arith}
use pewpew.Select.Json.{Numbers, Value}
use pewpew.Select.Expression.{Result, ok}
use pewpew.Functions.{
  ExecutingExpressionError, Arg, json, computed, Made, call, folded, evaluate_arg,
}
use pewpew.Functions.Branch.{fold_if, evaluate_if}

module _ {n : Numbers} {X : Type 0} (ev : X → Result (ExecutingExpressionError n) (Value n)) where
  -- What a call comes to: the value that it was folded to, or what it evaluates to.
  unfoldable pub result_of :
      {F : Type 0}
      → (F → Result (ExecutingExpressionError n) (Value n))
      → Made n F
      → Result (ExecutingExpressionError n) (Value n)
  result_of evaluate (folded v) = ok v
  result_of evaluate (call c) = evaluate c

  -- An `if` with literals among its arguments comes to what it would evaluate to with none folded,
  -- whichever arguments are literals.
  pub fold_if_sound :
      (first second third : Arg n X)
      → result_of (evaluate_if ev) (fold_if first second third)
        ≡ evaluate_if ev (record { first = first; second = second; third = third })
  unfolding result_of fold_if evaluate_if evaluate_arg
  fold_if_sound (json a) (json b) (json c) = ground arith
  fold_if_sound (json a) (json b) (computed c) = ground arith
  fold_if_sound (json a) (computed b) (json c) = ground arith
  fold_if_sound (json a) (computed b) (computed c) = refl
  fold_if_sound (computed a) second third = refl
