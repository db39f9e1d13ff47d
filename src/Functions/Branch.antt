-- ===== src/Functions/Branch.antt =====
-- `If`.
use pewpew.Prelude.{List, [], ◌∷◌, if◌then◌else◌}
use pewpew.Select.Json.{Numbers, Value}
use pewpew.Select.Expression.{Result, ok, ◌>>=◌, bool_value}
use pewpew.Functions.{
  ExecutingExpressionError, Arg, json, computed, Made, call, folded, Creates, invalid, evaluate_arg,
}

pub record If (n : Numbers) (X : Type 0) : Type 0 where
  pub first : Arg n X
  pub second : Arg n X
  pub third : Arg n X

module _ {n : Numbers} {X : Type 0} where
  -- The arms of the `match` on the three arguments, with their guards.
  unfoldable pub fold_if : Arg n X → Arg n X → Arg n X → Made n (If n X)
  unfolding bool_value
  fold_if (json first) (json second) third =
      if bool_value n first then folded second else elim third [
        | json t ↦ folded t
        | computed c ↦
            call (record { first = json first; second = json second; third = computed c })
      ]
  fold_if (json first) second (json third) =
      if bool_value n first
      then call (record { first = json first; second = second; third = json third })
      else folded third
  fold_if first second third = call (record { first = first; second = second; third = third })

  unfoldable pub new_if : List (Arg n X) → Creates n (Made n (If n X))
  unfolding fold_if invalid
  new_if (first ∷ second ∷ third ∷ []) = ok (fold_if first second third)
  new_if _ = invalid "if"

  unfoldable pub evaluate_if :
      (X → Result (ExecutingExpressionError n) (Value n))
      → If n X
      → Result (ExecutingExpressionError n) (Value n)
  unfolding evaluate_arg bool_value
  evaluate_if ev f = do
    first ← evaluate_arg ev f.first
    if bool_value n first then evaluate_arg ev f.second else evaluate_arg ev f.third
