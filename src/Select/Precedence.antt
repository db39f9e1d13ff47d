-- ===== src/Select/Precedence.antt =====
-- `expression_helper` of lib/config/src/select_parser.rs: from a flat row of expressions and
-- operators to a tree, by precedence. It takes fuel.
pub mod Reference
pub mod Rows
pub mod Levels
pub mod Correct
pub mod Evaluation
use pewpew.Prelude.{
  ℕ, zero, suc, ◌+◌, Bool, true, false, Option, none, some, List, [], ◌∷◌, leb, ◌==◌, if◌then◌else◌,
}
use pewpew.Select.Expression.{
  InfixOperator, precedence, Expression, expr, Lhs, expression, Rhs, no_op, op,
}

-- `ExpressionOrOperator`.
pub data Item (L : Type 0) : Type 0 where
  operand : Expression L → Item L
  operator : InfixOperator → Item L

-- `unreachable` is the panic of `unreachable!`.
pub data Outcome (A : Type 0) : Type 0 where
  done : A → Outcome A
  unreachable out_of_fuel : Outcome A

infixl 5 ◌>>=◌
abbrev pub ◌>>=◌ : {A B : Type 0} → Outcome A → (A → Outcome B) → Outcome B
done a >>= f = f a
unreachable >>= f = unreachable
out_of_fuel >>= f = out_of_fuel

module _ {L : Type 0} where
  -- The last operator of the level, with what stands before and behind it: `rposition`, `split_off`
  -- and `pop`.
  unfoldable pub split_last :
      ℕ → List (Item L) → Option (List (Item L) × InfixOperator × List (Item L))
  split_last level [] = none
  split_last level (operand e ∷ items) = elim (split_last level items) [
    | none ↦ none
    | some (left, o, right) ↦ some (operand e ∷ left, o, right)
  ]
  split_last level (operator p ∷ items) = elim (split_last level items) [
    | none ↦ if precedence p == level then some ([], p, items) else none
    | some (left, o, right) ↦ some (operator p ∷ left, o, right)
  ]

  -- An operator and its right side go into the left expression, or round it if it has an operator.
  unfoldable pub attach : Expression L → InfixOperator → Expression L → Expression L
  attach (expr is_not lhs no_op) o right = expr is_not lhs (op o right)
  attach (expr is_not lhs (op p e)) o right =
      expr none (expression (expr is_not lhs (op p e))) (op o right)

  unfoldable pub single : List (Item L) → Outcome (Expression L)
  single (operand e ∷ []) = done e
  single _ = unreachable

  -- The left side: one expression, or a row for the next call, `again`.
  unfoldable pub left_side :
      (List (Item L) → Outcome (Expression L)) → List (Item L) → Outcome (Expression L)
  left_side again (operand e ∷ []) = done e
  left_side again (operator o ∷ []) = unreachable
  left_side again items = again items

  abbrev pub is_single : List (Item L) → Bool
  is_single (i ∷ []) = true
  is_single _ = false

  unfoldable pub expression_helper : ℕ → List (Item L) → ℕ → Outcome (Expression L)
  expression_helper zero items level = out_of_fuel
  expression_helper (suc fuel) items level = elim (split_last level items) [
    | some (left, o, right) ↦ do
      e ← left_side (λ row. expression_helper fuel row level) left
      r ← expression_helper fuel right level
      done (attach e o r)
    | none ↦
        let deeper = expression_helper fuel items (level + 1) in
        if is_single items then single items else if leb 5 level then unreachable else deeper
  ]
