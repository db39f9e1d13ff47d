-- ===== src/Select/Precedence/Reference.antt =====
-- What the rows that lib/config/src/select_parser.rs parses mean: operators of a higher level bind
-- tighter, and those of one level are applied from left to right.
use pewpew.Prelude.{ℕ, zero, suc, ◌+◌, List, [], ◌∷◌, ◌==◌, if◌then◌else◌}
use pewpew.Select.Expression.{InfixOperator, precedence, Expression}
use pewpew.Select.Precedence.{Item, operand, operator}

-- A row is an expression, followed by operators, each with its right operand.
abbrev pub Tail : Type 0 → Type 0
Tail L = List (InfixOperator × Expression L)

-- The first part of a cut row, and the others, each with its operator.
abbrev pub Cut : Type 0 → Type 0
Cut L = Tail L × List (InfixOperator × Expression L × Tail L)

module _ {L : Type 0} where
  abbrev pub tail_items : Tail L → List (Item L)
  tail_items [] = []
  tail_items ((o, e) ∷ rest) = operator o ∷ operand e ∷ tail_items rest

  abbrev pub row : Expression L → Tail L → List (Item L)
  row e rest = operand e ∷ tail_items rest

  abbrev pub place : ℕ → InfixOperator → Expression L → Cut L → Cut L
  place level o e (segment, segments) =
      if precedence o == level
      then ([], (o, e, segment) ∷ segments)
      else ((o, e) ∷ segment, segments)

  -- Cuts a row at every operator of the level.
  unfoldable pub cut : ℕ → Tail L → Cut L
  cut level [] = ([], [])
  cut level ((o, e) ∷ rest) = place level o e (cut level rest)

  module _ {A : Type 0} (apply : InfixOperator → A → A → A) (meaning : Expression L → A) where
    unfoldable pub fold_segments :
        (Expression L → Tail L → A) → A → List (InfixOperator × Expression L × Tail L) → A
    fold_segments deeper acc [] = acc
    fold_segments deeper acc ((o, e, segment) ∷ rest) =
        fold_segments deeper (apply o acc (deeper e segment)) rest

    -- The value of a row with so many levels left, from the given one up.
    unfoldable pub reference : ℕ → ℕ → Expression L → Tail L → A
    reference zero level e rest = meaning e
    reference (suc k) level e rest =
        let (first, segments) = cut level rest in
        fold_segments (reference k (level + 1)) (reference k (level + 1) e first) segments
