-- ===== src/Select/Expression.antt =====
-- Expressions of lib/config/src/select_parser.rs and their evaluation. A leaf, the source's `Value`,
-- is a parameter with its own evaluation, which holds the data that the expression reads.
use text.Mathlib.Text.{◌==◌}
use pewpew.Prelude.{ℕ, Bool, true, false, not, Option, none, some, if◌then◌else◌}
use pewpew.Select.Json.{Numbers, Value, null, bool, number, string, array, object}

pub data InfixOperator : Type 0 where
  add and divide eq gt gte lt lte mod_ multiply ne or subtract : InfixOperator

-- `INFIX_OPERATOR_PRECEDENCE`.
unfoldable pub precedence : InfixOperator → ℕ
precedence add = 4
precedence and = 2
precedence divide = 5
precedence eq = 3
precedence gt = 3
precedence gte = 3
precedence lt = 3
precedence lte = 3
precedence mod_ = 5
precedence multiply = 5
precedence ne = 3
precedence or = 1
precedence subtract = 4

mutual
  pub data Expression (L : Type 0) : Type 0 where
    expr : Option Bool → Lhs L → Rhs L → Expression L

  pub data Lhs (L : Type 0) : Type 0 where
    expression : Expression L → Lhs L
    value : L → Lhs L

  -- `Option<(InfixOperator, Box<Expression>)>`.
  pub data Rhs (L : Type 0) : Type 0 where
    no_op : Rhs L
    op : InfixOperator → Expression L → Rhs L

pub data Result (E A : Type 0) : Type 0 where
  ok : A → Result E A
  err : E → Result E A

infixl 5 ◌>>=◌
abbrev pub ◌>>=◌ : {E A B : Type 0} → Result E A → (A → Result E B) → Result E B
ok a >>= f = f a
err e >>= f = err e

module _ (n : Numbers) where
  unfoldable pub bool_value : Value n → Bool
  bool_value null = false
  bool_value (bool b) = b
  bool_value (number k) = elim (n.int_zero k) [
    | some is_zero ↦ not is_zero
    | none ↦ not (n.float_eq (n.as_f64 k) n.float_zero)
  ]
  bool_value (string s) = not (s == "")
  bool_value (array xs) = true
  bool_value (object fs) = true

  unfoldable pub f64_value : Value n → n.Float
  f64_value (number k) = n.as_f64 k
  f64_value _ = n.nan

  unfoldable pub to_json_number : n.Float → Value n
  to_json_number x =
      if n.lt (n.sub x (n.trunc x)) n.epsilon
      then number (n.of_u64 (n.as_u64 x))
      else elim (n.of_f64 x) [ some k ↦ number k | none ↦ null ]

  -- The last step of `Expression::evaluate`.
  unfoldable pub evaluate_not : Option Bool → Value n → Value n
  unfolding bool_value
  evaluate_not none v = v
  evaluate_not (some true) v = bool (not (bool_value v))
  evaluate_not (some false) v = bool (bool_value v)

  module _ {E : Type 0} (json_eq : Value n → Value n → Bool) where
    -- `InfixOperator::evaluate`: `and` and `or` look at the right side only where they need it.
    unfoldable pub evaluate_op : InfixOperator → Value n → Result E (Value n) → Result E (Value n)
    unfolding bool_value f64_value to_json_number
    evaluate_op add left right = do
      r ← right
      ok (to_json_number (n.add (f64_value left) (f64_value r)))
    evaluate_op and left right =
        if bool_value left then (do r ← right; ok (bool (bool_value r))) else ok (bool false)
    evaluate_op divide left right = do
      r ← right
      ok (to_json_number (n.div (f64_value left) (f64_value r)))
    evaluate_op eq left right = do r ← right; ok (bool (json_eq left r))
    evaluate_op gt left right = do r ← right; ok (bool (n.lt (f64_value r) (f64_value left)))
    evaluate_op gte left right = do r ← right; ok (bool (n.le (f64_value r) (f64_value left)))
    evaluate_op lt left right = do r ← right; ok (bool (n.lt (f64_value left) (f64_value r)))
    evaluate_op lte left right = do r ← right; ok (bool (n.le (f64_value left) (f64_value r)))
    evaluate_op mod_ left right = do
      r ← right
      ok (to_json_number (n.rem (f64_value left) (f64_value r)))
    evaluate_op multiply left right = do
      r ← right
      ok (to_json_number (n.mul (f64_value left) (f64_value r)))
    evaluate_op ne left right = do r ← right; ok (bool (not (json_eq left r)))
    evaluate_op or left right =
        if bool_value left then ok (bool true) else (do r ← right; ok (bool (bool_value r)))
    evaluate_op subtract left right = do
      r ← right
      ok (to_json_number (n.sub (f64_value left) (f64_value r)))

    module _ {L : Type 0} (leaf : L → Result E (Value n)) where
      unfoldable mutual
        unfolding evaluate_op evaluate_not

        pub evaluate : Expression L → Result E (Value n)
        evaluate (expr is_not lhs rhs) = do
          v ← evaluate_rhs rhs (evaluate_lhs lhs)
          ok (evaluate_not is_not v)

        pub evaluate_lhs : Lhs L → Result E (Value n)
        evaluate_lhs (expression e) = evaluate e
        evaluate_lhs (value l) = leaf l

        pub evaluate_rhs : Rhs L → Result E (Value n) → Result E (Value n)
        evaluate_rhs no_op left = left
        evaluate_rhs (op o e) left = do v ← left; evaluate_op o v (evaluate e)
