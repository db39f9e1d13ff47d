-- ===== src/Select/Tests.antt =====
-- Runs of the expressions over whole numbers, and the theorems at concrete inputs.
use pewpew.Prelude.{
  ℕ, zero, suc, ◌+◌, ◌-◌, ◌*◌, ◌/◌, ◌%◌, ◌≡◌, refl, Bool, true, false, not, ◌||◌, none, some, [],
  ◌∷◌, ltb, leb, ◌==◌, if◌then◌else◌, arith,
}
use pewpew.Select.Json.{Numbers, Value, number}
use pewpew.Select.Expression.{
  multiply, subtract, precedence, Expression, expr, value, no_op, Result, ok, evaluate, evaluate_op,
  f64_value, to_json_number,
}
use pewpew.Select.Precedence.{expression_helper, done}
use pewpew.Select.Precedence.Reference.{row, reference, fold_segments, cut}
use pewpew.Select.Precedence.Evaluation.{value_of, apply, expression_helper-evaluate}

-- `negsuc n` is -(n + 1).
data ℤ : Type 0 where
  pos negsuc : ℕ → ℤ

abbrev sub_ℕ : ℕ → ℕ → ℤ
sub_ℕ a b = if leb b a then pos (a - b) else negsuc (b - a - 1)

abbrev neg : ℤ → ℤ
neg (pos zero) = pos 0
neg (pos (suc n)) = negsuc n
neg (negsuc n) = pos (n + 1)

abbrev ◌+ℤ◌ : ℤ → ℤ → ℤ
◌+ℤ◌ (pos a) (pos b) = pos (a + b)
◌+ℤ◌ (pos a) (negsuc b) = sub_ℕ a (b + 1)
◌+ℤ◌ (negsuc a) (pos b) = sub_ℕ b (a + 1)
◌+ℤ◌ (negsuc a) (negsuc b) = negsuc (a + b + 1)

abbrev ltb_ℤ : ℤ → ℤ → Bool
ltb_ℤ (pos a) (pos b) = ltb a b
ltb_ℤ (pos a) (negsuc b) = false
ltb_ℤ (negsuc a) (pos b) = true
ltb_ℤ (negsuc a) (negsuc b) = ltb b a

abbrev abs : ℤ → ℕ
abs (pos a) = a
abs (negsuc a) = a + 1

abbrev to_u64 : ℤ → ℕ
to_u64 (pos a) = a
to_u64 (negsuc a) = 0

abbrev whole : Numbers
whole = record {
  Float = ℤ;
  add = ◌+ℤ◌;
  sub = λ a b. ◌+ℤ◌ a (neg b);
  mul = λ a b. pos (abs a * abs b);
  div = λ a b. pos (abs a / abs b);
  rem = λ a b. pos (abs a % abs b);
  lt = ltb_ℤ;
  le = λ a b. not (ltb_ℤ b a);
  trunc = λ a. a;
  epsilon = pos 1;
  nan = pos 0;
  float_zero = pos 0;
  as_u64 = to_u64;
  float_eq = λ a b. not (ltb_ℤ a b || ltb_ℤ b a);
  Number = ℤ;
  of_u64 = pos;
  of_f64 = some;
  int_zero = λ a. some (abs a == 0);
  as_f64 = λ a. a;
}

abbrev never : Value whole → Value whole → Bool
never a b = false

abbrev leaf : ℕ → Result ℕ (Value whole)
leaf k = ok (number (pos k))

abbrev lit : ℕ → Expression ℕ
lit k = expr none (value k) no_op

-- 10 - 2 - 3 * 2
expression_helper-evaluate_example :
    (t : Expression ℕ) × (expression_helper 9
        (row (lit 10) ((subtract, lit 2) ∷ (subtract, lit 3) ∷ (multiply, lit 2) ∷ []))
        0
      ≡ done t)
    × (value_of whole never leaf t
        ≡ reference
            (apply whole never leaf)
            (value_of whole never leaf)
            6
            0
            (lit 10)
            ((subtract, lit 2) ∷ (subtract, lit 3) ∷ (multiply, lit 2) ∷ []))
expression_helper-evaluate_example =
    expression_helper-evaluate whole never leaf 9 (lit 10)
      ((subtract, lit 2) ∷ (subtract, lit 3) ∷ (multiply, lit 2) ∷ []) (omega arith) tt
      (tt, (tt, (tt, tt)))

reference_value :
    reference
      (apply whole never leaf)
      (value_of whole never leaf)
      6
      0
      (lit 10)
      ((subtract, lit 2) ∷ (subtract, lit 3) ∷ (multiply, lit 2) ∷ [])
    ≡ ok (number (pos 2))
unfolding reference evaluate fold_segments cut precedence
reference_value = refl

-- 1 - 2
difference_below_zero :
    evaluate_op whole {E = ℕ} never subtract (number (pos 1)) (ok (number (pos 2)))
    ≡ ok (number (pos 0))
unfolding evaluate_op f64_value to_json_number
difference_below_zero = refl
