-- ===== src/Functions/Natural.antt =====
-- Test data: values whose numbers are natural numbers.
use Prim.Native.String.{String}
use pewpew.Prelude.{
  ℕ, ◌+◌, ◌-◌, ◌*◌, ◌/◌, ◌%◌, Bool, true, false, Option, none, some, [], ◌∷◌, ltb, leb, ◌==◌,
}
use pewpew.Select.Json.{Numbers, Value}
use pewpew.Functions.{Library}

-- Floats are the natural numbers and NaN.
abbrev pub lift : (ℕ → ℕ → ℕ) → Option ℕ → Option ℕ → Option ℕ
lift f (some a) (some b) = some (f a b)
lift f (some a) none = none
lift f none b = none

abbrev pub compare_floats : (ℕ → ℕ → Bool) → Option ℕ → Option ℕ → Bool
compare_floats f (some a) (some b) = f a b
compare_floats f (some a) none = false
compare_floats f none b = false

abbrev pub or_zero : Option ℕ → ℕ
or_zero none = 0
or_zero (some a) = a

abbrev pub is_number : Option ℕ → Bool
is_number none = false
is_number (some a) = true

abbrev pub natural : Numbers
natural = record {
  Float = Option ℕ;
  add = lift (λ a b. a + b);
  sub = lift (λ a b. a - b);
  mul = lift (λ a b. a * b);
  div = lift (λ a b. a / b);
  rem = lift (λ a b. a % b);
  lt = compare_floats ltb;
  le = compare_floats leb;
  trunc = λ a. a;
  epsilon = some 1;
  nan = none;
  float_zero = some 0;
  as_u64 = or_zero;
  float_eq = compare_floats (λ a b. a == b);
  Number = ℕ;
  of_u64 = λ a. a;
  of_f64 = λ a. a;
  int_zero = λ a. some (a == 0);
  as_f64 = some;
}

abbrev pub print_nothing : Value natural → String
print_nothing v = ""

abbrev pub library : Library natural
library = record {
  is_finite = is_number;
  number_as_u64 = some;
  is_f64 = λ a. false;
  print = print_nothing;
  graphemes = λ s. s ∷ [];
}
