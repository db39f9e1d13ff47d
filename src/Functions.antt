-- ===== src/Functions.antt =====
-- lib/config/src/expression_functions.rs: the functions that an expression can call. Here is what
-- they share: their errors (lib/config/src/error.rs, without the position in the text), their
-- arguments and the texts of values. A value that is not a literal is a parameter `X`, with its
-- evaluation; the data that an evaluation reads are part of that parameter.
pub mod Unary
pub mod MinMax
pub mod Branch
pub mod Sequences
pub mod Replace
pub mod Calls
pub mod Folding
pub mod Best
pub mod Spans
pub mod Streams
pub mod Natural
mod Tests
use Prim.Native.String.{String, ◌++◌ as str_append}
use pewpew.Prelude.{ℕ, Bool, true, false, Option, none, some, List, [], ◌∷◌, if◌then◌else◌}
use pewpew.Select.Json.{Numbers, Value, number, string, Items, nil, cons, Fields, end, field}
use pewpew.Select.Expression.{Result, ok, err}

-- What the functions use of `f64`, serde_json and unicode_segmentation beside `Numbers`.
pub record Library (n : Numbers) : Type 0 where
  pub is_finite : n.Float → Bool
  -- `Number::as_u64`, and whether it is held as a float.
  pub number_as_u64 : n.Number → Option ℕ
  pub is_f64 : n.Number → Bool
  -- `Value::to_string`.
  pub print : Value n → String
  pub graphemes : String → List String

pub data ExecutingExpressionError (n : Numbers) : Type 0 where
  indexing_into_json : String → Value n → ExecutingExpressionError n
  invalid_function_arguments : String → ExecutingExpressionError n

pub data CreatingExpressionError (n : Numbers) : Type 0 where
  executing : ExecutingExpressionError n → CreatingExpressionError n
  unknown_function : String → CreatingExpressionError n

-- `ValueOrExpression`, told apart as the constructors of the functions do.
pub data Arg (n : Numbers) (X : Type 0) : Type 0 where
  json : Value n → Arg n X
  computed : X → Arg n X

-- A call to evaluate later, or the value that it is known to have: `Either<Self, json::Value>`.
pub data Made (n : Numbers) (F : Type 0) : Type 0 where
  call : F → Made n F
  folded : Value n → Made n F

unfoldable pub map_call : {n : Numbers} {F G : Type 0} → (F → G) → Made n F → Made n G
map_call f (call c) = call (f c)
map_call f (folded v) = folded v

-- What the constructors return.
abbrev pub Creates : Numbers → Type 0 → Type 0
Creates n A = Result (CreatingExpressionError n) A

unfoldable pub invalid : {n : Numbers} {A : Type 0} → String → Creates n A
invalid name = err (executing (invalid_function_arguments name))

-- `ok_or(InvalidFunctionArguments(..))?`.
unfoldable pub or_invalid : {n : Numbers} {A : Type 0} → String → Option A → Creates n A
unfolding invalid
or_invalid name none = invalid name
or_invalid name (some a) = ok a

abbrev pub map_ok : {E A B : Type 0} → (A → B) → Result E A → Result E B
map_ok f (ok a) = ok (f a)
map_ok f (err e) = err e

-- Texts joined with one between them.
unfoldable pub join_texts : String → List String → String
join_texts sep [] = ""
join_texts sep (s ∷ []) = s
join_texts sep (s ∷ t ∷ ts) = str_append s (str_append sep (join_texts sep (t ∷ ts)))

module _ {n : Numbers} {X : Type 0} where
  -- `ValueOrExpression::evaluate`.
  unfoldable pub evaluate_arg :
      (X → Result (ExecutingExpressionError n) (Value n))
      → Arg n X
      → Result (ExecutingExpressionError n) (Value n)
  evaluate_arg ev (json v) = ok v
  evaluate_arg ev (computed c) = ev c

module _ {n : Numbers} (l : Library n) where
  unfoldable pub json_value_to_string : Value n → String
  json_value_to_string (string s) = s
  json_value_to_string v = l.print v

  unfoldable pub value_as_u64 : Value n → Option ℕ
  value_as_u64 (number k) = l.number_as_u64 k
  value_as_u64 v = none

  -- `as_u64` of an argument: a float is cut off, a negative number is refused.
  unfoldable pub literal_as_u64 : Value n → Option ℕ
  literal_as_u64 (number k) = elim (l.number_as_u64 k) [
    | some u ↦ some u
    | none ↦ if l.is_f64 k then some (n.as_u64 (n.as_f64 k)) else none
  ]
  literal_as_u64 v = none

  unfoldable pub as_u64 : {X : Type 0} → Arg n X → Option ℕ
  unfolding literal_as_u64
  as_u64 (json v) = literal_as_u64 v
  as_u64 (computed c) = none

  unfoldable pub item_texts : Items n → List String
  unfolding json_value_to_string
  item_texts nil = []
  item_texts (cons v vs) = json_value_to_string v ∷ item_texts vs
