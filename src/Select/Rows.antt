-- ===== src/Select/Rows.antt =====
-- The rows of a select, select_parser.rs: `ValueOrExpression`, `ParsedSelect` and `Select`. A leaf of
-- an expression is a parameter, with its evaluation for a row of `for_each` or for none and with the
-- values it gives as an iterator; both hold the data and `no_recoverable_error`. Itertools'
-- `multi_cartesian_product` is the parameter `product`. An iterator is the list of its values.
pub mod Reference
mod Tests
use Prim.Native.String.{String}
use pewpew.Prelude.{Bool, true, false, Option, none, some, List, [], ◌∷◌, map, if◌then◌else◌}
use pewpew.Select.Json.{
  Numbers, Value, Items, Fields, null, bool, number, string, array, object, nil, cons, end, field,
}
use pewpew.Select.Expression.{
  Expression, expr, Lhs, Rhs, Result, ok, err, ◌>>=◌, bool_value, evaluate,
}

pub data ValueOrExpression (L : Type 0) : Type 0 where
  a_value : L → ValueOrExpression L
  of_expression : Expression L → ValueOrExpression L

mutual
  pub data ParsedSelect (n : Numbers) (L : Type 0) : Type 0 where
    a_null : ParsedSelect n L
    a_bool : Bool → ParsedSelect n L
    a_number : n.Number → ParsedSelect n L
    an_expression : ValueOrExpression L → ParsedSelect n L
    an_array : ParsedItems n L → ParsedSelect n L
    an_object : ParsedFields n L → ParsedSelect n L

  pub data ParsedItems (n : Numbers) (L : Type 0) : Type 0 where
    no_item : ParsedItems n L
    an_item : ParsedSelect n L → ParsedItems n L → ParsedItems n L

  pub data ParsedFields (n : Numbers) (L : Type 0) : Type 0 where
    no_field : ParsedFields n L
    a_field : String → ParsedSelect n L → ParsedFields n L → ParsedFields n L

-- `EndpointProvidesSendOptions`.
pub data SendOptions : Type 0 where
  block : SendOptions
  force : SendOptions
  if_not_full : SendOptions

pub record Select (n : Numbers) (L : Type 0) : Type 0 where
  pub join : List (ValueOrExpression L)
  pub references_for_each : Bool
  pub where_references_for_each : Bool
  pub send_behavior : SendOptions
  pub select : ParsedSelect n L
  pub where_clause : Option (Expression L)

abbrev pub ResultIter : Type 0 → Type 0 → Type 0
ResultIter E A = List (Result E A)

-- `collect` into a `Result`.
unfoldable pub collect : {E A : Type 0} → ResultIter E A → Result E (List A)
collect [] = ok []
collect (r ∷ rs) = do v ← r; vs ← collect rs; ok (v ∷ vs)

-- `filter_map(Result::transpose)`.
unfoldable pub transposed : {E A : Type 0} → ResultIter E (Option A) → ResultIter E A
transposed [] = []
transposed (ok none ∷ rs) = transposed rs
transposed (ok (some v) ∷ rs) = ok v ∷ transposed rs
transposed (err e ∷ rs) = err e ∷ transposed rs

-- An object's or an array's values.
unfoldable pub list_of : {n : Numbers} → Items n → List (Value n)
list_of nil = []
list_of (cons v vs) = v ∷ list_of vs

-- A row of `for_each`, where there is one.
abbrev pub Row : Numbers → Type 0
Row n = Option (List (Value n))

module _ {n : Numbers} {E L : Type 0} (json_eq : Value n → Value n → Bool)
    (leaf : Row n → L → Result E (Value n)) (leaf_iter : L → Result E (ResultIter E (Value n)))
    (product : List (ResultIter E (Value n)) → List (ResultIter E (Value n))) where
  unfoldable pub evaluate_expression : Row n → Expression L → Result E (Value n)
  unfolding evaluate
  evaluate_expression for_each e = evaluate n json_eq (leaf for_each) e

  unfoldable pub evaluate_voe : Row n → ValueOrExpression L → Result E (Value n)
  unfolding evaluate_expression
  evaluate_voe for_each (a_value v) = leaf for_each v
  evaluate_voe for_each (of_expression e) = evaluate_expression for_each e

  -- The values of an array, or one value.
  unfoldable pub each_value : Value n → ResultIter E (Value n)
  unfolding list_of
  each_value (array vs) = map ok (list_of vs)
  each_value null = ok null ∷ []
  each_value (bool b) = ok (bool b) ∷ []
  each_value (number x) = ok (number x) ∷ []
  each_value (string s) = ok (string s) ∷ []
  each_value (object fs) = ok (object fs) ∷ []

  -- `Expression::evaluate_as_iter` of an expression that is not a value alone.
  unfoldable pub evaluated_iter : Expression L → Result E (ResultIter E (Value n))
  unfolding evaluate_expression each_value
  evaluated_iter e = do v ← evaluate_expression none e; ok (each_value v)

  unfoldable pub expression_iter : Expression L → Result E (ResultIter E (Value n))
  unfolding evaluated_iter
  expression_iter (expr none (Lhs.value v) Rhs.no_op) = leaf_iter v
  expression_iter (expr none (Lhs.expression e) Rhs.no_op) =
      evaluated_iter (expr none (Lhs.expression e) Rhs.no_op)
  expression_iter (expr none lhs (Rhs.op o e)) = evaluated_iter (expr none lhs (Rhs.op o e))
  expression_iter (expr (some b) lhs rhs) = evaluated_iter (expr (some b) lhs rhs)

  unfoldable pub voe_iter : ValueOrExpression L → Result E (ResultIter E (Value n))
  unfolding expression_iter
  voe_iter (a_value v) = leaf_iter v
  voe_iter (of_expression e) = expression_iter e

  unfoldable mutual
    unfolding evaluate_voe

    pub evaluate_select : Row n → ParsedSelect n L → Result E (Value n)
    evaluate_select for_each a_null = ok null
    evaluate_select for_each (a_bool b) = ok (bool b)
    evaluate_select for_each (a_number x) = ok (number x)
    evaluate_select for_each (an_expression v) = evaluate_voe for_each v
    evaluate_select for_each (an_array ps) = do vs ← evaluate_items for_each ps; ok (array vs)
    evaluate_select for_each (an_object ps) = do fs ← evaluate_fields for_each ps; ok (object fs)

    pub evaluate_items : Row n → ParsedItems n L → Result E (Items n)
    evaluate_items for_each no_item = ok nil
    evaluate_items for_each (an_item p ps) = do
      v ← evaluate_select for_each p
      vs ← evaluate_items for_each ps
      ok (cons v vs)

    pub evaluate_fields : Row n → ParsedFields n L → Result E (Fields n)
    evaluate_fields for_each no_field = ok end
    evaluate_fields for_each (a_field k p ps) = do
      v ← evaluate_select for_each p
      fs ← evaluate_fields for_each ps
      ok (field k v fs)

  -- Whether the where clause holds, for a row or for none.
  unfoldable pub holds : Row n → Option (Expression L) → Result E Bool
  unfolding evaluate_expression
  holds for_each none = ok true
  holds for_each (some wc) = do v ← evaluate_expression for_each wc; ok (bool_value n v)

  unfoldable pub execute_where : Select n L → Result E Bool
  unfolding holds
  execute_where s = holds none s.where_clause

  unfoldable pub join_iter : ValueOrExpression L → ResultIter E (Value n)
  unfolding voe_iter
  join_iter v = elim (voe_iter v) [ ok vs ↦ vs | err e ↦ err e ∷ [] ]

  -- What of a row the select and the where clause are given.
  unfoldable pub for_each_of : Bool → ResultIter E (Value n) → Result E (Row n)
  unfolding collect
  for_each_of false row = ok none
  for_each_of true row = do vs ← collect row; ok (some vs)

  unfoldable pub select_if : Row n → ParsedSelect n L → Bool → Result E (Option (Value n))
  unfolding evaluate_select
  select_if for_each select false = ok none
  select_if for_each select true = do v ← evaluate_select for_each select; ok (some v)

  -- A row where the where clause is evaluated for each.
  unfoldable pub checked_row : Select n L → ResultIter E (Value n) → Result E (Option (Value n))
  unfolding for_each_of holds select_if
  checked_row s row = do
    for_each ← for_each_of s.references_for_each row
    b ← holds for_each s.where_clause
    select_if for_each s.select b

  unfoldable pub selected_row : Select n L → ResultIter E (Value n) → Result E (Option (Value n))
  unfolding for_each_of select_if
  selected_row s row = do
    for_each ← for_each_of s.references_for_each row
    select_if for_each s.select true

  unfoldable pub rows :
      (ResultIter E (Value n) → Result E (Option (Value n))) → Select n L → ResultIter E (Value n)
  unfolding transposed join_iter
  rows f s = transposed (map f (product (map join_iter s.join)))

  -- `as_iter` without and with a `for_each`.
  unfoldable pub single_iter : Select n L → Result E (ResultIter E (Value n))
  unfolding holds evaluate_select
  single_iter s = do
    b ← holds none s.where_clause
    ok (if b then evaluate_select none s.select ∷ [] else [])

  unfoldable pub joined_iter : Select n L → Result E (ResultIter E (Value n))
  unfolding holds rows checked_row selected_row
  joined_iter s =
      if s.where_references_for_each
      then ok (rows (checked_row s) s)
      else (holds none s.where_clause >>= λ b. ok (if b then rows (selected_row s) s else []))

  unfoldable pub as_iter : Select n L → Result E (ResultIter E (Value n))
  unfolding single_iter joined_iter
  as_iter s = elim s.join [ [] ↦ single_iter s | _ ∷ _ ↦ joined_iter s ]

  -- A call of the closure that `iter` makes: `none` is an iterator that is not made yet.
  unfoldable pub iter_next :
      Select n L
      → Option (ResultIter E (Value n))
      → Option (Result E (Value n)) × Option (ResultIter E (Value n))
  unfolding as_iter
  iter_next s (some []) = (none, some [])
  iter_next s (some (r ∷ rs)) = (some r, some rs)
  iter_next s none = elim (as_iter s) [
    | err e ↦ (some (err e), none)
    | ok [] ↦ (none, some [])
    | ok (r ∷ rs) ↦ (some r, some rs)
  ]
