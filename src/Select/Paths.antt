-- ===== src/Select/Paths.antt =====
-- Paths of lib/config/src/select_parser.rs, which look up values in the data that an expression
-- reads. A `Cow` is a value with whether it is owned. Templates and function calls are parameters
-- with their evaluation, and so is the text of a `usize`.
pub mod Borrowed
pub mod Failures
mod Tests
use Prim.Native.String.{String, ◌++◌ as str_append}
use text.Mathlib.Text.{◌==◌}
use pewpew.Prelude.{
  ℕ, zero, suc, ◌+◌, Bool, true, false, not, ◌&&◌, Option, none, some, List, [], ◌∷◌, map,
  get_elem?, ◌⊎◌, inl, inr, if◌then◌else◌,
}
use pewpew.Select.Json as Json
use pewpew.Select.Json.{Numbers, Value, null, array, object, Items, nil, cons, Fields, end, field}
use pewpew.Select.Expression.{Result, ok, err, ◌>>=◌}
use pewpew.Functions.{ExecutingExpressionError, indexing_into_json}
use pewpew.Functions.Sequences.{to_items}

pub record Cow (n : Numbers) : Type 0 where
  pub owned : Bool
  pub value : Value n

pub data PathSegment (T : Type 0) : Type 0 where
  number : ℕ → PathSegment T
  string : String → PathSegment T
  template : T → PathSegment T

-- What a segment comes to.
pub data Index : Type 0 where
  key : String → Index
  place : ℕ → Index

module _ {n : Numbers} where
  unfoldable pub get : String → Fields n → Option (Value n)
  get name end = none
  get name (field k v fs) = let rest = get name fs in if k == name then some v else rest

  unfoldable pub get_item : ℕ → Items n → Option (Value n)
  get_item i nil = none
  get_item zero (cons v vs) = some v
  get_item (suc i) (cons v vs) = get_item i vs

  unfoldable pub length_of : Items n → ℕ
  length_of nil = 0
  length_of (cons v vs) = length_of vs + 1

  unfoldable pub or_null : Bool → Option (Value n) → Cow n
  or_null owned none = record { owned = true; value = null }
  or_null owned (some v) = record { owned = owned; value = v }

  module _ (to_string : ℕ → String) where
    -- The arms in which nothing is found: an error, unless it is not asked for.
    unfoldable pub miss : Bool → Value n → Index → Result (ExecutingExpressionError n) (Cow n)
    unfolding or_null
    miss true v i = ok (or_null true none)
    miss false v (key s) = err (indexing_into_json s v)
    miss false v (place i) =
        err (indexing_into_json (str_append "[" (str_append (to_string i) "]")) v)

    -- The `match` on the value and the index, which `index_json` and `index_json2` have.
    unfoldable pub look_up : Bool → Cow n → Index → Result (ExecutingExpressionError n) (Cow n)
    unfolding get get_item length_of or_null miss
    look_up no_err json (key s) = elim json.value [
      | object fs ↦ ok (or_null json.owned (get s fs))
      | array vs ↦
          if s == "length"
          then ok (or_null true (some (Json.number (n.of_u64 (length_of vs)))))
          else miss no_err json.value (key s)
      | _ ↦ miss no_err json.value (key s)
    ]
    look_up no_err json (place i) = elim json.value [
      | object fs ↦
          if json.owned
          then miss no_err json.value (place i)
          else ok (or_null false (get (to_string i) fs))
      | array vs ↦ ok (or_null json.owned (get_item i vs))
      | _ ↦ miss no_err json.value (place i)
    ]

    module _ {T : Type 0}
        (template_value : T → Value n → Result (ExecutingExpressionError n) String) where
      -- `PathSegment::evaluate`.
      unfoldable pub index_of : PathSegment T → Value n → Result (ExecutingExpressionError n) Index
      index_of (number i) d = ok (place i)
      index_of (string s) d = ok (key s)
      index_of (template t) d = template_value t d >>= λ s. ok (key s)

      unfoldable pub index_json :
          Bool → Cow n → PathSegment T ⊎ String → Result (ExecutingExpressionError n) (Cow n)
      unfolding index_of look_up
      index_json no_err json (inl segment) =
          index_of segment json.value >>= λ i. look_up no_err json i
      index_json no_err json (inr s) = look_up no_err json (key s)

      unfoldable pub index_json2 :
          Bool → Cow n → List (PathSegment T) → Result (ExecutingExpressionError n) (Cow n)
      unfolding index_of look_up
      index_json2 no_err json [] = ok json
      index_json2 no_err json (index ∷ indexes) = do
        i ← index_of index json.value
        json' ← look_up no_err json i
        index_json2 no_err json' indexes

pub data PathStart (n : Numbers) (F : Type 0) : Type 0 where
  function_call : F → PathStart n F
  ident : String → PathStart n F
  value : Value n → PathStart n F

pub record Path_ (n : Numbers) (F T : Type 0) : Type 0 where
  pub start : PathStart n F
  pub rest : List (PathSegment T)

module _ {n : Numbers} {F T : Type 0} (to_string : ℕ → String)
    (template_value : T → Value n → Result (ExecutingExpressionError n) String)
    (call_value : F → Cow n → Result (ExecutingExpressionError n) (Cow n)) where
  unfoldable pub values : List (Cow n) → List (Value n)
  values [] = []
  values (c ∷ cs) = c.value ∷ values cs

  unfoldable pub or_null_cow : Option (Cow n) → Cow n
  or_null_cow none = record { owned = true; value = null }
  or_null_cow (some c) = c

  -- The values of a `for_each`, as a whole or one of them.
  unfoldable pub evaluate_for_each :
      Bool → List (Cow n) → List (PathSegment T) → Result (ExecutingExpressionError n) (Cow n)
  unfolding values index_json2 to_items or_null_cow
  evaluate_for_each no_err vs [] =
      ok (record { owned = true; value = array (to_items (values vs)) })
  evaluate_for_each no_err vs (number i ∷ rest) =
      index_json2 to_string template_value no_err (or_null_cow (get_elem? vs i)) rest
  evaluate_for_each no_err vs (segment ∷ rest) =
      index_json2 to_string template_value no_err (record { owned = true; value = null }) rest

  unfoldable pub evaluate_ident :
      Bool
      → Option (List (Cow n))
      → Cow n
      → String
      → List (PathSegment T)
      → Result (ExecutingExpressionError n) (Cow n)
  unfolding evaluate_for_each index_json index_json2
  evaluate_ident no_err none d s rest = do
    v ← index_json to_string template_value no_err d (inr s)
    index_json2 to_string template_value no_err v rest
  evaluate_ident no_err (some vs) d s rest =
      if s == "for_each"
      then evaluate_for_each no_err vs rest
      else (index_json to_string template_value no_err d (inr s) >>= λ v.
          index_json2 to_string template_value no_err v rest)

  -- `Path::evaluate`.
  unfoldable pub evaluate_path :
      Bool
      → Option (List (Cow n))
      → Cow n
      → Path_ n F T
      → Result (ExecutingExpressionError n) (Cow n)
  unfolding evaluate_ident index_json2
  evaluate_path no_err for_each d p = elim p.start [
    | function_call f ↦ call_value f d >>= λ v. index_json2 to_string template_value no_err v p.rest
    | ident s ↦ evaluate_ident no_err for_each d s p.rest
    | value v ↦
        index_json2 to_string template_value no_err (record { owned = false; value = v }) p.rest
  ]
