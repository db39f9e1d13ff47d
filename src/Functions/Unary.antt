-- ===== src/Functions/Unary.antt =====
-- The functions of one value and literal options: `Encode`, `Join` and `Pad`. `Match` has the same
-- shape, with the regular expressions of the regex crate as parameters.
use Prim.Native.String.{String, ◌++◌ as str_append}
use text.Mathlib.Text.{◌==◌}
use pewpew.Prelude.{
  ℕ, zero, suc, ◌-◌, Bool, Option, none, some, List, [], ◌∷◌, length, if◌then◌else◌,
}
use pewpew.Select.Json.{Numbers, Value, null, number, string, array, object, Fields, end, field}
use pewpew.Select.Expression.{Result, ok, ◌>>=◌}
use pewpew.Functions.{
  Library, ExecutingExpressionError, Arg, json, computed, Made, call, folded, Creates, invalid,
  or_invalid, map_ok, join_texts, evaluate_arg, json_value_to_string, item_texts,
}

pub data Encoding : Type 0 where
  base64 percent_simple percent_query percent percent_path percent_userinfo : Encoding
  non_alphanumeric : Encoding

unfoldable pub try_from : {n : Numbers} → String → Creates n Encoding
unfolding invalid
try_from s =
    if s == "base64"
    then ok base64
    else if s == "percent-simple"
    then ok percent_simple
    else if s == "percent-query"
    then ok percent_query
    else if s == "percent"
    then ok percent
    else if s == "percent-path"
    then ok percent_path
    else if s == "percent-userinfo"
    then ok percent_userinfo
    else if s == "non-alphanumeric"
    then ok non_alphanumeric
    else invalid "encode"

-- The first texts of a cycle through `all`, from `rest` on.
unfoldable pub cycle_take : ℕ → List String → List String → List String
cycle_take zero all rest = []
cycle_take (suc k) all (g ∷ rest) = g ∷ cycle_take k all rest
cycle_take (suc k) (g ∷ all) [] = g ∷ cycle_take k (g ∷ all) all
cycle_take (suc k) [] [] = []

-- A value that is folded if it is a literal, and a call of `F` on it otherwise.
unfoldable pub fold_arg :
    {n : Numbers} {X F : Type 0} → (Value n → Value n) → (Arg n X → F) → Arg n X → Made n F
fold_arg f make (json v) = folded (f v)
fold_arg f make (computed c) = call (make (computed c))

pub record Encode (n : Numbers) (X : Type 0) : Type 0 where
  pub arg : Arg n X
  pub encoding : Encoding

pub record Join (n : Numbers) (X : Type 0) : Type 0 where
  pub arg : Arg n X
  pub sep : String
  pub sep2 : Option String

pub record Pad (n : Numbers) (X : Type 0) : Type 0 where
  pub start : Bool
  pub arg : Arg n X
  pub min_length : ℕ
  pub padding : String

-- `R` is a compiled regular expression.
pub record Match (n : Numbers) (X R : Type 0) : Type 0 where
  pub arg : Arg n X
  pub capture_names : List String
  pub regex : R

module _ {n : Numbers} (l : Library n) where
  module _ (encode : Encoding → String → String) where
    unfoldable pub encode_with : Encoding → Value n → Value n
    unfolding json_value_to_string
    encode_with e d = string (encode e (json_value_to_string l d))

    unfoldable pub new_encode : {X : Type 0} → List (Arg n X) → Creates n (Made n (Encode n X))
    unfolding invalid try_from fold_arg encode_with
    new_encode (arg ∷ json (string encoding) ∷ []) = do
      e ← try_from encoding
      ok (fold_arg (encode_with e) (λ a. record { arg = a; encoding = e }) arg)
    new_encode _ = invalid "encode"

    unfoldable pub evaluate_encode :
        {X : Type 0}
        → (X → Result (ExecutingExpressionError n) (Value n))
        → Encode n X
        → Result (ExecutingExpressionError n) (Value n)
    unfolding evaluate_arg encode_with
    evaluate_encode ev f = map_ok (encode_with f.encoding) (evaluate_arg ev f.arg)

  unfoldable pub field_texts : String → Fields n → List String
  unfolding json_value_to_string
  field_texts sep2 end = []
  field_texts sep2 (field k v fs) =
      str_append k (str_append sep2 (json_value_to_string l v)) ∷ field_texts sep2 fs

  unfoldable pub join_with : String → Option String → Value n → Value n
  unfolding join_texts item_texts field_texts json_value_to_string
  join_with sep sep2 (array vs) = string (join_texts sep (item_texts l vs))
  join_with sep (some sep2) (object fs) = string (join_texts sep (field_texts sep2 fs))
  join_with sep sep2 d = string (json_value_to_string l d)

  unfoldable pub new_join : {X : Type 0} → List (Arg n X) → Creates n (Made n (Join n X))
  unfolding invalid fold_arg join_with
  new_join (one ∷ json (string two) ∷ []) =
      ok (fold_arg (join_with two none) (λ a. record { arg = a; sep = two; sep2 = none }) one)
  new_join (one ∷ json (string two) ∷ json (string three) ∷ []) = ok (
      fold_arg (join_with two (some three)) (λ a. record { arg = a; sep = two; sep2 = some three })
        one)
  new_join _ = invalid "join"

  unfoldable pub evaluate_join :
      {X : Type 0}
      → (X → Result (ExecutingExpressionError n) (Value n))
      → Join n X
      → Result (ExecutingExpressionError n) (Value n)
  unfolding evaluate_arg join_with
  evaluate_join ev f = map_ok (join_with f.sep f.sep2) (evaluate_arg ev f.arg)

  unfoldable pub padding_for : String → ℕ → String → List String
  unfolding cycle_take
  padding_for pad_str min_length s =
      cycle_take (min_length - length (l.graphemes s)) (l.graphemes pad_str) (l.graphemes pad_str)

  unfoldable pub pad_with : String → ℕ → Bool → Value n → Value n
  unfolding json_value_to_string padding_for join_texts
  pad_with pad_str min_length start d =
      let s = json_value_to_string l d in
      let pad = join_texts "" (padding_for pad_str min_length s) in
      string (if start then str_append pad s else str_append s pad)

  unfoldable pub new_pad : {X : Type 0} → Bool → List (Arg n X) → Creates n (Made n (Pad n X))
  unfolding invalid or_invalid fold_arg pad_with
  new_pad start (first ∷ json (number k) ∷ json (string third) ∷ []) = do
    second ← or_invalid "pad" (l.number_as_u64 k)
    ok (
        fold_arg (pad_with third second start)
          (λ a. record { start = start; arg = a; min_length = second; padding = third }) first)
  new_pad start _ = invalid "pad"

  unfoldable pub evaluate_pad :
      {X : Type 0}
      → (X → Result (ExecutingExpressionError n) (Value n))
      → Pad n X
      → Result (ExecutingExpressionError n) (Value n)
  unfolding evaluate_arg pad_with
  evaluate_pad ev f = map_ok (pad_with f.padding f.min_length f.start) (evaluate_arg ev f.arg)

  -- A regular expression, as the text and the captured texts of its groups by name, if it matches.
  module _ {R : Type 0} (compile : String → Option R) (names : R → List String)
      (captures : R → String → Option (List (Option String))) where
    -- `json::Map` from the pairs, where a later key replaces an earlier one: `insert` is its insert.
    unfoldable pub capture_fields :
        (String → Value n → Fields n → Fields n)
        → Fields n
        → List String
        → List (Option String)
        → Fields n
    capture_fields insert fs (k ∷ ks) (c ∷ cs) =
        capture_fields insert (insert k (elim c [ none ↦ null | some s ↦ string s ]) fs) ks cs
    capture_fields insert fs _ _ = fs

    unfoldable pub match_with :
        (String → Value n → Fields n → Fields n) → R → List String → Value n → Value n
    unfolding capture_fields json_value_to_string
    match_with insert regex ks d = elim (captures regex (json_value_to_string l d)) [
      | none ↦ null
      | some cs ↦ object (capture_fields insert end ks cs)
    ]

    unfoldable pub new_match :
        {X : Type 0}
        → (String → Value n → Fields n → Fields n)
        → List (Arg n X)
        → Creates n (Made n (Match n X R))
    unfolding invalid or_invalid fold_arg match_with
    new_match insert (arg ∷ json (string regex_str) ∷ []) = do
      regex ← or_invalid "match" (compile regex_str)
      ok (
          fold_arg (match_with insert regex (names regex))
            (λ a. record { arg = a; capture_names = names regex; regex = regex }) arg)
    new_match insert _ = invalid "match"

    unfoldable pub evaluate_match :
        {X : Type 0}
        → (String → Value n → Fields n → Fields n)
        → (X → Result (ExecutingExpressionError n) (Value n))
        → Match n X R
        → Result (ExecutingExpressionError n) (Value n)
    unfolding evaluate_arg match_with
    evaluate_match insert ev f =
        map_ok (match_with insert f.regex f.capture_names) (evaluate_arg ev f.arg)
