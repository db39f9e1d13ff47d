-- ===== src/Functions/Calls.antt =====
-- `FunctionCall` of lib/config/src/select_parser.rs: the functions by name, and `Random`. `epoch` and
-- `json_path` (a read of the clock, and the jsonpath_lib crate) are the parameter `Foreign`.
use Prim.Native.String.{String}
use text.Mathlib.Text.{◌==◌}
use pewpew.Prelude.{ℕ, true, false, Option, none, some, List, [], ◌∷◌, if◌then◌else◌}
use pewpew.Select.Json.{Numbers, Value, null, number, Fields}
use pewpew.Select.Expression.{Result, ok, err}
use pewpew.Functions.{
  Library, ExecutingExpressionError, Arg, json, Made, call, Creates, unknown_function, invalid,
  map_call, map_ok,
}
use pewpew.Functions.Unary.{
  Encoding, Encode, new_encode, evaluate_encode, Join, new_join, evaluate_join, Pad, new_pad,
  evaluate_pad, Match, new_match, evaluate_match,
}
use pewpew.Functions.MinMax.{MinMax, new_min_max, evaluate_min_max}
use pewpew.Functions.Branch.{If, new_if, evaluate_if}
use pewpew.Functions.Sequences.{
  Range, new_range, evaluate_range, Amount, new_repeat, evaluate_repeat, Collect, new_collect,
  evaluate_collect, Entries, new_entries, evaluate_entries,
}
use pewpew.Functions.Replace.{Replace, new_replace, evaluate_replace, ◌>>?◌}

-- The bounds of a uniform distribution.
pub data Random (n : Numbers) : Type 0 where
  integer : ℕ × ℕ → Random n
  float : n.Float × n.Float → Random n

-- The other crates: base64 and percent_encoding, regex, rand, serde_json's map, and the functions
-- that are not told apart here.
pub record Foreign (n : Numbers) (X : Type 0) : Type 1 where
  pub encode : Encoding → String → String
  pub Regex : Type 0
  pub compile : String → Option Regex
  pub capture_names : Regex → List String
  pub captures : Regex → String → Option (List (Option String))
  pub sample : ℕ × ℕ → ℕ
  pub sample_float : n.Float × n.Float → n.Float
  pub insert : String → Value n → Fields n → Fields n
  pub Other : Type 0
  pub new_other : String → List (Arg n X) → Creates n (Made n Other)
  pub evaluate_other : Other → Result (ExecutingExpressionError n) (Value n)

module _ {n : Numbers} (l : Library n) {X : Type 0} (fo : Foreign n X) where
  pub data FunctionCall : Type 0 where
    collect : Collect n X → FunctionCall
    encode : Encode n X → FunctionCall
    entries : Entries n X → FunctionCall
    if_ : If n X → FunctionCall
    join : Join n X → FunctionCall
    match_ : Match n X fo.Regex → FunctionCall
    min_max : MinMax n X → FunctionCall
    pad : Pad n X → FunctionCall
    random : Random n → FunctionCall
    range : Range n X → FunctionCall
    repeat : Amount → FunctionCall
    replace : Replace n X → FunctionCall
    other : fo.Other → FunctionCall

  unfoldable pub new_random : List (Arg n X) → Creates n (Random n)
  unfolding invalid
  new_random (json (number first) ∷ json (number second) ∷ []) = elim (l.number_as_u64 first) [
    | none ↦ ok (float (n.as_f64 first, n.as_f64 second))
    | some a ↦ elim (l.number_as_u64 second) [
      | none ↦ ok (float (n.as_f64 first, n.as_f64 second))
      | some b ↦ ok (integer (a, b))
    ]
  ]
  new_random _ = invalid "random"

  unfoldable pub evaluate_random : Random n → Value n
  evaluate_random (integer bounds) = number (n.of_u64 (fo.sample bounds))
  evaluate_random (float bounds) = elim (n.of_f64 (fo.sample_float bounds)) [
    | none ↦ null
    | some k ↦ number k
  ]

  -- A constructor that folds no value.
  unfoldable pub kept :
      {A : Type 0} → (A → FunctionCall) → Creates n A → Creates n (Made n FunctionCall)
  kept f = map_ok (λ a. call (f a))

  unfoldable pub made :
      {A : Type 0} → (A → FunctionCall) → Creates n (Made n A) → Creates n (Made n FunctionCall)
  unfolding map_call
  made f = map_ok (map_call f)

  unfoldable pub new_call : String → List (Arg n X) → Option (Creates n (Made n FunctionCall))
  unfolding kept made new_random new_collect new_encode new_pad new_entries new_if new_join
      new_match new_min_max new_range new_repeat new_replace
  new_call ident args =
      if ident == "collect"
      then some (kept collect (new_collect l args))
      else if ident == "encode"
      then some (made encode (new_encode l fo.encode args))
      else if ident == "end_pad"
      then some (made pad (new_pad l false args))
      else if ident == "entries"
      then some (kept entries (new_entries l args))
      else if ident == "if"
      then some (made if_ (new_if args))
      else if ident == "join"
      then some (made join (new_join l args))
      else if ident == "match"
      then some (made match_ (new_match l fo.compile fo.capture_names fo.captures fo.insert args))
      else if ident == "max"
      then some (made min_max (new_min_max l false args))
      else if ident == "min"
      then some (made min_max (new_min_max l true args))
      else if ident == "start_pad"
      then some (made pad (new_pad l true args))
      else if ident == "random"
      then some (kept random (new_random args))
      else if ident == "range"
      then some (kept range (new_range l args))
      else if ident == "repeat"
      then some (kept repeat (new_repeat l args))
      else if ident == "replace"
      then (new_replace fo.insert args >>? λ r. some (made replace r))
      else if ident == "epoch"
      then some (made other (fo.new_other ident args))
      else if ident == "json_path"
      then some (made other (fo.new_other ident args))
      else some (err (unknown_function ident))

  module _ (ev : X → Result (ExecutingExpressionError n) (Value n)) where
    unfoldable pub evaluate_call :
        FunctionCall → Option (Result (ExecutingExpressionError n) (Value n))
    unfolding evaluate_collect evaluate_encode evaluate_entries evaluate_if evaluate_join
        evaluate_match evaluate_min_max evaluate_pad evaluate_random evaluate_range evaluate_repeat
        evaluate_replace
    evaluate_call (collect c) = some (evaluate_collect l ev c)
    evaluate_call (encode e) = some (evaluate_encode l fo.encode ev e)
    evaluate_call (entries e) = some (evaluate_entries l ev e)
    evaluate_call (if_ i) = some (evaluate_if ev i)
    evaluate_call (join j) = some (evaluate_join l ev j)
    evaluate_call (match_ m) =
        some (evaluate_match l fo.compile fo.capture_names fo.captures fo.insert ev m)
    evaluate_call (min_max m) = some (evaluate_min_max l ev m)
    evaluate_call (pad p) = some (evaluate_pad l ev p)
    evaluate_call (range r) = some (evaluate_range l ev r)
    evaluate_call (random r) = some (ok (evaluate_random r))
    evaluate_call (repeat r) = some (ok (evaluate_repeat l fo.sample r))
    evaluate_call (replace r) = evaluate_replace fo.insert l ev r
    evaluate_call (other c) = some (fo.evaluate_other c)
