-- ===== src/Select/Paths/Tests.antt =====
-- A path whose template fails.
use Prim.Native.String.{String}
use pewpew.Prelude.{List, true, ℕ, ◌≡◌, refl, ◌⊎◌, false, none, [], ◌∷◌}
use pewpew.Select.Json as Json
use pewpew.Select.Json.{Value, null, end, field, object}
use pewpew.Select.Expression.{Result, ok, err}
use pewpew.Functions.{ExecutingExpressionError, invalid_function_arguments}
use pewpew.Functions.Natural.{natural}
use pewpew.Select.Paths.{
  Cow, PathSegment, string, template, function_call, ident, Path_, evaluate_path, index_json2,
  look_up, place,
}
use pewpew.Select.Paths.Borrowed.{has_keys, SameValue, index_json2_same}
use pewpew.Select.Paths.Failures.{TemplateFails, evaluate_path_fails}

abbrev show : ℕ → String
show i = "0"

abbrev template_value : ℕ → Value natural → Result (ExecutingExpressionError natural) String
template_value t v = err (invalid_function_arguments "join")

abbrev call_value : ℕ → Cow natural → Result (ExecutingExpressionError natural) (Cow natural)
call_value f d = ok d

abbrev data_read : Cow natural
data_read = record { owned = false; value = object (field "a" null end) }

abbrev path : Path_ natural ℕ ℕ
path = record { start = ident "a"; rest = string "b" ∷ template 0 ∷ [] }

evaluate_path_fails_example :
    TemplateFails show template_value
      (string "b" ∷ template 0 ∷ [])
      (invalid_function_arguments "join")
    ⊎ ((f : ℕ) × (path.start ≡ function_call f)
        × (call_value f data_read ≡ err (invalid_function_arguments "join")))
unfolding evaluate_path
evaluate_path_fails_example =
    evaluate_path_fails show template_value call_value none data_read path
      (invalid_function_arguments "join") refl

abbrev keys : List (PathSegment ℕ)
keys = string "a" ∷ string "b" ∷ []

index_json2_same_example :
    SameValue
      (index_json2 show template_value false
        (record { owned = true; value = data_read.value })
        keys)
      (index_json2 show template_value false
        (record { owned = false; value = data_read.value })
        keys)
unfolding has_keys
index_json2_same_example = index_json2_same show false template_value keys data_read.value refl

-- An object with an entry "0" that is indexed by 0: the entry if it is borrowed, and null if it is
-- owned.
abbrev entry_0 : Value natural
entry_0 = object (field "0" (Json.number 7) end)

borrowed_0 :
    look_up show true (record { owned = false; value = entry_0 }) (place 0)
    ≡ ok (record { owned = false; value = Json.number 7 })
unfolding look_up
borrowed_0 = refl

owned_0 :
    look_up show true (record { owned = true; value = entry_0 }) (place 0)
    ≡ ok (record { owned = true; value = null })
unfolding look_up
owned_0 = refl
