-- ===== src/Functions/Tests.antt =====
-- The theorems of the functions at concrete inputs.
use Prim.Native.String.{String}
use pewpew.Prelude.{
  ℕ, zero, suc, ◌+◌, ◌≡◌, refl, ◌⊎◌, inl, inr, Bool, true, false, Option, none, some, List, [], ◌∷◌,
  get_elem?, ltb, ◌==◌, arith,
}
use pewpew.Channel.Handles.{Poll, ready, pending}
use pewpew.Select.Json.{
  Value, null, bool, number, string, array, object, nil, cons, Fields, end, field,
}
use pewpew.Select.Expression.{Result, ok, err}
use pewpew.ZipAll.{TryStream}
use pewpew.ZipAll.Lockstep.{Yields}
use pewpew.Functions.Natural.{compare_floats, natural, library}
use pewpew.Functions.{
  ExecutingExpressionError, item_texts, join_texts, json_value_to_string,
  invalid_function_arguments, json, computed, folded, map_ok,
}
use pewpew.Functions.Unary.{join_with}
use pewpew.Functions.MinMax.{new_min_max, evaluate_min_max}
use pewpew.Functions.Best.{Floats, new_min_max_sound}
use pewpew.Functions.Branch.{fold_if, evaluate_if}
use pewpew.Functions.Folding.{result_of, fold_if_sound}
use pewpew.Functions.Sequences.{new_reversible, into_iter}
use pewpew.Functions.Spans.{number_at, into_iter-number_at}
use pewpew.Functions.Replace.{replace}
use pewpew.Functions.Replace.Keys.{has, distinct, distinct_items, distinct_fields, Inserts}
use pewpew.Functions.Replace.Total.{replace_total}
use pewpew.Functions.Replace.Absent.{occurs, replace_absent}
use pewpew.Functions.Streams.{
  IfStream, new_if_stream, poll_if, CollectStream, filling, poll_collect,
}
use pewpew.Functions.Streams.Chosen.{Picks, poll_if-Picks}
use pewpew.Functions.Streams.Chunks.{Collects, poll_collect-Collects}

library-Floats : Floats library
library-Floats = record {
  is_finite-as_f64 = λ k. refl;
  is_finite-nan = refl;
  lt_nan = right ltb;
  nan_lt = λ x. refl;
  eq_nan = right (λ a b. a == b);
  nan_eq = λ x. refl;
}
  where
    right : (f : ℕ → ℕ → Bool) (x : Option ℕ) → compare_floats f x none ≡ false
    right f none = refl
    right f (some a) = refl

-- An argument that gives its value, but 0, which fails.
abbrev leaf : ℕ → Result (ExecutingExpressionError natural) (Value natural)
leaf zero = err (invalid_function_arguments "leaf")
leaf (suc k) = ok (number k)

fold_if_sound_example :
    result_of leaf
      (evaluate_if leaf)
      (fold_if {n = natural} {X = ℕ} (json (bool true)) (computed 3) (json null))
    ≡ evaluate_if leaf (record { first = json (bool true); second = computed 3; third = json null })
fold_if_sound_example = fold_if_sound leaf (json (bool true)) (computed 3) (json null)

joined :
    join_with library "," none (array (cons (string "one") (cons (string "two") nil)))
    ≡ string "one,two"
unfolding join_with item_texts join_texts json_value_to_string
joined = refl

-- The least of 5, a text and 3.
new_min_max_sound_example :
    map_ok (result_of leaf (evaluate_min_max library leaf)) (
      new_min_max library {X = ℕ} true (json (number 5) ∷ json (string "a") ∷ json (number 3) ∷ []))
    ≡ ok (
        evaluate_min_max library leaf (record {
          args = json (number 5) ∷ json (string "a") ∷ json (number 3) ∷ [];
          min = true;
        }))
new_min_max_sound_example =
    new_min_max_sound library library-Floats leaf true
      (json (number 5) ∷ json (string "a") ∷ json (number 3) ∷ [])

least :
    new_min_max library {X = ℕ} true (json (number 5) ∷ json (string "a") ∷ json (number 3) ∷ [])
    ≡ ok (folded (number 3))
unfolding new_min_max
least = refl

into_iter-number_at_example : get_elem? (into_iter (new_reversible 9 4)) 2 ≡ number_at 9 4 2
into_iter-number_at_example = into_iter-number_at 9 4 2 (omega arith) (omega arith)

abbrev prepend : String → Value natural → Fields natural → Fields natural
prepend key v fs = field key v fs

abbrev words : Value natural
words = array (cons (string "one") (cons (string "two") nil))

replace_absent_example : replace prepend "three" "3" words ≡ some words
unfolding occurs
replace_absent_example = replace_absent prepend "three" "3" words refl

prepend-Inserts : Inserts prepend
unfolding has
prepend-Inserts = record { keeps = keeps }
  where
    keeps :
        (key k : String) (v : Value natural) (fs : Fields natural)
        → has k fs ≡ true
        → has k (prepend key v fs) ≡ true
    keeps key k v fs h = ground (arith, h)

abbrev entry : Value natural
entry = object (field "one" null (field "two" words end))

replace_total_example : (v : Value natural) × (replace prepend "o" "0" entry ≡ some v)
unfolding distinct distinct_items distinct_fields has
replace_total_example = replace_total prepend "o" "0" prepend-Inserts entry refl

-- A stream that waits, or gives a number and hands back a mark.
data Step : Type 0 where
  wait : Step
  give : ℕ → Step

next : List Step → Poll (Option (Result ℕ (Value natural × List ℕ))) × List Step
next [] = (ready none, [])
next (wait ∷ s) = (pending, s)
next (give v ∷ s) = (ready (some (ok (number v, v ∷ []))), s)

steps : TryStream (List Step) (Value natural × List ℕ) ℕ
steps = record { try_poll_next = next }

given : List Step → List (Value natural × List ℕ)
given [] = []
given (wait ∷ s) = given s
given (give v ∷ s) = (number v, v ∷ []) ∷ given s

steps-Yields : Yields steps
unfolding steps next given
steps-Yields = record { items = given; polled = polled }
  where
    polled :
        (s : List Step)
        → (((next s).0 ≡ pending) × (given (next s).1 ≡ given s))
          ⊎ ((a : Value natural × List ℕ) × ((next s).0 ≡ ready (some (ok a)))
              × (given s ≡ a ∷ given (next s).1))
          ⊎ (((next s).0 ≡ ready none) × (given s ≡ []))
          ⊎ ((e : ℕ) × ((next s).0 ≡ ready (some (err e))))
    polled [] = inr (inr (inl (refl, refl)))
    polled (wait ∷ s) = inl (refl, refl)
    polled (give v ∷ s) = inr (inl ((number v, v ∷ []), refl, refl))

abbrev three_streams : IfStream steps
three_streams = new_if_stream steps (give 0 ∷ []) (give 5 ∷ []) (wait ∷ give 6 ∷ [])

poll_if-Picks_example : Picks steps steps-Yields three_streams (poll_if steps three_streams)
poll_if-Picks_example = poll_if-Picks steps steps-Yields three_streams

abbrev double : ℕ → ℕ
double a = a + a

abbrev exactly : ℕ → ℕ
exactly a = a

abbrev three_numbers : CollectStream steps
three_numbers = record {
  value = none;
  arg_stream = give 1 ∷ give 2 ∷ wait ∷ give 3 ∷ [];
  errored = false;
}

poll_collect-Collects_example :
    (c : Poll (Option (Result ℕ (Value natural × List ℕ))) × CollectStream steps) × (poll_collect
        steps exactly double 4 2 three_numbers
      ≡ some c)
    × Collects steps steps-Yields
        (filling steps exactly double 2 none)
        (give 1 ∷ give 2 ∷ wait ∷ give 3 ∷ [])
        c
unfolding filling steps-Yields given
poll_collect-Collects_example =
    poll_collect-Collects steps steps-Yields exactly double 4 2 three_numbers refl (omega arith)
      (omega arith)
