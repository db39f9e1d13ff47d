-- ===== src/Functions/Sequences.antt =====
-- The functions that make sequences: `ReversibleRange` and `Range`, `Repeat`, `Entries`, and
-- `Collect` where it is evaluated. A random number is drawn by the parameter `sample`.
use Prim.Native.String.{String}
use pewpew.Prelude.{
  ℕ, zero, suc, ◌+◌, ◌-◌, Bool, true, false, Option, none, some, List, [], ◌∷◌, ltb, wrapping_inc,
  if◌then◌else◌, map,
}
use pewpew.Select.Json.{
  Numbers, Value, null, number, string, array, object, Items, nil, cons, Fields, end, field,
}
use pewpew.Select.Expression.{Result, ok, err, ◌>>=◌}
use pewpew.Functions.{
  Library, ExecutingExpressionError, invalid_function_arguments, Arg, json, Creates, invalid,
  or_invalid, map_ok, evaluate_arg, value_as_u64, literal_as_u64, as_u64,
}

-- `std::ops::Range` from `low`, `size` numbers long.
unfoldable pub up_from : ℕ → ℕ → List ℕ
up_from low zero = []
up_from low (suc size) = low ∷ up_from (low + 1) size

unfoldable pub down_from : ℕ → ℕ → List ℕ
down_from low zero = []
down_from low (suc size) = (low + size) ∷ down_from low size

pub record ReversibleRange : Type 0 where
  pub start : ℕ
  pub end_ : ℕ
  pub reverse : Bool

-- `second + 1..first + 1` or `first..second`, in 64 bits.
unfoldable pub new_reversible : ℕ → ℕ → ReversibleRange
new_reversible first second =
    if ltb second first
    then record { start = wrapping_inc second; end_ = wrapping_inc first; reverse = true }
    else record { start = first; end_ = second; reverse = false }

unfoldable pub into_iter : ReversibleRange → List ℕ
unfolding up_from down_from
into_iter r =
    if r.reverse then down_from r.start (r.end_ - r.start) else up_from r.start (r.end_ - r.start)

unfoldable pub to_items : {n : Numbers} → List (Value n) → Items n
to_items [] = nil
to_items (v ∷ vs) = cons v (to_items vs)

unfoldable pub from_items : {n : Numbers} → Items n → List (Value n)
from_items nil = []
from_items (cons v vs) = v ∷ from_items vs

pub data Range (n : Numbers) (X : Type 0) : Type 0 where
  args : Arg n X → Arg n X → Range n X
  range : ReversibleRange → Range n X

-- `min` and, if there is a third argument, the bounds of a uniform distribution.
pub record Amount : Type 0 where
  pub min : ℕ
  pub random : Option (ℕ × ℕ)

pub record Collect (n : Numbers) (X : Type 0) : Type 0 where
  pub arg : Arg n X
  pub amount : Amount

pub record Entries (n : Numbers) (X : Type 0) : Type 0 where
  pub arg : Arg n X

-- What `Entries` makes of a value: the value itself, or the pairs.
pub data Entered (n : Numbers) : Type 0 where
  same : Value n → Entered n
  pairs : List (Value n) → Entered n

module _ {n : Numbers} (l : Library n) where
  unfoldable pub new_range : {X : Type 0} → List (Arg n X) → Creates n (Range n X)
  unfolding invalid or_invalid literal_as_u64 new_reversible
  new_range (json a ∷ json b ∷ []) = do
    first ← or_invalid "range" (literal_as_u64 l a)
    second ← or_invalid "range" (literal_as_u64 l b)
    ok (range (new_reversible first second))
  new_range (first ∷ second ∷ []) = ok (args first second)
  new_range _ = invalid "range"

  unfoldable pub range_bound : Value n → Result (ExecutingExpressionError n) ℕ
  unfolding value_as_u64
  range_bound v = elim (value_as_u64 l v) [
    | none ↦ err (invalid_function_arguments "range")
    | some u ↦ ok u
  ]

  unfoldable pub numbers_of : ReversibleRange → List (Value n)
  unfolding into_iter
  numbers_of r = map (λ k. number (n.of_u64 k)) (into_iter r)

  unfoldable pub range_as_iter :
      {X : Type 0}
      → (X → Result (ExecutingExpressionError n) (Value n))
      → Range n X
      → Result (ExecutingExpressionError n) (List (Value n))
  unfolding evaluate_arg range_bound new_reversible numbers_of
  range_as_iter ev (args a b) = do
    first ← evaluate_arg ev a
    f ← range_bound first
    second ← evaluate_arg ev b
    s ← range_bound second
    ok (numbers_of (new_reversible f s))
  range_as_iter ev (range r) = ok (numbers_of r)

  unfoldable pub evaluate_range :
      {X : Type 0}
      → (X → Result (ExecutingExpressionError n) (Value n))
      → Range n X
      → Result (ExecutingExpressionError n) (Value n)
  unfolding range_as_iter to_items
  evaluate_range ev r = map_ok (λ vs. array (to_items vs)) (range_as_iter ev r)

  unfoldable pub new_amount : {X : Type 0} → String → Arg n X → List (Arg n X) → Creates n Amount
  unfolding invalid or_invalid as_u64
  new_amount name a [] = do
    min ← or_invalid name (as_u64 l a)
    ok (record { min = min; random = none })
  new_amount name a (b ∷ []) = do
    min ← or_invalid name (as_u64 l a)
    max ← or_invalid name (as_u64 l b)
    ok (record { min = min; random = some (min, max) })
  new_amount name a _ = invalid name

  unfoldable pub new_repeat : {X : Type 0} → List (Arg n X) → Creates n Amount
  unfolding invalid new_amount
  new_repeat [] = invalid "repeat"
  new_repeat (a ∷ rest) = new_amount "repeat" a rest

  unfoldable pub new_collect : {X : Type 0} → List (Arg n X) → Creates n (Collect n X)
  unfolding invalid new_amount
  new_collect (first ∷ second ∷ rest) = do
    amount ← new_amount "collect" second rest
    ok (record { arg = first; amount = amount })
  new_collect _ = invalid "collect"

  unfoldable pub evaluate_collect :
      {X : Type 0}
      → (X → Result (ExecutingExpressionError n) (Value n))
      → Collect n X
      → Result (ExecutingExpressionError n) (Value n)
  unfolding evaluate_arg
  evaluate_collect ev c = evaluate_arg ev c.arg

  unfoldable pub amount_of : (ℕ × ℕ → ℕ) → Amount → ℕ
  amount_of sample a = elim a.random [ none ↦ a.min | some bounds ↦ sample bounds ]

  unfoldable pub nulls : ℕ → Items n
  nulls zero = nil
  nulls (suc k) = cons null (nulls k)

  unfoldable pub evaluate_repeat : (ℕ × ℕ → ℕ) → Amount → Value n
  unfolding amount_of nulls
  evaluate_repeat sample a = array (nulls (amount_of sample a))

  unfoldable pub new_entries : {X : Type 0} → List (Arg n X) → Creates n (Entries n X)
  unfolding invalid
  new_entries (a ∷ []) = ok (record { arg = a })
  new_entries _ = invalid "entries"

  unfoldable pub pair_of : Value n → Value n → Value n
  pair_of key v = array (cons key (cons v nil))

  unfoldable pub index_pairs : ℕ → List (Value n) → List (Value n)
  unfolding pair_of
  index_pairs i [] = []
  index_pairs i (v ∷ vs) = pair_of (number (n.of_u64 i)) v ∷ index_pairs (i + 1) vs

  unfoldable pub field_pairs : Fields n → List (Value n)
  unfolding pair_of
  field_pairs end = []
  field_pairs (field k v fs) = pair_of (string k) v ∷ field_pairs fs

  unfoldable pub enter : Value n → Entered n
  unfolding index_pairs field_pairs from_items
  enter (array vs) = pairs (index_pairs 0 (from_items vs))
  enter (object fs) = pairs (field_pairs fs)
  enter (string s) = pairs (index_pairs 0 (map string (l.graphemes s)))
  enter v = same v

  unfoldable pub entries_as_iter :
      {X : Type 0}
      → (X → Result (ExecutingExpressionError n) (Value n))
      → Entries n X
      → Result (ExecutingExpressionError n) (List (Value n))
  unfolding evaluate_arg enter
  entries_as_iter ev e = do
    v ← evaluate_arg ev e.arg
    ok (elim (enter v) [ same w ↦ w ∷ [] | pairs ps ↦ ps ])

  unfoldable pub evaluate_entries :
      {X : Type 0}
      → (X → Result (ExecutingExpressionError n) (Value n))
      → Entries n X
      → Result (ExecutingExpressionError n) (Value n)
  unfolding evaluate_arg enter to_items
  evaluate_entries ev e = do
    v ← evaluate_arg ev e.arg
    ok (elim (enter v) [ same w ↦ w | pairs ps ↦ array (to_items ps) ])
