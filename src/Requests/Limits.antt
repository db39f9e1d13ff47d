-- ===== src/Requests/Limits.antt =====
-- The limit on an endpoint's parallel requests that `Endpoint::into_future` makes of the channels
-- it sends to with `block`. A channel is its `len()` and `limit()` at the time of a call.
pub mod Bounds
use pewpew.Prelude.{
  ℕ, ◌+◌, ◌-◌, ◌*◌, ◌%◌, Bool, true, false, ◌&&◌, ◌||◌, Option, none, some, List, [], ◌∷◌, ◌==◌,
  ltb, leb, if◌then◌else◌, usize_mod,
}

abbrev pub max : ℕ → ℕ → ℕ
max a b = if ltb a b then b else a

abbrev pub min : ℕ → ℕ → ℕ
min a b = if ltb b a then b else a

-- The most empty slots, whether a channel is empty, and whether all are full.
pub record Slots : Type 0 where
  pub empty_slots : ℕ
  pub has_empty : Bool
  pub all_full : Bool

unfoldable pub add_slots : List (ℕ × ℕ) → Slots → Slots
add_slots [] s = s
add_slots ((count, limit) ∷ channels) s = add_slots channels (record {
  empty_slots = max s.empty_slots (limit - count);
  has_empty = s.has_empty || count == 0;
  all_full = s.all_full && count == limit;
})

unfoldable pub slots_of : List (ℕ × ℕ) → Slots
slots_of channels =
    add_slots channels (record { empty_slots = 0; has_empty = false; all_full = true })

-- What the closure keeps between its calls.
pub record Tuning : Type 0 where
  pub multiplier : ℕ
  pub all_full_count : ℕ

unfoldable pub count_full : Bool → Tuning → Tuning
count_full false t = record t { all_full_count = 0 }
count_full true t =
    if ltb t.all_full_count t.multiplier
    then record t { all_full_count = t.all_full_count + 1 }
    else t

unfoldable pub tune : Slots → ℕ → Tuning → Tuning
tune s in_progress t =
    if s.has_empty
      && (ltb t.multiplier 10 && in_progress == (s.empty_slots * t.multiplier) % usize_mod)
    then record t { multiplier = t.multiplier + 1 }
    else (if t.all_full_count == t.multiplier && ltb 1 t.multiplier
        then record { multiplier = t.multiplier - 1; all_full_count = 0 }
        else t)

-- `limit_fn`: nothing where the requests are not limited.
pub data LimitFn : Type 0 where
  tuned : Option ℕ → Tuning → LimitFn
  fixed : ℕ → LimitFn

-- Made of whether there are such channels, and of `max_parallel_requests`.
unfoldable pub new_limit_fn : Bool → Option ℕ → Option LimitFn
new_limit_fn true n = some (tuned n (record { multiplier = 1; all_full_count = 0 }))
new_limit_fn false (some n) = some (fixed n)
new_limit_fn false none = none

unfoldable pub limit_for : Option ℕ → Slots → Tuning → ℕ
limit_for none s t = (max s.empty_slots 1 * t.multiplier) % usize_mod
limit_for (some n) s t = min n ((max s.empty_slots 1 * t.multiplier) % usize_mod)

unfoldable pub call : LimitFn → List (ℕ × ℕ) → ℕ → ℕ × LimitFn
call (fixed n) channels in_progress = (n, fixed n)
call (tuned n t) channels in_progress =
    let s = slots_of channels in
    let t' = tune s in_progress (count_full s.all_full t) in (limit_for n s t', tuned n t')

-- The limits that it returns over its calls.
unfoldable pub calls : LimitFn → List (List (ℕ × ℕ) × ℕ) → List ℕ
calls f [] = []
calls f ((channels, in_progress) ∷ rest) =
    (call f channels in_progress).0 ∷ calls (call f channels in_progress).1 rest
