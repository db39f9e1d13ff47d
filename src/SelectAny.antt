-- ===== src/SelectAny.antt =====
-- lib/select_any: a stream of the items of several streams, which are polled in turn. A stream is a
-- state with its poll, the parameter `poll`.
pub mod Turns
mod Tests
use pewpew.Prelude.{
  ℕ, zero, suc, ◌+◌, ◌-◌, ◌%◌, Option, none, some, List, [], ◌∷◌, length, get_elem?, ◌==◌,
  if◌then◌else◌,
}
use pewpew.Channel.Handles.{Poll, ready, pending}

pub record SelectAny (T : Type 0) : Type 0 where
  pub elems : List T
  pub last_yield_index : ℕ

-- The element at an index, written through the reference to it.
unfoldable pub put_elem : {T : Type 0} → ℕ → T → List T → List T
put_elem i t [] = []
put_elem zero t (x ∷ xs) = t ∷ xs
put_elem (suc i) t (x ∷ xs) = x ∷ put_elem i t xs

-- `select_any`, whose subtraction panics where there is no stream.
unfoldable pub select_any : {T : Type 0} → List T → Option (SelectAny T)
select_any [] = none
select_any (t ∷ ts) = some (record { elems = t ∷ ts; last_yield_index = length (t ∷ ts) - 1 })

module _ {T A : Type 0} (poll : T → Poll (Option A) × T) where
  -- The poll of the stream at an index, what goes on with one that gave no item being `again`.
  unfoldable pub take_turn :
      (ℕ → List T → Poll (Option A) × SelectAny T)
      → ℕ
      → ℕ
      → ℕ
      → List T
      → Poll (Option A) × T
      → Poll (Option A) × SelectAny T
  take_turn again i done_count last elems (ready (some v), t) =
      (ready (some v), record { elems = put_elem i t elems; last_yield_index = i })
  take_turn again i done_count last elems (ready none, t) =
      again (done_count + 1) (put_elem i t elems)
  take_turn again i done_count last elems (pending, t) = again done_count (put_elem i t elems)

  -- The turn of the element that is found at an index, which is never out of range.
  unfoldable pub turn_at :
      (ℕ → List T → Poll (Option A) × SelectAny T)
      → ℕ
      → ℕ
      → ℕ
      → List T
      → Option T
      → Poll (Option A) × SelectAny T
  unfolding take_turn
  turn_at again i done_count last elems none =
      (pending, record { elems = elems; last_yield_index = last })
  turn_at again i done_count last elems (some t) = take_turn again i done_count last elems (poll t)

  -- The loop with so many turns left, the first of them `i`.
  unfoldable pub take_turns : ℕ → ℕ → ℕ → ℕ → List T → Poll (Option A) × SelectAny T
  unfolding turn_at
  take_turns zero i last done_count elems = (
    if done_count == length elems then ready none else pending,
    record { elems = elems; last_yield_index = last },
  )
  take_turns (suc left) i last done_count elems =
      let j = (i + (last + 1)) % length elems in
      turn_at (take_turns left (suc i) last) j done_count last elems (get_elem? elems j)

  unfoldable pub poll_any : SelectAny T → Poll (Option A) × SelectAny T
  unfolding take_turns
  poll_any s = take_turns (length s.elems) 0 s.last_yield_index 0 s.elems
