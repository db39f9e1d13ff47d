-- ===== src/Functions/Streams.antt =====
-- The streams that `If` and `Collect` make of their arguments' streams. An item is a value with what
-- it hands back to the providers.
pub mod Chosen
pub mod Chunks
use pewpew.Prelude.{
  ℕ, zero, suc, ◌+◌, Bool, true, false, Option, none, some, List, [], ◌∷◌, ◌++◌, length, ◌==◌, ltb,
  if◌then◌else◌,
}
use pewpew.Channel.Handles.{Poll, ready, pending}
use pewpew.Select.Json.{Numbers, Value, Items, array}
use pewpew.Select.Expression.{Result, ok, err, bool_value}
use pewpew.ZipAll.{TryStream}
use pewpew.Functions.Sequences.{to_items}

module _ {n : Numbers} {S Ar E : Type 0} (t : TryStream S (Value n × List Ar) E) where
  pub record IfStream : Type 0 where
    pub first : S
    pub second : S
    pub third : S
    pub holder : Option (Bool × List Ar)
    pub done : Bool

  unfoldable pub new_if_stream : S → S → S → IfStream
  new_if_stream first second third = record {
    first = first;
    second = second;
    third = third;
    holder = none;
    done = false;
  }

  -- The answer to a poll of the chosen stream.
  unfoldable pub answer :
      List Ar
      → Poll (Option (Result E (Value n × List Ar)))
      → IfStream
      → Poll (Option (Result E (Value n × List Ar))) × IfStream
  answer returns (ready (some (ok (v, returns2)))) s =
      (ready (some (ok (v, returns ++ returns2))), record s { holder = none })
  answer returns (ready (some (err e))) s = (ready (some (err e)), record s { done = true })
  answer returns (ready none) s = (ready none, record s { done = true })
  answer returns pending s = (pending, s)

  unfoldable pub poll_chosen :
      Bool × List Ar → IfStream → Poll (Option (Result E (Value n × List Ar))) × IfStream
  unfolding answer
  poll_chosen (true, returns) s =
      answer returns (t.try_poll_next s.second).0
        (record s { second = (t.try_poll_next s.second).1 })
  poll_chosen (false, returns) s =
      answer returns (t.try_poll_next s.third).0 (record s { third = (t.try_poll_next s.third).1 })

  -- The answer to a poll of the first stream, while nothing is held.
  unfoldable pub hold :
      Poll (Option (Result E (Value n × List Ar)))
      → IfStream
      → Poll (Option (Result E (Value n × List Ar))) × IfStream
  unfolding poll_chosen bool_value
  hold (ready (some (ok (v, returns)))) s =
      poll_chosen (bool_value n v, returns) (record s { holder = some (bool_value n v, returns) })
  hold (ready (some (err e))) s = (ready (some (err e)), record s { done = true })
  hold (ready none) s = (ready none, record s { done = true })
  hold pending s = (pending, s)

  unfoldable pub poll_holder :
      Option (Bool × List Ar) → IfStream → Poll (Option (Result E (Value n × List Ar))) × IfStream
  unfolding hold poll_chosen
  poll_holder none s =
      hold (t.try_poll_next s.first).0 (record s { first = (t.try_poll_next s.first).1 })
  poll_holder (some held) s = poll_chosen held s

  unfoldable pub poll_if : IfStream → Poll (Option (Result E (Value n × List Ar))) × IfStream
  unfolding poll_holder
  poll_if s = if s.done then (ready none, s) else poll_holder s.holder s

  -- The vector that is filled, and what the values hand back. `with_capacity` is the capacity that
  -- Rust's `Vec` takes when it is made for so many values, `grow` how it grows when it is full.
  pub record Filling : Type 0 where
    pub jsons : List (Value n)
    pub capacity : ℕ
    pub returns : List Ar

  pub record CollectStream : Type 0 where
    pub value : Option Filling
    pub arg_stream : S
    pub errored : Bool

  module _ (with_capacity grow : ℕ → ℕ) where
    unfoldable pub push : Value n → List Ar → Filling → Filling
    push v returns2 f = record {
      jsons = f.jsons ++ v ∷ [];
      capacity = if length f.jsons == f.capacity then grow f.capacity else f.capacity;
      returns = f.returns ++ returns2;
    }

    -- A vector that is full is handed over, and else filled further.
    unfoldable pub hand_over :
        (Filling → S → Option (Poll (Option (Result E (Value n × List Ar))) × CollectStream))
        → Filling
        → S
        → Option (Poll (Option (Result E (Value n × List Ar))) × CollectStream)
    unfolding to_items
    hand_over again f st = elim (length f.jsons == f.capacity) [
      | true ↦ some (
        ready (some (ok (array (to_items f.jsons), f.returns))),
        record { value = none; arg_stream = st; errored = false },
      )
      | false ↦ again f st
    ]

    -- The arms of the `match` in the loop, with what a further round gives.
    unfoldable pub take_arg :
        (Filling → S → Option (Poll (Option (Result E (Value n × List Ar))) × CollectStream))
        → Filling
        → Poll (Option (Result E (Value n × List Ar)))
        → S
        → Option (Poll (Option (Result E (Value n × List Ar))) × CollectStream)
    unfolding push hand_over
    take_arg again f (ready (some (ok (v, returns2)))) st = hand_over again (push v returns2 f) st
    take_arg again f (ready none) st =
        some (ready none, record { value = some f; arg_stream = st; errored = false })
    take_arg again f (ready (some (err e))) st =
        some (ready (some (err e)), record { value = some f; arg_stream = st; errored = true })
    take_arg again f pending st =
        some (pending, record { value = some f; arg_stream = st; errored = false })

    -- The loop of the poll, on fuel.
    unfoldable pub fill :
        ℕ → Filling → S → Option (Poll (Option (Result E (Value n × List Ar))) × CollectStream)
    unfolding take_arg
    fill zero f st = none
    fill (suc fuel) f st = take_arg (fill fuel) f (t.try_poll_next st).0 (t.try_poll_next st).1

    unfoldable pub filling : ℕ → Option Filling → Filling
    filling drawn none = record { jsons = []; capacity = with_capacity drawn; returns = [] }
    filling drawn (some f) = f

    -- `drawn` is the number to collect.
    unfoldable pub poll_collect :
        ℕ
        → ℕ
        → CollectStream
        → Option (Poll (Option (Result E (Value n × List Ar))) × CollectStream)
    unfolding filling fill
    poll_collect fuel drawn s =
        if s.errored
        then some (ready none, record s { value = some (filling drawn s.value) })
        else fill fuel (filling drawn s.value) s.arg_stream
