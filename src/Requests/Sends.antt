-- ===== src/Requests/Sends.antt =====
-- `BlockSender` of src/request.rs, which sends the values of an iterator one by one, whenever the
-- channel or the logger has room. What it sends to is the parameter `SinkOps`.
pub mod Queued
pub mod Channels
mod Tests
use pewpew.Prelude.{Bool, true, false, Option, none, some, List, [], ◌∷◌}
use pewpew.Channel.Handles.{Poll, ready, pending, SinkResult, sink_ok, channel_closed}
use pewpew.Select.Expression.{Result, ok, err}

pub record SinkOps (S V : Type 0) : Type 0 where
  pub poll_ready : S → Poll SinkResult × S
  pub start_send : V → S → SinkResult × S
  pub poll_flush : S → Poll SinkResult × S

pub record BlockSender (S V E : Type 0) : Type 0 where
  pub tx : S
  pub values : List (Result E V)
  pub value_added : Bool
  pub next_value : Option V

unfoldable pub new_block_sender : {S V E : Type 0} → List (Result E V) → S → BlockSender S V E
new_block_sender values tx = record {
  tx = tx;
  values = values;
  value_added = false;
  next_value = none;
}

module _ {S V E : Type 0} (k : SinkOps S V) where
  -- After the loop: what was added is flushed.
  unfoldable pub flushed :
      Poll SinkResult × S → BlockSender S V E → Poll (Result E Unit) × BlockSender S V E
  flushed (pending, tx) s = (pending, record s { tx = tx })
  flushed (ready r, tx) s = (ready (ok tt), record s { tx = tx })

  unfoldable pub end_loop : BlockSender S V E → Poll (Result E Unit) × BlockSender S V E
  unfolding flushed
  end_loop s = elim s.value_added [
    | true ↦ flushed (k.poll_flush s.tx) s
    | false ↦ (ready (ok tt), s)
  ]

  -- A value is sent, and the loop goes on with `again`.
  unfoldable pub sent_to :
      (BlockSender S V E → Poll (Result E Unit) × BlockSender S V E)
      → SinkResult × S
      → BlockSender S V E
      → Poll (Result E Unit) × BlockSender S V E
  unfolding end_loop
  sent_to again (sink_ok, tx) s = again (record s { tx = tx; value_added = true })
  sent_to again (channel_closed, tx) s = end_loop (record s { tx = tx })

  unfoldable pub offer_to :
      (BlockSender S V E → Poll (Result E Unit) × BlockSender S V E)
      → V
      → Poll SinkResult × S
      → BlockSender S V E
      → Poll (Result E Unit) × BlockSender S V E
  unfolding end_loop sent_to
  offer_to again v (ready sink_ok, tx) s = sent_to again (k.start_send v tx) s
  offer_to again v (ready channel_closed, tx) s = end_loop (record s { tx = tx })
  offer_to again v (pending, tx) s = (pending, record s { tx = tx; next_value = some v })

  unfoldable pub offer :
      (BlockSender S V E → Poll (Result E Unit) × BlockSender S V E)
      → V
      → BlockSender S V E
      → Poll (Result E Unit) × BlockSender S V E
  unfolding offer_to
  offer again v s = offer_to again v (k.poll_ready s.tx) s

  -- The loop over these values, where no value is held back.
  unfoldable pub send_values :
      List (Result E V) → BlockSender S V E → Poll (Result E Unit) × BlockSender S V E
  unfolding end_loop offer
  send_values [] s = end_loop (record s { values = [] })
  send_values (err e ∷ values) s = (ready (err e), record s { values = values })
  send_values (ok v ∷ values) s = offer (send_values values) v (record s { values = values })

  unfoldable pub poll_block : BlockSender S V E → Poll (Result E Unit) × BlockSender S V E
  unfolding offer send_values
  poll_block s = elim s.next_value [
    | none ↦ send_values s.values s
    | some v ↦ offer (send_values s.values) v (record s { next_value = none })
  ]

  -- Its drop polls once more.
  unfoldable pub drop_block : BlockSender S V E → S
  unfolding poll_block
  drop_block s = (poll_block s).1.tx
