-- ===== src/Requests/Sends/Queued.antt =====
-- What a poll of a `BlockSender` sends, and what it keeps.
use pewpew.Prelude.{
  ◌≡◌, refl, sym, subst, ap, ◌∙◌, ◌⊎◌, inl, inr, Bool, true, false, Option, none, some, List, [],
  ◌∷◌, ◌++◌, map, append-nil, append_assoc,
}
use pewpew.Channel.Handles.{Poll, ready, pending, SinkResult, sink_ok, channel_closed}
use pewpew.Select.Expression.{Result, ok, err}
use pewpew.Requests.Sends.{
  SinkOps, BlockSender, flushed, end_loop, sent_to, offer_to, offer, send_values, poll_block,
}

-- What a sink took, which only `start_send` adds to, and that only where it succeeds.
pub record SinkLaws {S V : Type 0} (k : SinkOps S V) : Type 0 where
  pub taken : S → List V
  pub poll_ready-taken : (s : S) → taken (k.poll_ready s).1 ≡ taken s
  pub poll_flush-taken : (s : S) → taken (k.poll_flush s).1 ≡ taken s
  pub start_send_ok :
      (v : V) (s : S)
      → (k.start_send v s).0 ≡ sink_ok
      → taken (k.start_send v s).1 ≡ taken s ++ v ∷ []
  pub start_send_closed :
      (v : V) (s : S) → (k.start_send v s).0 ≡ channel_closed → taken (k.start_send v s).1 ≡ taken s

module _ {S V E : Type 0} (k : SinkOps S V) (l : SinkLaws k) where
  -- The values that are still to be sent.
  unfoldable pub queued : BlockSender S V E → List (Result E V)
  queued s = elim s.next_value [ none ↦ s.values | some v ↦ ok v ∷ s.values ]

  -- A value that the sink, being closed, did not take when it had taken `got`, and that is not kept.
  unfoldable pub IsLost : List V → List (Result E V) → List (Result E V) → Type 0
  IsLost got rest queue =
      (v : V) × (rest ≡ ok v ∷ queue)
      × ((tx : S) × (l.taken tx ≡ got)
          × (((k.poll_ready tx).0 ≡ ready channel_closed)
              ⊎ ((k.start_send v tx).0 ≡ channel_closed)))

  -- Nothing is left, but for a value that is lost.
  abbrev IsSpent : List V → List (Result E V) → List (Result E V) → Type 0
  IsSpent got rest queue = ((rest ≡ []) × (queue ≡ [])) ⊎ IsLost got rest queue

  -- What is left of the queue for an outcome: on an error what stands behind it, on a wait all that
  -- was not sent, and at the end nothing, but for a value that is lost.
  unfoldable pub Left :
      List V → Poll (Result E Unit) → List (Result E V) → List (Result E V) → Type 0
  unfolding IsLost
  Left got pending rest queue = (rest ≡ queue) ⊎ IsLost got rest queue
  Left got (ready (err e)) rest queue = rest ≡ err e ∷ queue
  Left got (ready (ok u)) rest queue = IsSpent got rest queue

  -- A sender that had taken some values and had some queued, and the outcome.
  unfoldable pub Sends :
      List V → List (Result E V) → Poll (Result E Unit) × BlockSender S V E → Type 0
  unfolding queued Left
  Sends before queue (r, s) =
      (sent : List V) × (rest : List (Result E V)) × (queue ≡ map ok sent ++ rest)
      × (l.taken s.tx ≡ before ++ sent)
      × Left (l.taken s.tx) r rest (queued s)

  abbrev at : List (Result E V) → S → Bool → BlockSender S V E
  at values tx added = record { tx = tx; values = values; value_added = added; next_value = none }

  flushed-Sends :
      (p : Poll SinkResult) (tx old : S) (values : List (Result E V)) (added : Bool)
      (before : List V) (queue rest : List (Result E V))
      → queue ≡ rest
      → l.taken tx ≡ before
      → IsSpent before rest values
      → Sends before queue (flushed k (p, tx) (at values old added))
  unfolding flushed Sends Left queued
  flushed-Sends pending tx old values added before queue rest e t (inl (h, j)) =
      ([], rest, e, t ∙ sym (append-nil before), inl (h ∙ sym j))
  flushed-Sends pending tx old values added before queue rest e t (inr h) =
      ([], rest, e, t ∙ sym (append-nil before), inr (subst (λ g. IsLost g rest values) (sym t) h))
  flushed-Sends (ready r) tx old values added before queue rest e t h =
      ([], rest, e, t ∙ sym (append-nil before), subst (λ g. IsSpent g rest values) (sym t) h)

  end_loop-Sends :
      (tx : S) (values : List (Result E V)) (added : Bool) (before : List V)
      (queue rest : List (Result E V))
      → queue ≡ rest
      → l.taken tx ≡ before
      → IsSpent before rest values
      → Sends before queue (end_loop k (at values tx added))
  unfolding end_loop Sends Left queued flushed
  end_loop-Sends tx values true before queue rest e t h =
      flushed-Sends (k.poll_flush tx).0 (k.poll_flush tx).1 tx values true before queue rest e
        (l.poll_flush-taken tx ∙ t) h
  end_loop-Sends tx values false before queue rest e t h =
      ([], rest, e, t ∙ sym (append-nil before), subst (λ g. IsSpent g rest values) (sym t) h)

  module _ (again : BlockSender S V E → Poll (Result E Unit) × BlockSender S V E)
      (values : List (Result E V))
      (rec : (tx : S) (added : Bool) → Sends (l.taken tx) values (again (at values tx added))) where
    sent_to-Sends :
        (v : V) (tx old : S) (added : Bool) (before : List V) (r : SinkResult)
        → l.taken tx ≡ before
        → (k.start_send v tx).0 ≡ r
        → Sends before
            (ok v ∷ values)
            (sent_to k again (r, (k.start_send v tx).1) (at values old added))
    unfolding sent_to Sends
    sent_to-Sends v tx old added before sink_ok t e =
        let (sent, rest, f, g, h) = rec (k.start_send v tx).1 true in
        (
          v ∷ sent,
          rest,
          ap (λ q. ok v ∷ q) f,
          g
              ∙ ap (λ b. b ++ sent) (l.start_send_ok v tx e ∙ ap (λ b. b ++ v ∷ []) t)
              ∙ append_assoc before (v ∷ []) sent,
          h,
        )
    sent_to-Sends v tx old added before channel_closed t e =
        end_loop-Sends (k.start_send v tx).1 values added before (ok v ∷ values) (ok v ∷ values)
          refl (l.start_send_closed v tx e ∙ t) (inr (v, refl, (tx, t, inr e)))

    offer_to-Sends :
        (v : V) (tx : S) (added : Bool) (p : Poll SinkResult)
        → (k.poll_ready tx).0 ≡ p
        → Sends
            (l.taken tx)
            (ok v ∷ values)
            (offer_to k again v (p, (k.poll_ready tx).1) (at values tx added))
    unfolding offer_to Sends Left queued
    offer_to-Sends v tx added (ready sink_ok) e =
        sent_to-Sends v (k.poll_ready tx).1 tx added (l.taken tx) _ (l.poll_ready-taken tx) refl
    offer_to-Sends v tx added (ready channel_closed) e =
        end_loop-Sends (k.poll_ready tx).1 values added (l.taken tx) (ok v ∷ values) (ok v ∷ values)
          refl (l.poll_ready-taken tx) (inr (v, refl, (tx, refl, inl e)))
    offer_to-Sends v tx added pending e =
        ([], ok v ∷ values, refl, l.poll_ready-taken tx ∙ sym (append-nil (l.taken tx)), inl refl)

    offer-Sends :
        (v : V) (tx : S) (added : Bool)
        → Sends (l.taken tx) (ok v ∷ values) (offer k again v (at values tx added))
    unfolding offer
    offer-Sends v tx added = offer_to-Sends v tx added (k.poll_ready tx).0 refl

  send_values-Sends :
      (values old : List (Result E V)) (tx : S) (added : Bool)
      → Sends (l.taken tx) values (send_values k values (at old tx added))
  unfolding send_values Sends Left queued
  send_values-Sends [] old tx added =
      end_loop-Sends tx [] added (l.taken tx) [] [] refl refl (inl (refl, refl))
  send_values-Sends (err e ∷ values) old tx added =
      ([], err e ∷ values, refl, sym (append-nil (l.taken tx)), refl)
  send_values-Sends (ok v ∷ values) old tx added =
      offer-Sends (send_values k values) values (send_values-Sends values values) v tx added

  poll_go :
      (s : BlockSender S V E) (next_value : Option V)
      → Sends
          (l.taken s.tx)
          (queued (record s { next_value = next_value }))
          (poll_block k (record s { next_value = next_value }))
  unfolding poll_block queued
  poll_go s none = send_values-Sends s.values s.values s.tx s.value_added
  poll_go s (some v) =
      offer-Sends (send_values k s.values) s.values (send_values-Sends s.values s.values) v s.tx
        s.value_added

  -- A poll takes the values in order: those that it sent are the ones that the sink took, and those
  -- behind them are still queued when it waits. Only an error, which it returns, and a value that
  -- the sink, closed after it had taken those, did not take are no longer there. A poll that returns without an error has sent
  -- everything if the sink did not refuse a value.
  pub poll_block-Sends : (s : BlockSender S V E) → Sends (l.taken s.tx) (queued s) (poll_block k s)
  poll_block-Sends s = poll_go s s.next_value
