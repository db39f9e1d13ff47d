-- ===== src/Requests/Sends/Tests.antt =====
-- A sink with room for so many values.
use pewpew.Prelude.{ℕ, zero, suc, ◌≡◌, refl, subst, true, some, List, [], ◌∷◌, ◌++◌}
use pewpew.Channel.Handles.{Poll, ready, pending, SinkResult, sink_ok, channel_closed}
use pewpew.Select.Expression.{ok, err}
use pewpew.Requests.Sends.{
  SinkOps, BlockSender, new_block_sender, flushed, end_loop, sent_to, offer_to, offer, send_values,
  poll_block, drop_block,
}
use pewpew.Requests.Sends.Queued.{SinkLaws, queued, Sends, poll_block-Sends}

abbrev Room : Type 0
Room = ℕ × List ℕ

abbrev room_ready : Room → Poll SinkResult
room_ready (zero, vs) = pending
room_ready (suc n, vs) = ready sink_ok

abbrev put_in : ℕ → Room → SinkResult × Room
put_in v (zero, vs) = (sink_ok, (zero, vs ++ v ∷ []))
put_in v (suc n, vs) = (sink_ok, (n, vs ++ v ∷ []))

abbrev rooms : SinkOps Room ℕ
rooms = record {
  poll_ready = λ s. (room_ready s, s);
  start_send = put_in;
  poll_flush = λ s. (ready sink_ok, s);
}

put_in_closed : {A : Type 0} (v : ℕ) (s : Room) → (put_in v s).0 ≡ channel_closed → A
put_in_closed v (zero, vs) e =
    absurd (subst (λ r. elim r [ sink_ok ↦ Unit | channel_closed ↦ ⊥ ]) e tt)
put_in_closed v (suc n, vs) e =
    absurd (subst (λ r. elim r [ sink_ok ↦ Unit | channel_closed ↦ ⊥ ]) e tt)

put_in_ok : (v : ℕ) (s : Room) → (put_in v s).1.1 ≡ s.1 ++ v ∷ []
put_in_ok v (zero, vs) = refl
put_in_ok v (suc n, vs) = refl

abbrev rooms_laws : SinkLaws rooms
rooms_laws = record {
  taken = λ s. s.1;
  poll_ready-taken = λ s. refl;
  poll_flush-taken = λ s. refl;
  start_send_ok = λ v s e. put_in_ok v s;
  start_send_closed = λ v s e. put_in_closed v s e;
}

abbrev three_values : BlockSender Room ℕ ℕ
three_values = new_block_sender (ok 1 ∷ ok 2 ∷ ok 3 ∷ []) (2, [])

waits_for_room :
    (poll_block rooms three_values).1
    ≡ record { tx = (0, 1 ∷ 2 ∷ []); values = []; value_added = true; next_value = some 3 }
unfolding poll_block offer offer_to sent_to send_values end_loop flushed new_block_sender
waits_for_room = refl

-- After the error of a value, the drop sends the values behind it.
drop_sends_on :
    drop_block rooms
      (poll_block rooms (new_block_sender {E = ℕ} (ok 1 ∷ err 404 ∷ ok 3 ∷ []) (5, []))).1
    ≡ (3, 1 ∷ 3 ∷ [])
unfolding poll_block offer offer_to sent_to send_values end_loop flushed new_block_sender drop_block
drop_sends_on = refl

poll_block-Sends_example :
    Sends rooms rooms_laws [] (ok 1 ∷ ok 2 ∷ ok 3 ∷ []) (poll_block rooms three_values)
unfolding queued new_block_sender
poll_block-Sends_example = poll_block-Sends rooms rooms_laws three_values
