-- ===== src/Channel/Tests.antt =====
-- Runs of the channel and its theorems at concrete inputs.
use pewpew.Prelude.{
  ℕ, ◌≡◌, ◌≤◌, ◌+◌, refl, true, false, none, some, List, [], ◌∷◌, ◌++◌, arith, if◌then◌else◌,
}
use pewpew.Channel.{Channel, dynamic, static, new, send, should_send, len, current_limit, recv}
use pewpew.Channel.Local.{local}
use pewpew.Channel.Contents.{items}
use pewpew.Channel.Growth.{recv_many, recv_many-grows}
use pewpew.Channel.Handles.{
  Sender, Receiver, poll_ready, poll_next, drop_sender, no_receivers, try_send, start_send,
}
use pewpew.Channel.Handles.Polls.{ReadyFits, poll_ready-Fits}
use pewpew.Channel.Handles.Receives.{NextFits, poll_next-Fits}
use pewpew.Channel.Handles.Wakes.{
  Ended, Delivered, Admitted, drop_sender-Ended, send-Delivered, recv-Admitted,
}
use pewpew.Channel.Handles.Calls.{Call, trying, polling_ready, starting, receiving, step, run}
use pewpew.Channel.Handles.Calls.Unique.{Distinct, hashes, contains, run_unique}
use pewpew.Channel.Handles.Calls.Limits.{unasked, run-within_limit, run-limit_one}
use pewpew.Channel.Handles.Calls.Order.{accepts_all, run-Order}

abbrev idle_sender : Sender local
idle_sender = record { listener = none }

abbrev idle_receiver : Receiver local
idle_receiver = record { listener = none }

abbrev history : List (Call local)
history =
    trying 7
    ∷ polling_ready idle_sender
    ∷ starting 7
    ∷ trying 8
    ∷ receiving idle_receiver
    ∷ trying 9
    ∷ []

abbrev plain : Channel local
plain = record {
  name = "plain";
  has_maxed = false;
  limit = dynamic 2;
  on_demand_events = record { next = 0; bar = 0 };
  receiver_events = record { next = 1; bar = 0 };
  sender_events = record { next = 1; bar = 0 };
  queue = [];
  on_demand_count = 1;
  receiver_count = 1;
  sender_count = 1;
  unique = none;
}

abbrev full_channel : Channel local
full_channel = record plain { queue = 5 ∷ 6 ∷ [] }

delivered_in_order : (run local history plain).0 ≡ 7 ∷ []
unfolding run step try_send poll_ready poll_next start_send
delivered_in_order = refl

run-Order_example :
    (run local history plain).0 ++ items local (run local history plain).1
    ≡ [] ++ accepts_all local history plain
run-Order_example = run-Order local history plain

run_unique_example :
    let c = (run local history (new local (dynamic 5) true "u")).1 in
    Distinct (hashes local (items local c))
    × (items local (send local 7 c) ≡ (
        if contains 7 (hashes local (items local c))
        then items local c
        else items local c ++ 7 ∷ []))
run_unique_example = run_unique local (dynamic 5) "u" history 7

run-within_limit_example :
    let c = (run local history (new local (static 2) false "w")).1 in
    len local c ≤ unasked local history + current_limit local c
run-within_limit_example = run-within_limit local (static 2) false "w" history

run-limit_one_example : (run local history (new local (dynamic 1) false "one")).1.limit ≡ dynamic 1
run-limit_one_example = run-limit_one local false "one" history

recv_many-grows_example :
    ((recv_many local 2 full_channel).0 ≡ some 5 ∷ some 6 ∷ [])
    × ((recv_many local 2 full_channel).1.limit ≡ dynamic 3)
    × ((recv_many local 2 full_channel).1.has_maxed ≡ false)
    × (items local (recv_many local 2 full_channel).1 ≡ [])
recv_many-grows_example =
    recv_many-grows local 2 full_channel (omega arith) (omega arith) refl (omega arith)

poll_ready-Fits_example :
    ReadyFits local
      (some 0)
      full_channel
      (poll_ready local 2 (record { listener = some 0 }) full_channel)
poll_ready-Fits_example =
    poll_ready-Fits local 0 (record { listener = some 0 }) full_channel (omega arith)

poll_next-Fits_example :
    NextFits local none full_channel (poll_next local 2 idle_receiver full_channel)
poll_next-Fits_example = poll_next-Fits local 0 idle_receiver full_channel tt

drop_sender-Ended_example :
    Ended local
      (poll_next local 2 (record { listener = some 0 }) (drop_sender local idle_sender plain))
drop_sender-Ended_example = drop_sender-Ended local 0 0 idle_sender plain (omega arith) refl refl

send-Delivered_example :
    (k : ℕ) × local.IsActive k plain.receiver_events
    × Delivered local
        (send local 4 plain)
        (poll_next local 2 (record { listener = some k }) (send local 4 plain))
unfolding should_send
send-Delivered_example = send-Delivered local 0 4 0 plain (omega arith) refl

recv-Admitted_example :
    (k : ℕ) × local.IsActive k full_channel.sender_events
    × Admitted local
        (recv local full_channel).1
        (poll_ready local 2 (record { listener = some k }) (recv local full_channel).1)
unfolding no_receivers len current_limit
recv-Admitted_example =
    recv-Admitted local 0 5 (6 ∷ []) 0 full_channel (omega arith) refl refl (omega arith)
      (omega arith)
