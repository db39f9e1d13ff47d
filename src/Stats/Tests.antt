-- ===== src/Stats/Tests.antt =====
-- Runs of src/stats.rs with numbers for texts and tags, and a histogram that keeps every value.
use Prim.Native.Nat.{Ordering, compare}
use pewpew.Prelude.{
  ℕ, ◌+◌, ◌*◌, ◌/◌, ◌≡◌, ◌<◌, refl, true, ◌||◌, ◌&&◌, Option, none, some, List, [], ◌∷◌, ◌==◌, ltb,
  if◌then◌else◌, arith,
}
use pewpew.BtreeMap.{Order, get, upsert}
use pewpew.Stats.Crates.{Externals, saturate}
use pewpew.Stats.{
  timeout, recoverable_error, response, Stats, new_stats, check_current_bucket, close_out_bucket,
  get_previous_bucket, append, new_bucket, round_time,
}
use pewpew.Stats.Counts.{timeouts, status, tally}
use pewpew.Stats.Ledger.{StreamItem, response_stat, bucket_ended, serve, serve_all, total, in_file}
use pewpew.Stats.Ledger.Complete.{Counted, close_out_bucket_complete, get_previous_bucket_complete}
use pewpew.Stats.Ledger.Clock.{
  stops, is_waiting, check_current_bucket-stops, close_out_bucket-stops,
}

compare_refl : (k : ℕ) → compare k k ≡ Ordering.eq
compare_refl k = ground arith

compare_eq : (j k : ℕ) → compare j k ≡ Ordering.eq → j ≡ k
compare_eq j k h = ground arith

compare_trans :
    (i j k : ℕ) → compare i j ≡ Ordering.lt → compare j k ≡ Ordering.lt → compare i k ≡ Ordering.lt
compare_trans i j k h l = ground arith

abbrev order : Order ℕ
order = record {
  cmp = compare;
  cmp_refl = compare_refl;
  cmp_eq = compare_eq;
  cmp_trans = compare_trans;
}

abbrev local : Externals
local = record {
  Text = ℕ;
  text_order = order;
  lit = λ s. 0;
  join = λ a b. a + b;
  StdError = ℕ;
  error_text = λ e. e;
  ExpressionError = ℕ;
  expression_text = λ e. e;
  Tags = ℕ;
  tags_order = order;
  status_order = order;
  Histogram = ℕ → ℕ;
  empty = λ v. 0;
  record_value = λ n h v. saturate (h v + (if v == n then 1 else 0));
  add = λ g h v. saturate (g v + h v);
  equivalent = λ v n. v == n;
  count_at = λ v h. h v;
  count_at-empty = λ v. refl;
  count_at-record_value = λ v n h. refl;
  count_at-add = λ v g h. refl;
}

-- Two tags, a timeout, and a bucket that ends.
abbrev items : List (StreamItem local)
items =
    response_stat (record { kind = response 200; rtt = some 5; time = 101; tags = 7 })
    ∷ response_stat
        (record { kind = recoverable_error (timeout 1); rtt = none; time = 102; tags = 3 })
    ∷ bucket_ended 20 110
    ∷ response_stat (record { kind = response 200; rtt = some 6; time = 112; tags = 7 })
    ∷ []

or_start : Option (Stats local) → Stats local
or_start none = new_stats local 10 100
or_start (some s) = s

abbrev served : Stats local
served = or_start (serve_all local items (new_stats local 10 100))

served_all : serve_all local items (new_stats local 10 100) ≡ some served
unfolding or_start serve_all serve append close_out_bucket new_stats get_previous_bucket get upsert
served_all = refl

close_out_bucket_complete_example :
    (s' : Stats local) × (close_out_bucket local none 115 served ≡ some s')
    × Counted local
        (status 200)
        (get order 7 s'.tags)
        (λ i. in_file local (status 200) i s'.file)
        (total local (status 200) 7 items)
close_out_bucket_complete_example =
    close_out_bucket_complete local 10 100 115 items served (status 200) 7 served_all

get_previous_bucket_complete_example :
    (s' : Stats local) × (get_previous_bucket local true 115 served
      ≡ some (some served.current, s'))
    × Counted local timeouts
        (get order 3 s'.tags)
        (λ i. tally local timeouts i s'.totals)
        (total local timeouts 3 items)
get_previous_bucket_complete_example =
    get_previous_bucket_complete local 10 100 115 items served timeouts 3 served_all

ten_positive : 0 < (new_stats local 10 100).bucket_size
unfolding new_stats
ten_positive = omega arith

starts : (new_stats local 10 100).current.time ≡ 10 * (new_stats local 10 100).bucket_size
unfolding new_stats new_bucket round_time
starts = refl

nothing_waits : (new_stats local 10 100).previous ≡ none
unfolding new_stats
nothing_waits = refl

-- Two buckets late.
check_current_bucket-stops_example :
    stops local (check_current_bucket local 121 (new_stats local 10 100)) ≡ (
      ltb (10 + 1) (121 / (new_stats local 10 100).bucket_size)
      || ltb 10 (121 / (new_stats local 10 100).bucket_size)
        && is_waiting local (new_stats local 10 100).previous)
check_current_bucket-stops_example =
    check_current_bucket-stops local (new_stats local 10 100) 10 121 ten_positive starts

late : 1 < 121 / (new_stats local 10 100).bucket_size
unfolding new_stats
late = omega arith

close_out_bucket-stops_example :
    (s' : Stats local) × (close_out_bucket local none 110 (new_stats local 10 100) ≡ some s')
    × (close_out_bucket local (some 20) 121 s' ≡ none)
close_out_bucket-stops_example =
    close_out_bucket-stops local (new_stats local 10 100) 110 20 121 ten_positive nothing_waits late
