-- ===== src/Stats.antt =====
-- src/stats.rs: the statistics of a test, in buckets of time, and src/error.rs's recoverable errors.
-- `Stats` has the fields that its methods change or read, and its stats file as the list of the
-- messages sent to it; the text for the console is left out. A read of the clock is the argument
-- `epoch`, in seconds. A failed assertion, which ends the task, gives `none`.
mod Crates
mod Counts
mod Ledger
mod Tests
use pewpew.Prelude.{
  ℕ, ◌+◌, ◌-◌, ◌/◌, ◌*◌, ◌%◌, Bool, true, false, Option, none, some, List, [], ◌∷◌, ◌++◌, length,
  ◌==◌, ltb, if◌then◌else◌, usize_mod,
}
use pewpew.BtreeMap.{BtreeMap, get, upsert, merge}
use Crates.{Externals}

unfoldable pub wrapping_add : ℕ → ℕ → ℕ
wrapping_add a b = (a + b) % usize_mod

module _ (x : Externals) where
  pub data RecoverableError : Type 0 where
    provider_delay : x.Text → RecoverableError
    body_err : x.StdError → RecoverableError
    connection_err : ℕ → x.StdError → RecoverableError
    executing_expression : x.ExpressionError → RecoverableError
    timeout : ℕ → RecoverableError

  unfoldable pub fmt : RecoverableError → x.Text
  fmt (body_err e) = x.join (x.lit "body error: ") (x.error_text e)
  fmt (connection_err t e) =
      x.join (x.lit "connection error: `") (x.join (x.error_text e) (x.lit "`"))
  fmt (executing_expression e) = x.expression_text e
  fmt (provider_delay p) =
      x.join (x.lit "endpoint was delayed waiting for provider `") (x.join p (x.lit "`"))
  fmt (timeout t) = x.lit "request timed out"

  pub data StatKind : Type 0 where
    recoverable_error : RecoverableError → StatKind
    response : ℕ → StatKind

  pub record ResponseStat : Type 0 where
    pub kind : StatKind
    pub rtt : Option ℕ
    pub time : ℕ
    pub tags : x.Tags

  pub record BucketGroupStats : Type 0 where
    pub request_timeouts : ℕ
    pub rtt_histogram : x.Histogram
    pub status_counts : BtreeMap ℕ ℕ
    pub test_errors : BtreeMap x.Text ℕ

  unfoldable pub default : BucketGroupStats
  default = record {
    request_timeouts = 0;
    rtt_histogram = x.empty;
    status_counts = [];
    test_errors = [];
  }

  -- The count of a stat's kind goes up.
  unfoldable pub append_kind : StatKind → BucketGroupStats → BucketGroupStats
  unfolding wrapping_add fmt
  append_kind (recoverable_error (timeout t)) g = record g {
    request_timeouts = wrapping_add g.request_timeouts 1;
  }
  append_kind (recoverable_error r) g = record g {
    test_errors = upsert x.text_order (fmt r) (λ n. wrapping_add n 1) 1 g.test_errors;
  }
  append_kind (response status) g = record g {
    status_counts = upsert x.status_order status (λ n. wrapping_add n 1) 1 g.status_counts;
  }

  unfoldable pub append_rtt : Option ℕ → BucketGroupStats → BucketGroupStats
  append_rtt none g = g
  append_rtt (some rtt) g = record g { rtt_histogram = x.record_value rtt g.rtt_histogram }

  -- `BucketGroupStats::append` and `BucketGroupStats::combine`.
  unfoldable pub append_group : ResponseStat → BucketGroupStats → BucketGroupStats
  unfolding append_kind append_rtt
  append_group stat g = append_rtt stat.rtt (append_kind stat.kind g)

  unfoldable pub combine_group : BucketGroupStats → BucketGroupStats → BucketGroupStats
  unfolding wrapping_add
  combine_group g rhs = record {
    request_timeouts = wrapping_add g.request_timeouts rhs.request_timeouts;
    rtt_histogram = x.add g.rtt_histogram rhs.rtt_histogram;
    status_counts = merge x.status_order wrapping_add rhs.status_counts g.status_counts;
    test_errors = merge x.text_order wrapping_add rhs.test_errors g.test_errors;
  }

  pub record TimeBucket : Type 0 where
    pub time : ℕ
    pub entries : BtreeMap ℕ BucketGroupStats

  unfoldable pub new_bucket : ℕ → TimeBucket
  new_bucket time = record { time = time; entries = [] }

  unfoldable pub append_bucket : ResponseStat → ℕ → TimeBucket → TimeBucket
  unfolding append_group default
  append_bucket stat index b = record b {
    entries = upsert x.status_order index (append_group stat) (append_group stat default) b.entries;
  }

  unfoldable pub combine : TimeBucket → TimeBucket → TimeBucket
  unfolding combine_group
  combine b rhs = record b { entries = merge x.status_order combine_group rhs.entries b.entries }

  pub data FileMessage : Type 0 where
    tags_message : ℕ → x.Tags → FileMessage
    buckets_message : TimeBucket → FileMessage

  pub record Stats : Type 0 where
    pub bucket_size : ℕ
    pub current : TimeBucket
    pub file : List FileMessage
    pub previous : Option TimeBucket
    pub tags : BtreeMap x.Tags ℕ
    pub totals : TimeBucket

  unfoldable pub round_time : ℕ → ℕ → ℕ
  round_time time bucket_size = time / bucket_size * bucket_size

  unfoldable pub new_stats : ℕ → ℕ → Stats
  unfolding new_bucket round_time
  new_stats bucket_size epoch = record {
    bucket_size = bucket_size;
    current = new_bucket (round_time epoch bucket_size);
    file = [];
    previous = none;
    tags = [];
    totals = new_bucket epoch;
  }

  -- The two assertions hold: `previous` was none, and the bucket that ends is the last one.
  unfoldable pub asserted : Option TimeBucket → ℕ → ℕ → Bool
  asserted none time previous_time = time == previous_time
  asserted (some b) time previous_time = false

  unfoldable pub check_current_bucket : ℕ → Stats → Option Stats
  unfolding new_bucket round_time asserted combine
  check_current_bucket epoch s =
      let current_bucket_time = round_time epoch s.bucket_size in
      if ltb s.current.time current_bucket_time
      then if asserted s.previous s.current.time (current_bucket_time - s.bucket_size)
        then some (record s {
          current = new_bucket current_bucket_time;
          totals = combine s.totals s.current;
          previous = some s.current;
        })
        else none
      else some s

  unfoldable pub take_previous : Stats → Option TimeBucket × Stats
  take_previous s = (s.previous, record s { previous = none })

  -- `self.previous.take().or_else(…)`: what is done when nothing was taken.
  unfoldable pub or_check : ℕ → Option TimeBucket × Stats → Option (Option TimeBucket × Stats)
  unfolding check_current_bucket take_previous
  or_check epoch (some b, s) = some (some b, s)
  or_check epoch (none, s) = elim (check_current_bucket epoch s) [
    | none ↦ none
    | some s' ↦ some (take_previous s')
  ]

  unfoldable pub get_previous_bucket : Bool → ℕ → Stats → Option (Option TimeBucket × Stats)
  unfolding new_bucket combine take_previous or_check
  get_previous_bucket true epoch s =
      some
        (some s.current, record s { current = new_bucket 0; totals = combine s.totals s.current })
  get_previous_bucket false epoch s = or_check epoch (take_previous s)

  unfoldable pub write_file_message : FileMessage → Stats → Stats
  write_file_message msg s = record s { file = s.file ++ msg ∷ [] }

  unfoldable pub append : ResponseStat → Stats → Stats
  unfolding append_bucket write_file_message
  append stat s = elim (get x.tags_order stat.tags s.tags) [
    | some i ↦ record s { current = append_bucket stat i s.current }
    | none ↦
        let i = length s.tags in
        write_file_message (tags_message i stat.tags) (record s {
          tags = upsert x.tags_order stat.tags (λ _. i) i s.tags;
          current = append_bucket stat i s.current;
        })
  ]

  unfoldable pub write_bucket : Option TimeBucket → Stats → Stats
  unfolding write_file_message
  write_bucket none s = s
  write_bucket (some b) s = write_file_message (buckets_message b) s

  -- The totals start over once the test is complete.
  unfoldable pub reset_totals : Bool → Stats → Stats
  unfolding new_bucket
  reset_totals true s = record s { totals = new_bucket 0 }
  reset_totals false s = s

  unfoldable pub is_none : Option ℕ → Bool
  is_none none = true
  is_none (some n) = false

  unfoldable pub close_out_bucket : Option ℕ → ℕ → Stats → Option Stats
  unfolding is_none get_previous_bucket write_bucket reset_totals
  close_out_bucket remaining epoch s =
      let test_complete = is_none remaining in
      elim (get_previous_bucket test_complete epoch s) [
        | none ↦ none
        | some (bucket, s') ↦ some (reset_totals test_complete (write_bucket bucket s'))
      ]
