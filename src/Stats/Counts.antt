-- ===== src/Stats/Counts.antt =====
-- What the counters of src/stats.rs show: how often a timeout, a status, an error or a response time
-- was recorded.
use pewpew.Prelude.{ℕ, ◌+◌, ◌%◌, ◌≡◌, refl, ap, ◌∙◌, Option, some, if◌then◌else◌, usize_mod, arith}
use pewpew.BtreeMap.{BtreeMap, same_key, upsert, sum_at}
use pewpew.BtreeMap.Sums.{Width, norm_left, sum_at-upsert, sum_at-merge}
use pewpew.Stats.Crates.{Externals, saturate}
use pewpew.Stats.{
  wrapping_add, provider_delay, body_err, connection_err, executing_expression, timeout, fmt,
  StatKind, recoverable_error, response, ResponseStat, BucketGroupStats, default, append_kind,
  append_rtt, append_group, combine_group, TimeBucket, append_bucket, combine,
}

-- A u64 that wraps around, and one that saturates.
unfoldable pub wrapping : Width
wrapping = record { norm = λ n. n % usize_mod; norm_add = λ a b. omega arith }

pub saturate_add : (a b : ℕ) → saturate (saturate a + b) ≡ saturate (a + b)
unfolding saturate
saturate_add a b = ground arith

pub saturate_again : (n : ℕ) → saturate (saturate n) ≡ saturate n
unfolding saturate
saturate_again n = ground arith

unfoldable pub saturating : Width
saturating = record { norm = saturate; norm_add = saturate_add }

module _ (x : Externals) where
  pub data Counter : Type 0 where
    timeouts : Counter
    status : ℕ → Counter
    error : x.Text → Counter
    response_time : ℕ → Counter

  unfoldable pub width : Counter → Width
  width (response_time v) = saturating
  width c = wrapping

  unfoldable pub count : Counter → BucketGroupStats x → ℕ
  count timeouts g = g.request_timeouts
  count (status s) g = sum_at x.status_order (λ n. n) s g.status_counts
  count (error e) g = sum_at x.text_order (λ n. n) e g.test_errors
  count (response_time v) g = x.count_at v g.rtt_histogram

  unfoldable pub of_kind : Counter → StatKind x → ℕ
  of_kind timeouts (recoverable_error (timeout t)) = 1
  of_kind (error e) (recoverable_error (timeout t)) = 0
  of_kind (error e) (recoverable_error r) = if same_key x.text_order e (fmt x r) then 1 else 0
  of_kind (status s) (response t) = if same_key x.status_order s t then 1 else 0
  of_kind c k = 0

  unfoldable pub of_rtt : Counter → Option ℕ → ℕ
  of_rtt (response_time v) (some rtt) = if x.equivalent v rtt then 1 else 0
  of_rtt c r = 0

  -- How much a stat adds to a counter.
  unfoldable pub weight : Counter → ResponseStat x → ℕ
  unfolding of_kind of_rtt
  weight c stat = of_kind c stat.kind + of_rtt c stat.rtt

  abbrev pub norm : Counter → ℕ → ℕ
  norm c n = (width c).norm n

  error-append_kind :
      (e f : x.Text) (m : BtreeMap x.Text ℕ)
      → norm timeouts
          (sum_at x.text_order (λ n. n) e (upsert x.text_order f (λ n. wrapping_add n 1) 1 m))
        ≡ norm timeouts
            (sum_at x.text_order (λ n. n) e m + (if same_key x.text_order e f then 1 else 0))
  unfolding width wrapping wrapping_add
  error-append_kind e f m =
      sum_at-upsert x.text_order wrapping (λ n. n) e f (λ n. wrapping_add n 1) 1 1 m
        (λ n. omega arith) refl

  status-append_kind :
      (s t : ℕ) (m : BtreeMap ℕ ℕ)
      → norm timeouts
          (sum_at x.status_order (λ n. n) s (upsert x.status_order t (λ n. wrapping_add n 1) 1 m))
        ≡ norm timeouts
            (sum_at x.status_order (λ n. n) s m + (if same_key x.status_order s t then 1 else 0))
  unfolding width wrapping wrapping_add
  status-append_kind s t m =
      sum_at-upsert x.status_order wrapping (λ n. n) s t (λ n. wrapping_add n 1) 1 1 m
        (λ n. omega arith) refl

  count-append_kind :
      (c : Counter) (k : StatKind x) (g : BucketGroupStats x)
      → norm c (count c (append_kind x k g)) ≡ norm c (count c g + of_kind c k)
  unfolding count append_kind of_kind width wrapping saturating wrapping_add
  count-append_kind timeouts (recoverable_error (timeout t)) g = omega arith
  count-append_kind (error e) (recoverable_error (body_err r)) g =
      error-append_kind e (fmt x (body_err r)) g.test_errors
  count-append_kind (error e) (recoverable_error (provider_delay r)) g =
      error-append_kind e (fmt x (provider_delay r)) g.test_errors
  count-append_kind (error e) (recoverable_error (connection_err t r)) g =
      error-append_kind e (fmt x (connection_err t r)) g.test_errors
  count-append_kind (error e) (recoverable_error (executing_expression r)) g =
      error-append_kind e (fmt x (executing_expression r)) g.test_errors
  count-append_kind (status s) (response t) g = status-append_kind s t g.status_counts
  count-append_kind c k g = ap (norm c) (ground arith)

  count-append_rtt :
      (c : Counter) (r : Option ℕ) (g : BucketGroupStats x)
      → norm c (count c (append_rtt x r g)) ≡ norm c (count c g + of_rtt c r)
  unfolding count append_rtt of_rtt width saturating
  count-append_rtt (response_time v) (some rtt) g =
      ap saturate (x.count_at-record_value v rtt g.rtt_histogram)
      ∙ saturate_again (x.count_at v g.rtt_histogram + (if x.equivalent v rtt then 1 else 0))
  count-append_rtt c r g = ap (norm c) (ground arith)

  -- A group counts a stat once for each counter that it touches.
  pub count-append_group :
      (c : Counter) (stat : ResponseStat x) (g : BucketGroupStats x)
      → norm c (count c (append_group x stat g)) ≡ norm c (count c g + weight c stat)
  unfolding append_group weight
  count-append_group c stat g =
      count-append_rtt c stat.rtt (append_kind x stat.kind g)
      ∙ norm_left (width c) (count c (append_kind x stat.kind g)) (count c g + of_kind c stat.kind)
          (of_rtt c stat.rtt) (count-append_kind c stat.kind g)
      ∙ ap (norm c) (omega arith)

  pub count-combine_group :
      (c : Counter) (g h : BucketGroupStats x)
      → norm c (count c (combine_group x g h)) ≡ norm c (count c g + count c h)
  unfolding count combine_group width wrapping saturating wrapping_add
  count-combine_group timeouts g h = omega arith
  count-combine_group (status s) g h =
      sum_at-merge x.status_order wrapping (λ n. n) s wrapping_add h.status_counts g.status_counts
        (λ a b. omega arith)
  count-combine_group (error e) g h =
      sum_at-merge x.text_order wrapping (λ n. n) e wrapping_add h.test_errors g.test_errors
        (λ a b. omega arith)
  count-combine_group (response_time v) g h =
      ap saturate (x.count_at-add v g.rtt_histogram h.rtt_histogram)
      ∙ saturate_again (x.count_at v g.rtt_histogram + x.count_at v h.rtt_histogram)

  count-default : (c : Counter) → count c (default x) ≡ 0
  unfolding count default sum_at
  count-default timeouts = refl
  count-default (status s) = refl
  count-default (error e) = refl
  count-default (response_time v) = x.count_at-empty v

  -- What a bucket counts for the group with an index.
  unfoldable pub tally : Counter → ℕ → TimeBucket x → ℕ
  tally c i b = sum_at x.status_order (count c) i b.entries

  pub tally-append_bucket :
      (c : Counter) (i j : ℕ) (stat : ResponseStat x) (b : TimeBucket x)
      → norm c (tally c i (append_bucket x stat j b))
        ≡ norm c (tally c i b + (if same_key x.status_order i j then weight c stat else 0))
  unfolding tally append_bucket
  tally-append_bucket c i j stat b =
      sum_at-upsert x.status_order (width c) (count c) i j (append_group x stat)
        (append_group x stat (default x)) (weight c stat) b.entries
        (λ g. count-append_group c stat g)
        (count-append_group c stat (default x) ∙ ap (norm c) (omega (arith, count-default c)))

  pub tally-combine :
      (c : Counter) (i : ℕ) (b rhs : TimeBucket x)
      → norm c (tally c i (combine x b rhs)) ≡ norm c (tally c i b + tally c i rhs)
  unfolding tally combine
  tally-combine c i b rhs =
      sum_at-merge x.status_order (width c) (count c) i (combine_group x) rhs.entries b.entries
        (λ g h. count-combine_group c g h)
