-- ===== src/Stats/Ledger/Clock.antt =====
-- When the assertions of `Stats::check_current_bucket` in src/stats.rs hold.
use native.Mathlib.Nat.{mul-le-mul_right, add-mul}
use pewpew.Prelude.{
  ℕ, ◌+◌, ◌*◌, ◌/◌, ◌≤◌, ◌<◌, ◌≡◌, refl, ap, ◌∙◌, ◌⊎◌, inl, inr, Bool, true, false, ◌||◌, ◌&&◌,
  Option, none, some, [], ◌∷◌, ◌++◌, ltb, lt→ltb, arith,
}
use pewpew.Stats.Crates.{Externals}
use pewpew.Stats.{
  Stats, TimeBucket, asserted, check_current_bucket, round_time, new_bucket, take_previous,
  or_check, get_previous_bucket, write_file_message, write_bucket, reset_totals, is_none,
  close_out_bucket, buckets_message,
}

ℕ_trichotomy : (a b : ℕ) → (a < b) ⊎ (a ≡ b) ⊎ (b < a)
ℕ_trichotomy a b = ground arith

-- Where the multiple `q * n` stands to `k * n`.
multiples :
    (k q n : ℕ)
    → ((q ≤ k) × (q * n ≤ k * n))
      ⊎ ((q ≡ k + 1) × (q * n ≡ k * n + n))
      ⊎ ((k + 1 < q) × (k * n + n + n ≤ q * n))
multiples k q n = elim (ℕ_trichotomy q (k + 1)) [
  | inl h ↦ inl (omega (arith, h), mul-le-mul_right n (omega (arith, h)))
  | inr (inl h) ↦ inr (inl (h, ap (λ t. t * n) h ∙ add-mul k 1 n ∙ omega arith))
  | inr (inr h) ↦
      let above : k + 2 ≤ q = omega (arith, h) in
      inr (inr (h, omega (arith, mul-le-mul_right n above, add-mul k 2 n)))
]

module _ (x : Externals) where
  unfoldable pub stops : Option (Stats x) → Bool
  stops none = true
  stops (some s) = false

  unfoldable pub is_waiting : Option (TimeBucket x) → Bool
  is_waiting none = false
  is_waiting (some bucket) = true

  -- Where the current bucket starts at a multiple of the positive bucket size, `check_current_bucket`
  -- stops the task at an assertion exactly if the clock is in a later bucket than the next one, or in
  -- a later bucket than the current one while a closed bucket waits.
  pub check_current_bucket-stops :
      (s : Stats x) (k epoch : ℕ)
      → 0 < s.bucket_size
      → s.current.time ≡ k * s.bucket_size
      → stops (check_current_bucket x epoch s) ≡ (
          ltb (k + 1) (epoch / s.bucket_size)
          || ltb k (epoch / s.bucket_size) && is_waiting s.previous)
  unfolding stops check_current_bucket round_time asserted is_waiting
  check_current_bucket-stops s k epoch hn ht =
      ground (arith, multiples k (epoch / s.bucket_size) s.bucket_size)

  closed-stops :
      (s : Stats x) (remaining epoch : ℕ)
      → s.previous ≡ none
      → stops (check_current_bucket x epoch s) ≡ true
      → close_out_bucket x (some remaining) epoch s ≡ none
  unfolding close_out_bucket get_previous_bucket or_check take_previous is_none stops
  closed-stops s remaining epoch hp h = ground (arith, hp, h)

  -- The state after the test is complete.
  completed : Stats x → Stats x
  completed s = record s {
    current = new_bucket x 0;
    file = s.file ++ buckets_message s.current ∷ [];
    totals = new_bucket x 0;
  }

  -- A bucket that ends before the test has a start time is closed out as if the test was complete.
  -- With a positive bucket size and no closed bucket waiting, that gives a state in which closing out
  -- a bucket with a remaining time, as is done once the test has a start time, stops the task,
  -- whatever that time is and wherever the clock is from the third bucket of the epoch on.
  pub close_out_bucket-stops :
      (s : Stats x) (early remaining epoch : ℕ)
      → 0 < s.bucket_size
      → s.previous ≡ none
      → 1 < epoch / s.bucket_size
      → (s' : Stats x) × (close_out_bucket x none early s ≡ some s')
        × (close_out_bucket x (some remaining) epoch s' ≡ none)
  unfolding close_out_bucket get_previous_bucket write_bucket reset_totals is_none
      write_file_message new_bucket completed
  close_out_bucket-stops s early remaining epoch hn hp he = (
    completed s,
    refl,
    closed-stops (completed s) remaining epoch hp (
        check_current_bucket-stops (completed s) 0 epoch hn (omega arith)
        ∙ ap (λ b. b || ltb 0 (epoch / s.bucket_size) && is_waiting (completed s).previous)
            (lt→ltb (0 + 1) (epoch / s.bucket_size) (omega (arith, he)))),
  )
