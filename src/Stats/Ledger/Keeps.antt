-- ===== src/Stats/Ledger/Keeps.antt =====
-- How the operations of src/stats.rs keep what was counted.
use pewpew.Prelude.{
  ℕ, ◌+◌, ◌≡◌, refl, sym, ap, subst, ◌∙◌, ◌⊎◌, inl, inr, none, some, if◌then◌else◌, arith,
}
use pewpew.BtreeMap.{same_key, get, sum_at}
use pewpew.BtreeMap.Sums.{norm_right}
use pewpew.Stats.Crates.{Externals}
use pewpew.Stats.{
  ResponseStat, Stats, TimeBucket, new_bucket, append_bucket, combine, write_file_message,
  check_current_bucket, get_previous_bucket, or_check, take_previous, close_out_bucket,
  write_bucket, reset_totals, is_none, round_time, buckets_message,
}
use pewpew.Stats.Counts.{Counter, width, weight, tally, norm, tally-append_bucket, tally-combine}
use pewpew.Stats.Ledger.{held, Booked}

module _ (x : Externals) where
  tally-new_bucket : (c : Counter x) (i time : ℕ) → tally x c i (new_bucket x time) ≡ 0
  unfolding tally new_bucket sum_at
  tally-new_bucket c i time = refl

  -- Moving the current bucket into the totals keeps what is held.
  held-move :
      (c : Counter x) (i time : ℕ) (totals current : TimeBucket x)
      → norm x c (tally x c i (combine x totals current) + tally x c i (new_bucket x time))
        ≡ norm x c (tally x c i totals + tally x c i current)
  held-move c i time totals current =
      ap (norm x c) (omega (arith, tally-new_bucket c i time)) ∙ tally-combine x c i totals current

  pub held-append :
      (c : Counter x) (i j : ℕ) (stat : ResponseStat x) (totals current : TimeBucket x)
      → norm x c (tally x c i totals + tally x c i (append_bucket x stat j current))
        ≡ norm x c (
            tally x c i totals
            + tally x c i current
            + (if same_key x.status_order i j then weight x c stat else 0))
  held-append c i j stat totals current =
      norm_right (width x c) (tally x c i (append_bucket x stat j current))
        (tally x c i current + (if same_key x.status_order i j then weight x c stat else 0))
        (tally x c i totals) (tally-append_bucket x c i j stat current)
      ∙ ap (norm x c) (omega arith)

  -- A state that differs only in the file and in where the counts stand.
  Booked-moved :
      (f : Counter x → x.Tags → ℕ) (s s' : Stats x)
      → s'.tags ≡ s.tags
      → s'.previous ≡ none
      → ((c : Counter x) (i : ℕ) → norm x c (held x c i s') ≡ norm x c (held x c i s))
      → Booked x f s
      → Booked x f s'
  Booked-moved f s s' et ep eh b = record {
    absent = λ c t h. b.absent c t (ap (get x.tags_order t) (sym et) ∙ h);
    bounded = λ t i h. rw et (b.bounded t i (ap (get x.tags_order t) (sym et) ∙ h));
    apart = λ t u i h k.
        b.apart t u i (ap (get x.tags_order t) (sym et) ∙ h) (ap (get x.tags_order u) (sym et) ∙ k);
    fresh = λ c i h. eh c i ∙ b.fresh c i (rw (sym et) h);
    booked = λ c t i h. eh c i ∙ b.booked c t i (ap (get x.tags_order t) (sym et) ∙ h);
    idle = ep;
  }

  -- What is left after a bucket was closed with nothing in `previous`.
  unfoldable pub moved : ℕ → Stats x → Stats x
  moved time s = record s {
    current = new_bucket x time;
    totals = combine x s.totals s.current;
    previous = none;
  }

  pub close_out_bucket-cases :
      (remaining epoch : ℕ) (s s' : Stats x)
      → s.previous ≡ none
      → close_out_bucket x (some remaining) epoch s ≡ some s'
      → (s' ≡ record s { previous = none })
        ⊎ (s'
            ≡ write_file_message x
                (buckets_message s.current)
                (moved (round_time x epoch s.bucket_size) s))
  unfolding close_out_bucket get_previous_bucket or_check take_previous check_current_bucket
      write_bucket reset_totals is_none moved write_file_message
  close_out_bucket-cases remaining epoch s s' h e = ground arith

  -- An ended bucket is moved, or the test stops at an assertion.
  pub close_out_bucket-Booked :
      (f : Counter x → x.Tags → ℕ) (remaining epoch : ℕ) (s s' : Stats x)
      → close_out_bucket x (some remaining) epoch s ≡ some s'
      → Booked x f s
      → Booked x f s'
  unfolding held moved write_file_message
  close_out_bucket-Booked f remaining epoch s s' e b =
      elim (close_out_bucket-cases remaining epoch s s' b.idle e) [
        | inl h ↦
            subst (Booked x f) (sym h)
              (Booked-moved f s (record s { previous = none }) refl refl (λ c i. refl) b)
        | inr h ↦ subst (Booked x f) (sym h) (
            Booked-moved f s
              (write_file_message x (buckets_message s.current)
                (moved (round_time x epoch s.bucket_size) s))
              refl refl (λ c i. held-move c i (round_time x epoch s.bucket_size) s.totals s.current)
              b)
      ]
