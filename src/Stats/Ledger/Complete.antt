-- ===== src/Stats/Ledger/Complete.antt =====
-- What src/stats.rs has counted when the test is complete.
use pewpew.Prelude.{ℕ, ◌≡◌, refl, ap, ◌∙◌, true, Option, none, some, List, [], ◌∷◌, ◌++◌}
use pewpew.BtreeMap.{get}
use pewpew.BtreeMap.Sums.{norm_left}
use pewpew.Stats.Crates.{Externals}
use pewpew.Stats.{
  buckets_message, Stats, new_stats, combine, write_file_message, close_out_bucket,
  get_previous_bucket, write_bucket, reset_totals, is_none,
}
use pewpew.Stats.Counts.{Counter, width, tally, norm, tally-combine}
use pewpew.Stats.Ledger.{StreamItem, serve_all, total, in_message, in_file, held, Booked}
use pewpew.Stats.Ledger.Runs.{run-Booked}
use pewpew.Stats.Ledger.Filed.{in_file-snoc, serve_all-Filed, new_stats-Filed}

module _ (x : Externals) where
  -- Tags without an index were not met; under an index the expected amount is counted.
  unfoldable pub Counted : Counter x → Option ℕ → (ℕ → ℕ) → ℕ → Type 0
  Counted c none counted n = n ≡ 0
  Counted c (some i) counted n = norm x c (counted i) ≡ norm x c n

  Booked-Counted :
      (c : Counter x) (t : x.Tags) (f : Counter x → x.Tags → ℕ) (s : Stats x) (g : ℕ → ℕ)
      → Booked x f s
      → ((i : ℕ) → norm x c (g i) ≡ norm x c (held x c i s))
      → Counted c (get x.tags_order t s.tags) g (f c t)
  unfolding Counted
  Booked-Counted c t f s g b e = go (get x.tags_order t s.tags) refl
    where
      go : (o : Option ℕ) → get x.tags_order t s.tags ≡ o → Counted c o g (f c t)
      go none h = b.absent c t h
      go (some i) h = e i ∙ b.booked c t i h

  -- After any responses and ended buckets, none of which failed an assertion, the end of the test
  -- closes the last bucket, and the stats file then counts every response once: for each counter,
  -- its buckets add up, under the index of some tags, to what the responses with these tags amount
  -- to (in the counter's width), and tags without an index had none.
  pub close_out_bucket_complete :
      (bucket_size start end : ℕ) (ms : List (StreamItem x)) (s : Stats x) (c : Counter x)
      (t : x.Tags)
      → serve_all x ms (new_stats x bucket_size start) ≡ some s
      → (s' : Stats x) × (close_out_bucket x none end s ≡ some s')
        × Counted c (get x.tags_order t s'.tags) (λ i. in_file x c i s'.file) (total x c t ms)
  unfolding close_out_bucket get_previous_bucket write_bucket reset_totals is_none
      write_file_message held in_message
  close_out_bucket_complete bucket_size start end ms s c t e = (
    _,
    refl,
    Booked-Counted c t (λ c t. total x c t ms) s
        (λ i. in_file x c i (s.file ++ buckets_message s.current ∷ []))
        (run-Booked x bucket_size start ms s e)
        (λ i.
          ap (norm x c) (in_file-snoc x c i s.file (buckets_message s.current))
          ∙ norm_left (width x c) (in_file x c i s.file) (tally x c i s.totals)
              (tally x c i s.current)
              ((serve_all-Filed x ms (new_stats x bucket_size start) s e
                  (new_stats-Filed x bucket_size start)).filed
                c i)),
  )

  -- The totals that are printed at the end count the same: after any responses and ended buckets,
  -- `get_previous_bucket` at the end of the test gives a state whose totals count, under the index of
  -- some tags, what the responses with these tags amount to, and tags without an index had none.
  pub get_previous_bucket_complete :
      (bucket_size start end : ℕ) (ms : List (StreamItem x)) (s : Stats x) (c : Counter x)
      (t : x.Tags)
      → serve_all x ms (new_stats x bucket_size start) ≡ some s
      → (s' : Stats x) × (get_previous_bucket x true end s ≡ some (some s.current, s'))
        × Counted c (get x.tags_order t s'.tags) (λ i. tally x c i s'.totals) (total x c t ms)
  unfolding get_previous_bucket held
  get_previous_bucket_complete bucket_size start end ms s c t e = (
    _,
    refl,
    Booked-Counted c t (λ c t. total x c t ms) s (λ i. tally x c i (combine x s.totals s.current))
        (run-Booked x bucket_size start ms s e) (λ i. tally-combine x c i s.totals s.current),
  )
