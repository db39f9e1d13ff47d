-- ===== src/Stats/Ledger/Filed.antt =====
-- What src/stats.rs has written to the stats file agrees with the totals of the test.
use pewpew.Prelude.{
  ℕ, ◌+◌, ◌≡◌, refl, sym, ap, subst, ◌∙◌, ◌⊎◌, inl, inr, Option-cases, none, some, List, [], ◌∷◌,
  ◌++◌, length, arith,
}
use pewpew.BtreeMap.{sum_at}
use pewpew.BtreeMap.Sums.{norm_left}
use pewpew.Stats.Crates.{Externals}
use pewpew.Stats.{
  ResponseStat, FileMessage, tags_message, buckets_message, Stats, new_stats, new_bucket, append,
  write_file_message, round_time,
}
use pewpew.Stats.Counts.{Counter, width, tally, norm, tally-combine}
use pewpew.Stats.Ledger.{
  StreamItem, response_stat, bucket_ended, serve, serve_all, in_message, in_file,
}
use pewpew.Stats.Ledger.Keeps.{moved, close_out_bucket-cases}

module _ (x : Externals) where
  pub in_file-snoc :
      (c : Counter x) (i : ℕ) (ms : List (FileMessage x)) (m : FileMessage x)
      → in_file x c i (ms ++ m ∷ []) ≡ in_file x c i ms + in_message x c i m
  unfolding in_file
  in_file-snoc c i [] m = omega arith
  in_file-snoc c i (k ∷ ms) m = omega (arith, in_file-snoc c i ms m)

  -- The file holds what the totals hold, and no bucket waits to be written.
  pub record Filed (s : Stats x) : Type 0 where
    pub filed :
        (c : Counter x) (i : ℕ) → norm x c (in_file x c i s.file) ≡ norm x c (tally x c i s.totals)
    pub idle : s.previous ≡ none

  append_totals : (stat : ResponseStat x) (s : Stats x) → (append x stat s).totals ≡ s.totals
  unfolding append write_file_message
  append_totals stat s = ground arith

  append_previous : (stat : ResponseStat x) (s : Stats x) → (append x stat s).previous ≡ s.previous
  unfolding append write_file_message
  append_previous stat s = ground arith

  append_file :
      (stat : ResponseStat x) (s : Stats x)
      → ((append x stat s).file ≡ s.file)
        ⊎ ((append x stat s).file ≡ s.file ++ tags_message (length s.tags) stat.tags ∷ [])
  unfolding append write_file_message
  append_file stat s = ground arith

  append-in_file :
      (c : Counter x) (i : ℕ) (stat : ResponseStat x) (s : Stats x)
      → in_file x c i (append x stat s).file ≡ in_file x c i s.file
  unfolding in_message
  append-in_file c i stat s = elim (append_file stat s) [
    | inl h ↦ ap (in_file x c i) h
    | inr h ↦
        ap (in_file x c i) h
        ∙ in_file-snoc c i s.file (tags_message (length s.tags) stat.tags)
        ∙ omega arith
  ]

  append-Filed : (stat : ResponseStat x) (s : Stats x) → Filed s → Filed (append x stat s)
  append-Filed stat s b = record {
    filed = λ c i.
        ap (norm x c) (append-in_file c i stat s)
        ∙ b.filed c i
        ∙ ap (λ t. norm x c (tally x c i t)) (sym (append_totals stat s));
    idle = append_previous stat s ∙ b.idle;
  }

  moved-Filed :
      (time : ℕ) (s : Stats x)
      → Filed s
      → Filed (write_file_message x (buckets_message s.current) (moved x time s))
  unfolding moved write_file_message in_message
  moved-Filed time s b = record {
    filed = λ c i.
        ap (norm x c) (in_file-snoc c i s.file (buckets_message s.current))
        ∙ norm_left (width x c) (in_file x c i s.file) (tally x c i s.totals)
            (tally x c i s.current) (b.filed c i)
        ∙ sym (tally-combine x c i s.totals s.current);
    idle = refl;
  }

  serve-Filed : (m : StreamItem x) (s s' : Stats x) → serve x m s ≡ some s' → Filed s → Filed s'
  unfolding serve
  serve-Filed (response_stat stat) s s' e b =
      subst Filed (ground (arith, e)) (append-Filed stat s b)
  serve-Filed (bucket_ended remaining epoch) s s' e b =
      elim (close_out_bucket-cases x remaining epoch s s' b.idle e) [
        | inl h ↦ subst Filed (sym h) (record { filed = λ c i. b.filed c i; idle = refl })
        | inr h ↦ subst Filed (sym h) (moved-Filed (round_time x epoch s.bucket_size) s b)
      ]

  pub serve_all-Filed :
      (ms : List (StreamItem x)) (s s' : Stats x) → serve_all x ms s ≡ some s' → Filed s → Filed s'
  unfolding serve_all
  serve_all-Filed [] s s' e b = subst Filed (ground (arith, e)) b
  serve_all-Filed (m ∷ ms) s s' e b = elim (Option-cases (serve x m s)) [
    | inl h ↦ ground (arith, h, e)
    | inr (s₁, h) ↦ serve_all-Filed ms s₁ s' (ground (arith, h, e)) (serve-Filed m s s₁ h b)
  ]

  pub new_stats-Filed : (bucket_size epoch : ℕ) → Filed (new_stats x bucket_size epoch)
  unfolding new_stats in_file tally sum_at new_bucket
  new_stats-Filed bucket_size epoch = record { filed = λ c i. refl; idle = refl }
