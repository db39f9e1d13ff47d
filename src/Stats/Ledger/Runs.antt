-- ===== src/Stats/Ledger/Runs.antt =====
-- What the statistics of src/stats.rs hold after any number of responses and ended buckets.
use pewpew.Prelude.{
  ℕ, ◌+◌, ◌≡◌, refl, sym, ap, subst, ◌∙◌, inl, inr, Option-cases, some, List, [], ◌∷◌, arith,
}
use pewpew.BtreeMap.{get, sum_at}
use pewpew.Stats.Crates.{Externals}
use pewpew.Stats.{Stats, new_stats, new_bucket}
use pewpew.Stats.Counts.{Counter, tally, norm}
use pewpew.Stats.Ledger.{
  StreamItem, response_stat, bucket_ended, serve, serve_all, amount, total, held, Booked,
}
use pewpew.Stats.Ledger.Keeps.{close_out_bucket-Booked}
use pewpew.Stats.Ledger.Appends.{append-Booked}

module _ (x : Externals) where
  Booked-same :
      (f g : Counter x → x.Tags → ℕ) (s : Stats x)
      → ((c : Counter x) (t : x.Tags) → f c t ≡ g c t)
      → Booked x f s
      → Booked x g s
  Booked-same f g s e b = record {
    absent = λ c t h. sym (e c t) ∙ b.absent c t h;
    bounded = λ t i h. b.bounded t i h;
    apart = λ t u i h k. b.apart t u i h k;
    fresh = λ c i h. b.fresh c i h;
    booked = λ c t i h. b.booked c t i h ∙ ap (norm x c) (e c t);
    idle = b.idle;
  }

  serve-Booked :
      (f : Counter x → x.Tags → ℕ) (m : StreamItem x) (s s' : Stats x)
      → serve x m s ≡ some s'
      → Booked x f s
      → Booked x (λ c t. f c t + amount x c t m) s'
  unfolding serve amount
  serve-Booked f (response_stat stat) s s' e b =
      subst (Booked x (λ c t. f c t + amount x c t (response_stat stat))) (ground (arith, e))
        (append-Booked x f stat s b)
  serve-Booked f (bucket_ended remaining epoch) s s' e b =
      Booked-same f (λ c t. f c t + amount x c t (bucket_ended remaining epoch)) s'
        (λ c t. omega arith) (close_out_bucket-Booked x f remaining epoch s s' e b)

  serve_all-Booked :
      (f : Counter x → x.Tags → ℕ) (ms : List (StreamItem x)) (s s' : Stats x)
      → serve_all x ms s ≡ some s'
      → Booked x f s
      → Booked x (λ c t. f c t + total x c t ms) s'
  unfolding serve_all total
  serve_all-Booked f [] s s' e b =
      subst (Booked x (λ c t. f c t + 0)) (ground (arith, e))
        (Booked-same f (λ c t. f c t + 0) s (λ c t. omega arith) b)
  serve_all-Booked f (m ∷ ms) s s' e b = elim (Option-cases (serve x m s)) [
    | inl h ↦ ground (arith, h, e)
    | inr (s₁, h) ↦
        Booked-same (λ c t. f c t + amount x c t m + total x c t ms)
          (λ c t. f c t + (amount x c t m + total x c t ms)) s' (λ c t. omega arith)
          (serve_all-Booked (λ c t. f c t + amount x c t m) ms s₁ s' (ground (arith, h, e))
            (serve-Booked f m s s₁ h b))
  ]

  new_stats-Booked : (bucket_size epoch : ℕ) → Booked x (λ c t. 0) (new_stats x bucket_size epoch)
  unfolding new_stats get held tally sum_at new_bucket
  new_stats-Booked bucket_size epoch = record {
    absent = λ c t h. refl;
    bounded = λ t i h. ground (arith, h);
    apart = λ t u i h k. ground (arith, h);
    fresh = λ c i h. refl;
    booked = λ c t i h. ground (arith, h);
    idle = refl;
  }

  pub run-Booked :
      (bucket_size epoch : ℕ) (ms : List (StreamItem x)) (s : Stats x)
      → serve_all x ms (new_stats x bucket_size epoch) ≡ some s
      → Booked x (λ c t. total x c t ms) s
  run-Booked bucket_size epoch ms s e =
      Booked-same (λ c t. 0 + total x c t ms) (λ c t. total x c t ms) s (λ c t. omega arith)
        (serve_all-Booked (λ c t. 0) ms (new_stats x bucket_size epoch) s e
          (new_stats-Booked bucket_size epoch))
