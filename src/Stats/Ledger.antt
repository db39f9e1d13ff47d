-- ===== src/Stats/Ledger.antt =====
-- src/stats.rs over a whole test: the loop of `create_stats_channel`, and what it has counted.
mod Appends
mod Filed
mod Keeps
mod Runs
pub mod Clock
pub mod Complete
use pewpew.Prelude.{
  ℕ, ◌+◌, ◌≤◌, ◌<◌, ◌≡◌, Bool, true, false, Option, none, some, List, [], ◌∷◌, length,
  if◌then◌else◌,
}
use pewpew.BtreeMap.{same_key, get}
use pewpew.Stats.Crates.{Externals}
use pewpew.Stats.{
  ResponseStat, FileMessage, tags_message, buckets_message, Stats, append, close_out_bucket,
}
use pewpew.Stats.Counts.{Counter, weight, tally, norm}

module _ (x : Externals) where
  -- A response, or the end of a bucket once the test has a start time, with the seconds that are
  -- left and the time.
  pub data StreamItem : Type 0 where
    response_stat : ResponseStat x → StreamItem
    bucket_ended : ℕ → ℕ → StreamItem

  unfoldable pub serve : StreamItem → Stats x → Option (Stats x)
  serve (response_stat stat) s = some (append x stat s)
  serve (bucket_ended remaining epoch) s = close_out_bucket x (some remaining) epoch s

  unfoldable pub serve_all : List StreamItem → Stats x → Option (Stats x)
  unfolding serve
  serve_all [] s = some s
  serve_all (m ∷ ms) s = elim (serve m s) [ none ↦ none | some s' ↦ serve_all ms s' ]

  -- How much the responses with some tags add to a counter.
  unfoldable pub amount : Counter x → x.Tags → StreamItem → ℕ
  amount c t (response_stat stat) = if same_key x.tags_order t stat.tags then weight x c stat else 0
  amount c t (bucket_ended remaining epoch) = 0

  unfoldable pub total : Counter x → x.Tags → List StreamItem → ℕ
  unfolding amount
  total c t [] = 0
  total c t (m ∷ ms) = amount c t m + total c t ms

  unfoldable pub in_message : Counter x → ℕ → FileMessage x → ℕ
  in_message c i (tags_message j t) = 0
  in_message c i (buckets_message b) = tally x c i b

  -- What the buckets in the stats file count.
  unfoldable pub in_file : Counter x → ℕ → List (FileMessage x) → ℕ
  unfolding in_message
  in_file c i [] = 0
  in_file c i (m ∷ ms) = in_message c i m + in_file c i ms

  unfoldable pub held : Counter x → ℕ → Stats x → ℕ
  held c i s = tally x c i s.totals + tally x c i s.current

  -- Tags have an index each, below the number of tags, which nothing else is counted under.
  pub record Booked (f : Counter x → x.Tags → ℕ) (s : Stats x) : Type 0 where
    pub absent : (c : Counter x) (t : x.Tags) → get x.tags_order t s.tags ≡ none → f c t ≡ 0
    pub bounded : (t : x.Tags) (i : ℕ) → get x.tags_order t s.tags ≡ some i → i < length s.tags
    pub apart :
        (t u : x.Tags) (i : ℕ)
        → get x.tags_order t s.tags ≡ some i
        → get x.tags_order u s.tags ≡ some i
        → t ≡ u
    pub fresh : (c : Counter x) (i : ℕ) → length s.tags ≤ i → norm x c (held c i s) ≡ norm x c 0
    pub booked :
        (c : Counter x) (t : x.Tags) (i : ℕ)
        → get x.tags_order t s.tags ≡ some i
        → norm x c (held c i s) ≡ norm x c (f c t)
    pub idle : s.previous ≡ none
