-- ===== src/Stats/Crates.antt =====
-- What src/stats.rs and the errors of src/error.rs take from elsewhere, as parameters: texts and
-- other errors, which are formatted and compared, the tags of a bucket group with their order, and
-- hdrhistogram's `Histogram<u64>` with three digits, whose counts saturate.
use Prim.Native.String.{String}
use pewpew.Prelude.{ℕ, ◌+◌, ◌≡◌, Bool, ltb, if◌then◌else◌, usize_max}
use pewpew.BtreeMap.{Order}

unfoldable pub saturate : ℕ → ℕ
saturate n = if ltb n usize_max then n else usize_max

pub record Externals : Type 1 where
  pub Text : Type 0
  pub text_order : Order Text
  pub lit : String → Text
  pub join : Text → Text → Text
  pub StdError : Type 0
  pub error_text : StdError → Text
  pub ExpressionError : Type 0
  pub expression_text : ExpressionError → Text
  pub Tags : Type 0
  pub tags_order : Order Tags
  pub status_order : Order ℕ
  pub Histogram : Type 0
  pub empty : Histogram
  pub record_value : ℕ → Histogram → Histogram
  pub add : Histogram → Histogram → Histogram
  -- Whether two values are one to the histogram, and how often it has met a value.
  pub equivalent : ℕ → ℕ → Bool
  pub count_at : ℕ → Histogram → ℕ
  pub count_at-empty : (v : ℕ) → count_at v empty ≡ 0
  pub count_at-record_value :
      (v x : ℕ) (h : Histogram)
      → count_at v (record_value x h) ≡ saturate (count_at v h + (if equivalent v x then 1 else 0))
  pub count_at-add :
      (v : ℕ) (g h : Histogram) → count_at v (add g h) ≡ saturate (count_at v g + count_at v h)
