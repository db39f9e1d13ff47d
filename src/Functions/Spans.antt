-- ===== src/Functions/Spans.antt =====
-- Which numbers `range` gives.
use pewpew.Prelude.{
  ℕ, zero, suc, ◌+◌, ◌-◌, ◌<◌, ◌≡◌, Option, none, some, get_elem?, ltb, if◌then◌else◌, usize_max,
  wrapping_inc, arith,
}
use pewpew.Functions.Sequences.{up_from, down_from, new_reversible, into_iter}

get_elem?-up_from :
    (low size i : ℕ)
    → get_elem? (up_from low size) i ≡ (if ltb i size then some (low + i) else none)
unfolding up_from
get_elem?-up_from low zero i = ground arith
get_elem?-up_from low (suc size) zero = ground arith
get_elem?-up_from low (suc size) (suc i) = ground (arith, get_elem?-up_from (low + 1) size i)

get_elem?-down_from :
    (low size i : ℕ)
    → get_elem? (down_from low size) i ≡ (if ltb i size then some (low + size - 1 - i) else none)
unfolding down_from
get_elem?-down_from low zero i = ground arith
get_elem?-down_from low (suc size) zero = ground arith
get_elem?-down_from low (suc size) (suc i) = ground (arith, get_elem?-down_from low size i)

-- The number at a place of a range: up or down from the first bound, as long as the second is not
-- reached.
unfoldable pub number_at : ℕ → ℕ → ℕ → Option ℕ
number_at first second i =
    if ltb second first
    then if ltb (second + i) first then some (first - i) else none
    else if ltb (first + i) second
    then some (first + i)
    else none

-- Of bounds below the greatest u64, a range gives the numbers from the first bound towards the
-- second, each one up or down from the one before, the first bound included and the second not.
pub into_iter-number_at :
    (first second i : ℕ)
    → first < usize_max
    → second < usize_max
    → get_elem? (into_iter (new_reversible first second)) i ≡ number_at first second i
unfolding into_iter new_reversible number_at
into_iter-number_at first second i h k = ground (
  arith,
  h,
  k,
  get_elem?-up_from first (second - first) i,
  get_elem?-down_from (wrapping_inc second) (wrapping_inc first - wrapping_inc second) i,
)
