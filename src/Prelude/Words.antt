-- ===== src/Prelude/Words.antt =====
-- `usize` and `u64` counters, 64 bits wide: `fetch_add` and `fetch_sub` wrap around.
use Prim.Native.Nat.{ℕ, ◌+◌, ◌-◌, ◌%◌, ◌^◌}

abbrev pub usize_mod : ℕ
usize_mod = 2 ^ 64

-- `std::usize::MAX`.
abbrev pub usize_max : ℕ
usize_max = 2 ^ 64 - 1

abbrev pub wrapping_inc : ℕ → ℕ
wrapping_inc n = (n + 1) % usize_mod

abbrev pub wrapping_dec : ℕ → ℕ
wrapping_dec n = (n + usize_mod - 1) % usize_mod
