-- ===== src/Requests/Limits/Bounds.antt =====
-- What bounds the limit.
use pewpew.Prelude.{ℕ, ◌-◌, ◌*◌, ◌≤◌, ◌<◌, Option, none, some, List, [], ◌∷◌, usize_mod, All}
use pewpew.Requests.Limits.{max, min, Tuning}

-- Between two calls.
unfoldable pub IsTuned : Tuning → Type 0
IsTuned t = (1 ≤ t.multiplier) × (t.multiplier ≤ 10) × (t.all_full_count ≤ t.multiplier)

-- The most room that a channel has, and 1 if there is none.
unfoldable pub most_room : List (ℕ × ℕ) → ℕ
most_room [] = 1
most_room ((count, limit) ∷ channels) = max (limit - count) (most_room channels)

-- Limits so small that ten times as much is a `usize`.
unfoldable pub IsSmall : List (ℕ × ℕ) → Type 0
IsSmall channels = All (λ c. c.1 * 10 < usize_mod) channels

-- A limit between the most room and ten times as much, and no limit above the configured one.
unfoldable pub IsBounded : Option ℕ → List (ℕ × ℕ) → ℕ → Type 0
unfolding most_room
IsBounded none channels limit =
    (1 ≤ limit) × (most_room channels ≤ limit) × (limit ≤ 10 * most_room channels)
IsBounded (some n) channels limit =
    (1 ≤ limit) × (min n (most_room channels) ≤ limit) × (limit ≤ min n (10 * most_room channels))

unfoldable pub AreBounded : Option ℕ → List (List (ℕ × ℕ) × ℕ) → List ℕ → Type 0
unfolding IsBounded
AreBounded n [] [] = Unit
AreBounded n ((channels, in_progress) ∷ rest) (limit ∷ limits) =
    IsBounded n channels limit × AreBounded n rest limits
AreBounded n [] (limit ∷ limits) = ⊥
AreBounded n ((channels, in_progress) ∷ rest) [] = ⊥

-- `NonZeroUsize`.
unfoldable pub IsNonZero : Option ℕ → Type 0
IsNonZero none = Unit
IsNonZero (some n) = 1 ≤ n
