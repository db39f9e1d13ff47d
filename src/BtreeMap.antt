-- ===== src/BtreeMap.antt =====
-- The standard library's `BTreeMap`, as the list of its entries in ascending order of keys, with the
-- operations that src/stats.rs uses. Used by Stats.antt.
pub mod Lookup
pub mod Sums
use Prim.Native.Nat.{Ordering}
use pewpew.Prelude.{
  ℕ, ◌+◌, ◌≡◌, Bool, true, false, Option, none, some, List, [], ◌∷◌, if◌then◌else◌, arith,
}

-- The order of the keys.
pub record Order (K : Type 0) : Type 0 where
  pub cmp : K → K → Ordering
  pub cmp_refl : (k : K) → cmp k k ≡ Ordering.eq
  pub cmp_eq : (j k : K) → cmp j k ≡ Ordering.eq → j ≡ k
  pub cmp_trans :
      (i j k : K) → cmp i j ≡ Ordering.lt → cmp j k ≡ Ordering.lt → cmp i k ≡ Ordering.lt

abbrev pub BtreeMap : Type 0 → Type 0 → Type 0
BtreeMap K V = List (K × V)

module _ {K : Type 0} (o : Order K) where
  unfoldable pub same_key : K → K → Bool
  same_key j k = elim (o.cmp j k) [ Ordering.eq ↦ true | _ ↦ false ]

  module _ {V : Type 0} where
    unfoldable pub get : K → BtreeMap K V → Option V
    get j [] = none
    get j ((k, v) ∷ m) = elim (o.cmp j k) [
      | Ordering.lt ↦ none
      | Ordering.eq ↦ some v
      | Ordering.gt ↦ get j m
    ]

    -- `entry(k).and_modify(f).or_insert(v)`.
    unfoldable pub upsert : K → (V → V) → V → BtreeMap K V → BtreeMap K V
    upsert k f v [] = (k, v) ∷ []
    upsert k f v ((k', v') ∷ m) = elim (o.cmp k k') [
      | Ordering.lt ↦ (k, v) ∷ (k', v') ∷ m
      | Ordering.eq ↦ (k', f v') ∷ m
      | Ordering.gt ↦ (k', v') ∷ upsert k f v m
    ]

    -- Brings every entry of the first map into the second one.
    unfoldable pub merge : (V → V → V) → BtreeMap K V → BtreeMap K V → BtreeMap K V
    merge f [] m = m
    merge f ((k, v) ∷ r) m = merge f r (upsert k (λ x. f x v) v m)

    -- The sum of what the entries with a key count.
    unfoldable pub sum_at : (V → ℕ) → K → BtreeMap K V → ℕ
    sum_at count j [] = 0
    sum_at count j ((k, v) ∷ m) =
        let rest = sum_at count j m in if same_key j k then count v + rest else rest
