-- ===== src/BtreeMap/Lookup.antt =====
-- Lookups in BtreeMap.antt after an update.
use Prim.Native.Nat.{Ordering}
use pewpew.Prelude.{suc, ◌≡◌, refl, ◌⊎◌, inl, inr, true, false, none, some, [], ◌∷◌, length, arith}
use pewpew.BtreeMap.{Order, BtreeMap, same_key, get, upsert}

pub Ordering-cases : (c : Ordering) → (c ≡ Ordering.lt) ⊎ (c ≡ Ordering.eq) ⊎ (c ≡ Ordering.gt)
Ordering-cases Ordering.lt = inl refl
Ordering-cases Ordering.eq = inr (inl refl)
Ordering-cases Ordering.gt = inr (inr refl)

-- An update sets one key and leaves the others; it adds an entry for a new key.
module _ {K : Type 0} (o : Order K) where
  pub same_key_refl : (k : K) → same_key o k k ≡ true
  unfolding same_key
  same_key_refl k = ground (arith, o.cmp_refl k)

  pub same_key→≡ : (j k : K) → same_key o j k ≡ true → j ≡ k
  unfolding same_key
  same_key→≡ j k h = ground (arith, o.cmp_eq j k)

  module _ {V : Type 0} where
    pub get-upsert_same :
        (k : K) (v : V) (m : BtreeMap K V) → get o k (upsert o k (λ _. v) v m) ≡ some v
    unfolding upsert get
    get-upsert_same k v [] = ground (arith, o.cmp_refl k)
    get-upsert_same k v ((k', v') ∷ m) = ground (arith, o.cmp_refl k, get-upsert_same k v m)

    pub get-upsert_other :
        (j k : K) (v : V) (m : BtreeMap K V)
        → same_key o j k ≡ false
        → get o j (upsert o k (λ _. v) v m) ≡ get o j m
    unfolding upsert get same_key
    get-upsert_other j k v [] h = ground arith
    get-upsert_other j k v ((k', v') ∷ m) h =
        ground (arith, o.cmp_eq k k', o.cmp_trans j k k', get-upsert_other j k v m h)

    pub length-upsert :
        (k : K) (v : V) (m : BtreeMap K V)
        → get o k m ≡ none
        → length (upsert o k (λ _. v) v m) ≡ suc (length m)
    unfolding upsert get
    length-upsert k v [] h = refl
    length-upsert k v ((k', v') ∷ m) h = ground (arith, length-upsert k v m)
