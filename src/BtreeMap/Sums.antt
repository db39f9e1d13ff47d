-- ===== src/BtreeMap/Sums.antt =====
-- What the operations of BtreeMap.antt do to the sum that the entries with a key count, where counts
-- are stored with a limited width.
use Prim.Native.Nat.{Ordering}
use pewpew.Prelude.{
  ℕ, ◌+◌, ◌≡◌, refl, ap, sym, ◌∙◌, inl, inr, Bool, true, false, [], ◌∷◌, if◌then◌else◌, arith,
}
use pewpew.BtreeMap.Lookup.{Ordering-cases}
use pewpew.BtreeMap.{Order, BtreeMap, same_key, upsert, merge, sum_at}

-- What is left of a count in its width.
pub record Width : Type 0 where
  pub norm : ℕ → ℕ
  pub norm_add : (a b : ℕ) → norm (norm a + b) ≡ norm (a + b)

module _ (w : Width) where
  pub norm_left : (a b c : ℕ) → w.norm a ≡ w.norm b → w.norm (a + c) ≡ w.norm (b + c)
  norm_left a b c h = sym (w.norm_add a c) ∙ ap (λ t. w.norm (t + c)) h ∙ w.norm_add b c

  pub norm_right : (a b c : ℕ) → w.norm a ≡ w.norm b → w.norm (c + a) ≡ w.norm (c + b)
  norm_right a b c h = ap w.norm (omega arith) ∙ norm_left a b c h ∙ ap w.norm (omega arith)

  -- A count under a test moves to the end of a sum.
  pub norm_if :
      (b : Bool) (x more rest : ℕ)
      → w.norm x ≡ w.norm more
      → w.norm (if b then x + rest else rest) ≡ w.norm (rest + (if b then more else 0))
  norm_if true x more rest h = norm_left x more rest h ∙ ap w.norm (omega arith)
  norm_if false x more rest h = ap w.norm (omega arith)

  pub norm_if_add :
      (b : Bool) (x y more rest : ℕ)
      → w.norm x ≡ w.norm (y + more)
      → w.norm (if b then x + rest else rest)
        ≡ w.norm ((if b then y + rest else rest) + (if b then more else 0))
  norm_if_add true x y more rest h = norm_left x (y + more) rest h ∙ ap w.norm (omega arith)
  norm_if_add false x y more rest h = ap w.norm (omega arith)

  pub norm_if_rest :
      (b : Bool) (x rest rest' more : ℕ)
      → w.norm rest ≡ w.norm (rest' + more)
      → w.norm (if b then x + rest else rest) ≡ w.norm ((if b then x + rest' else rest') + more)
  norm_if_rest true x rest rest' more h =
      norm_right rest (rest' + more) x h ∙ ap w.norm (omega arith)
  norm_if_rest false x rest rest' more h = h

module _ {K V : Type 0} (o : Order K) (w : Width) (count : V → ℕ) where
  upsert_nil : (k : K) (f : V → V) (v : V) → upsert o k f v [] ≡ (k, v) ∷ []
  unfolding upsert
  upsert_nil k f v = refl

  upsert_lt :
      (k k' : K) (f : V → V) (v v' : V) (m : BtreeMap K V)
      → o.cmp k k' ≡ Ordering.lt
      → upsert o k f v ((k', v') ∷ m) ≡ (k, v) ∷ (k', v') ∷ m
  unfolding upsert
  upsert_lt k k' f v v' m h = rw (h, upsert) refl

  upsert_eq :
      (k k' : K) (f : V → V) (v v' : V) (m : BtreeMap K V)
      → o.cmp k k' ≡ Ordering.eq
      → upsert o k f v ((k', v') ∷ m) ≡ (k', f v') ∷ m
  unfolding upsert
  upsert_eq k k' f v v' m h = rw (h, upsert) refl

  upsert_gt :
      (k k' : K) (f : V → V) (v v' : V) (m : BtreeMap K V)
      → o.cmp k k' ≡ Ordering.gt
      → upsert o k f v ((k', v') ∷ m) ≡ (k', v') ∷ upsert o k f v m
  unfolding upsert
  upsert_gt k k' f v v' m h = rw (h, upsert) refl

  -- An update counts what it adds for its key, whether the key was there or not.
  pub sum_at-upsert :
      (j k : K) (f : V → V) (v : V) (more : ℕ) (m : BtreeMap K V)
      → ((x : V) → w.norm (count (f x)) ≡ w.norm (count x + more))
      → w.norm (count v) ≡ w.norm more
      → w.norm (sum_at o count j (upsert o k f v m))
        ≡ w.norm (sum_at o count j m + (if same_key o j k then more else 0))
  unfolding sum_at
  sum_at-upsert j k f v more [] hf hv =
      rw (upsert_nil k f v) (norm_if w (same_key o j k) (count v) more 0 hv)
  sum_at-upsert j k f v more ((k', v') ∷ m) hf hv = elim (Ordering-cases (o.cmp k k')) [
    | inl h ↦
        rw (upsert_lt k k' f v v' m h)
          (norm_if w (same_key o j k) (count v) more (sum_at o count j ((k', v') ∷ m)) hv)
    | inr (inl h) ↦
        rw (upsert_eq k k' f v v' m h, o.cmp_eq k k' h)
          (norm_if_add w (same_key o j k') (count (f v')) (count v') more (sum_at o count j m)
            (hf v'))
    | inr (inr h) ↦ rw (upsert_gt k k' f v v' m h) (
        norm_if_rest w (same_key o j k') (count v') (sum_at o count j (upsert o k f v m))
          (sum_at o count j m) (if same_key o j k then more else 0)
          (sum_at-upsert j k f v more m hf hv))
  ]

  -- A merge counts what both maps count.
  pub sum_at-merge :
      (j : K) (f : V → V → V) (r m : BtreeMap K V)
      → ((x y : V) → w.norm (count (f x y)) ≡ w.norm (count x + count y))
      → w.norm (sum_at o count j (merge o f r m)) ≡ w.norm (sum_at o count j m + sum_at o count j r)
  unfolding merge sum_at
  sum_at-merge j f [] m hf = ap w.norm (omega arith)
  sum_at-merge j f ((k, v) ∷ r) m hf =
      sum_at-merge j f r (upsert o k (λ x. f x v) v m) hf
      ∙ norm_left w (sum_at o count j (upsert o k (λ x. f x v) v m))
          (sum_at o count j m + (if same_key o j k then count v else 0)) (sum_at o count j r)
          (sum_at-upsert j k (λ x. f x v) v (count v) m (λ x. hf x v) refl)
      ∙ ap w.norm (ground arith)
