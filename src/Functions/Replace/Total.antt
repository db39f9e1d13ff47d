-- ===== src/Functions/Replace/Total.antt =====
-- `Replace::replace` on values without a key twice.
use Prim.Native.String.{String}
use text.Mathlib.Text.{◌==◌}
use text.Mathlib.TextEquality.{eq_iff}
use pewpew.Prelude.{
  ◌≡◌, refl, ap, inl, inr, Bool-cases, true, false, not, ◌&&◌, some, if◌then◌else◌, arith,
}
use pewpew.Select.Json.{
  Numbers, Value, null, bool, number, string, array, object, Items, nil, cons, Fields, end, field,
}
use pewpew.Functions.Replace.{
  contains, str_replace, key_changes, replace, replace_items, replace_fields, ◌>>?◌,
}
use pewpew.Functions.Replace.Keys.{
  and_true, is_false, has, distinct, distinct_items, distinct_fields, Inserts, fits, lists, once,
  change_keys-fits,
}

module _ {n : Numbers} (insert : String → Value n → Fields n → Fields n)
    (needle replacer : String) where
  lists-key_changes :
      (key : String) (fs : Fields n)
      → has key fs ≡ false
      → lists key (key_changes insert needle replacer fs) ≡ false
  unfolding has lists key_changes
  lists-key_changes key end h = refl
  lists-key_changes key (field k v fs) h = ground (arith, h, lists-key_changes key fs)

  once-key_changes :
      (fs : Fields n)
      → distinct_fields fs ≡ true
      → once (key_changes insert needle replacer fs) ≡ true
  unfolding distinct_fields once key_changes
  once-key_changes end h = refl
  once-key_changes (field k v fs) h =
      let (hk, hr) = and_true (not (has k fs)) (distinct v && distinct_fields fs) h in
      let (hv, hfs) = and_true (distinct v) (distinct_fields fs) hr in
      elim (Bool-cases (contains needle k)) [
        | inl c ↦ rw (c, lists-key_changes k fs (is_false (has k fs) hk)) (once-key_changes fs hfs)
        | inr c ↦ rw c (once-key_changes fs hfs)
      ]

  fits-key_changes :
      (fs fs' : Fields n)
      → ((k : String) → has k fs ≡ true → has k fs' ≡ true)
      → fits (key_changes insert needle replacer fs) fs' ≡ true
  unfolding has fits key_changes
  fits-key_changes end fs' keep = refl
  fits-key_changes (field k v fs) fs' keep =
      let here = keep k (rw ((eq_iff k k).1 refl) refl) in
      let rest = fits-key_changes fs fs' (λ k' q. keep k' (ground (arith, q))) in
      elim (Bool-cases (contains needle k)) [ inl c ↦ rw (c, here) rest | inr c ↦ rw c rest ]

  has-field :
      (key k : String) (v v' : Value n) (fs fs' : Fields n)
      → (has key fs ≡ true → has key fs' ≡ true)
      → has key (field k v fs) ≡ true
      → has key (field k v' fs') ≡ true
  unfolding has
  has-field key k v v' fs fs' keep h = elim (Bool-cases (k == key)) [
    | inl e ↦ rw e refl
    | inr e ↦ ground (arith, e, h, keep)
  ]

  mutual
    unfolding replace replace_items replace_fields distinct distinct_items distinct_fields has

    value_replaced :
        Inserts insert
        → (v : Value n) → distinct v ≡ true
        → (v' : Value n) × (replace insert needle replacer v ≡ some v')
    value_replaced law null h = (null, refl)
    value_replaced law (bool b) h = (bool b, refl)
    value_replaced law (number k) h = (number k, refl)
    value_replaced law (string s) h =
        (string (if contains needle s then str_replace needle replacer s else s), refl)
    value_replaced law (array vs) h =
        let (vs', e) = items_replaced law vs h in (array vs', ap (λ m. m >>? λ x. some (array x)) e)
    value_replaced law (object fs) h =
        let (fs', e, keep) = fields_replaced law fs h in
        let (fs'', e') =
          change_keys-fits insert law (key_changes insert needle replacer fs) fs'
            (fits-key_changes fs fs' keep) (once-key_changes fs h) in
        (object fs'', rw (replace, e, e') refl)

    items_replaced :
        Inserts insert
        → (vs : Items n) → distinct_items vs ≡ true
        → (vs' : Items n) × (replace_items insert needle replacer vs ≡ some vs')
    items_replaced law nil h = (nil, refl)
    items_replaced law (cons v vs) h =
        let (hv, hvs) = and_true (distinct v) (distinct_items vs) h in
        let (v', e) = value_replaced law v hv in
        let (vs', e') = items_replaced law vs hvs in (cons v' vs', rw (e, e') refl)

    fields_replaced :
        Inserts insert
        → (fs : Fields n) → distinct_fields fs ≡ true
        → (fs' : Fields n) × (replace_fields insert needle replacer fs ≡ some fs')
          × ((k : String) → has k fs ≡ true → has k fs' ≡ true)
    fields_replaced law end h = (end, refl, λ k q. q)
    fields_replaced law (field k v fs) h =
        let (hk, hr) = and_true (not (has k fs)) (distinct v && distinct_fields fs) h in
        let (hv, hfs) = and_true (distinct v) (distinct_fields fs) hr in
        let (v', e) = value_replaced law v hv in
        let (fs', e', keep) = fields_replaced law fs hfs in
        (field k v' fs', rw (e, e') refl, λ k' q. has-field k' k v v' fs fs' (keep k') q)

  -- `replace` returns on every value that has no object with a key twice, where the map keeps the
  -- keys that it has and inserts into.
  pub replace_total :
      Inserts insert
      → (v : Value n) → distinct v ≡ true
      → (v' : Value n) × (replace insert needle replacer v ≡ some v')
  replace_total law v h = value_replaced law v h
