-- ===== src/Functions/Replace/Absent.antt =====
-- What `Replace` leaves alone.
use Prim.Native.String.{String}
use pewpew.Prelude.{◌≡◌, refl, Bool, true, false, ◌||◌, some, [], arith}
use pewpew.Select.Json.{
  Numbers, Value, null, bool, number, string, array, object, Items, nil, cons, Fields, end, field,
}
use pewpew.Functions.Replace.{
  contains, key_changes, change_keys, replace, replace_items, replace_fields,
}

or_false : (a b : Bool) → (a || b) ≡ false → (a ≡ false) × (b ≡ false)
or_false false b h = (refl, h)
or_false true b h = ground (arith, h)

module _ {n : Numbers} where
  -- Whether a text is in a string or a key of a value.
  unfoldable mutual
    unfolding contains

    pub occurs : String → Value n → Bool
    occurs needle (string s) = contains needle s
    occurs needle (array vs) = occurs_items needle vs
    occurs needle (object fs) = occurs_fields needle fs
    occurs needle v = false

    pub occurs_items : String → Items n → Bool
    occurs_items needle nil = false
    occurs_items needle (cons v vs) = occurs needle v || occurs_items needle vs

    pub occurs_fields : String → Fields n → Bool
    occurs_fields needle end = false
    occurs_fields needle (field k v fs) =
        contains needle k || (occurs needle v || occurs_fields needle fs)

  module _ (insert : String → Value n → Fields n → Fields n) (needle replacer : String) where
    key_changes-none :
        (fs : Fields n)
        → occurs_fields needle fs ≡ false
        → key_changes insert needle replacer fs ≡ []
    unfolding occurs_fields key_changes
    key_changes-none end h = refl
    key_changes-none (field k v fs) h =
        let (hk, hr) =
          or_false (contains needle k) (occurs needle v || occurs_fields needle fs) h in
        let (hv, hfs) = or_false (occurs needle v) (occurs_fields needle fs) hr in
        rw (hk) (key_changes-none fs hfs)

    mutual
      unfolding replace replace_items replace_fields occurs occurs_items occurs_fields change_keys

      value_absent :
          (v : Value n) → occurs needle v ≡ false → replace insert needle replacer v ≡ some v
      value_absent null h = refl
      value_absent (bool b) h = refl
      value_absent (number k) h = refl
      value_absent (string s) h = ground (arith, h)
      value_absent (array vs) h = rw (items_absent vs h) refl
      value_absent (object fs) h = rw (fields_absent fs h, key_changes-none fs h) refl

      items_absent :
          (vs : Items n)
          → occurs_items needle vs ≡ false
          → replace_items insert needle replacer vs ≡ some vs
      items_absent nil h = refl
      items_absent (cons v vs) h =
          let (hv, hvs) = or_false (occurs needle v) (occurs_items needle vs) h in
          rw (value_absent v hv, items_absent vs hvs) refl

      fields_absent :
          (fs : Fields n)
          → occurs_fields needle fs ≡ false
          → replace_fields insert needle replacer fs ≡ some fs
      fields_absent end h = refl
      fields_absent (field k v fs) h =
          let (hk, hr) =
            or_false (contains needle k) (occurs needle v || occurs_fields needle fs) h in
          let (hv, hfs) = or_false (occurs needle v) (occurs_fields needle fs) hr in
          rw (value_absent v hv, fields_absent fs hfs) refl

    -- A value with no string and no key that contains the needle is what `replace` makes of it.
    pub replace_absent :
        (v : Value n) → occurs needle v ≡ false → replace insert needle replacer v ≡ some v
    replace_absent v h = value_absent v h
