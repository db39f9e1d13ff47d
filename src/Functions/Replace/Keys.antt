-- ===== src/Functions/Replace/Keys.antt =====
-- The keys of objects, and the loop of `Replace::replace` that changes them.
use Prim.Native.String.{String}
use text.Mathlib.Text.{◌==◌}
use text.Mathlib.TextEquality.{eq_iff}
use pewpew.Prelude.{
  ◌≡◌, ◌≢◌, refl, sym, ap, subst, ◌∙◌, inl, inr, Bool, Bool-cases, true, false, not, ◌&&◌, ◌||◌,
  some, List, [], ◌∷◌, arith,
}
use pewpew.Select.Json.{Numbers, Value, array, object, Items, nil, cons, Fields, end, field}
use pewpew.Functions.Replace.{remove, change_keys, ◌>>?◌}

pub not_both : false ≢ true
not_both h = ground (arith, h)

unfoldable pub lists : String → List (String × String) → Bool
lists key [] = false
lists key ((k, new_key) ∷ changes) = (k == key) || lists key changes

unfoldable pub once : List (String × String) → Bool
unfolding lists
once [] = true
once ((k, new_key) ∷ changes) = not (lists k changes) && once changes

same_key : (k key : String) → (k == key) ≡ true → k ≡ key
same_key k key h = (eq_iff k key).0 h

pub and_true : (a b : Bool) → (a && b) ≡ true → (a ≡ true) × (b ≡ true)
and_true true b h = (refl, h)
and_true false b h = absurd (not_both h)

pub is_false : (a : Bool) → not a ≡ true → a ≡ false
is_false a h = ground (arith, h)

flip : (k key : String) → (k == key) ≡ false → (key == k) ≡ false
flip k key h = elim (Bool-cases (key == k)) [
  | inl e ↦ absurd (not_both (sym h ∙ (eq_iff k key).1 (sym (same_key key k e))))
  | inr e ↦ e
]

module _ {n : Numbers} where
  unfoldable pub has : String → Fields n → Bool
  has key end = false
  has key (field k v fs) = (k == key) || has key fs

  -- No object in the value has a key twice.
  unfoldable mutual
    unfolding has

    pub distinct : Value n → Bool
    distinct (array vs) = distinct_items vs
    distinct (object fs) = distinct_fields fs
    distinct v = true

    pub distinct_items : Items n → Bool
    distinct_items nil = true
    distinct_items (cons v vs) = distinct v && distinct_items vs

    pub distinct_fields : Fields n → Bool
    distinct_fields end = true
    distinct_fields (field k v fs) = not (has k fs) && (distinct v && distinct_fields fs)

  -- A map has the key that is inserted and keeps those that it has.
  pub record Inserts (insert : String → Value n → Fields n → Fields n) : Type 0 where
    pub keeps :
        (key k : String) (v : Value n) (fs : Fields n)
        → has k fs ≡ true
        → has k (insert key v fs) ≡ true

  -- The keys to change are in the object, each once.
  unfoldable pub fits : List (String × String) → Fields n → Bool
  unfolding has
  fits [] fs = true
  fits ((k, new_key) ∷ changes) fs = has k fs && fits changes fs

  module _ (insert : String → Value n → Fields n → Fields n) where
    -- What `remove` leaves of a map that has the key.
    abbrev Left : String → Fields n → Fields n → Type 0
    Left key fs rest = (k : String) → (k == key) ≡ false → has k fs ≡ true → has k rest ≡ true

    remove_here :
        (key k : String) (v : Value n) (fs : Fields n)
        → (k == key) ≡ true
        → remove insert key (field k v fs) ≡ some (v, fs)
    unfolding remove
    remove_here key k v fs e = rw (remove, e) refl

    remove_further :
        (key k : String) (v w : Value n) (fs rest : Fields n)
        → (k == key) ≡ false
        → remove insert key fs ≡ some (w, rest)
        → remove insert key (field k v fs) ≡ some (w, field k v rest)
    unfolding remove
    remove_further key k v w fs rest e r = rw (remove, e, r) refl

    remove-has :
        (key : String) (fs : Fields n)
        → has key fs ≡ true
        → (v : Value n) × (rest : Fields n) × (remove insert key fs ≡ some (v, rest))
          × Left key fs rest
    unfolding has
    remove-has key end h = absurd (not_both h)
    remove-has key (field k v fs) h = elim (Bool-cases (k == key)) [
      | inl e ↦ (
        v,
        fs,
        remove_here key k v fs e,
        λ k' d q.
            ground
              (arith, q, flip k' k (subst (λ x. (k' == x) ≡ false) (sym (same_key k key e)) d)),
      )
      | inr e ↦
          let (w, rest, r, left) = remove-has key fs (ground (arith, h, e)) in
          (
            w,
            field k v rest,
            remove_further key k v w fs rest e r,
            λ k' d q. ground (arith, q, left k' d),
          )
    ]

    fits-Left :
        (key : String) (changes : List (String × String)) (fs rest : Fields n)
        → Left key fs rest
        → lists key changes ≡ false
        → fits changes fs ≡ true
        → fits changes rest ≡ true
    unfolding fits lists
    fits-Left key [] fs rest left l h = refl
    fits-Left key ((k, new_key) ∷ changes) fs rest left l h =
        ground (arith, h, l, left k, fits-Left key changes fs rest left)

    fits-keeps :
        (changes : List (String × String)) (fs fs' : Fields n)
        → ((k : String) → has k fs ≡ true → has k fs' ≡ true)
        → fits changes fs ≡ true
        → fits changes fs' ≡ true
    unfolding fits
    fits-keeps [] fs fs' keep h = refl
    fits-keeps ((k, new_key) ∷ changes) fs fs' keep h =
        ground (arith, h, keep k, fits-keeps changes fs fs' keep)

    pub change_keys-fits :
        Inserts insert
        → (changes : List (String × String)) (fs : Fields n) → fits changes fs ≡ true
        → once changes ≡ true
        → (fs' : Fields n) × (change_keys insert changes fs ≡ some fs')
    unfolding change_keys fits once
    change_keys-fits law [] fs h o = (fs, refl)
    change_keys-fits law ((k, new_key) ∷ changes) fs h o =
        let (v, rest, r, left) = remove-has k fs (ground (arith, h)) in
        let kept = fits-Left k changes fs rest left (ground (arith, o)) (ground (arith, h)) in
        let (fs', e) =
          change_keys-fits law changes (insert new_key v rest)
            (fits-keeps changes rest (insert new_key v rest) (λ q. law.keeps new_key q v rest) kept)
            (ground (arith, o)) in
        (
          fs',
          ap (λ m. m >>? λ (v', rest'). change_keys insert changes (insert new_key v' rest')) r ∙ e,
        )
