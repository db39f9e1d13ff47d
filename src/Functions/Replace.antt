-- ===== src/Functions/Replace.antt =====
-- `Replace`: a text is replaced in the strings and the keys of a value. The fields of an object are
-- the entries of serde_json's map, whose `insert` is the parameter `insert`; `none` is the panic of
-- `expect` on a key that is not there.
pub mod Absent
pub mod Keys
pub mod Total
use Prim.Native.String as Str
use Prim.Native.String.{String, ◌++◌ as str_append, len, slice}
use text.Mathlib.Text.{◌==◌, find?}
use pewpew.Prelude.{
  ℕ, zero, suc, ◌+◌, Bool, true, false, Option, none, some, List, [], ◌∷◌, if◌then◌else◌,
}
use pewpew.Select.Json.{
  Numbers, Value, null, bool, number, string, array, object, Items, nil, cons, Fields, end, field,
}
use pewpew.Select.Expression.{Result, ok, err, ◌>>=◌}
use pewpew.Functions.{
  Library, ExecutingExpressionError, Arg, json, computed, Made, call, folded, Creates, invalid,
  evaluate_arg, json_value_to_string,
}

unfoldable pub contains : String → String → Bool
contains needle s = elim (find? s needle) [ none ↦ false | some i ↦ true ]

pub record Replace (n : Numbers) (X : Type 0) : Type 0 where
  pub needle : Arg n X
  pub haystack : Arg n X
  pub replacer : Arg n X

infixl 5 ◌>>?◌
abbrev pub ◌>>?◌ : {A B : Type 0} → Option A → (A → Option B) → Option B
none >>? f = none
some a >>? f = f a

-- `str::replace`. The empty needle is found before every character and at the end.
unfoldable pub replace_empty : String → String → String
replace_empty replacer Str.[] = replacer
replace_empty replacer (Str.◌∷◌ c s) = str_append replacer (Str.◌∷◌ c (replace_empty replacer s))

-- Each round takes a byte at least, so that the length is enough fuel.
unfoldable pub replace_matches : ℕ → String → String → String → String
replace_matches zero needle replacer s = s
replace_matches (suc fuel) needle replacer s = elim (find? s needle) [
  | none ↦ s
  | some i ↦ str_append (slice s 0 i) (
      str_append replacer (replace_matches fuel needle replacer (slice s (i + len needle) (len s))))
]

unfoldable pub str_replace : String → String → String → String
unfolding replace_empty replace_matches
str_replace needle replacer s =
    if needle == "" then replace_empty replacer s else replace_matches (len s + 1) needle replacer s

module _ {n : Numbers} (insert : String → Value n → Fields n → Fields n) where
  unfoldable pub remove : String → Fields n → Option (Value n × Fields n)
  remove key end = none
  remove key (field k v fs) = elim (k == key) [
    | true ↦ some (v, fs)
    | false ↦ elim (remove key fs) [ none ↦ none | some (w, rest) ↦ some (w, field k v rest) ]
  ]

  -- The keys that hold the needle, with what they become, in the order of the entries.
  unfoldable pub key_changes : String → String → Fields n → List (String × String)
  unfolding contains str_replace
  key_changes needle replacer end = []
  key_changes needle replacer (field k v fs) =
      let rest = key_changes needle replacer fs in
      if contains needle k then (k, str_replace needle replacer k) ∷ rest else rest

  unfoldable pub change_keys : List (String × String) → Fields n → Option (Fields n)
  unfolding remove
  change_keys [] fs = some fs
  change_keys ((old_key, new_key) ∷ changes) fs =
      remove old_key fs >>? λ (v, rest). change_keys changes (insert new_key v rest)

  unfoldable mutual
    unfolding contains key_changes change_keys str_replace

    pub replace : String → String → Value n → Option (Value n)
    replace needle replacer (string s) =
        some (string (if contains needle s then str_replace needle replacer s else s))
    replace needle replacer (array vs) =
        replace_items needle replacer vs >>? λ vs'. some (array vs')
    replace needle replacer (object fs) = replace_fields needle replacer fs >>? λ fs'.
        change_keys (key_changes needle replacer fs) fs' >>? λ fs''. some (object fs'')
    replace needle replacer v = some v

    pub replace_items : String → String → Items n → Option (Items n)
    replace_items needle replacer nil = some nil
    replace_items needle replacer (cons v vs) = replace needle replacer v >>? λ v'.
        replace_items needle replacer vs >>? λ vs'. some (cons v' vs')

    pub replace_fields : String → String → Fields n → Option (Fields n)
    replace_fields needle replacer end = some end
    replace_fields needle replacer (field k v fs) = replace needle replacer v >>? λ v'.
        replace_fields needle replacer fs >>? λ fs'. some (field k v' fs')

  unfoldable pub new_replace :
      {X : Type 0} → List (Arg n X) → Option (Creates n (Made n (Replace n X)))
  unfolding invalid replace
  new_replace (json (string needle) ∷ json haystack ∷ json (string replacer) ∷ []) =
      replace needle replacer haystack >>? λ v. some (ok (folded v))
  new_replace (needle ∷ haystack ∷ replacer ∷ []) =
      some (ok (call (record { needle = needle; haystack = haystack; replacer = replacer })))
  new_replace _ = some (invalid "match")

  module _ (l : Library n) where
    unfoldable pub evaluate_replace :
        {X : Type 0}
        → (X → Result (ExecutingExpressionError n) (Value n))
        → Replace n X
        → Option (Result (ExecutingExpressionError n) (Value n))
    unfolding evaluate_arg replace json_value_to_string
    evaluate_replace ev r = elim (evaluate_arg ev r.needle) [
      | err e ↦ some (err e)
      | ok needle ↦ elim (evaluate_arg ev r.replacer) [
        | err e ↦ some (err e)
        | ok replacer ↦ elim (evaluate_arg ev r.haystack) [
          | err e ↦ some (err e)
          | ok haystack ↦
              replace (json_value_to_string l needle) (json_value_to_string l replacer) haystack
              >>? λ v. some (ok v)
        ]
      ]
    ]
