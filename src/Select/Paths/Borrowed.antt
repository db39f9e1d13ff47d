-- ===== src/Select/Paths/Borrowed.antt =====
-- Look-ups by keys in data that are owned or borrowed.
use Prim.Native.String.{String}
use text.Mathlib.Text.{◌==◌}
use pewpew.Prelude.{
  ℕ, ◌≡◌, refl, subst, Bool, Bool-cases, true, false, List, [], ◌∷◌, inl, inr, some, none, Option,
  arith,
}
use pewpew.Select.Json as Json
use pewpew.Select.Json.{Numbers, Value, null, array, object, Fields}
use pewpew.Select.Expression.{Result, ok, err, ◌>>=◌}
use pewpew.Functions.{ExecutingExpressionError}
use pewpew.Select.Paths.{
  Cow, PathSegment, number, string, template, Index, key, get, or_null, miss, look_up, index_of,
  index_json2,
}

-- No segment is a number.
unfoldable pub has_keys : {T : Type 0} → List (PathSegment T) → Bool
has_keys [] = true
has_keys (number i ∷ segments) = false
has_keys (string s ∷ segments) = has_keys segments
has_keys (template t ∷ segments) = has_keys segments

module _ {n : Numbers} where
  -- The same value, or the same error.
  unfoldable pub SameValue :
      Result (ExecutingExpressionError n) (Cow n)
      → Result (ExecutingExpressionError n) (Cow n)
      → Type 0
  SameValue (ok c) (ok c') = c.value ≡ c'.value
  SameValue (err e) (err e') = e ≡ e'
  SameValue (ok c) (err e) = ⊥
  SameValue (err e) (ok c) = ⊥

  module _ (to_string : ℕ → String) (no_err : Bool) where
    or_null-value : (a b : Bool) (o : Option (Value n)) → (or_null a o).value ≡ (or_null b o).value
    unfolding or_null
    or_null-value a b none = refl
    or_null-value a b (some v) = refl

    same_miss :
        (v : Value n) (i : Index)
        → SameValue (miss to_string no_err v i) (miss to_string no_err v i)
    unfolding SameValue
    same_miss v i = same (miss to_string no_err v i)
      where
        same : (r : Result (ExecutingExpressionError n) (Cow n)) → SameValue r r
        same (ok c) = refl
        same (err e) = refl

    look_up_same :
        (a b : Bool) (v : Value n) (s : String)
        → SameValue
            (look_up to_string no_err (record { owned = a; value = v }) (key s))
            (look_up to_string no_err (record { owned = b; value = v }) (key s))
    unfolding look_up SameValue
    look_up_same a b null s = same_miss null (key s)
    look_up_same a b (Json.bool x) s = same_miss (Json.bool x) (key s)
    look_up_same a b (Json.number k) s = same_miss (Json.number k) (key s)
    look_up_same a b (Json.string t) s = same_miss (Json.string t) (key s)
    look_up_same a b (object fs) s = or_null-value a b (get s fs)
    look_up_same a b (array vs) s = elim (Bool-cases (s == "length")) [
      | inl e ↦ rw e refl
      | inr e ↦ rw e (same_miss (array vs) (key s))
    ]

    module _ {T : Type 0}
        (template_value : T → Value n → Result (ExecutingExpressionError n) String) where
      abbrev Follow : List (PathSegment T) → Type 0
      Follow segments =
          (c c' : Cow n)
          → c.value ≡ c'.value
          → SameValue (index_json2 to_string template_value no_err c segments)
              (index_json2 to_string template_value no_err c' segments)

      key_same :
          (segments : List (PathSegment T))
          → Follow segments
          → (a b : Bool) (v : Value n) (s : String)
          → SameValue
              (look_up to_string no_err (record { owned = a; value = v }) (key s) >>= λ c.
                index_json2 to_string template_value no_err c segments)
              (look_up to_string no_err (record { owned = b; value = v }) (key s) >>= λ c.
                index_json2 to_string template_value no_err c segments)
      unfolding SameValue
      key_same segments follow a b v s =
          go (look_up to_string no_err (record { owned = a; value = v }) (key s))
            (look_up to_string no_err (record { owned = b; value = v }) (key s))
            (look_up_same a b v s)
        where
          go :
              (r r' : Result (ExecutingExpressionError n) (Cow n))
              → SameValue r r'
              → SameValue
                  (r >>= λ c. index_json2 to_string template_value no_err c segments)
                  (r' >>= λ c. index_json2 to_string template_value no_err c segments)
          go (ok c) (ok c') h = follow c c' h
          go (ok c) (err e) h = absurd h
          go (err e) (ok c) h = absurd h
          go (err e) (err e') h = h

      by_keys : (segments : List (PathSegment T)) → has_keys segments ≡ true → Follow segments
      unfolding has_keys index_json2 index_of SameValue
      by_keys [] h c c' e = e
      by_keys (number i ∷ segments) h c c' e = ground (arith, h)
      by_keys (string s ∷ segments) h c c' e =
          subst
            (λ v. SameValue (index_json2 to_string template_value no_err c (string s ∷ segments)) (
              index_json2 to_string template_value no_err (record { owned = c'.owned; value = v })
                (string s ∷ segments)))
            e (key_same segments (by_keys segments h) c.owned c'.owned c.value s)
      by_keys (template t ∷ segments) h c c' e =
          subst
            (λ v.
              SameValue (index_json2 to_string template_value no_err c (template t ∷ segments)) (
                index_json2 to_string template_value no_err (record { owned = c'.owned; value = v })
                  (template t ∷ segments)))
            e (go (by_keys segments h) (template_value t c.value))
        where
          go :
              Follow segments
              → (r : Result (ExecutingExpressionError n) String)
              → SameValue
                  ((r >>= λ s. ok (key s)) >>= λ i. look_up to_string no_err c i >>= λ d.
                    index_json2 to_string template_value no_err d segments)
                  ((r >>= λ s. ok (key s)) >>= λ i.
                    look_up to_string no_err (record { owned = c'.owned; value = c.value }) i
                    >>= λ d. index_json2 to_string template_value no_err d segments)
          go follow (err x) = refl
          go follow (ok s) = key_same segments follow c.owned c'.owned c.value s

      -- A path without numbers comes to the same value, or the same error, whether the data that it
      -- looks into are owned or borrowed.
      pub index_json2_same :
          (segments : List (PathSegment T)) (v : Value n)
          → has_keys segments ≡ true
          → SameValue
              (index_json2 to_string template_value no_err
                (record { owned = true; value = v })
                segments)
              (index_json2 to_string template_value no_err
                (record { owned = false; value = v })
                segments)
      index_json2_same segments v h =
          by_keys segments h (record { owned = true; value = v })
            (record { owned = false; value = v }) refl
