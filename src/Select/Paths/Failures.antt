-- ===== src/Select/Paths/Failures.antt =====
-- Where the errors of a path come from that is evaluated with `no_recoverable_error`.
use Prim.Native.String.{String}
use text.Mathlib.Text.{◌==◌}
use pewpew.Prelude.{
  ℕ, suc, ◌≡◌, ◌≢◌, refl, subst, sym, ap, ◌∙◌, ◌⊎◌, inl, inr, Bool, Bool-cases, true, false, Option,
  none, some, List, [], ◌∷◌, get_elem?, if◌then◌else◌, arith,
}
use pewpew.Select.Json as Json
use pewpew.Select.Json.{Numbers, Value, null, array, object}
use pewpew.Select.Expression.{Result, ok, err, ◌>>=◌}
use pewpew.Functions.Sequences.{to_items}
use pewpew.Functions.{ExecutingExpressionError}
use pewpew.Select.Paths.{
  Cow, PathSegment, number, string, template, Index, key, place, get, get_item, length_of, or_null,
  miss, look_up, index_of, index_json, index_json2, values, or_null_cow, PathStart, function_call,
  ident, value, Path_, evaluate_for_each, evaluate_ident, evaluate_path,
}

module _ {E : Type 0} where
  pub ok_not_err : {A : Type 0} (a : A) (e : E) → ok a ≢ err e
  ok_not_err a e h = ground (arith, h)

  error_of : {A : Type 0} → E → Result E A → E
  error_of x (ok a) = x
  error_of x (err e) = e

  -- A chain of two steps fails with the first or with the second.
  pub bind_fails :
      {A B : Type 0} (r : Result E A) (f : A → Result E B) (e : E)
      → (r >>= f) ≡ err e
      → (r ≡ err e) ⊎ ((a : A) × (r ≡ ok a) × (f a ≡ err e))
  unfolding error_of
  bind_fails (ok a) f e h = inr (a, refl, h)
  bind_fails (err x) f e h = inl (ap err (ap (error_of x) h))

module _ {n : Numbers} (to_string : ℕ → String) where
  look_up_total :
      (owned : Bool) (v : Value n) (i : Index)
      → (c : Cow n) × (look_up to_string true (record { owned = owned; value = v }) i ≡ ok c)
  unfolding look_up miss
  look_up_total owned (object fs) (key s) = (or_null owned (get s fs), refl)
  look_up_total owned (array vs) (key s) = elim (Bool-cases (s == "length")) [
    | inl e ↦ (or_null true (some (Json.number (n.of_u64 (length_of vs)))), rw e refl)
    | inr e ↦ (or_null true none, rw e refl)
  ]
  look_up_total owned null (key s) = (or_null true none, refl)
  look_up_total owned (Json.bool b) (key s) = (or_null true none, refl)
  look_up_total owned (Json.number k) (key s) = (or_null true none, refl)
  look_up_total owned (Json.string t) (key s) = (or_null true none, refl)
  look_up_total true (object fs) (place i) = (or_null true none, refl)
  look_up_total false (object fs) (place i) = (or_null false (get (to_string i) fs), refl)
  look_up_total owned (array vs) (place i) = (or_null owned (get_item i vs), refl)
  look_up_total owned null (place i) = (or_null true none, refl)
  look_up_total owned (Json.bool b) (place i) = (or_null true none, refl)
  look_up_total owned (Json.number k) (place i) = (or_null true none, refl)
  look_up_total owned (Json.string t) (place i) = (or_null true none, refl)

  look_up_no_err :
      (c : Cow n) (i : Index) (e : ExecutingExpressionError n) → look_up to_string true c i ≢ err e
  look_up_no_err c i e h =
      let (c', q) = look_up_total c.owned c.value i in ok_not_err c' e (sym q ∙ h)

  module _ {T : Type 0}
      (template_value : T → Value n → Result (ExecutingExpressionError n) String) where
    -- A template among the segments fails with the error.
    unfoldable pub TemplateFails : List (PathSegment T) → ExecutingExpressionError n → Type 0
    TemplateFails segments e =
        (i : ℕ) × (t : T) × (v : Value n) × (get_elem? segments i ≡ some (template t))
        × (template_value t v ≡ err e)

    later :
        (segment : PathSegment T) (segments : List (PathSegment T)) (e : ExecutingExpressionError n)
        → TemplateFails segments e
        → TemplateFails (segment ∷ segments) e
    unfolding TemplateFails
    later segment segments e (i, t, v, p, q) = (suc i, t, v, p, q)

    index_of_fails :
        (segment : PathSegment T) (segments : List (PathSegment T)) (v : Value n)
        (e : ExecutingExpressionError n)
        → index_of to_string template_value segment v ≡ err e
        → TemplateFails (segment ∷ segments) e
    unfolding index_of TemplateFails
    index_of_fails (number i) segments v e h = absurd (ok_not_err (place i) e h)
    index_of_fails (string s) segments v e h = absurd (ok_not_err (key s) e h)
    index_of_fails (template t) segments v e h =
        elim (bind_fails (template_value t v) (λ s. ok (key s)) e h) [
          | inl q ↦ (0, t, v, refl, q)
          | inr (s, _, q) ↦ absurd (ok_not_err (key s) e q)
        ]

    index_json2_fails :
        (segments : List (PathSegment T)) (c : Cow n) (e : ExecutingExpressionError n)
        → index_json2 to_string template_value true c segments ≡ err e
        → TemplateFails segments e
    unfolding index_json2
    index_json2_fails [] c e h = absurd (ok_not_err c e h)
    index_json2_fails (segment ∷ segments) c e h =
        elim (bind_fails (index_of to_string template_value segment c.value)
          (λ i.
            (look_up to_string true c i >>= λ c'.
            index_json2 to_string template_value true c' segments))
          e h) [
            | inl q ↦ index_of_fails segment segments c.value e q
            | inr (i, _, q) ↦
                elim (bind_fails (look_up to_string true c i)
                  (λ c'. index_json2 to_string template_value true c' segments) e q) [
                    | inl q' ↦ absurd (look_up_no_err c i e q')
                    | inr (c', _, q') ↦
                        later segment segments e (index_json2_fails segments c' e q')
                  ]
          ]

    for_each_fails :
        {F : Type 0} (call_value : F → Cow n → Result (ExecutingExpressionError n) (Cow n))
        (vs : List (Cow n)) (segments : List (PathSegment T)) (e : ExecutingExpressionError n)
        → evaluate_for_each to_string template_value call_value true vs segments ≡ err e
        → TemplateFails segments e
    unfolding evaluate_for_each
    for_each_fails call_value vs [] e h = absurd (
        ok_not_err
          (record {
            owned = true;
            value = array (to_items (values to_string template_value call_value vs));
          })
          e h)
    for_each_fails call_value vs (number i ∷ rest) e h = later (number i) rest e (
        index_json2_fails rest (or_null_cow to_string template_value call_value (get_elem? vs i)) e
          h)
    for_each_fails call_value vs (string s ∷ rest) e h =
        later (string s) rest e (index_json2_fails rest (record { owned = true; value = null }) e h)
    for_each_fails call_value vs (template t ∷ rest) e h =
        later (template t) rest e
          (index_json2_fails rest (record { owned = true; value = null }) e h)

    ident_fails :
        {F : Type 0} (call_value : F → Cow n → Result (ExecutingExpressionError n) (Cow n))
        (d : Cow n) (s : String) (rest : List (PathSegment T)) (e : ExecutingExpressionError n)
        → (index_json to_string template_value true d (inr s) >>= λ v.
            index_json2 to_string template_value true v rest)
          ≡ err e
        → TemplateFails rest e
    unfolding index_json
    ident_fails call_value d s rest e h =
        elim (bind_fails (look_up to_string true d (key s))
          (λ v. index_json2 to_string template_value true v rest) e h) [
            | inl q ↦ absurd (look_up_no_err d (key s) e q)
            | inr (v, _, q) ↦ index_json2_fails rest v e q
          ]

    abbrev Chosen :
        {F : Type 0}
        → (F → Cow n → Result (ExecutingExpressionError n) (Cow n))
        → List (Cow n)
        → Cow n
        → String
        → List (PathSegment T)
        → ExecutingExpressionError n
        → Bool
        → Type 0
    Chosen call_value vs d s rest e b =
        (if b
          then evaluate_for_each to_string template_value call_value true vs rest
          else (index_json to_string template_value true d (inr s) >>= λ v.
              index_json2 to_string template_value true v rest))
        ≡ err e

    start_fails :
        {F : Type 0} (call_value : F → Cow n → Result (ExecutingExpressionError n) (Cow n))
        (for_each : Option (List (Cow n))) (d : Cow n) (start : PathStart n F)
        (rest : List (PathSegment T)) (e : ExecutingExpressionError n)
        → evaluate_path to_string template_value call_value true for_each d
            (record { start = start; rest = rest })
          ≡ err e
        → TemplateFails rest e ⊎ ((f : F) × (start ≡ function_call f) × (call_value f d ≡ err e))
    unfolding evaluate_path evaluate_ident
    start_fails call_value for_each d (value v) rest e h =
        inl (index_json2_fails rest (record { owned = false; value = v }) e h)
    start_fails call_value for_each d (function_call f) rest e h =
        elim (bind_fails (call_value f d) (λ v. index_json2 to_string template_value true v rest) e
          h) [ inl q ↦ inr (f, refl, q) | inr (v, _, q) ↦ inl (index_json2_fails rest v e q) ]
    start_fails call_value none d (ident s) rest e h = inl (ident_fails call_value d s rest e h)
    start_fails call_value (some vs) d (ident s) rest e h = elim (Bool-cases (s == "for_each")) [
      | inl q ↦
          inl (for_each_fails call_value vs rest e (subst (Chosen call_value vs d s rest e) q h))
      | inr q ↦
          inl (ident_fails call_value d s rest e (subst (Chosen call_value vs d s rest e) q h))
    ]

    -- With `no_recoverable_error`, the evaluation of a path fails only with the error of a template
    -- among its segments or of the function call that it starts with: what is not found is null.
    pub evaluate_path_fails :
        {F : Type 0} (call_value : F → Cow n → Result (ExecutingExpressionError n) (Cow n))
        (for_each : Option (List (Cow n))) (d : Cow n) (p : Path_ n F T)
        (e : ExecutingExpressionError n)
        → evaluate_path to_string template_value call_value true for_each d p ≡ err e
        → TemplateFails p.rest e
          ⊎ ((f : F) × (p.start ≡ function_call f) × (call_value f d ≡ err e))
    evaluate_path_fails call_value for_each d p e h =
        start_fails call_value for_each d p.start p.rest e h
