-- ===== src/Functions/Best.antt =====
-- The two ways in which `MinMax` finds its result.
use pewpew.Prelude.{
  ℕ, suc, ◌+◌, ◌≤◌, ◌≡◌, ◌≢◌, refl, sym, ap, ◌∙◌, ◌⊎◌, inl, inr, Bool, Bool-cases, true, false,
  Option, none, some, List, [], ◌∷◌, length, ◌==◌, if◌then◌else◌, arith,
}
use pewpew.Select.Json.{Numbers, Value, null, bool, number, string, array, object}
use pewpew.Select.Expression.{Result, ok, f64_value}
use pewpew.Functions.{
  Library, ExecutingExpressionError, Arg, json, computed, call, folded, map_ok, evaluate_arg,
}
use pewpew.Functions.MinMax.{
  partial_cmp, keeps_left, better, eval_iter, literals, new_min_max, best, best_of, value_of,
  evaluate_min_max,
}
use pewpew.Functions.Folding.{result_of}

-- `f64` and serde_json: a number of serde_json is finite, NaN is not, and it compares with nothing.
pub record Floats {n : Numbers} (l : Library n) : Type 0 where
  pub is_finite-as_f64 : (k : n.Number) → l.is_finite (n.as_f64 k) ≡ true
  pub is_finite-nan : l.is_finite n.nan ≡ false
  pub lt_nan : (x : n.Float) → n.lt x n.nan ≡ false
  pub nan_lt : (x : n.Float) → n.lt n.nan x ≡ false
  pub eq_nan : (x : n.Float) → n.float_eq x n.nan ≡ false
  pub nan_eq : (x : n.Float) → n.float_eq n.nan x ≡ false

one_more : (a b : ℕ) → a ≤ b → a ≢ suc b
one_more a b h e = omega (arith, h, e)

same_count : (a b : ℕ) → (a == b) ≡ true → a ≡ b
same_count a b h = ground arith

other_count : (a b : ℕ) → (a == b) ≡ false → (0 + a == b) ≡ false
other_count a b h = ground arith

not_both : false ≢ true
not_both h = ground (arith, h)

module _ {n : Numbers} (l : Library n) (fl : Floats l) where
  -- The value that `eval_iter` holds, against the one that `evaluate` holds.
  Holds : Value n → Option (n.Float × Value n) → Type 0
  Holds v none = v ≡ null
  Holds v (some (f, w)) = (v ≡ w) × (f ≡ f64_value n w) × (l.is_finite f ≡ true)

  cmp_nan : (x : n.Float) → partial_cmp l x n.nan ≡ none
  unfolding partial_cmp
  cmp_nan x = rw (fl.lt_nan x, fl.nan_lt x, fl.eq_nan x) refl

  -- A value that is no number, or one whose float is finite.
  value-cases : (v : Value n) → (f64_value n v ≡ n.nan) ⊎ (l.is_finite (f64_value n v) ≡ true)
  unfolding f64_value
  value-cases (number k) = inr (fl.is_finite-as_f64 k)
  value-cases null = inl refl
  value-cases (bool b) = inl refl
  value-cases (string s) = inl refl
  value-cases (array vs) = inl refl
  value-cases (object fs) = inl refl

  kept_nan :
      (w : Value n) (min : Bool) (u : Value n)
      → f64_value n w ≡ n.nan
      → keeps_left (partial_cmp l (f64_value n u) (f64_value n w)) min true ≡ true
  unfolding keeps_left
  kept_nan w min u e = rw (e, cmp_nan (f64_value n u)) refl

  nan_cmp : (x : n.Float) → partial_cmp l n.nan x ≡ none
  unfolding partial_cmp
  nan_cmp x = rw (fl.nan_lt x, fl.lt_nan x, fl.nan_eq x) refl

  -- With no number so far, a number is taken.
  better_null :
      (min : Bool) (w : Value n)
      → better l min null w ≡ (if l.is_finite (f64_value n w) then w else null)
  unfolding better f64_value keeps_left
  better_null min w = rw (nan_cmp (f64_value n w), fl.is_finite-nan) refl

  better-none : (min : Bool) (w : Value n) → Holds (better l min null w) (best l min none w)
  unfolding best Holds
  better-none min w = elim (value-cases w) [
    | inl h ↦ rw (better_null min w, h, fl.is_finite-nan) refl
    | inr h ↦ rw (better_null min w, h) (refl, refl, h)
  ]

  better-some :
      (min : Bool) (u w : Value n)
      → l.is_finite (f64_value n u) ≡ true
      → Holds (better l min u w) (best l min (some (f64_value n u, u)) w)
  unfolding best better Holds
  better-some min u w h =
      elim (Bool-cases (keeps_left (partial_cmp l (f64_value n u) (f64_value n w)) min true)) [
        | inl k ↦ rw (h, k) (refl, refl, h)
        | inr k ↦ elim (value-cases w) [
          | inl e ↦ absurd (not_both (sym k ∙ kept_nan w min u e))
          | inr e ↦ rw (h, k, e) (refl, refl, e)
        ]
      ]

  better-best :
      (min : Bool) (v w : Value n) (h : Option (n.Float × Value n))
      → Holds v h
      → Holds (better l min v w) (best l min h w)
  unfolding Holds
  better-best min v w none e = rw e (better-none min w)
  better-best min v w (some (f, u)) (ev, ef, h) = rw (ev, ef) (better-some min u w (rw (← ef) h))

  count_literals : {X : Type 0} → List (Arg n X) → ℕ
  count_literals [] = 0
  count_literals (json v ∷ args) = 1 + count_literals args
  count_literals (computed c ∷ args) = count_literals args

  count_literals-le : {X : Type 0} (args : List (Arg n X)) → count_literals args ≤ length args
  unfolding count_literals
  count_literals-le [] = omega arith
  count_literals-le (json v ∷ args) = omega (arith, count_literals-le args)
  count_literals-le (computed c ∷ args) = omega (arith, count_literals-le args)

  module _ {X : Type 0} (ev : X → Result (ExecutingExpressionError n) (Value n)) (min : Bool) where
    -- With literals only, both loops end with the same value.
    loops_agree :
        (args : List (Arg n X)) (v : Value n) (count : ℕ) (h : Option (n.Float × Value n))
        → count_literals args ≡ length args
        → Holds v h
        → (v' : Value n) × (h' : Option (n.Float × Value n)) × (eval_iter l min
              (v, count)
              (literals l args)
            ≡ ok (v', count + length args))
          × (best_of l ev min h args ≡ ok h')
          × Holds v' h'
    unfolding eval_iter literals best_of evaluate_arg count_literals
    loops_agree [] v count h e k = (v, h, ap (λ c. ok (v, c)) (omega arith), refl, k)
    loops_agree (json w ∷ args) v count h e k =
        let (v', h', e₁, e₂, k') =
          loops_agree args (better l min v w) (count + 1) (best l min h w) (omega (arith, e))
            (better-best min v w h k) in
        (v', h', e₁ ∙ ap (λ c. ok (v', c)) (omega arith), e₂, k')
    loops_agree (computed c ∷ args) v count h e k =
        absurd (one_more (count_literals args) (length args) (count_literals-le args) e)

    iter_counts :
        (args : List (Arg n X)) (v : Value n) (count : ℕ)
        → (v' : Value n) × (eval_iter l min (v, count) (literals l args)
            ≡ ok (v', count + count_literals args))
    unfolding eval_iter literals count_literals
    iter_counts [] v count = (v, ap (λ c. ok (v, c)) (omega arith))
    iter_counts (json w ∷ args) v count =
        let (v', e) = iter_counts args (better l min v w) (count + 1) in
        (v', e ∙ ap (λ c. ok (v', c)) (omega arith))
    iter_counts (computed c ∷ args) v count = iter_counts args v count

    Holds-value : (v : Value n) (h : Option (n.Float × Value n)) → Holds v h → v ≡ value_of l h
    unfolding Holds value_of
    Holds-value v none k = k
    Holds-value v (some (f, w)) k = k.0

    new_min_max_of :
        (args : List (Arg n X)) (v : Value n) (count : ℕ) (b : Bool)
        → eval_iter l min (null, 0) (literals l args) ≡ ok (v, count)
        → (count == length args) ≡ b
        → new_min_max l min args
          ≡ ok (if b then folded v else call (record { args = args; min = min }))
    unfolding new_min_max
    new_min_max_of args v count b h e = rw (h, new_min_max, e) refl

    evaluate_min_max_of :
        (args : List (Arg n X)) (h : Option (n.Float × Value n))
        → best_of l ev min none args ≡ ok h
        → evaluate_min_max l ev (record { args = args; min = min }) ≡ ok (value_of l h)
    unfolding evaluate_min_max value_of
    evaluate_min_max_of args h e = rw (e, evaluate_min_max) refl

    -- `min` and `max` are always created, and come to what they would evaluate to with nothing
    -- folded: if all arguments are literals, to the value that the loop of `new` finds, which is the
    -- one that the loop of `evaluate` finds.
    pub new_min_max_sound :
        (args : List (Arg n X))
        → map_ok (result_of ev (evaluate_min_max l ev)) (new_min_max l min args)
          ≡ ok (evaluate_min_max l ev (record { args = args; min = min }))
    unfolding result_of Holds
    new_min_max_sound args = elim (Bool-cases (count_literals args == length args)) [
      | inl e ↦
          let (v, h, e₁, e₂, k) =
            loops_agree args null 0 none (same_count (count_literals args) (length args) e) refl in
          ap (map_ok (result_of ev (evaluate_min_max l ev)))
            (new_min_max_of args v (0 + length args) true e₁ (ground arith))
          ∙ ap ok (ap ok (Holds-value v h k) ∙ sym (evaluate_min_max_of args h e₂))
      | inr e ↦
          let (v, e₁) = iter_counts args null 0 in
          ap (map_ok (result_of ev (evaluate_min_max l ev))) (
            new_min_max_of args v (0 + count_literals args) false e₁
              (other_count (count_literals args) (length args) e))
    ]
