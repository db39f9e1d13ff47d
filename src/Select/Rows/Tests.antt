-- ===== src/Select/Rows/Tests.antt =====
-- A select over the rows of one list, `true` and `false`.
use pewpew.Prelude.{
  ℕ, ◌≡◌, ◌≢◌, refl, subst, Bool, true, false, none, some, List, [], ◌∷◌, ◌++◌, map, get_elem?,
}
use pewpew.Select.Json.{Value, null, bool}
use pewpew.Select.Expression.{expr, Lhs, Rhs, Result, ok, err, bool_value, evaluate, evaluate_not}
use pewpew.Functions.Natural.{natural}
use pewpew.Select.Rows.{
  a_value, an_expression, a_bool, Select, block, ResultIter, collect, transposed, Row,
  evaluate_expression, evaluate_voe, voe_iter, evaluate_select, holds, join_iter, for_each_of,
  select_if, checked_row, rows, as_iter, single_iter, joined_iter, iter_next,
}
use pewpew.Select.Rows.Reference.{IsSound, reference_row, as_iter-reference_row}

-- `for_each[i]`, and an array.
data Leaf : Type 0 where
  item : ℕ → Leaf
  listed : List (Value natural) → Leaf

abbrev leaf : Row natural → Leaf → Result ℕ (Value natural)
leaf none (item i) = err 404
leaf (some vs) (item i) = elim (get_elem? vs i) [ none ↦ ok null | some v ↦ ok v ]
leaf row (listed vs) = ok null

abbrev leaf_iter : Leaf → Result ℕ (ResultIter ℕ (Value natural))
leaf_iter (item i) = err 404
leaf_iter (listed vs) = ok (map ok vs)

abbrev before_all : {A : Type 0} → List A → List (List A) → List (List A)
before_all [] rows = []
before_all (x ∷ xs) rows = map (λ row. x ∷ row) rows ++ before_all xs rows

abbrev product : {A : Type 0} → List (List A) → List (List A)
product [] = [] ∷ []
product (xs ∷ xss) = before_all xs (product xss)

abbrev both : Select natural Leaf
both = record {
  join = a_value (listed (bool true ∷ bool false ∷ [])) ∷ [];
  references_for_each = true;
  where_references_for_each = true;
  send_behavior = block;
  select = an_expression (a_value (item 0));
  where_clause = some (expr none (Lhs.value (item 0)) Rhs.no_op);
}

abbrev never_equal : Value natural → Value natural → Bool
never_equal a b = false

rows_of_both : as_iter never_equal leaf leaf_iter product both ≡ ok (ok (bool true) ∷ [])
unfolding as_iter joined_iter rows join_iter voe_iter checked_row for_each_of collect holds
    evaluate_expression evaluate bool_value select_if evaluate_select evaluate_voe transposed
    evaluate_not
rows_of_both = refl

-- A where clause is not given the row if the select does not reference it.
rows_without_their_values :
    as_iter never_equal leaf leaf_iter product
      (record both { references_for_each = false; select = a_bool true })
    ≡ ok (err 404 ∷ err 404 ∷ [])
unfolding as_iter joined_iter rows join_iter voe_iter checked_row for_each_of collect holds
    evaluate_expression evaluate bool_value select_if evaluate_select evaluate_voe transposed
    evaluate_not
rows_without_their_values = refl

-- An error of a where clause comes again at every call.
error_again :
    iter_next never_equal leaf leaf_iter product (record both { join = [] }) none
    ≡ (some (err 404), none)
unfolding iter_next as_iter single_iter holds evaluate_expression evaluate
error_again = refl

not_empty : {A : Type 0} (x : A) (xs : List A) → (x ∷ xs) ≢ []
not_empty x xs e = subst (λ ys. elim ys [ [] ↦ ⊥ | _ ∷ _ ↦ Unit ]) e tt

not_both : true ≢ false
not_both e = subst (λ b. elim b [ true ↦ Unit | false ↦ ⊥ ]) e tt

as_iter-reference_row_example :
    as_iter never_equal leaf leaf_iter product both
    ≡ ok (
        rows never_equal leaf leaf_iter product
          (reference_row never_equal leaf leaf_iter product both)
          both)
unfolding join_iter voe_iter IsSound collect
as_iter-reference_row_example =
    as_iter-reference_row never_equal leaf leaf_iter product both true (not_empty _ [])
      (λ e. absurd (not_both e)) (λ _. refl) (λ e. absurd (not_both e)) (λ e. absurd (not_both e))
      ((bool true ∷ [], refl), ((bool false ∷ [], refl), tt))
