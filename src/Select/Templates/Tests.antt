-- ===== src/Select/Templates/Tests.antt =====
-- A template with an expression among texts.
use pewpew.Prelude.{ℕ, zero, suc, ◌≡◌, refl, Bool, false, List, [], ◌∷◌, inl, inr}
use pewpew.Select.Json.{Value, string}
use pewpew.Select.Expression.{Result, ok, err}
use pewpew.Functions.Natural.{natural, library}
use pewpew.Select.Templates.{
  expression, not_expression, Pair, template_expression, template_not_expression, new_pieces, new,
  evaluate_template,
}
use pewpew.Select.Templates.Merging.{evaluate_pairs, evaluate_template-new}

abbrev leaf : Bool → ℕ → Result ℕ (Value natural)
leaf no_err zero = err 0
leaf no_err (suc k) = ok (string "x")

abbrev pairs : List (Pair ℕ)
pairs =
    template_not_expression "a"
    ∷ template_expression (inl "b")
    ∷ template_expression (inr 1)
    ∷ template_expression (inl "c")
    ∷ []

evaluate_template-new_example :
    evaluate_template library leaf (new pairs false) ≡ evaluate_pairs library leaf false pairs
evaluate_template-new_example = evaluate_template-new library leaf pairs false

merged : (new_pieces pairs [] 0).0 ≡ not_expression "ab" ∷ expression 1 ∷ not_expression "c" ∷ []
unfolding new_pieces
merged = refl
