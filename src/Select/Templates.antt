-- ===== src/Select/Templates.antt =====
-- Templates of lib/config/src/select_parser.rs: texts with expressions in them. What the grammar
-- gives for a text, with its expressions simplified, is the argument of `new_pieces`; an expression
-- that is not a text is a parameter `X` with its evaluation.
pub mod Merging
mod Tests
use Prim.Native.String.{String, ◌++◌ as str_append, len}
use pewpew.Prelude.{
  ℕ, ◌+◌, Bool, true, false, Option, none, some, List, [], ◌∷◌, ◌++◌, ◌⊎◌, inl, inr,
}
use pewpew.Select.Json.{Numbers, Value}
use pewpew.Select.Expression.{Result, ok, err, ◌>>=◌}
use pewpew.Functions.{Library, json_value_to_string}

pub data TemplatePiece (X : Type 0) : Type 0 where
  expression : X → TemplatePiece X
  not_expression : String → TemplatePiece X

pub record Template (X : Type 0) : Type 0 where
  pub pieces : List (TemplatePiece X)
  pub size_hint : ℕ
  pub no_recoverable_error : Bool

-- A pair of the grammar: an expression as `simplify_to_string` leaves it, or a text.
pub data Pair (X : Type 0) : Type 0 where
  template_expression : String ⊎ X → Pair X
  template_not_expression : String → Pair X

module _ {X : Type 0} where
  -- A text is added to the last piece, if that is a text.
  unfoldable pub push_str : String → List (TemplatePiece X) → Option (List (TemplatePiece X))
  push_str s2 [] = none
  push_str s2 (p ∷ q ∷ pieces) = elim (push_str s2 (q ∷ pieces)) [
    | none ↦ none
    | some pieces' ↦ some (p ∷ pieces')
  ]
  push_str s2 (not_expression s ∷ []) = some (not_expression (str_append s s2) ∷ [])
  push_str s2 (expression x ∷ []) = none

  unfoldable pub add_text : String → List (TemplatePiece X) → List (TemplatePiece X)
  unfolding push_str
  add_text s2 pieces = elim (push_str s2 pieces) [
    | none ↦ pieces ++ not_expression s2 ∷ []
    | some pieces' ↦ pieces'
  ]

  -- The loop of `Template::new`.
  unfoldable pub new_pieces :
      List (Pair X) → List (TemplatePiece X) → ℕ → List (TemplatePiece X) × ℕ
  unfolding add_text
  new_pieces [] pieces size_hint = (pieces, size_hint)
  new_pieces (template_expression (inl s2) ∷ pairs) pieces size_hint =
      new_pieces pairs (add_text s2 pieces) size_hint
  new_pieces (template_expression (inr e) ∷ pairs) pieces size_hint =
      new_pieces pairs (pieces ++ expression e ∷ []) size_hint
  new_pieces (template_not_expression s ∷ pairs) pieces size_hint =
      new_pieces pairs (pieces ++ not_expression s ∷ []) (size_hint + len s)

  unfoldable pub new : List (Pair X) → Bool → Template X
  unfolding new_pieces
  new pairs no_recoverable_error = record {
    pieces = (new_pieces pairs [] 0).0;
    size_hint = (new_pieces pairs [] 0).1;
    no_recoverable_error = no_recoverable_error;
  }

  unfoldable pub only_text : List (TemplatePiece X) → Option String
  only_text (not_expression s ∷ []) = some s
  only_text _ = none

  unfoldable pub is_simple : Template X → Bool
  unfolding only_text
  is_simple t = elim (only_text t.pieces) [ none ↦ false | some s ↦ true ]

  unfoldable pub simplify_to_string : Template X → String ⊎ Template X
  unfolding only_text
  simplify_to_string t = elim (only_text t.pieces) [ none ↦ inr t | some s ↦ inl s ]

  unfoldable pub star : TemplatePiece X → String
  star (expression x) = "*"
  star (not_expression s) = s

  unfoldable pub evaluate_with_star : List (TemplatePiece X) → String
  unfolding star
  evaluate_with_star [] = ""
  evaluate_with_star (p ∷ pieces) = str_append (star p) (evaluate_with_star pieces)

  module _ {n : Numbers} {E : Type 0} (l : Library n) (ev : Bool → X → Result E (Value n)) where
    unfoldable pub evaluate_piece : Bool → TemplatePiece X → Result E String
    unfolding json_value_to_string
    evaluate_piece no_err (expression voe) = ev no_err voe >>= λ v. ok (json_value_to_string l v)
    evaluate_piece no_err (not_expression s) = ok s

    unfoldable pub evaluate_pieces : Bool → List (TemplatePiece X) → Result E String
    unfolding evaluate_piece
    evaluate_pieces no_err [] = ok ""
    evaluate_pieces no_err (p ∷ pieces) = do
      s ← evaluate_piece no_err p
      rest ← evaluate_pieces no_err pieces
      ok (str_append s rest)

    -- `Template::evaluate`.
    unfoldable pub evaluate_template : Template X → Result E String
    unfolding evaluate_pieces
    evaluate_template t = evaluate_pieces t.no_recoverable_error t.pieces
