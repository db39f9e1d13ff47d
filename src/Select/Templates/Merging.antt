-- ===== src/Select/Templates/Merging.antt =====
-- Templates, against the parts that they are made of.
use Prim.Native.String.{String, ◌++◌ as str_append, len}
use text.Mathlib.TextLemmas.{nil-append, append-nil, append_assoc}
use pewpew.Prelude.{
  ℕ, ◌+◌, ◌≡◌, refl, sym, ap, ◌∙◌, Bool, Option, none, some, List, [], ◌∷◌, ◌++◌, inl, inr,
}
use pewpew.Select.Json.{Numbers, Value}
use pewpew.Select.Expression.{Result, ok, err, ◌>>=◌}
use pewpew.Functions.{Library}
use pewpew.Select.Templates.{
  TemplatePiece, expression, not_expression, Pair, template_expression, template_not_expression,
  push_str, add_text, new_pieces, new, evaluate_piece, evaluate_pieces, evaluate_template,
}

-- Two texts, one behind the other, or the first error.
unfoldable pub join : {E : Type 0} → Result E String → Result E String → Result E String
join (err e) b = err e
join (ok s) (err e) = err e
join (ok s) (ok t) = ok (str_append s t)

module _ {E : Type 0} where
  join-left : (b : Result E String) → join (ok "") b ≡ b
  unfolding join
  join-left (ok t) = ap ok (nil-append t)
  join-left (err e) = refl

  join-right : (b : Result E String) → join b (ok "") ≡ b
  unfolding join
  join-right (ok t) = ap ok (append-nil t)
  join-right (err e) = refl

  join_assoc : (a b c : Result E String) → join (join a b) c ≡ join a (join b c)
  unfolding join
  join_assoc (err e) b c = refl
  join_assoc (ok s) (err e) c = refl
  join_assoc (ok s) (ok t) (err e) = refl
  join_assoc (ok s) (ok t) (ok u) = ap ok (append_assoc s t u)

module _ {X : Type 0} {n : Numbers} {E : Type 0} (l : Library n)
    (ev : Bool → X → Result E (Value n)) where
  -- The value of a pair by itself, and of pairs in order.
  unfoldable pub evaluate_pair : Bool → Pair X → Result E String
  unfolding evaluate_piece
  evaluate_pair no_err (template_expression (inl s)) = ok s
  evaluate_pair no_err (template_expression (inr e)) = evaluate_piece l ev no_err (expression e)
  evaluate_pair no_err (template_not_expression s) = ok s

  unfoldable pub evaluate_pairs : Bool → List (Pair X) → Result E String
  unfolding join evaluate_pair
  evaluate_pairs no_err [] = ok ""
  evaluate_pairs no_err (p ∷ pairs) = join (evaluate_pair no_err p) (evaluate_pairs no_err pairs)

  module _ (no_err : Bool) where
    pieces-cons :
        (p : TemplatePiece X) (pieces : List (TemplatePiece X))
        → evaluate_pieces l ev no_err (p ∷ pieces)
          ≡ join (evaluate_piece l ev no_err p) (evaluate_pieces l ev no_err pieces)
    unfolding evaluate_pieces join
    pieces-cons p pieces = go (evaluate_piece l ev no_err p) (evaluate_pieces l ev no_err pieces)
      where
        go : (a b : Result E String) → (a >>= λ s. b >>= λ rest. ok (str_append s rest)) ≡ join a b
        go (err e) b = refl
        go (ok s) (err e) = refl
        go (ok s) (ok t) = refl

    pieces-append :
        (ps qs : List (TemplatePiece X))
        → evaluate_pieces l ev no_err (ps ++ qs)
          ≡ join (evaluate_pieces l ev no_err ps) (evaluate_pieces l ev no_err qs)
    unfolding evaluate_pieces
    pieces-append [] qs = sym (join-left (evaluate_pieces l ev no_err qs))
    pieces-append (p ∷ ps) qs =
        pieces-cons p (ps ++ qs)
        ∙ ap (join (evaluate_piece l ev no_err p)) (pieces-append ps qs)
        ∙ sym (
            join_assoc (evaluate_piece l ev no_err p) (evaluate_pieces l ev no_err ps)
              (evaluate_pieces l ev no_err qs))
        ∙ ap (λ r. join r (evaluate_pieces l ev no_err qs)) (sym (pieces-cons p ps))

    one_piece :
        (p : TemplatePiece X) → evaluate_pieces l ev no_err (p ∷ []) ≡ evaluate_piece l ev no_err p
    one_piece p =
        pieces-cons p [] ∙ (unfold evaluate_pieces in join-right (evaluate_piece l ev no_err p))

    added :
        (p : TemplatePiece X) (ps : List (TemplatePiece X)) (rest : Result E String)
        → join (evaluate_pieces l ev no_err (ps ++ p ∷ [])) rest
          ≡ join (evaluate_pieces l ev no_err ps) (join (evaluate_piece l ev no_err p) rest)
    added p ps rest =
        ap (λ r. join r rest)
          (pieces-append ps (p ∷ []) ∙ ap (join (evaluate_pieces l ev no_err ps)) (one_piece p))
        ∙ join_assoc (evaluate_pieces l ev no_err ps) (evaluate_piece l ev no_err p) rest

    -- What is pushed, if it is, goes behind the pieces.
    Pushed : String → List (TemplatePiece X) → Option (List (TemplatePiece X)) → Type 0
    Pushed s2 ps none = Unit
    Pushed s2 ps (some qs) =
        evaluate_pieces l ev no_err qs ≡ join (evaluate_pieces l ev no_err ps) (ok s2)

    push_str-Pushed : (s2 : String) (ps : List (TemplatePiece X)) → Pushed s2 ps (push_str s2 ps)
    unfolding push_str Pushed evaluate_piece join
    push_str-Pushed s2 [] = tt
    push_str-Pushed s2 (expression x ∷ []) = tt
    push_str-Pushed s2 (not_expression s ∷ []) =
        one_piece (not_expression (str_append s s2))
        ∙ sym (ap (λ r. join r (ok s2)) (one_piece (not_expression s)))
    push_str-Pushed s2 (p ∷ q ∷ ps) = go (push_str s2 (q ∷ ps)) (push_str-Pushed s2 (q ∷ ps))
      where
        go :
            (o : Option (List (TemplatePiece X)))
            → Pushed s2 (q ∷ ps) o
            → Pushed s2 (p ∷ q ∷ ps) (elim o [ none ↦ none | some qs ↦ some (p ∷ qs) ])
        go none h = tt
        go (some qs) h =
            pieces-cons p qs
            ∙ ap (join (evaluate_piece l ev no_err p)) h
            ∙ sym (
                join_assoc (evaluate_piece l ev no_err p) (evaluate_pieces l ev no_err (q ∷ ps))
                  (ok s2))
            ∙ ap (λ r. join r (ok s2)) (sym (pieces-cons p (q ∷ ps)))

    add_text-pieces :
        (s2 : String) (ps : List (TemplatePiece X))
        → evaluate_pieces l ev no_err (add_text s2 ps)
          ≡ join (evaluate_pieces l ev no_err ps) (ok s2)
    unfolding add_text Pushed evaluate_piece
    add_text-pieces s2 ps = go (push_str s2 ps) (push_str-Pushed s2 ps)
      where
        go :
            (o : Option (List (TemplatePiece X)))
            → Pushed s2 ps o
            → evaluate_pieces l ev no_err
                (elim o [ none ↦ ps ++ not_expression s2 ∷ [] | some qs ↦ qs ])
              ≡ join (evaluate_pieces l ev no_err ps) (ok s2)
        go none h =
            pieces-append ps (not_expression s2 ∷ [])
            ∙ ap (join (evaluate_pieces l ev no_err ps)) (one_piece (not_expression s2))
        go (some qs) h = h

    new_pieces-pairs :
        (pairs : List (Pair X)) (ps : List (TemplatePiece X)) (size_hint : ℕ)
        → evaluate_pieces l ev no_err (new_pieces pairs ps size_hint).0
          ≡ join (evaluate_pieces l ev no_err ps) (evaluate_pairs no_err pairs)
    unfolding new_pieces evaluate_pairs evaluate_pair evaluate_piece
    new_pieces-pairs [] ps size_hint = sym (join-right (evaluate_pieces l ev no_err ps))
    new_pieces-pairs (template_expression (inl s) ∷ pairs) ps size_hint =
        new_pieces-pairs pairs (add_text s ps) size_hint
        ∙ ap (λ r. join r (evaluate_pairs no_err pairs)) (add_text-pieces s ps)
        ∙ join_assoc (evaluate_pieces l ev no_err ps) (ok s) (evaluate_pairs no_err pairs)
    new_pieces-pairs (template_expression (inr e) ∷ pairs) ps size_hint =
        new_pieces-pairs pairs (ps ++ expression e ∷ []) size_hint
        ∙ added (expression e) ps (evaluate_pairs no_err pairs)
    new_pieces-pairs (template_not_expression s ∷ pairs) ps size_hint =
        new_pieces-pairs pairs (ps ++ not_expression s ∷ []) (size_hint + len s)
        ∙ added (not_expression s) ps (evaluate_pairs no_err pairs)

  -- A template evaluates to the values of its texts and expressions, one behind the other, or to the
  -- first of their errors, though an expression that is a text is merged with the text before it.
  pub evaluate_template-new :
      (pairs : List (Pair X)) (no_recoverable_error : Bool)
      → evaluate_template l ev (new pairs no_recoverable_error)
        ≡ evaluate_pairs no_recoverable_error pairs
  unfolding new evaluate_template
  evaluate_template-new pairs no_err =
      new_pieces-pairs no_err pairs [] 0
      ∙ (unfold evaluate_pieces in join-left (evaluate_pairs no_err pairs))
