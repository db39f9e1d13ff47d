-- ===== src/Select/Precedence/Evaluation.antt =====
-- What an expression of lib/config/src/select_parser.rs that was parsed from a row evaluates to.
use pewpew.Prelude.{ℕ, ◌+◌, ◌<◌, ◌≡◌, refl, sym, ap, ◌∙◌, Bool, none, some, [], ◌∷◌, length, arith}
use pewpew.Select.Json.{Numbers, Value}
use pewpew.Select.Expression.{
  InfixOperator, Expression, expr, no_op, op, Result, ok, err, ◌>>=◌, evaluate_op, evaluate_not,
  evaluate, evaluate_lhs, evaluate_rhs,
}
use pewpew.Select.Precedence.{done, attach, expression_helper}
use pewpew.Select.Precedence.Reference.{Tail, row, reference}
use pewpew.Select.Precedence.Levels.{AtLeast, Operands}
use pewpew.Select.Precedence.Correct.{IsClean, helper-Works}

bind_ok : {E A : Type 0} (m : Result E A) → (m >>= ok) ≡ m
bind_ok (ok a) = refl
bind_ok (err e) = refl

AtLeast-zero : {L : Type 0} (rest : Tail L) → AtLeast 0 rest
AtLeast-zero [] = tt
AtLeast-zero ((o, e) ∷ rest) = (omega arith, AtLeast-zero rest)

module _ {E L : Type 0} (n : Numbers) (json_eq : Value n → Value n → Bool)
    (leaf : L → Result E (Value n)) where
  abbrev pub value_of : Expression L → Result E (Value n)
  value_of e = evaluate n json_eq leaf e

  -- An operator on two results: an error of the left side comes first.
  abbrev pub apply : InfixOperator → Result E (Value n) → Result E (Value n) → Result E (Value n)
  apply o left right = left >>= λ v. evaluate_op n json_eq o v right

  evaluate-attach :
      (e : Expression L) (o : InfixOperator) (f : Expression L)
      → IsClean e
      → value_of (attach e o f) ≡ apply o (value_of e) (value_of f)
  unfolding evaluate evaluate_lhs evaluate_rhs evaluate_not attach
  evaluate-attach (expr none lhs no_op) o f c =
      bind_ok (apply o (evaluate_lhs n json_eq leaf lhs) (value_of f))
      ∙ ap (λ m. apply o m (value_of f)) (sym (bind_ok (evaluate_lhs n json_eq leaf lhs)))
  evaluate-attach (expr (some b) lhs no_op) o f c = absurd c
  evaluate-attach (expr is_not lhs (op p e)) o f c =
      bind_ok (apply o (value_of (expr is_not lhs (op p e))) (value_of f))

  -- A row of operators and operands, none of which is negated with no operator of its own: fuel
  -- above its length and the five levels gives a tree, with no panic, and the tree evaluates to the
  -- reference: higher levels first, and one level from left to right. An error is the first one met.
  pub expression_helper-evaluate :
      (fuel : ℕ) (e : Expression L) (rest : Tail L)
      → length rest + 5 < fuel
      → IsClean e
      → Operands IsClean rest
      → (t : Expression L) × (expression_helper fuel (row e rest) 0 ≡ done t)
        × (value_of t ≡ reference apply value_of 6 0 e rest)
  expression_helper-evaluate fuel e rest enough c o =
      let r =
        helper-Works apply value_of evaluate-attach fuel 5 0 e rest refl enough (AtLeast-zero rest)
          c o in
      (r.tree, r.runs, r.value)
