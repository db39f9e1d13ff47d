-- ===== src/Select/Precedence/Correct.antt =====
-- `expression_helper` and `Expression::evaluate` of lib/config/src/select_parser.rs against the
-- reference.
use pewpew.Prelude.{
  ℕ, zero, suc, ◌+◌, ◌≤◌, ◌<◌, ◌≡◌, ◌≢◌, refl, sym, ap₂, subst, ◌∙◌, Option-cases, inl, inr, none,
  some, List, [], ◌∷◌, length, arith,
}
use pewpew.Select.Expression.{InfixOperator, precedence, Expression, expr, no_op, op}
use pewpew.Select.Precedence.{
  Item, split_last, Outcome, done, ◌>>=◌, attach, single, left_side, expression_helper,
}
use pewpew.Select.Precedence.Reference.{Tail, row, reference}
use pewpew.Select.Precedence.Rows.{last_at, last_at-Found, split_last-row}
use pewpew.Select.Precedence.Levels.{
  AtLeast, Operands, Found-Parts, AtLeast-next, reference-nil, reference-none, reference-Found,
}

-- A negation stands only round an expression that already has an operator.
abbrev pub IsClean : {L : Type 0} → Expression L → Type 0
IsClean (expr none lhs no_op) = Unit {0}
IsClean (expr (some b) lhs no_op) = ⊥
IsClean (expr is_not lhs (op o e)) = Unit {0}

attach-IsClean :
    {L : Type 0} (e : Expression L) (o : InfixOperator) (f : Expression L) → IsClean (attach e o f)
unfolding attach
attach-IsClean (expr none lhs no_op) o f = tt
attach-IsClean (expr (some b) lhs no_op) o f = tt
attach-IsClean (expr is_not lhs (op p e)) o f = tt

precedence-le : (o : InfixOperator) → precedence o ≤ 5
unfolding precedence
precedence-le o = ground arith

top_level_none : {L : Type 0} (rest : Tail L) → AtLeast 5 rest → last_at 5 rest ≡ none → rest ≡ []
unfolding last_at
top_level_none [] h nothing = refl
top_level_none ((o, e) ∷ rest) h nothing = ground (arith, precedence-le o)

module _ {L : Type 0} where
  -- One call, by what `last_at` finds.
  helper_found :
      (fuel level : ℕ) (e : Expression L) (rest before : Tail L) (p : InfixOperator)
      (f : Expression L) (after : Tail L)
      → last_at level rest ≡ some (before, p, f, after)
      → expression_helper (suc fuel) (row e rest) level ≡ (
          left_side (λ items. expression_helper fuel items level) (row e before) >>= λ t.
          expression_helper fuel (row f after) level >>= λ r. done (attach t p r))
  unfolding expression_helper
  helper_found fuel level e rest before p f after h =
      rw (split_last-row level e rest, expression_helper) (rw (h, expression_helper) refl)

  helper_alone :
      (fuel level : ℕ) (e : Expression L) → expression_helper (suc fuel) (row e []) level ≡ done e
  unfolding expression_helper split_last single
  helper_alone fuel level e = refl

  helper_deeper :
      (fuel level : ℕ) (e : Expression L) (rest : Tail L)
      → rest ≢ []
      → level < 5
      → last_at level rest ≡ none
      → expression_helper (suc fuel) (row e rest) level
        ≡ expression_helper fuel (row e rest) (level + 1)
  unfolding expression_helper
  helper_deeper fuel level e [] more low h = absurd (more refl)
  helper_deeper fuel level e ((o, f) ∷ rest) more low h =
      rw (split_last-row level e ((o, f) ∷ rest), expression_helper)
        (rw (h, expression_helper) (ground arith))

  left_side-row :
      (again : List (Item L) → Outcome (Expression L)) (e o' : Expression L) (p : InfixOperator)
      (rest : Tail L)
      → left_side again (row e ((p, o') ∷ rest)) ≡ again (row e ((p, o') ∷ rest))
  unfolding left_side
  left_side-row again e o' p rest = refl

module _ {L A : Type 0} (apply : InfixOperator → A → A → A) (meaning : Expression L → A)
    (attach_lem : (e : Expression L) (o : InfixOperator) (f : Expression L)
      → IsClean e
      → meaning (attach e o f) ≡ apply o (meaning e) (meaning f)) where
  -- A call that returns a tree with the reference's value.
  pub record Returns (result : Outcome (Expression L)) (expected : A) : Type 0 where
    pub tree : Expression L
    pub runs : result ≡ done tree
    pub value : meaning tree ≡ expected
    pub clean : IsClean tree

  abbrev pub Correct : ℕ → ℕ → ℕ → Expression L → Tail L → Type 0
  Correct n k level e rest =
      Returns (expression_helper n (row e rest) level)
        (reference apply meaning (suc k) level e rest)

  abbrev pub Works : ℕ → Type 0
  Works n =
      (k level : ℕ) (e : Expression L) (rest : Tail L)
      → k + level ≡ 5
      → length rest + k < n
      → AtLeast level rest
      → IsClean e
      → Operands IsClean rest
      → Correct n k level e rest

  none_case :
      (n : ℕ)
      → Works n
      → (k level : ℕ) (e : Expression L) (rest : Tail L) → k + level ≡ 5
      → length rest + k < suc n
      → AtLeast level rest
      → IsClean e
      → Operands IsClean rest
      → last_at level rest ≡ none
      → Correct (suc n) k level e rest
  none_case n ih k level e [] sum size l c o nothing = record {
    tree = e;
    runs = helper_alone n level e;
    value = sym (reference-nil apply meaning (suc k) level e);
    clean = c;
  }
  none_case n ih zero level e (x ∷ rest) sum size l c o nothing =
      let at5 : level ≡ 5 = omega arith in
      let empty =
        top_level_none (x ∷ rest) (subst (λ v. AtLeast v (x ∷ rest)) at5 l)
          (subst (λ v. last_at v (x ∷ rest) ≡ none) at5 nothing) in
      ground arith
  none_case n ih (suc k) level e (x ∷ rest) sum size l c o nothing =
      let deeper =
        ih k (level + 1) e (x ∷ rest) (omega arith) (omega arith)
          (AtLeast-next level (x ∷ rest) l nothing) c o in
      record {
        tree = deeper.tree;
        runs =
            helper_deeper n level e (x ∷ rest) (λ p. ground arith) (omega arith) nothing
            ∙ deeper.runs;
        value =
            deeper.value ∙ sym (reference-none apply meaning (suc k) level e (x ∷ rest) nothing);
        clean = deeper.clean;
      }

  left_case :
      (n : ℕ)
      → Works n
      → (k level : ℕ) (e : Expression L) (before : Tail L) → k + level ≡ 5
      → length before + k < n
      → AtLeast level before
      → IsClean e
      → Operands IsClean before
      → Returns
          (left_side (λ items. expression_helper n items level) (row e before))
          (reference apply meaning (suc k) level e before)
  unfolding left_side
  left_case n ih k level e [] sum size l c o = record {
    tree = e;
    runs = refl;
    value = sym (reference-nil apply meaning (suc k) level e);
    clean = c;
  }
  left_case n ih k level e (x ∷ before) sum size l c o = ih k level e (x ∷ before) sum size l c o

  pub helper-Works : (n : ℕ) → Works n
  helper-Works zero k level e rest sum size l c o = absurd (omega arith)
  helper-Works (suc n) k level e rest sum size l c o = elim (Option-cases (last_at level rest)) [
    | inl nothing ↦ none_case n (helper-Works n) k level e rest sum size l c o nothing
    | inr ((before, p, f, after), h) ↦
        let found = last_at-Found level rest h in
        let parts = Found-Parts IsClean level found l o in
        let left =
          left_case n (helper-Works n) k level e before sum (omega (arith, parts.shorter))
            parts.before_level c parts.before_operands in
        let right =
          helper-Works n k level f after sum (omega (arith, parts.shorter)) parts.after_level
            parts.operand parts.after_operands in
        record {
          tree = attach left.tree p right.tree;
          runs = helper_found n level e rest before p f after h ∙ rw (left.runs, right.runs);
          value =
              attach_lem left.tree p right.tree left.clean
              ∙ ap₂ (apply p) left.value right.value
              ∙ sym (reference-Found apply meaning k level e found);
          clean = attach-IsClean left.tree p right.tree;
        }
  ]
