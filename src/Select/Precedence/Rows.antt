-- ===== src/Select/Precedence/Rows.antt =====
-- Rows of lib/config/src/select_parser.rs split at their last operator of a level.
use pewpew.Prelude.{
  ℕ, ◌≡◌, refl, Bool-cases, Option-cases, true, inl, inr, Option, none, some, List, [], ◌∷◌, ◌++◌,
  ◌==◌, if◌then◌else◌, arith,
}
use pewpew.Select.Expression.{InfixOperator, precedence, Expression}
use pewpew.Select.Precedence.{Item, split_last}
use pewpew.Select.Precedence.Reference.{Tail, tail_items, row, cut}

-- What stands before an operator, the operator with its right operand, and what stands behind.
abbrev pub Split : Type 0 → Type 0
Split L = Tail L × InfixOperator × Expression L × Tail L

module _ {L : Type 0} where
  unfoldable pub last_at : ℕ → Tail L → Option (Split L)
  last_at level [] = none
  last_at level ((o, e) ∷ rest) = elim (last_at level rest) [
    | none ↦ if precedence o == level then some ([], o, e, rest) else none
    | some (before, p, f, after) ↦ some ((o, e) ∷ before, p, f, after)
  ]

  abbrev tail_split : Option (Split L) → Option (List (Item L) × InfixOperator × List (Item L))
  tail_split none = none
  tail_split (some (before, p, f, after)) = some (tail_items before, p, row f after)

  abbrev pub row_split :
      Expression L → Option (Split L) → Option (List (Item L) × InfixOperator × List (Item L))
  row_split e none = none
  row_split e (some (before, p, f, after)) = some (row e before, p, row f after)

  split_last-tail :
      (level : ℕ) (rest : Tail L)
      → split_last level (tail_items rest) ≡ tail_split (last_at level rest)
  unfolding split_last last_at
  split_last-tail level [] = refl
  split_last-tail level ((o, e) ∷ rest) = ground (arith, split_last-tail level rest)

  pub split_last-row :
      (level : ℕ) (e : Expression L) (rest : Tail L)
      → split_last level (row e rest) ≡ row_split e (last_at level rest)
  unfolding split_last
  split_last-row level e rest = ground (arith, split_last-tail level rest)

  -- What `last_at` finds.
  pub record Found (level : ℕ) (rest before : Tail L) (p : InfixOperator) (f : Expression L)
      (after : Tail L) : Type 0 where
    pub whole : rest ≡ before ++ (p, f) ∷ after
    pub at_level : (precedence p == level) ≡ true
    pub none_after : last_at level after ≡ none

  pub last_at-Found :
      (level : ℕ) (rest : Tail L) {before : Tail L} {p : InfixOperator} {f : Expression L}
      {after : Tail L}
      → last_at level rest ≡ some (before, p, f, after)
      → Found level rest before p f after
  unfolding last_at
  last_at-Found level [] h = ground arith
  last_at-Found level ((o, e) ∷ rest) h = elim (Option-cases (last_at level rest)) [
    | inl nothing ↦ elim (Bool-cases (precedence o == level)) [
      | inl here ↦ record {
        whole = ground (arith, nothing, here);
        at_level = ground (arith, nothing, here);
        none_after = ground (arith, nothing, here);
      }
      | inr other ↦ ground (arith, nothing, other)
    ]
    | inr ((b, q, g, a), found) ↦
        let deeper = last_at-Found level rest found in
        record {
          whole = ground (arith, found, deeper.whole);
          at_level = ground (arith, found, deeper.at_level);
          none_after = ground (arith, found, deeper.none_after);
        }
  ]

  pub cut-none :
      (level : ℕ) (rest : Tail L) → last_at level rest ≡ none → cut level rest ≡ (rest, [])
  unfolding last_at cut
  cut-none level [] h = refl
  cut-none level ((o, e) ∷ rest) h = ground (arith, cut-none level rest)

  pub cut-append :
      (level : ℕ) (before : Tail L) (p : InfixOperator) (f : Expression L) (after : Tail L)
      → (precedence p == level) ≡ true
      → last_at level after ≡ none
      → cut level (before ++ (p, f) ∷ after)
        ≡ ((cut level before).0, (cut level before).1 ++ (p, f, after) ∷ [])
  unfolding cut
  cut-append level [] p f after here nothing = ground (arith, cut-none level after nothing)
  cut-append level ((o, e) ∷ before) p f after here nothing =
      ground (arith, cut-append level before p f after here nothing)
