-- ===== src/Select/Precedence/Levels.antt =====
-- The reference value of a row of lib/config/src/select_parser.rs, level by level.
use pewpew.Prelude.{
  ℕ, zero, suc, ◌+◌, ◌≤◌, ◌<◌, ◌≡◌, refl, ap, subst, none, List, [], ◌∷◌, ◌++◌, length,
  length-append, arith,
}
use pewpew.Select.Expression.{InfixOperator, precedence, Expression}
use pewpew.Select.Precedence.Reference.{Tail, cut, fold_segments, reference}
use pewpew.Select.Precedence.Rows.{Found, last_at, cut-none, cut-append}

module _ {L A : Type 0} (apply : InfixOperator → A → A → A) (meaning : Expression L → A) where
  fold_segments-snoc :
      (deeper : Expression L → Tail L → A) (acc : A)
      (segments : List (InfixOperator × Expression L × Tail L)) (p : InfixOperator)
      (f : Expression L) (segment : Tail L)
      → fold_segments apply meaning deeper acc (segments ++ (p, f, segment) ∷ [])
        ≡ apply p (fold_segments apply meaning deeper acc segments) (deeper f segment)
  unfolding fold_segments
  fold_segments-snoc deeper acc [] p f segment = refl
  fold_segments-snoc deeper acc ((o, e, s) ∷ rest) p f segment =
      fold_segments-snoc deeper (apply o acc (deeper e s)) rest p f segment

  pub reference-nil :
      (k level : ℕ) (e : Expression L) → reference apply meaning k level e [] ≡ meaning e
  unfolding reference cut fold_segments
  reference-nil zero level e = refl
  reference-nil (suc k) level e = reference-nil k (level + 1) e

  pub reference-none :
      (k level : ℕ) (e : Expression L) (rest : Tail L)
      → last_at level rest ≡ none
      → reference apply meaning (suc k) level e rest ≡ reference apply meaning k (level + 1) e rest
  unfolding reference fold_segments
  reference-none k level e rest h = rw (cut-none level rest h)

  pub reference-Found :
      (k level : ℕ) (e : Expression L) {rest before : Tail L} {p : InfixOperator} {f : Expression L}
      {after : Tail L}
      → Found level rest before p f after
      → reference apply meaning (suc k) level e rest
        ≡ apply p
            (reference apply meaning (suc k) level e before)
            (reference apply meaning (suc k) level f after)
  reference-Found k level e {rest} {before} {p} {f} {after} h =
      rw (h.whole, reference-none k level f after h.none_after)
        (unfold reference in
          rw (cut-append level before p f after h.at_level h.none_after)
            (fold_segments-snoc _ _ (cut level before).1 p f after))

-- Every operator of the row is at the level or above it.
abbrev pub AtLeast : {L : Type 0} → ℕ → Tail L → Type 0
AtLeast level [] = Unit {0}
AtLeast level ((o, e) ∷ rest) = (level ≤ precedence o) × AtLeast level rest

abbrev pub Operands : {L : Type 0} → (Expression L → Type 0) → Tail L → Type 0
Operands P [] = Unit {0}
Operands P ((o, e) ∷ rest) = P e × Operands P rest

module _ {L : Type 0} where
  AtLeast-append :
      (level : ℕ) (before : Tail L) (p : InfixOperator) (f : Expression L) (after : Tail L)
      → AtLeast level (before ++ (p, f) ∷ after)
      → AtLeast level before × AtLeast level after
  AtLeast-append level [] p f after h = (tt, h.1)
  AtLeast-append level ((o, e) ∷ before) p f after h =
      let (b, a) = AtLeast-append level before p f after h.1 in ((h.0, b), a)

  Operands-append :
      (P : Expression L → Type 0) (before : Tail L) (p : InfixOperator) (f : Expression L)
      (after : Tail L)
      → Operands P (before ++ (p, f) ∷ after)
      → Operands P before × P f × Operands P after
  Operands-append P [] p f after h = (tt, h.0, h.1)
  Operands-append P ((o, e) ∷ before) p f after h =
      let (b, q, a) = Operands-append P before p f after h.1 in ((h.0, b), q, a)

  pub AtLeast-next :
      (level : ℕ) (rest : Tail L)
      → AtLeast level rest
      → last_at level rest ≡ none
      → AtLeast (level + 1) rest
  unfolding last_at
  AtLeast-next level [] h nothing = tt
  AtLeast-next level ((o, e) ∷ rest) h nothing =
      (ground arith, AtLeast-next level rest h.1 (ground arith))

  -- The parts of a row, and how long they are.
  pub record Parts (P : Expression L → Type 0) (level : ℕ) (rest before : Tail L) (f : Expression L)
      (after : Tail L) : Type 0 where
    pub before_level : AtLeast level before
    pub after_level : AtLeast level after
    pub before_operands : Operands P before
    pub operand : P f
    pub after_operands : Operands P after
    pub shorter : length before + length after < length rest

  pub Found-Parts :
      (P : Expression L → Type 0) (level : ℕ) {rest before : Tail L} {p : InfixOperator}
      {f : Expression L} {after : Tail L}
      → Found level rest before p f after
      → AtLeast level rest
      → Operands P rest
      → Parts P level rest before f after
  Found-Parts P level {rest} {before} {p} {f} {after} h l o =
      let (bl, al) = AtLeast-append level before p f after (subst (AtLeast level) h.whole l) in
      let (bo, q, ao) = Operands-append P before p f after (subst (Operands P) h.whole o) in
      record {
        before_level = bl;
        after_level = al;
        before_operands = bo;
        operand = q;
        after_operands = ao;
        shorter = omega (
          arith,
          ap (λ (t : Tail L). length t) h.whole,
          length-append {0} before ((p, f) ∷ after),
        );
      }
