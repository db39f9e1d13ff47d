-- ===== src/Requests/Responses/Fields.antt =====
-- The fields of a response that the expressions are given.
use pewpew.Prelude.{
  ◌≡◌, refl, ap₂, ◌∙◌, Bool, true, false, not, ◌||◌, Option, none, some, if◌then◌else◌,
}
use pewpew.Select.Specials.{
  Flags, is_not_zero, response_startline, response_headers, response_headers_all, response_body,
}
use pewpew.Requests.Responses.{
  Response, Added, is_missing, add_start_line, add_headers, add_headers_all, add_body,
  handle_response_requirements,
}

-- A value that is there if it is needed.
unfoldable pub given : {V : Type 0} → Bool → V → Option V
given false v = none
given true v = some v

pub or_false : (b : Bool) → (b || false) ≡ b
or_false false = refl
or_false true = refl

or_true : (b : Bool) → (b || true) ≡ true
or_true false = refl
or_true true = refl

or_again : (b c : Bool) → ((b || c) || c) ≡ (b || c)
or_again true c = refl
or_again false true = refl
or_again false false = refl

-- Which of two flags differ.
unfoldable differ : Bool → Bool → Bool
differ a b = if a then not b else b

-- What is added if it is needed or not, and was there or not.
chosen-or :
    {A : Type 0} (P : Bool → A → Type 0) (l n m : Bool) (x a : A)
    → m ≡ differ n l
    → P true x
    → P l a
    → P (l || n) (if m then x else a)
unfolding differ
chosen-or P true true m x a e p q = rw e q
chosen-or P true false m x a e p q = rw e p
chosen-or P false true m x a e p q = rw e p
chosen-or P false false m x a e p q = rw e q

missing_start_line : (b a : Flags) → is_missing response_startline b a ≡ differ (b 5) (a 5)
unfolding is_missing is_not_zero differ
missing_start_line b a = simp or_false refl

missing_headers : (b a : Flags) → is_missing response_headers b a ≡ differ (b 4) (a 4)
unfolding is_missing is_not_zero differ
missing_headers b a = simp or_false refl

missing_headers_all : (b a : Flags) → is_missing response_headers_all b a ≡ differ (b 12) (a 12)
unfolding is_missing is_not_zero differ
missing_headers_all b a = simp or_false refl

missing_body : (b a : Flags) → is_missing response_body b a ≡ differ (b 3) (a 3)
unfolding is_missing is_not_zero differ
missing_body b a = simp or_false refl

module _ {V : Type 0} (r : Response V) where
  -- The flags and the fields of a state agree.
  unfoldable pub IsFilled : Bool → Bool → Bool → Bool → Added V → Type 0
  unfolding given
  IsFilled line headers headers_all body a =
      (a.response_fields_added 5 ≡ line)
      × (a.response_fields_added 4 ≡ headers)
      × (a.response_fields_added 12 ≡ headers_all)
      × (a.response_fields_added 3 ≡ body)
      × (a.start_line ≡ given line r.start_line)
      × (a.headers ≡ given headers r.headers)
      × (a.headers_all ≡ given headers_all r.headers_all)

  add_start_line-IsFilled :
      (l h f b n : Bool) (bitwise : Flags) (a : Added V)
      → bitwise 5 ≡ n
      → IsFilled l h f b a
      → IsFilled (l || n) h f b (add_start_line r bitwise a)
  unfolding add_start_line IsFilled given
  add_start_line-IsFilled l h f b n bitwise a e (e5, e4, e12, e3, s, hh, ff) =
      chosen-or (λ l. IsFilled l h f b) l n _ _ a
        (missing_start_line bitwise a.response_fields_added ∙ ap₂ differ e e5)
        (or_true _, or_false _ ∙ e4, or_false _ ∙ e12, or_false _ ∙ e3, refl, hh, ff)
        (e5, e4, e12, e3, s, hh, ff)

  add_headers-IsFilled :
      (l h f b n : Bool) (bitwise : Flags) (a : Added V)
      → bitwise 4 ≡ n
      → IsFilled l h f b a
      → IsFilled l (h || n) f b (add_headers r bitwise a)
  unfolding add_headers IsFilled given
  add_headers-IsFilled l h f b n bitwise a e (e5, e4, e12, e3, s, hh, ff) =
      chosen-or (λ h. IsFilled l h f b) h n _ _ a
        (missing_headers bitwise a.response_fields_added ∙ ap₂ differ e e4)
        (or_false _ ∙ e5, or_true _, or_false _ ∙ e12, or_false _ ∙ e3, s, refl, ff)
        (e5, e4, e12, e3, s, hh, ff)

  add_headers_all-IsFilled :
      (l h f b n : Bool) (bitwise : Flags) (a : Added V)
      → bitwise 12 ≡ n
      → IsFilled l h f b a
      → IsFilled l h (f || n) b (add_headers_all r bitwise a)
  unfolding add_headers_all IsFilled given
  add_headers_all-IsFilled l h f b n bitwise a e (e5, e4, e12, e3, s, hh, ff) =
      chosen-or (λ f. IsFilled l h f b) f n _ _ a
        (missing_headers_all bitwise a.response_fields_added ∙ ap₂ differ e e12)
        (or_false _ ∙ e5, or_false _ ∙ e4, or_true _, or_false _ ∙ e3, s, hh, refl)
        (e5, e4, e12, e3, s, hh, ff)

  add_body-IsFilled :
      (l h f b n : Bool) (bitwise : Flags) (a : Added V)
      → bitwise 3 ≡ n
      → IsFilled l h f b a
      → IsFilled l h f (b || n) (add_body r bitwise a)
  unfolding add_body IsFilled given
  add_body-IsFilled l h f b n bitwise a e (e5, e4, e12, e3, s, hh, ff) =
      chosen-or (λ b. IsFilled l h f b) b n _ _ a
        (missing_body bitwise a.response_fields_added ∙ ap₂ differ e e3)
        (or_false _ ∙ e5, or_false _ ∙ e4, or_false _ ∙ e12, or_true _, s, hh, ff)
        (e5, e4, e12, e3, s, hh, ff)

  pub handle_response_requirements-IsFilled :
      (l h f b : Bool) (bitwise : Flags) (a : Added V)
      → IsFilled l h f b a
      → IsFilled
          (l || bitwise 5)
          (h || bitwise 4)
          (f || bitwise 12)
          (b || bitwise 3)
          (handle_response_requirements r bitwise a)
  unfolding handle_response_requirements
  handle_response_requirements-IsFilled l h f b bitwise a i =
      let i1 = add_start_line-IsFilled l h f b _ bitwise a refl i in
      let i2 = add_headers-IsFilled _ h f b _ bitwise _ refl i1 in
      let i3 = add_headers_all-IsFilled _ _ f b _ bitwise _ refl i2 in
      add_body-IsFilled _ _ _ b _ bitwise _ refl i3
