-- ===== src/Requests/Responses/Needed.antt =====
-- What the choice of the provides adds to the response.
use pewpew.Prelude.{
  ℕ, suc, ◌≡◌, refl, sym, ap, ◌∙◌, Bool, true, false, ◌&&◌, ◌||◌, List, [], ◌∷◌, if◌then◌else◌,
}
use pewpew.Select.Expression.{Result, ok, err, ◌>>=◌}
use pewpew.Select.Specials.{Flags, masked, is_not_zero, response_body}
use pewpew.Requests.Responses.{
  Response, Added, handle_response_requirements, is_included, included_from, first_added, handle,
}
use pewpew.Requests.Responses.Fields.{
  given, or_false, IsFilled, handle_response_requirements-IsFilled,
}

or_more : (l c w : Bool) → ((l || c) || (w && c)) ≡ (l || c)
or_more true c w = refl
or_more false c false = or_false c
or_more false true true = refl
or_more false false true = refl

-- What holds of a result that is not an error.
unfoldable pub Holds : {E A : Type 0} → (A → Type 0) → Result E A → Type 0
Holds P (err e) = Unit
Holds P (ok a) = P a

bind-Holds :
    {E A B : Type 0} (P : A → Type 0) (Q : B → Type 0) (o : Result E A) (f : A → Result E B)
    → Holds P o
    → ((a : A) → P a → Holds Q (f a))
    → Holds Q (o >>= f)
unfolding Holds
bind-Holds P Q (err e) f h k = tt
bind-Holds P Q (ok a) f h k = k a h

any-Holds : {E A : Type 0} (o : Result E A) → Holds (λ _. Unit) o
unfolding Holds
any-Holds (err e) = tt
any-Holds (ok a) = tt

abbrev pub is_some : List ℕ → Bool
is_some [] = false
is_some (i ∷ is) = true

parses_body : (flags : Flags) → is_not_zero (masked response_body flags) ≡ flags 3
unfolding is_not_zero
parses_body flags = simp or_false refl

module _ {V : Type 0} (r : Response V) where
  IsFilled-same :
      {l l' h h' f f' b b' : Bool}
      → l ≡ l'
      → h ≡ h'
      → f ≡ f'
      → b ≡ b'
      → (a : Added V) → IsFilled r l h f b a
      → IsFilled r l' h' f' b' a
  unfolding IsFilled
  IsFilled-same x y z w a (e5, e4, e12, e3, s, hh, ff) = (
    e5 ∙ x,
    e4 ∙ y,
    e12 ∙ z,
    e3 ∙ w,
    s ∙ ap (λ c. given c r.start_line) x,
    hh ∙ ap (λ c. given c r.headers) y,
    ff ∙ ap (λ c. given c r.headers_all) z,
  )

  -- The fields after a list of outgoing ones, of which these are included.
  abbrev Fills : Flags → Bool → Bool → Bool → Bool → List ℕ × Added V → Type 0
  Fills rr l h f b (indexes, a) =
      IsFilled r (l || (is_some indexes && rr 5)) (h || (is_some indexes && rr 4))
        (f || (is_some indexes && rr 12)) (b || (is_some indexes && rr 3)) a

  Fills-more :
      (rr : Flags) (l h f b : Bool) (i : ℕ) (indexes : List ℕ) (a : Added V)
      → Fills rr (l || rr 5) (h || rr 4) (f || rr 12) (b || rr 3) (indexes, a)
      → Fills rr l h f b (i ∷ indexes, a)
  Fills-more rr l h f b i indexes a k =
      IsFilled-same (or_more l (rr 5) (is_some indexes)) (or_more h (rr 4) (is_some indexes))
        (or_more f (rr 12) (is_some indexes)) (or_more b (rr 3) (is_some indexes)) a k

  -- What the code after the handler sees: each field that the choice of the provides needs, and
  -- where one of them is chosen each that they need, and nothing else of the response.
  unfoldable pub HasNeeded : Flags → Flags → (List ℕ × Added V) × Bool → Type 0
  unfolding given
  HasNeeded p rr ((indexes, a), parses) =
      (a.start_line ≡ given (p 5 || (is_some indexes && rr 5)) r.start_line)
      × (a.headers ≡ given (p 4 || (is_some indexes && rr 4)) r.headers)
      × (a.headers_all ≡ given (p 12 || (is_some indexes && rr 12)) r.headers_all)
      × (parses ≡ (p 3 || (is_some indexes && rr 3)))

  module _ {E : Type 0} (p rr : Flags) where
    included_go :
        (c : Bool) (i : ℕ) (outgoing : List (Added V → Result E Bool)) (l h f b : Bool)
        (a : Added V)
        → IsFilled r l h f b a
        → ((l h f b : Bool) (a : Added V)
            → IsFilled r l h f b a
            → Holds (Fills rr l h f b) (included_from r p rr (suc i) outgoing a))
        → Holds (Fills rr l h f b) (
            included_from r p rr
              (suc i)
              outgoing
              (if c then handle_response_requirements r rr a else a)
            >>= λ (rest, a'). ok (if c then i ∷ rest else rest, a'))
    unfolding Holds
    included_go false i outgoing l h f b a k rec =
        bind-Holds (Fills rr l h f b) (Fills rr l h f b) (included_from r p rr (suc i) outgoing a)
          (λ (rest, a'). ok (rest, a')) (rec l h f b a k) (λ (rest, a') m. m)
    included_go true i outgoing l h f b a k rec =
        bind-Holds (Fills rr (l || rr 5) (h || rr 4) (f || rr 12) (b || rr 3)) (Fills rr l h f b)
          (included_from r p rr (suc i) outgoing (handle_response_requirements r rr a))
          (λ (rest, a'). ok (i ∷ rest, a'))
          (rec _ _ _ _ _ (handle_response_requirements-IsFilled r l h f b rr a k))
          (λ (rest, a') m. Fills-more rr l h f b i rest a' m)

    included_from-Fills :
        (i : ℕ) (outgoing : List (Added V → Result E Bool)) (l h f b : Bool) (a : Added V)
        → IsFilled r l h f b a
        → Holds (Fills rr l h f b) (included_from r p rr i outgoing a)
    unfolding included_from Holds
    included_from-Fills i [] l h f b a k =
        IsFilled-same (sym (or_false l)) (sym (or_false h)) (sym (or_false f)) (sym (or_false b)) a
          k
    included_from-Fills i (w ∷ outgoing) l h f b a k =
        bind-Holds (λ _. Unit) (Fills rr l h f b) (is_included r p rr a w)
          (λ c.
            included_from r p rr (suc i) outgoing
              (if c then handle_response_requirements r rr a else a)
            >>= λ (rest, a'). ok (if c then i ∷ rest else rest, a'))
          (any-Holds (is_included r p rr a w))
          (λ c _. included_go c i outgoing l h f b a k (included_from-Fills (suc i) outgoing))

    -- Unless a where clause fails, the response that the provides are evaluated with has each of its
    -- start line and its two kinds of headers exactly if the where clauses need it, or if a provide
    -- is included and the provides need it; and so is the body parsed.
    pub handle-HasNeeded :
        (outgoing : List (Added V → Result E Bool))
        → Holds (HasNeeded p rr) (handle r p rr outgoing)
    unfolding handle first_added Holds HasNeeded IsFilled given
    handle-HasNeeded outgoing =
        bind-Holds (Fills rr (p 5) (p 4) (p 12) (p 3)) (HasNeeded p rr)
          (included_from r p rr 0 outgoing (handle_response_requirements r p first_added))
          (λ (indexes, a).
            ok ((indexes, a), is_not_zero (masked response_body a.response_fields_added)))
          (included_from-Fills 0 outgoing (p 5) (p 4) (p 12) (p 3) _ (
            handle_response_requirements-IsFilled r false false false false p first_added
              (refl, refl, refl, refl, refl, refl, refl)))
          (λ (indexes, a) (e5, e4, e12, e3, s, hh, ff).
            (s, hh, ff, parses_body a.response_fields_added ∙ e3))
