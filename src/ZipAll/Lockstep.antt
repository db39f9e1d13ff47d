-- ===== src/ZipAll/Lockstep.antt =====
-- lib/zip_all takes the values of its streams in lockstep.
use pewpew.Prelude.{
  ◌≡◌, refl, sym, subst, ap₂, ◌⊎◌, inl, inr, Bool, true, false, ◌&&◌, ◌||◌, Option, none, some,
  List, [], ◌∷◌, arith,
}
use pewpew.Channel.Handles.{Poll, ready, pending}
use pewpew.Select.Expression.{Result, ok, err}
use pewpew.ZipAll.{
  TryStream, Pass, passed, failed, ended, keep, keep_polled, poll_elems, take_all, finish,
  poll_next,
}

-- What a stream has still to give: a poll gives the first of it, or leaves it, or finds it empty.
pub record Yields {S A E : Type 0} (t : TryStream S A E) : Type 0 where
  pub items : S → List A
  pub polled :
      (s : S)
      → (((t.try_poll_next s).0 ≡ pending) × (items (t.try_poll_next s).1 ≡ items s))
        ⊎ ((a : A) × ((t.try_poll_next s).0 ≡ ready (some (ok a)))
            × (items s ≡ a ∷ items (t.try_poll_next s).1))
        ⊎ (((t.try_poll_next s).0 ≡ ready none) × (items s ≡ []))
        ⊎ ((e : E) × ((t.try_poll_next s).0 ≡ ready (some (err e))))

-- The values are the first ones of as many lists, one of each, and the rests are what is left.
unfoldable pub AreFirst : {A : Type 0} → List A → List (List A) → List (List A) → Type 0
AreFirst [] [] [] = Unit {0}
AreFirst (v ∷ values) (rest ∷ rests) (row ∷ rows) = (row ≡ v ∷ rest) × AreFirst values rests rows
AreFirst _ _ _ = ⊥

no_values : {A : Type 0} (rests rows : List (List A)) → AreFirst [] rests rows → rows ≡ []
unfolding AreFirst
no_values [] [] h = refl
no_values [] (row ∷ rows) h = absurd h
no_values (rest ∷ rests) rows h = absurd h

unfoldable pub is_nil : {A : Type 0} → List A → Bool
is_nil [] = true
is_nil (v ∷ values) = false

unfoldable pub has_nil : {A : Type 0} → List (List A) → Bool
has_nil [] = false
has_nil (row ∷ rows) = is_nil row || has_nil rows

module _ {S A E : Type 0} (t : TryStream S A E) (y : Yields t) where
  -- What an element owes: the value that waits in it, then what its stream has to give.
  unfoldable pub owed : S × Option A → List A
  owed (s, none) = y.items s
  owed (s, some v) = v ∷ y.items s

  unfoldable pub owed_all : List (S × Option A) → List (List A)
  owed_all [] = []
  owed_all (e ∷ es) = owed e ∷ owed_all es

  unfoldable pub is_some : Option A → Bool
  is_some none = false
  is_some (some v) = true

  unfoldable pub filled : List (S × Option A) → Bool
  unfolding is_some
  filled [] = true
  filled (e ∷ es) = is_some e.1 && filled es

  -- How a poll changes what is owed.
  unfoldable pub Lockstep :
      List (List A) → Poll (Option (Result E (List A))) × List (S × Option A) → Type 0
  Lockstep before (pending, elems) = (owed_all elems ≡ before) × (filled elems ≡ false)
  Lockstep before (ready (some (ok values)), elems) = AreFirst values (owed_all elems) before
  Lockstep before (ready (some (err e)), elems) = elems ≡ []
  Lockstep before (ready none, elems) = (elems ≡ []) × ((before ≡ []) ⊎ (has_nil before ≡ true))

  -- The same for the loop.
  unfoldable Passes : List (List A) → Pass t → Type 0
  Passes before (passed all_done elems) = (owed_all elems ≡ before) × (all_done ≡ filled elems)
  Passes before (failed e) = Unit
  Passes before ended = has_nil before ≡ true

  keep-Passes :
      (e : S × Option A) (done : Bool) (row : List A) (rows : List (List A)) (p : Pass t)
      → owed e ≡ row
      → done ≡ is_some e.1
      → Passes rows p
      → Passes (row ∷ rows) (keep t e done p)
  unfolding keep Passes owed_all filled has_nil
  keep-Passes e done row rows (passed all_done es) he hd hp = (ap₂ ◌∷◌ he hp.0, ap₂ ◌&&◌ hd hp.1)
  keep-Passes e done row rows (failed r) he hd hp = hp
  keep-Passes e done row rows ended he hd hp = ground arith

  keep_polled-Passes :
      (s : S) (rows : List (List A)) (p : Pass t)
      → Passes rows p
      → Passes (y.items s ∷ rows) (keep_polled t (t.try_poll_next s).0 (t.try_poll_next s).1 p)
  unfolding keep_polled Passes owed is_some has_nil is_nil
  keep_polled-Passes s rows p h = elim (y.polled s) [
    | inl (hp, hi) ↦
        rw hp (keep-Passes ((t.try_poll_next s).1, none) false (y.items s) rows p hi refl h)
    | inr (inl (a, hp, hi)) ↦
        rw hp (keep-Passes ((t.try_poll_next s).1, some a) true (y.items s) rows p (sym hi) refl h)
    | inr (inr (inl (hp, hi))) ↦ rw (hp, hi) refl
    | inr (inr (inr (e, hp))) ↦ rw hp (ground arith)
  ]

  poll_elems-Passes : (es : List (S × Option A)) → Passes (owed_all es) (poll_elems t es)
  unfolding poll_elems Passes owed_all filled owed
  poll_elems-Passes [] = (refl, refl)
  poll_elems-Passes ((s, some v) ∷ es) =
      keep-Passes (s, some v) true (owed (s, some v)) (owed_all es) (poll_elems t es) refl refl
        (poll_elems-Passes es)
  poll_elems-Passes ((s, none) ∷ es) =
      keep_polled-Passes s (owed_all es) (poll_elems t es) (poll_elems-Passes es)

  take_all-filled :
      (es : List (S × Option A))
      → filled es ≡ true
      → (vs : List A) × (es' : List (S × Option A)) × (take_all t es ≡ some (vs, es'))
        × AreFirst vs (owed_all es') (owed_all es)
        × (vs ≡ [] → es' ≡ [])
  unfolding filled is_some take_all owed_all owed AreFirst
  take_all-filled [] h = ([], [], refl, tt, λ e. refl)
  take_all-filled ((s, none) ∷ es) h = ground arith
  take_all-filled ((s, some v) ∷ es) h =
      let (vs, es', e₁, e₂, e₃) = take_all-filled es h in
      (v ∷ vs, (s, none) ∷ es', rw (e₁, take_all) refl, (refl, e₂), λ e. ground (arith, e))

  taken-Lockstep :
      (before : List (List A)) (es : List (S × Option A)) (vs : List A) (es' : List (S × Option A))
      → take_all t es ≡ some (vs, es')
      → AreFirst vs (owed_all es') before
      → (vs ≡ [] → es' ≡ [])
      → (r : Poll (Option (Result E (List A))) × List (S × Option A)) × (finish t (passed true es)
          ≡ some r)
        × Lockstep before r
  unfolding Lockstep finish
  taken-Lockstep before es [] es' e h g =
      ((ready none, es'), rw (e, finish) refl, (g refl, inl (no_values (owed_all es') before h)))
  taken-Lockstep before es (v ∷ vs) es' e h g =
      ((ready (some (ok (v ∷ vs))), es'), rw (e, finish) refl, h)

  finish-Lockstep :
      (before : List (List A)) (p : Pass t)
      → Passes before p
      → (r : Poll (Option (Result E (List A))) × List (S × Option A)) × (finish t p ≡ some r)
        × Lockstep before r
  unfolding finish Passes Lockstep owed_all
  finish-Lockstep before (failed e) h = (_, refl, refl)
  finish-Lockstep before ended h = (_, refl, (refl, inr h))
  finish-Lockstep before (passed false es) h = (_, refl, (h.0, sym h.1))
  finish-Lockstep before (passed true es) h =
      let (vs, es', e₁, e₂, e₃) = take_all-filled es (sym h.1) in
      taken-Lockstep before es vs es' e₁ (subst (AreFirst vs (owed_all es')) h.0 e₂) e₃

  -- A poll of zipped streams, each of which has a list of values to give, one at a poll, until it ends
  -- or fails, does not panic. While it waits, what each element owes (the value
  -- it keeps, then what its stream has still to give) is as it was, and some element has no value. A
  -- row that it gives has one value for each element, the first that the element owed, and each
  -- then owes the rest. It ends only if there are no streams or one of them owes nothing. When it
  -- ends or passes on an error no element is left, and the values that they kept are gone.
  pub poll_next-Lockstep :
      (es : List (S × Option A))
      → (r : Poll (Option (Result E (List A))) × List (S × Option A)) × (poll_next t es ≡ some r)
        × Lockstep (owed_all es) r
  unfolding poll_next
  poll_next-Lockstep es = finish-Lockstep (owed_all es) (poll_elems t es) (poll_elems-Passes es)
