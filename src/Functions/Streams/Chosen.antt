-- ===== src/Functions/Streams/Chosen.antt =====
-- What the stream of an `if` takes from the streams of its arguments.
use pewpew.Prelude.{
  ◌≡◌, refl, sym, ap, subst, ◌∙◌, ◌⊎◌, inl, inr, Bool, Bool-cases, true, false, Option,
  Option-cases, none, some, List, [], ◌∷◌, ◌++◌, if◌then◌else◌,
}
use pewpew.Channel.Handles.{Poll, ready, pending}
use pewpew.Select.Json.{Numbers, Value}
use pewpew.Select.Expression.{Result, ok, err, bool_value}
use pewpew.ZipAll.{TryStream}
use pewpew.ZipAll.Lockstep.{Yields}
use pewpew.Functions.Streams.{IfStream, answer, poll_chosen, hold, poll_holder, poll_if}

module _ {n : Numbers} {S Ar E : Type 0} (t : TryStream S (Value n × List Ar) E)
    (y : Yields t) where
  abbrev Polled : Type 0
  Polled = Poll (Option (Result E (Value n × List Ar))) × IfStream t

  unfoldable pub tests : List (Value n × List Ar) → List (Bool × List Ar)
  tests [] = []
  tests ((v, returns) ∷ vs) = (bool_value n v, returns) ∷ tests vs

  -- The tests that are still to be answered: the one that is held, then those of the first stream.
  unfoldable pub open_tests : IfStream t → List (Bool × List Ar)
  unfolding tests
  open_tests s = elim s.holder [
    | none ↦ tests (y.items s.first)
    | some held ↦ held ∷ tests (y.items s.first)
  ]

  -- An item leaves the stream that a test chooses, and the other stream is left alone.
  unfoldable pub Takes : Bool → Value n × List Ar → IfStream t → IfStream t → Type 0
  Takes true item s s' =
      (y.items s.second ≡ item ∷ y.items s'.second) × (y.items s'.third ≡ y.items s.third)
  Takes false item s s' =
      (y.items s.third ≡ item ∷ y.items s'.third) × (y.items s'.second ≡ y.items s.second)

  unfoldable pub Empty : IfStream t → Type 0
  unfolding open_tests
  Empty s = (open_tests s ≡ []) ⊎ (y.items s.second ≡ []) ⊎ (y.items s.third ≡ [])

  unfoldable pub Picks : IfStream t → Polled → Type 0
  unfolding open_tests Takes Empty
  Picks s (pending, s') =
      (open_tests s' ≡ open_tests s)
      × (y.items s'.second ≡ y.items s.second)
      × (y.items s'.third ≡ y.items s.third)
  Picks s (ready none, s') = ((s.done ≡ true) ⊎ Empty s) × (s'.done ≡ true)
  Picks s (ready (some (err e)), s') = s'.done ≡ true
  Picks s (ready (some (ok (v, returns))), s') =
      (b : Bool) × (r r' : List Ar) × (open_tests s ≡ (b, r) ∷ open_tests s')
      × Takes b (v, r') s s'
      × (returns ≡ r ++ r')

  poll_chosen-Picks :
      (b : Bool) (r : List Ar) (s : IfStream t)
      → s.holder ≡ some (b, r)
      → Picks s (poll_chosen t (b, r) s)
  unfolding poll_chosen answer Picks open_tests Takes Empty
  poll_chosen-Picks true r s h = elim (y.polled s.second) [
    | inl (p, e) ↦ rw p (refl, e, refl)
    | inr (inl ((v, r'), p, e)) ↦ rw p (true, r, r', rw h refl, (e, refl), refl)
    | inr (inr (inl (p, e))) ↦ rw p (inr (inr (inl e)), refl)
    | inr (inr (inr (e, p))) ↦ rw p refl
  ]
  poll_chosen-Picks false r s h = elim (y.polled s.third) [
    | inl (p, e) ↦ rw p (refl, refl, e)
    | inr (inl ((v, r'), p, e)) ↦ rw p (false, r, r', rw h refl, (e, refl), refl)
    | inr (inr (inl (p, e))) ↦ rw p (inr (inr (inr e)), refl)
    | inr (inr (inr (e, p))) ↦ rw p refl
  ]

  -- A state in which the next test was taken from the first stream.
  held_first : Bool → List Ar → IfStream t → IfStream t
  held_first b r s = record s { first = (t.try_poll_next s.first).1; holder = some (b, r) }

  Picks-held_first :
      (b : Bool) (r : List Ar) (s : IfStream t) (p : Polled)
      → open_tests (held_first b r s) ≡ open_tests s
      → Picks (held_first b r s) p
      → Picks s p
  unfolding Picks held_first Takes Empty
  Picks-held_first b r s (pending, s') e (h, hS, hT) = (h ∙ e, hS, hT)
  Picks-held_first b r s (ready none, s') e (inl h, k) = (inl h, k)
  Picks-held_first b r s (ready none, s') e (inr (inl h), k) = (inr (inl (sym e ∙ h)), k)
  Picks-held_first b r s (ready none, s') e (inr (inr h), k) = (inr (inr h), k)
  Picks-held_first b r s (ready (some (err x)), s') e h = h
  Picks-held_first b r s (ready (some (ok (v, returns))), s') e (true, q, r', o, hT, hR) =
      (true, q, r', sym e ∙ o, hT, hR)
  Picks-held_first b r s (ready (some (ok (v, returns))), s') e (false, q, r', o, hT, hR) =
      (false, q, r', sym e ∙ o, hT, hR)

  hold-Picks :
      (s : IfStream t)
      → s.holder ≡ none
      → Picks s
          (hold t (t.try_poll_next s.first).0 (record s { first = (t.try_poll_next s.first).1 }))
  unfolding hold Picks open_tests tests held_first Empty
  hold-Picks s h = elim (y.polled s.first) [
    | inl (p, e) ↦ rw p (rw h (ap tests e), refl, refl)
    | inr (inl ((v, r), p, e)) ↦ rw p (
        Picks-held_first (bool_value n v) r s
          (poll_chosen t (bool_value n v, r) (held_first (bool_value n v) r s)) (rw (h, e) refl)
          (poll_chosen-Picks (bool_value n v) r (held_first (bool_value n v) r s) refl))
    | inr (inr (inl (p, e))) ↦ rw p (inr (inl (rw (h, e) refl)), refl)
    | inr (inr (inr (e, p))) ↦ rw p refl
  ]

  abbrev if_open : Option (Bool × List Ar) → IfStream t → Bool → Polled
  if_open o s b = if b then (ready none, s) else poll_holder t o s

  poll_if_done : (s : IfStream t) → s.done ≡ true → poll_if t s ≡ (ready none, s)
  unfolding poll_if
  poll_if_done s d = ap (if_open s.holder s) d

  poll_if_first :
      (s : IfStream t)
      → s.done ≡ false
      → s.holder ≡ none
      → poll_if t s
        ≡ hold t (t.try_poll_next s.first).0 (record s { first = (t.try_poll_next s.first).1 })
  unfolding poll_if poll_holder
  poll_if_first s d h = ap (if_open s.holder s) d ∙ ap (λ o. poll_holder t o s) h

  poll_if_held :
      (s : IfStream t) (b : Bool) (r : List Ar)
      → s.done ≡ false
      → s.holder ≡ some (b, r)
      → poll_if t s ≡ poll_chosen t (b, r) s
  unfolding poll_if poll_holder
  poll_if_held s b r d h = ap (if_open s.holder s) d ∙ ap (λ o. poll_holder t o s) h

  -- Every poll of an `if` stream either leaves the tests and both streams as they were, when it
  -- waits; or gives the item that the next test chooses, from that test's stream only, with what the
  -- test and the item hand back; or ends, after which it stays ended, because it had ended before or
  -- there was no test or no item in a stream; or ends with an error.
  pub poll_if-Picks : (s : IfStream t) → Picks s (poll_if t s)
  poll_if-Picks s = elim (Bool-cases s.done) [
    | inl d ↦ subst (Picks s) (sym (poll_if_done s d)) (unfold Picks in (inl d, d))
    | inr d ↦ elim (Option-cases s.holder) [
      | inl h ↦ subst (Picks s) (sym (poll_if_first s d h)) (hold-Picks s h)
      | inr ((b, r), h) ↦ subst (Picks s) (sym (poll_if_held s b r d h)) (poll_chosen-Picks b r s h)
    ]
  ]
