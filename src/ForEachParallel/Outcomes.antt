-- ===== src/ForEachParallel/Outcomes.antt =====
-- What a poll of lib/for_each_parallel comes to.
use pewpew.Prelude.{
  ℕ, zero, suc, ◌+◌, ◌*◌, ◌≤◌, ◌<◌, ◌≡◌, refl, ◌⊎◌, inl, inr, Bool, true, false, Option,
  Option-cases, none, some, List, [], ◌∷◌, length, length-append, arith,
}
use pewpew.Channel.Handles.{Poll, ready, pending}
use pewpew.Select.Expression.{Result, ok, err}
use pewpew.ForEachParallel.{
  Tasks, ForEachParallel, pulled, pull, poll_futures, polled, returned, round, rounds, limit_of,
  poll,
}

-- A stream with so many items left at most.
pub record Finite {St StI F E : Type 0} (t : Tasks St StI F E) : Type 0 where
  pub left : St → ℕ
  pub left_next :
      (s : St)
      → (left (t.poll_next s).1 < left s)
        ⊎ ((left (t.poll_next s).1 ≤ left s)
            × (((t.poll_next s).0 ≡ pending)
                ⊎ ((t.poll_next s).0 ≡ ready none)
                ⊎ ((e : E) × ((t.poll_next s).0 ≡ ready (some (err e))))))

poll-cases :
    {A : Type 0} (q : Poll (Option A))
    → (q ≡ pending) ⊎ ((a : A) × (q ≡ ready (some a))) ⊎ (q ≡ ready none)
poll-cases pending = inl refl
poll-cases (ready (some a)) = inr (inl (a, refl))
poll-cases (ready none) = inr (inr refl)

module _ {St StI F E : Type 0} (t : Tasks St StI F E) (b : Finite t) where
  unfoldable pub left_in : Option St → ℕ
  left_in none = 0
  left_in (some st) = b.left st

  -- Every item makes progress at most twice: when it is pulled and when its future ends.
  unfoldable pub work : ForEachParallel t → ℕ
  unfolding left_in
  work s = 2 * left_in s.stream + length s.futures

  poll_futures-length :
      (fs : List F) (e : Option E) (p : Bool)
      → (length (poll_futures t fs e p).0 < length fs)
        ⊎ ((length (poll_futures t fs e p).0 ≡ length fs) × ((poll_futures t fs e p).2 ≡ p))
  unfolding poll_futures
  poll_futures-length [] e p = inr (refl, refl)
  poll_futures-length (f ∷ fs) e p = elim (poll-cases (t.poll_future f).0) [
    | inl h ↦ ground (arith, h, poll_futures-length fs e p)
    | inr (inl (e', h)) ↦ ground (arith, h, poll_futures-length fs (some e') true)
    | inr (inr h) ↦ ground (arith, h, poll_futures-length fs e true)
  ]

  pulled-work :
      (q : Poll (Option (Result E StI))) (st st' : St) (s : ForEachParallel t)
      → s.stream ≡ some st
      → (b.left st' < b.left st)
        ⊎ ((b.left st' ≤ b.left st)
            × ((q ≡ pending) ⊎ (q ≡ ready none) ⊎ ((e : E) × (q ≡ ready (some (err e))))))
      → (((pulled t q st' s).0 ≡ true) × (work (pulled t q st' s).1 < work s))
        ⊎ (((pulled t q st' s).0 ≡ false) × (work (pulled t q st' s).1 ≤ work s))
  unfolding pulled work left_in
  pulled-work (ready (some (ok elem))) st st' s h l =
      ground (arith, h, l, length-append s.futures (t.spawn elem ∷ []))
  pulled-work (ready (some (err e))) st st' s h l = ground (arith, h)
  pulled-work (ready none) st st' s h l = ground (arith, h)
  pulled-work pending st st' s h l = ground (arith, h, l)

  pull-work :
      (limit : ℕ) (s : ForEachParallel t)
      → (((pull t limit s).0 ≡ true) × (work (pull t limit s).1 < work s))
        ⊎ (((pull t limit s).0 ≡ false) × (work (pull t limit s).1 ≤ work s))
  unfolding pull pulled work left_in
  pull-work limit s = elim (Option-cases s.stream) [
    | inl h ↦ ground (arith, h)
    | inr (st, h) ↦
        ground (arith, h, pulled-work (t.poll_next st).0 st (t.poll_next st).1 s h (b.left_next st))
  ]

  polled-work :
      (p : Bool) (s : ForEachParallel t)
      → (work (polled t (p, s)).1 < work s)
        ⊎ ((work (polled t (p, s)).1 ≡ work s) × ((polled t (p, s)).0 ≡ p))
  unfolding polled work
  polled-work p s = ground (arith, poll_futures-length s.futures s.error p)

  returned-work :
      (p : Bool) (s s' : ForEachParallel t) → returned t p s ≡ (none, s') → (p ≡ true) × (s' ≡ s)
  unfolding returned
  returned-work p s s' h = ground (arith, h)

  -- A round that does not return leaves less work.
  round-work :
      (limit : ℕ) (s : ForEachParallel t)
      → (round t limit s).0 ≡ none
      → work (round t limit s).1 < work s
  unfolding round
  round-work limit s h = ground (
    arith,
    h,
    pull-work limit s,
    polled-work (pull t limit s).0 (pull t limit s).1,
    returned-work (polled t (pull t limit s)).0 (polled t (pull t limit s)).1
        (returned t (polled t (pull t limit s)).0 (polled t (pull t limit s)).1).1,
  )

  unfoldable pub is_some : Option St → Bool
  is_some none = false
  is_some (some st) = true

  -- What a poll says of the state that it leaves.
  unfoldable pub Outcome : Poll (Result E Unit) → ForEachParallel t → Type 0
  Outcome (ready (err e)) s = (s.futures ≡ []) × (s.stream ≡ none)
  Outcome (ready (ok u)) s = (s.futures ≡ []) × (s.stream ≡ none) × (s.error ≡ none)
  Outcome pending s = ((0 < length s.futures) ⊎ (is_some s.stream ≡ true)) × (s.error ≡ none)

  returned-Outcome :
      (p : Bool) (s : ForEachParallel t) (r : Poll (Result E Unit))
      → (returned t p s).0 ≡ some r
      → Outcome r (returned t p s).1
  unfolding returned Outcome is_some
  returned-Outcome p s (ready (err e)) h = ground (arith, h)
  returned-Outcome p s (ready (ok u)) h = ground (arith, h)
  returned-Outcome p s pending h = ground (arith, h)

  rounds-Outcome :
      (fuel limit : ℕ) (s : ForEachParallel t)
      → work s < fuel
      → (r : Poll (Result E Unit)) × (s' : ForEachParallel t) × (rounds t fuel limit s
          ≡ some (r, s'))
        × Outcome r s'
  unfolding rounds round
  rounds-Outcome zero limit s h = ground (arith, h)
  rounds-Outcome (suc fuel) limit s h = elim (Option-cases (round t limit s).0) [
    | inl e ↦
        let (r, s', e', o) =
          rounds-Outcome fuel limit (round t limit s).1 (omega (arith, h, round-work limit s e)) in
        (r, s', rw (e, rounds) e', o)
    | inr (r, e) ↦ (
      r,
      (round t limit s).1,
      rw (e, rounds) refl,
      returned-Outcome (polled t (pull t limit s)).0 (polled t (pull t limit s)).1 r e,
    )
  ]

  -- A poll with more fuel than twice the items left and the futures returns. An error or an end
  -- leaves no future and no stream, and an end or a wait no error; it waits only while there is a
  -- future or a stream.
  pub poll-Outcome :
      (limit_fn : Option (ℕ → ℕ)) (fuel : ℕ) (s : ForEachParallel t)
      → work s < fuel
      → (r : Poll (Result E Unit)) × (s' : ForEachParallel t) × (poll t limit_fn fuel s
          ≡ some (r, s'))
        × Outcome r s'
  unfolding poll
  poll-Outcome limit_fn fuel s h = rounds-Outcome fuel (limit_of t limit_fn s) s h

module _ {St StI F E : Type 0} (t : Tasks St StI F E) (b : Finite t) where
  pulled-length :
      (q : Poll (Option (Result E StI))) (st : St) (s : ForEachParallel t)
      → length (pulled t q st s).1.futures ≤ suc (length s.futures)
  unfolding pulled
  pulled-length (ready (some (ok elem))) st s =
      ground (arith, length-append s.futures (t.spawn elem ∷ []))
  pulled-length (ready (some (err e))) st s = omega arith
  pulled-length (ready none) st s = omega arith
  pulled-length pending st s = omega arith

  pull-within :
      (limit : ℕ) (s : ForEachParallel t)
      → 0 < limit
      → length s.futures ≤ limit
      → length (pull t limit s).1.futures ≤ limit
  unfolding pull
  pull-within limit s hl h = elim (Option-cases s.stream) [
    | inl e ↦ ground (arith, e, h)
    | inr (st, e) ↦ ground (arith, e, h, hl, pulled-length (t.poll_next st).0 (t.poll_next st).1 s)
  ]

  round-within :
      (limit : ℕ) (s : ForEachParallel t)
      → 0 < limit
      → length s.futures ≤ limit
      → length (round t limit s).1.futures ≤ limit
  unfolding round polled returned
  round-within limit s hl h = ground (
    arith,
    pull-within limit s hl h,
    poll_futures-length t b (pull t limit s).1.futures (pull t limit s).1.error (pull t limit s).0,
  )

  rounds-within :
      (fuel limit : ℕ) (s s' : ForEachParallel t) (r : Poll (Result E Unit))
      → 0 < limit
      → length s.futures ≤ limit
      → rounds t fuel limit s ≡ some (r, s')
      → length s'.futures ≤ limit
  unfolding rounds
  rounds-within zero limit s s' r hl h e = ground (arith, e)
  rounds-within (suc fuel) limit s s' r hl h e =
      let within = round-within limit s hl h in
      ground (arith, e, within, rounds-within fuel limit (round t limit s).1 s' r hl within)

  -- With a limit above zero, which the futures in hand keep to, and enough fuel, a poll returns and
  -- leaves no more futures than the limit.
  pub poll-within_limit :
      (lf : ℕ → ℕ) (fuel : ℕ) (s : ForEachParallel t)
      → 0 < lf (length s.futures)
      → length s.futures ≤ lf (length s.futures)
      → work t b s < fuel
      → (r : Poll (Result E Unit)) × (s' : ForEachParallel t) × (poll t (some lf) fuel s
          ≡ some (r, s'))
        × (length s'.futures ≤ lf (length s.futures))
  unfolding poll limit_of
  poll-within_limit lf fuel s hl h hf =
      let (r, s', e, o) = poll-Outcome t b (some lf) fuel s hf in
      (r, s', e, rounds-within fuel (lf (length s.futures)) s s' r hl h e)
