-- ===== src/SelectAny/Turns.antt =====
-- The turns that the streams take.
use pewpew.Prelude.{
  ℕ, zero, suc, ◌+◌, ◌-◌, ◌%◌, ◌≤◌, ◌<◌, ◌≡◌, ◌≢◌, ◌⊎◌, refl, ap, ◌∙◌, subst, inl, inr, Option,
  none, some, List, [], ◌∷◌, length, get_elem?, ◌==◌, ltb, Bool-cases, ltb→lt, ltb→le,
  if◌then◌else◌, arith,
}
use native.Mathlib.Nat.{mod-eq_of_lt, mod-eq-sub-mod}
use pewpew.Channel.Handles.{Poll, ready, pending}
use pewpew.SelectAny.{SelectAny, put_elem, take_turn, turn_at, take_turns, poll_any}

length-put_elem : {T : Type 0} (i : ℕ) (t : T) (xs : List T) → length (put_elem i t xs) ≡ length xs
unfolding put_elem
length-put_elem i t [] = refl
length-put_elem zero t (x ∷ xs) = refl
length-put_elem (suc i) t (x ∷ xs) = ap (λ n. suc n) (length-put_elem i t xs)

get_elem?-put_elem :
    {T : Type 0} (i j : ℕ) (t : T) (xs : List T)
    → i ≢ j
    → get_elem? (put_elem i t xs) j ≡ get_elem? xs j
unfolding put_elem
get_elem?-put_elem i j t [] h = refl
get_elem?-put_elem zero zero t (x ∷ xs) h = absurd (h refl)
get_elem?-put_elem zero (suc j) t (x ∷ xs) h = refl
get_elem?-put_elem (suc i) zero t (x ∷ xs) h = refl
get_elem?-put_elem (suc i) (suc j) t (x ∷ xs) h =
    get_elem?-put_elem i j t xs (λ e. h (ap (λ n. suc n) e))

get_elem?_within :
    {T : Type 0} (xs : List T) (i : ℕ) → i < length xs → (t : T) × (get_elem? xs i ≡ some t)
get_elem?_within [] i h = absurd (omega (arith, h))
get_elem?_within (x ∷ xs) zero h = (x, refl)
get_elem?_within (x ∷ xs) (suc i) h = get_elem?_within xs i (omega (arith, h))

-- The stream whose turn comes after so many others.
unfoldable pub turn : ℕ → ℕ → ℕ → ℕ
turn n last i = if ltb (i + (last + 1)) n then i + (last + 1) else i + (last + 1) - n

mod-turn : (n last i : ℕ) → last < n → i < n → (i + (last + 1)) % n ≡ turn n last i
unfolding turn
mod-turn n last i h k = elim (Bool-cases (ltb (i + (last + 1)) n)) [
  | inl m ↦ rw m (mod-eq_of_lt (ltb→lt (i + (last + 1)) n m))
  | inr m ↦ rw m (
      mod-eq-sub-mod (ltb→le (i + (last + 1)) n m)
      ∙ mod-eq_of_lt (omega (arith, h, k, ltb→le (i + (last + 1)) n m)))
]

turn_within : (n last i : ℕ) → last < n → i < n → turn n last i < n
unfolding turn
turn_within n last i h k = ground (arith, h, k)

turn_apart : (n last i j : ℕ) → last < n → j < n → i < j → turn n last i ≢ turn n last j
unfolding turn
turn_apart n last i j h k m e = ground (arith, h, k, m, e)

module _ {T A : Type 0} (poll : T → Poll (Option A) × T) where
  -- What the stream at an index gave when it was polled: an item, or its end.
  abbrev Gives : List T → ℕ → A → Type 0
  Gives elems j v = (t : T) × (get_elem? elems j ≡ some t) × ((poll t).0 ≡ ready (some v))

  abbrev Ends : List T → ℕ → Type 0
  Ends elems j = (t : T) × (get_elem? elems j ≡ some t) × ((poll t).0 ≡ ready none)

  abbrev Waits : List T → ℕ → Type 0
  Waits elems j = (t : T) × (get_elem? elems j ≡ some t) × ((poll t).0 ≡ pending)

  -- The streams whose turn comes before this one give no item; so many of them have ended.
  unfoldable pub PassedOver : List T → ℕ → ℕ → ℕ → Type 0
  PassedOver elems last zero done_count = done_count ≡ 0
  PassedOver elems last (suc i) done_count =
      (Waits elems (turn (length elems) last i) × PassedOver elems last i done_count)
      ⊎ (Ends elems (turn (length elems) last i)
          × (before : ℕ) × (done_count ≡ before + 1)
          × PassedOver elems last i before)

  -- What a poll comes to: the item of the first stream in turn that has one, which has its turn last
  -- from then on; or the end if all have ended, and a wait if not.
  unfoldable pub Outcome : List T → ℕ → Poll (Option A) × SelectAny T → Type 0
  unfolding PassedOver
  Outcome elems last (ready (some v), s) =
      (i : ℕ) × (done_count : ℕ) × (i < length elems)
      × PassedOver elems last i done_count
      × Gives elems (turn (length elems) last i) v
      × (s.last_yield_index ≡ turn (length elems) last i)
  Outcome elems last (ready none, s) =
      PassedOver elems last (length elems) (length elems) × (s.last_yield_index ≡ last)
  Outcome elems last (pending, s) =
      (done_count : ℕ) × PassedOver elems last (length elems) done_count
      × (done_count ≢ length elems)
      × (s.last_yield_index ≡ last)

  -- Streams that have not had their turn are as they were.
  abbrev AsBefore : List T → ℕ → ℕ → List T → Type 0
  AsBefore elems last i now =
      (length now ≡ length elems)
      × ((j : ℕ)
          → i ≤ j
          → j < length elems
          → get_elem? now (turn (length elems) last j)
            ≡ get_elem? elems (turn (length elems) last j))

  AsBefore-put_elem :
      (elems now : List T) (last i : ℕ) (t : T)
      → last < length elems
      → i < length elems
      → AsBefore elems last i now
      → AsBefore elems last (suc i) (put_elem (turn (length elems) last i) t now)
  AsBefore-put_elem elems now last i t h k (e, f) = (
    length-put_elem (turn (length elems) last i) t now ∙ e,
    λ j l m.
        get_elem?-put_elem (turn (length elems) last i) (turn (length elems) last j) t now
          (turn_apart (length elems) last i j h m (omega (arith, l)))
        ∙ f j (omega (arith, l)) m,
  )

  take_turn-Outcome :
      (again : ℕ → List T → Poll (Option A) × SelectAny T) (i last done_count : ℕ)
      (elems now : List T) (t t' : T) (p : Poll (Option A))
      → last < length elems
      → i < length elems
      → PassedOver elems last i done_count
      → AsBefore elems last i now
      → get_elem? elems (turn (length elems) last i) ≡ some t
      → (poll t).0 ≡ p
      → ((done_count : ℕ) (now : List T)
          → PassedOver elems last (suc i) done_count
          → AsBefore elems last (suc i) now
          → Outcome elems last (again done_count now))
      → Outcome elems last
          (take_turn poll again (turn (length elems) last i) done_count last now (p, t'))
  unfolding take_turn Outcome PassedOver
  take_turn-Outcome again i last done_count elems now t t' (ready (some v)) h k p a e f rec =
      (i, done_count, k, p, (t, e, f), refl)
  take_turn-Outcome again i last done_count elems now t t' (ready none) h k p a e f rec =
      rec (done_count + 1) _ (inr ((t, e, f), done_count, refl, p))
        (AsBefore-put_elem elems now last i t' h k a)
  take_turn-Outcome again i last done_count elems now t t' pending h k p a e f rec =
      rec done_count _ (inl ((t, e, f), p)) (AsBefore-put_elem elems now last i t' h k a)

  turns_over :
      (i last done_count : ℕ) (elems now : List T)
      → i ≡ length elems
      → PassedOver elems last i done_count
      → length now ≡ length elems
      → Outcome elems last (take_turns poll 0 i last done_count now)
  unfolding take_turns Outcome
  turns_over i last done_count elems now k p e =
      let p' = subst (λ j. PassedOver elems last j done_count) k p in
      elim (Bool-cases (done_count == length elems)) [
        | inl m ↦
            rw (e, m)
              (subst (λ d. PassedOver elems last (length elems) d) (ground (arith, m)) p', refl)
        | inr m ↦ rw (e, m) (done_count, p', (λ d. ground (arith, m, d)), refl)
      ]

  take_turns-Outcome :
      (left i last done_count : ℕ) (elems now : List T)
      → last < length elems
      → i + left ≡ length elems
      → PassedOver elems last i done_count
      → AsBefore elems last i now
      → Outcome elems last (take_turns poll left i last done_count now)
  unfolding take_turns turn_at
  take_turns-Outcome zero i last done_count elems now h k p (e, f) =
      turns_over i last done_count elems now (omega (arith, k)) p e
  take_turns-Outcome (suc left) i last done_count elems now h k p (e, f) =
      let within : i < length elems = omega (arith, k) in
      let (t, g) =
        get_elem?_within elems (turn (length elems) last i)
          (turn_within (length elems) last i h within) in
      rw (e, mod-turn (length elems) last i h within, f i (omega arith) within ∙ g)
        (take_turn-Outcome (take_turns poll left (suc i) last) i last done_count elems now t
          (poll t).1 (poll t).0 h within p (e, f) g refl
          (λ d n q b. take_turns-Outcome left (suc i) last d elems n h (omega (arith, k)) q b))

  -- Where the last item was of one of the streams, a poll asks them in turn from the one behind it,
  -- each as it was. It gives the first item there is, and has that stream take its turn last next
  -- time; without one it ends if all the streams have ended, and else it waits.
  pub poll_any-Outcome :
      (s : SelectAny T)
      → s.last_yield_index < length s.elems
      → Outcome s.elems s.last_yield_index (poll_any poll s)
  unfolding poll_any PassedOver
  poll_any-Outcome s h =
      take_turns-Outcome (length s.elems) 0 s.last_yield_index 0 s.elems s.elems h (omega arith)
        refl (refl, λ j l m. refl)
