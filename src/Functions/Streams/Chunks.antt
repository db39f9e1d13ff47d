-- ===== src/Functions/Streams/Chunks.antt =====
-- What the stream of `collect` makes of the values of its argument's stream.
use pewpew.Prelude.{
  ℕ, zero, suc, ◌<◌, ◌≡◌, refl, subst, sym, ap, ◌∙◌, inl, inr, Bool-cases, true, false, Option,
  none, some, List, [], ◌∷◌, ◌++◌, append_assoc, append-nil, length, length-append, ◌==◌,
  if◌then◌else◌, arith,
}
use pewpew.Channel.Handles.{Poll, ready, pending}
use pewpew.Select.Json.{Numbers, Value, array}
use pewpew.Select.Expression.{Result, ok, err}
use pewpew.ZipAll.{TryStream}
use pewpew.ZipAll.Lockstep.{Yields}
use pewpew.Functions.Sequences.{to_items}
use pewpew.Functions.Streams.{
  Filling, CollectStream, push, hand_over, take_arg, fill, filling, poll_collect,
}

module _ {n : Numbers} {S Ar E : Type 0} (t : TryStream S (Value n × List Ar) E)
    (y : Yields t) where
  abbrev Collected : Type 0
  Collected = Poll (Option (Result E (Value n × List Ar))) × CollectStream t

  unfoldable pub values : List (Value n × List Ar) → List (Value n)
  values [] = []
  values ((v, returns) ∷ vs) = v ∷ values vs

  unfoldable pub handed_back : List (Value n × List Ar) → List Ar
  handed_back [] = []
  handed_back ((v, returns) ∷ vs) = returns ++ handed_back vs

  -- The values of the first vector and stream are those of the second, with the same things to hand
  -- back.
  unfoldable pub Keeps : List (Value n) × List Ar → S → List (Value n) × List Ar → S → Type 0
  unfolding values handed_back
  Keeps (vs, rs) st (vs', rs') st' =
      (vs ++ values (y.items st) ≡ vs' ++ values (y.items st'))
      × (rs ++ handed_back (y.items st) ≡ rs' ++ handed_back (y.items st'))

  -- What a poll makes of a vector that is not full.
  unfoldable pub Collects : Filling t → S → Collected → Type 0
  unfolding Keeps to_items
  Collects f st (pending, s) =
      (f' : Filling t) × (s.value ≡ some f')
      × (f'.capacity ≡ f.capacity)
      × (length f'.jsons < f'.capacity)
      × Keeps (f.jsons, f.returns) st (f'.jsons, f'.returns) s.arg_stream
  Collects f st (ready none, s) =
      (f' : Filling t) × (s.value ≡ some f')
      × (f'.jsons ≡ f.jsons ++ values (y.items st))
      × (f'.returns ≡ f.returns ++ handed_back (y.items st))
      × (length f'.jsons < f.capacity)
  Collects f st (ready (some (err e)), s) =
      (f' : Filling t) × (s.value ≡ some f')
      × (rest : List (Value n × List Ar)) × (f.jsons ++ values (y.items st)
          ≡ f'.jsons ++ values rest)
      × (f.returns ++ handed_back (y.items st) ≡ f'.returns ++ handed_back rest)
      × (s.errored ≡ true)
  Collects f st (ready (some (ok (v, returns))), s) =
      (vs : List (Value n)) × (v ≡ array (to_items vs))
      × (length vs ≡ f.capacity)
      × (s.value ≡ none)
      × Keeps (f.jsons, f.returns) st (vs, returns) s.arg_stream

  module _ (with_capacity grow : ℕ → ℕ) where
    -- A vector that is not full takes a value without growing.
    pushed : Value n → List Ar → Filling t → Filling t
    pushed v returns f = record {
      jsons = f.jsons ++ v ∷ [];
      capacity = f.capacity;
      returns = f.returns ++ returns;
    }

    push_room :
        (v : Value n) (returns : List Ar) (f : Filling t)
        → length f.jsons < f.capacity
        → push t with_capacity grow v returns f ≡ pushed v returns f
    unfolding push pushed
    push_room v returns f h = ground (arith, h)

    Keeps-pushed :
        (v : Value n) (r : List Ar) (vs : List (Value n)) (rs : List Ar) (st st' s : S)
        (b : List (Value n) × List Ar)
        → y.items st ≡ (v, r) ∷ y.items st'
        → Keeps (vs ++ v ∷ [], rs ++ r) st' b s
        → Keeps (vs, rs) st b s
    unfolding Keeps values handed_back
    Keeps-pushed v r vs rs st st' s (vs', rs') e (hv, hr) = rw e (
      sym (append_assoc vs (v ∷ []) (values (y.items st'))) ∙ hv,
      sym (append_assoc rs r (handed_back (y.items st'))) ∙ hr,
    )

    Collects-pushed :
        (v : Value n) (r : List Ar) (f : Filling t) (st st' : S) (c : Collected)
        → y.items st ≡ (v, r) ∷ y.items st'
        → Collects (pushed v r f) st' c
        → Collects f st c
    unfolding Collects pushed values handed_back
    Collects-pushed v r f st st' (pending, s) e (f', hv, hc, hl, hk) = (
      f',
      hv,
      hc,
      hl,
      Keeps-pushed v r f.jsons f.returns st st' s.arg_stream (f'.jsons, f'.returns) e hk,
    )
    Collects-pushed v r f st st' (ready none, s) e (f', hv, hj, hr, hl) = (
      f',
      hv,
      rw e (hj ∙ append_assoc f.jsons (v ∷ []) (values (y.items st'))),
      rw e (hr ∙ append_assoc f.returns r (handed_back (y.items st'))),
      hl,
    )
    Collects-pushed v r f st st' (ready (some (err x)), s) e (f', hv, rest, hj, hr, he) = (
      f',
      hv,
      rest,
      rw e (sym (append_assoc f.jsons (v ∷ []) (values (y.items st'))) ∙ hj),
      rw e (sym (append_assoc f.returns r (handed_back (y.items st'))) ∙ hr),
      he,
    )
    Collects-pushed v r f st st' (ready (some (ok (v', rs'))), s) e (vs, hv, hl, hn, hk) =
        (vs, hv, hl, hn, Keeps-pushed v r f.jsons f.returns st st' s.arg_stream (vs, rs') e hk)

    -- The state in which a full vector is handed over.
    full : Filling t → S → Collected
    full f st = (
      ready (some (ok (array (to_items f.jsons), f.returns))),
      record { value = none; arg_stream = st; errored = false },
    )

    hand_over-full :
        (again : Filling t → S → Option Collected) (f : Filling t) (st : S)
        → (length f.jsons == f.capacity) ≡ true
        → hand_over t with_capacity grow again f st ≡ some (full f st)
    unfolding hand_over full
    hand_over-full again f st q = rw (hand_over, q) refl

    hand_over_room :
        (again : Filling t → S → Option Collected) (f : Filling t) (st : S)
        → (length f.jsons == f.capacity) ≡ false
        → hand_over t with_capacity grow again f st ≡ again f st
    unfolding hand_over
    hand_over_room again f st q = rw (hand_over, q) refl

    take_arg_push :
        (again : Filling t → S → Option Collected) (f : Filling t) (st : S) (v : Value n)
        (r : List Ar)
        → length f.jsons < f.capacity
        → take_arg t with_capacity grow again f (ready (some (ok (v, r)))) st
          ≡ hand_over t with_capacity grow again (pushed v r f) st
    unfolding take_arg
    take_arg_push again f st v r h =
        ap (λ f'. hand_over t with_capacity grow again f' st) (push_room v r f h)

    room_left :
        (vs : List (Value n)) (v : Value n) (capacity : ℕ)
        → length vs < capacity
        → (length (vs ++ v ∷ []) == capacity) ≡ false
        → length (vs ++ v ∷ []) < capacity
    room_left vs v capacity h q = ground (arith, h, q, length-append vs (v ∷ []))

    same_size : (a b : ℕ) → (a == b) ≡ true → a ≡ b
    same_size a b q = ground (arith, q)

    fewer :
        (items : List (Value n × List Ar)) (item : Value n × List Ar)
        (rest : List (Value n × List Ar)) (fuel : ℕ)
        → items ≡ item ∷ rest
        → length items < suc fuel
        → length rest < fuel
    fewer items item rest fuel e k = omega (arith, subst (λ i. length i < suc fuel) e k)

    fill-Collects :
        (fuel : ℕ) (f : Filling t) (st : S)
        → length f.jsons < f.capacity
        → length (y.items st) < fuel
        → (c : Collected) × (fill t with_capacity grow fuel f st ≡ some c) × Collects f st c
    unfolding fill take_arg Collects Keeps full pushed values handed_back
    fill-Collects zero f st h k = absurd (omega (arith, k))
    fill-Collects (suc fuel) f st h k =
        let again = fill t with_capacity grow fuel in
        let st' = (t.try_poll_next st).1 in
        elim (y.polled st) [
          | inl (p, e) ↦ (
            (pending, record { value = some f; arg_stream = st'; errored = false }),
            ap (λ q. take_arg t with_capacity grow again f q st') p,
            (f, refl, refl, h, rw e (refl, refl)),
          )
          | inr (inl ((v, r), p, e)) ↦
              let eq =
                ap (λ q. take_arg t with_capacity grow again f q st') p
                ∙ take_arg_push again f st' v r h in
              elim (Bool-cases (length (f.jsons ++ v ∷ []) == f.capacity)) [
                | inl q ↦ (
                  full (pushed v r f) st',
                  eq ∙ hand_over-full again (pushed v r f) st' q,
                  Collects-pushed v r f st st' (full (pushed v r f) st') e (
                    f.jsons ++ v ∷ [],
                    refl,
                    same_size (length (f.jsons ++ v ∷ [])) f.capacity q,
                    refl,
                    (refl, refl),
                  ),
                )
                | inr q ↦
                    let (c, ec, hc) =
                      fill-Collects fuel (pushed v r f) st' (room_left f.jsons v f.capacity h q)
                        (fewer (y.items st) (v, r) (y.items st') fuel e k) in
                    (
                      c,
                      eq ∙ hand_over_room again (pushed v r f) st' q ∙ ec,
                      Collects-pushed v r f st st' c e hc,
                    )
              ]
          | inr (inr (inl (p, e))) ↦ (
            (ready none, record { value = some f; arg_stream = st'; errored = false }),
            ap (λ q. take_arg t with_capacity grow again f q st') p,
            (f, refl, rw e (sym (append-nil f.jsons)), rw e (sym (append-nil f.returns)), h),
          )
          | inr (inr (inr (x, p))) ↦ (
            (ready (some (err x)), record { value = some f; arg_stream = st'; errored = true }),
            ap (λ q. take_arg t with_capacity grow again f q st') p,
            (f, refl, y.items st, refl, refl, refl),
          )
        ]

    -- A poll of a `collect` stream that has not failed, whose vector is not full and whose argument's
    -- stream gives finitely many values returns, in at most one round more than these. If it waits,
    -- the vector, which is not full, and what is left to take are what was in the vector and to be
    -- taken, in that order; if it gives an array, this has as many values as the vector was made for,
    -- and the same holds of it; if it ends, the vector has all that was to be taken and is not full;
    -- and after an error it is marked as failed, and its vector has the first of what was in it and to
    -- be taken. What the values hand back goes with them.
    pub poll_collect-Collects :
        (fuel drawn : ℕ) (s : CollectStream t)
        → s.errored ≡ false
        → length (filling t with_capacity grow drawn s.value).jsons
          < (filling t with_capacity grow drawn s.value).capacity
        → length (y.items s.arg_stream) < fuel
        → (c : Collected) × (poll_collect t with_capacity grow fuel drawn s ≡ some c)
          × Collects (filling t with_capacity grow drawn s.value) s.arg_stream c
    unfolding poll_collect
    poll_collect-Collects fuel drawn s e h k =
        let f = filling t with_capacity grow drawn s.value in
        let (c, ec, hc) = fill-Collects fuel f s.arg_stream h k in
        (
          c,
          ap
                (λ b.
                  if b
                  then some (ready none, record s { value = some f })
                  else fill t with_capacity grow fuel f s.arg_stream)
                e
              ∙ ec,
          hc,
        )
