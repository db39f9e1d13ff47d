-- ===== src/Channel/Growth.antt =====
-- How `recv` of lib/channel/src/lib.rs raises a dynamic limit.
use pewpew.Prelude.{
  ℕ, zero, suc, ◌+◌, ◌≡◌, ◌≢◌, ◌<◌, ◌≤◌, refl, ap, ap₂, subst, ◌∙◌, inl, inr, Bool, true, false,
  Option, some, List, [], ◌∷◌, map, length, arith, usize_max,
}
use pewpew.Channel.Crates.{Deps}
use pewpew.Channel.{Channel, dynamic, recv}
use pewpew.Channel.Contents.{items}

module _ {T : Type 0} (d : Deps T) where
  -- So many receives, one after the other.
  pub recv_many : ℕ → Channel d → List (Option T) × Channel d
  recv_many zero c = ([], c)
  recv_many (suc n) c =
      let (item, c') = recv d c in let (rest, c'') = recv_many n c' in (item ∷ rest, c'')

  record Dynamic (n : ℕ) (maxed : Bool) (xs : List T) (c : Channel d) : Type 0 where
    limit : c.limit ≡ dynamic n
    has_maxed : c.has_maxed ≡ maxed
    held : items d c ≡ xs

  -- What one receive does where an item is left, and where the last one is taken.
  recv_popped :
      (n : ℕ) (maxed : Bool) (x : T) (xs : List T) (c : Channel d) (rest : d.Queue)
      → Dynamic n maxed (x ∷ xs) c
      → d.items rest ≡ xs
      → d.pop c.queue ≡ some (x, rest)
      → ((recv d c).0 ≡ some x)
        × (xs ≢ [] → length xs + 1 ≢ n → Dynamic n maxed xs (recv d c).1)
        × (xs ≢ [] → length xs + 1 ≡ n → Dynamic n true xs (recv d c).1)
        × (xs ≡ [] → maxed ≡ true → n < usize_max → Dynamic (suc n) false [] (recv d c).1)
  unfolding recv
  recv_popped n maxed x [] c rest s h e = rw e (
    refl,
    λ p. absurd (p refl),
    λ p. absurd (p refl),
    λ p q r. ground (arith, d.len-items rest, ap (λ (t : List T). length t) h),
  )
  recv_popped n maxed x (y ∷ ys) c rest s h e = rw e (
    refl,
    λ p q. ground (arith, d.len-items rest, ap (λ (t : List T). length t) h),
    λ p q. ground (arith, d.len-items rest, ap (λ (t : List T). length t) h),
    λ p. ground arith,
  )

  popped :
      (x : T) (xs : List T) (c : Channel d)
      → items d c ≡ x ∷ xs
      → (rest : d.Queue) × (d.items rest ≡ xs) × (d.pop c.queue ≡ some (x, rest))
  popped x xs c held = elim (d.items-pop c.queue) [
    | inl (empty, _) ↦ ground arith
    | inr (y, rest, h, e) ↦ (rest, ground arith, ground arith)
  ]

  abbrev Drained : ℕ → List T → Channel d → Type 0
  Drained n xs c =
      ((recv_many (length xs) c).0 ≡ map some xs)
      × Dynamic (suc n) false [] (recv_many (length xs) c).1

  -- Below its limit, with the flag up.
  drain_rest :
      (n : ℕ) (x : T) (xs : List T) (c : Channel d)
      → Dynamic n true (x ∷ xs) c
      → length xs + 1 < n
      → n < usize_max
      → Drained n (x ∷ xs) c
  unfolding recv_many
  drain_rest n x [] c v h small =
      let (rest, s, e) = popped x [] c v.held in
      let (out, _, _, last) = recv_popped n true x [] c rest v s e in
      (ap (λ o. o ∷ []) out, last refl refl small)
  drain_rest n x (y ∷ ys) c v h small =
      let (rest, s, e) = popped x (y ∷ ys) c v.held in
      let (out, more, _, _) = recv_popped n true x (y ∷ ys) c rest v s e in
      let (outs, end) =
        drain_rest n y ys (recv d c).1 (more (λ p. cc) (omega arith)) (omega arith) small in
      (ap₂ (λ o os. o ∷ os) out outs, end)

  drain_full :
      (n : ℕ) (x y : T) (ys : List T) (c : Channel d)
      → Dynamic n c.has_maxed (x ∷ y ∷ ys) c
      → length ys + 2 ≡ n
      → n < usize_max
      → Drained n (x ∷ y ∷ ys) c
  unfolding recv_many
  drain_full n x y ys c v size small =
      let (rest, s, e) = popped x (y ∷ ys) c v.held in
      let (out, _, full, _) = recv_popped n c.has_maxed x (y ∷ ys) c rest v s e in
      let (outs, end) =
        drain_rest n y ys (recv d c).1 (full (λ p. cc) (omega arith)) (omega arith) small in
      (ap₂ (λ o os. o ∷ os) out outs, end)

  -- A full channel with a dynamic limit of two or more: as many receives as it has items return them
  -- in order, and leave it empty, with a limit greater by one and the flag down.
  pub recv_many-grows :
      (n : ℕ) (c : Channel d)
      → 2 ≤ n
      → n < usize_max
      → c.limit ≡ dynamic n
      → length (items d c) ≡ n
      → ((recv_many n c).0 ≡ map some (items d c))
        × ((recv_many n c).1.limit ≡ dynamic (n + 1))
        × ((recv_many n c).1.has_maxed ≡ false)
        × (items d (recv_many n c).1 ≡ [])
  recv_many-grows n c two small limit full = go (items d c) refl full
    where
      go :
          (xs : List T)
          → items d c ≡ xs
          → length xs ≡ n
          → ((recv_many n c).0 ≡ map some xs)
            × ((recv_many n c).1.limit ≡ dynamic (n + 1))
            × ((recv_many n c).1.has_maxed ≡ false)
            × (items d (recv_many n c).1 ≡ [])
      go [] held size = absurd (omega arith)
      go (x ∷ []) held size = absurd (omega arith)
      go (x ∷ y ∷ ys) held size =
          let (outs, end) =
            subst
              (λ k.
                ((recv_many k c).0 ≡ map some (x ∷ y ∷ ys))
                × Dynamic (suc n) false [] (recv_many k c).1)
              size
              (drain_full n x y ys c (record { limit = limit; has_maxed = refl; held = held })
                (omega arith) small) in
          (outs, end.limit ∙ ap dynamic (omega arith), end.has_maxed, end.held)
