-- ===== src/LineReader/Buffer.antt =====
-- The line reader's buffer: its data, and the slack behind them.
use pewpew.Prelude.{
  ℕ, zero, suc, ◌+◌, ◌-◌, ◌≤◌, ◌≡◌, refl, sym, ap, ◌∙◌, none, some, List, [], ◌∷◌, ◌++◌,
  append_assoc, length, length-append, take, drop, replicate, length-take, length-drop,
  length-replicate, take-append, take-drop, take_whole, ◌==◌, if◌then◌else◌, arith,
}
use pewpew.LineReader.{kb8, find_newline, resize, raw_value}

-- A text's first line, and what is behind it.
unfoldable pub line : List ℕ → List ℕ
line [] = []
line (b ∷ bs) = let rest = line bs in if b == 10 then [] else b ∷ rest

unfoldable pub after : List ℕ → List ℕ
after [] = []
after (b ∷ bs) = let rest = after bs in if b == 10 then bs else rest

-- A line without what ends it.
unfoldable pub trimmed : List ℕ → List ℕ
unfolding raw_value
trimmed bs = raw_value (length bs) bs

pub find_newline-none : (bs : List ℕ) → find_newline bs ≡ none → (line bs ≡ bs) × (after bs ≡ [])
unfolding find_newline line after
find_newline-none [] h = (refl, refl)
find_newline-none (b ∷ bs) h = ground (arith, h, find_newline-none bs)

pub find_newline-some :
    (bs more : List ℕ) (i : ℕ)
    → find_newline bs ≡ some i
    → (i + 1 ≤ length bs)
      × (line (bs ++ more) ≡ take i bs)
      × (after (bs ++ more) ≡ drop (i + 1) bs ++ more)
unfolding find_newline line after
find_newline-some [] more i h = ground (arith, h)
find_newline-some (b ∷ bs) more zero h = ground (arith, h)
find_newline-some (b ∷ bs) more (suc i) h = ground (arith, h, find_newline-some bs more i)

-- Two buffers that agree on so many bytes give the same line.
pub raw_value-append :
    (i : ℕ) (bs more : List ℕ) → i ≤ length bs → raw_value i (bs ++ more) ≡ raw_value i bs
unfolding raw_value
raw_value-append zero bs more h = refl
raw_value-append (suc i) bs more h =
    rw (take-append (suc i) bs more h, raw_value-append i bs more (omega (arith, h))) refl

length_taken : (n : ℕ) (xs : List ℕ) → length (take n xs) ≡ n - (n - length xs)
length_taken zero xs = omega arith
length_taken (suc n) [] = omega arith
length_taken (suc n) (x ∷ xs) = omega (arith, length_taken n xs)

pub take-take : (k m : ℕ) (xs : List ℕ) → k ≤ m → take k (take m xs) ≡ take k xs
take-take zero m xs h = refl
take-take (suc k) zero xs h = absurd (omega (arith, h))
take-take (suc k) (suc m) [] h = refl
take-take (suc k) (suc m) (x ∷ xs) h = ap (λ ys. x ∷ ys) (take-take k m xs (omega (arith, h)))

pub take-resize :
    (n : ℕ) (xs ys : List ℕ) → length xs ≤ n → take (length xs) (resize n (xs ++ ys)) ≡ xs
unfolding resize
take-resize n xs ys h =
    take-append (length xs) (take n (xs ++ ys)) (replicate (n - length (xs ++ ys)) 0)
      (omega (arith, h, length_taken n (xs ++ ys), length-append xs ys))
    ∙ take-take (length xs) n (xs ++ ys) h
    ∙ take_whole xs ys

pub length-resize : (n : ℕ) (xs : List ℕ) → length (resize n xs) ≡ n
unfolding resize
length-resize n xs = omega (
  arith,
  length-append (take n xs) (replicate (n - length xs) 0),
  length_taken n xs,
  length-replicate {A = ℕ} (n - length xs) 0,
)

pub drop-take : (k n : ℕ) (xs : List ℕ) → k ≤ n → take (n - k) (drop k xs) ≡ drop k (take n xs)
drop-take zero n xs h = ap (λ m. take m xs) (omega arith)
drop-take (suc k) zero xs h = absurd (omega (arith, h))
drop-take (suc k) (suc n) [] h = take_nil (suc n - suc k)
  where
    take_nil : (m : ℕ) → take {A = ℕ} m [] ≡ []
    take_nil zero = refl
    take_nil (suc m) = refl
drop-take (suc k) (suc n) (x ∷ xs) h =
    ap (λ m. take m (drop k xs)) (omega arith) ∙ drop-take k n xs (omega (arith, h))

pub trimmed-take : (i : ℕ) (bs : List ℕ) → i ≤ length bs → trimmed (take i bs) ≡ raw_value i bs
unfolding trimmed
trimmed-take i bs h =
    ap (λ k. raw_value k (take i bs)) (length-take i bs h)
    ∙ sym (raw_value-append i (take i bs) (drop i bs) (omega (arith, length-take i bs h)))
    ∙ ap (raw_value i) (take-drop i bs)

kept :
    (n m : ℕ) (buffer : List ℕ)
    → n ≤ length buffer
    → n ≤ m
    → take n (resize m buffer) ≡ take n buffer
kept n m buffer h k =
    ap (λ bs. take n (resize m bs)) (sym (take-drop n buffer))
    ∙ ap (λ j. take j (resize m (take n buffer ++ drop n buffer))) (sym (length-take n buffer h))
    ∙ take-resize m (take n buffer) (drop n buffer) (omega (arith, k, length-take n buffer h))

-- The data in the buffer, once bytes are read behind the `n` that it holds.
pub data_filled :
    (n : ℕ) (bs buffer : List ℕ)
    → n ≤ length buffer
    → take
        (n + length bs)
        (take n (resize (kb8 + n) buffer) ++ (bs ++ drop (n + length bs) (resize (kb8 + n) buffer)))
      ≡ take n buffer ++ bs
data_filled n bs buffer h =
    let size =
      length-take n (resize (kb8 + n) buffer) (omega (arith, length-resize (kb8 + n) buffer)) in
    let slack = drop (n + length bs) (resize (kb8 + n) buffer) in
    let xs = take n (resize (kb8 + n) buffer) in
    let xs_same : xs ≡ take n buffer = kept n (kb8 + n) buffer (omega (arith, h)) (omega arith) in
    ap (take (n + length bs)) (sym (append_assoc xs bs slack))
    ∙ ap (λ k. take k ((xs ++ bs) ++ slack)) (omega (arith, size, length-append xs bs))
    ∙ take_whole (xs ++ bs) slack
    ∙ ap (λ ys. ys ++ bs) xs_same

pub length_filled :
    (n : ℕ) (bs buffer : List ℕ)
    → length bs ≤ kb8
    → length
        (take n (resize (kb8 + n) buffer) ++ (bs ++ drop (n + length bs) (resize (kb8 + n) buffer)))
      ≡ n + length bs + (kb8 - length bs)
length_filled n bs buffer h =
    let r = resize (kb8 + n) buffer in
    omega (
      arith,
      h,
      length-resize (kb8 + n) buffer,
      length-take n r (omega (arith, length-resize (kb8 + n) buffer)),
      length-drop (n + length bs) r,
      length-append (take n r) (bs ++ drop (n + length bs) r),
      length-append bs (drop (n + length bs) r),
    )
