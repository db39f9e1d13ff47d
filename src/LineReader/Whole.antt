-- ===== src/LineReader/Whole.antt =====
-- A file that is read by `next` until it ends.
use pewpew.Prelude.{
  ℕ, ◌+◌, ◌≤◌, ◌<◌, ◌≡◌, ◌≢◌, refl, sym, ap, subst, ◌∙◌, false, none, some, List, [], ◌∷◌, ◌++◌,
  map, length, length-append, take, take_whole, append-nil, All, arith,
}
use pewpew.Select.Expression.{ok, err}
use pewpew.LineReader.{Files, LineReader, kb8, find_newline, ends_line, raw_value, Got, get_value}
use pewpew.LineReader.Values.{value_of, next_value, next}
use pewpew.LineReader.Buffer.{line, after, trimmed}
use pewpew.LineReader.Lines.{Reads, pending, Valid, Outcome}
use pewpew.LineReader.Rounds.{get_value-Outcome}

-- A text with one line feed behind each line.
unfoldable pub unlines : List (List ℕ) → List ℕ
unlines [] = []
unlines (l ∷ ls) = l ++ 10 ∷ unlines ls

-- A line that has no line feed and does not end with what is trimmed off.
unfoldable pub IsClean : List ℕ → Type 0
IsClean l = (find_newline l ≡ none) × (ends_line l ≡ false)

first_line :
    (l rest : List ℕ)
    → find_newline l ≡ none
    → (line (l ++ 10 ∷ rest) ≡ l) × (after (l ++ 10 ∷ rest) ≡ rest)
unfolding line after find_newline
first_line [] rest h = (refl, refl)
first_line (b ∷ l) rest h = ground (arith, h, first_line l rest)

taken : (l : List ℕ) → take (length l) l ≡ l
taken l = ap (take (length l)) (sym (append-nil l)) ∙ take_whole l []

trimmed_clean : (l : List ℕ) → ends_line l ≡ false → trimmed l ≡ l
unfolding trimmed raw_value
trimmed_clean [] h = refl
trimmed_clean (b ∷ l) h = rw (taken l, h) refl

some_text : (l rest : List ℕ) → l ++ 10 ∷ rest ≢ []
some_text l rest e = omega (arith, ap length e, length-append l (10 ∷ rest))

longer : (l rest : List ℕ) → length rest < length (l ++ 10 ∷ rest)
longer l rest = omega (arith, length-append l (10 ∷ rest))

module _ (f : Files) {V : Type 0} (to_value : List ℕ → V) (reads : Reads f) where
  -- A reader gives the values, one for each `next`, and then nothing. Nothing is drawn.
  unfoldable pub Gives : ℕ → List V → LineReader f → Type 0
  Gives fuel [] lr = (lr' : LineReader f) × (next f to_value fuel 0 lr ≡ some (none, lr'))
  Gives fuel (v ∷ vs) lr =
      (lr' : LineReader f) × (next f to_value fuel 0 lr ≡ some (some (ok v), lr'))
      × Gives fuel vs lr'

  next_none :
      (fuel : ℕ) (lr lr' : LineReader f)
      → lr.random ≡ none
      → get_value f to_value fuel none lr ≡ some (none, lr')
      → lr'.repeat ≡ false
      → next f to_value fuel 0 lr ≡ some (none, lr')
  unfolding next next_value
  next_none fuel lr lr' h e r = rw (next, h, next_value, e, r) refl

  next_some :
      (fuel : ℕ) (lr lr' : LineReader f) (v : V) (position size : ℕ)
      → lr.random ≡ none
      → get_value f to_value fuel none lr ≡ some (some (ok (v, position, size)), lr')
      → next f to_value fuel 0 lr ≡ some (some (ok v), lr')
  unfolding next next_value value_of
  next_some fuel lr lr' v position size h e = rw (next, h, next_value, e) refl

  -- Reads never fail.
  abbrev pub Readable : Type 0
  Readable = (r : f.Reader) (e : f.Error) → (f.read r kb8).0 ≢ err e

  -- A reader that goes through the file once, with fuel for what is to come.
  unfoldable pub Once : ℕ → List (List ℕ) → LineReader f → Type 0
  unfolding unlines pending Valid
  Once fuel ls lr =
      (pending f to_value reads lr ≡ unlines ls)
      × Valid f to_value reads lr
      × (lr.random ≡ none)
      × (lr.repeat ≡ false)
      × (length (unlines ls) + 2 ≤ fuel)

  give_row :
      (fuel : ℕ) (l : List ℕ) (ls : List (List ℕ)) (lr : LineReader f) (got : Got f to_value)
      → Readable
      → IsClean l
      → Once fuel (l ∷ ls) lr
      → ((lr' : LineReader f) → Once fuel ls lr' → Gives fuel (map to_value ls) lr')
      → get_value f to_value fuel none lr ≡ some got
      → Outcome f to_value reads lr.position (unlines (l ∷ ls)) lr got
      → Gives fuel (to_value l ∷ map to_value ls) lr
  unfolding Gives IsClean Once unlines Outcome
  give_row fuel l ls lr (none, lr') readable clean once further e (nothing, _, _, _, _, _) =
      absurd (some_text l (unlines ls) nothing)
  give_row fuel l ls lr (some (err x), lr') readable clean once further e (_, r, p) =
      absurd (readable r x p)
  give_row fuel l ls lr (some (ok (v, position, size)), lr') readable (none_in, trim)
        (text, valid, h, k, enough) further e (_, same, _, _, behind, valid', _, random, repeat) =
      let (first, rest) = first_line l (unlines ls) none_in in
      (
        lr',
        next_some fuel lr lr' v position size h e
            ∙ ap (λ w. some (some (ok w), lr'))
                (same ∙ ap to_value (ap trimmed first ∙ trimmed_clean l trim)),
        further lr' (
          behind ∙ rest,
          valid',
          random ∙ h,
          repeat ∙ k,
          omega (arith, enough, longer l (unlines ls)),
        ),
      )

  give_end :
      (fuel : ℕ) (lr : LineReader f) (got : Got f to_value)
      → Readable
      → Once fuel [] lr
      → get_value f to_value fuel none lr ≡ some got
      → Outcome f to_value reads lr.position [] lr got
      → Gives fuel [] lr
  unfolding Gives Once Outcome
  give_end fuel lr (none, lr') readable (_, _, h, k, _) e (_, _, _, _, _, repeat) =
      (lr', next_none fuel lr lr' h e (repeat ∙ k))
  give_end fuel lr (some (err x), lr') readable once e (_, r, p) = absurd (readable r x p)
  give_end fuel lr (some (ok (v, position, size)), lr') readable once e
        (not_empty, _, _, _, _, _, _, _, _) =
      absurd (not_empty refl)

  left_fits :
      (fuel : ℕ) (lr : LineReader f) {size : ℕ}
      → length (pending f to_value reads lr) ≡ size
      → size + 2 ≤ fuel
      → length (reads.left lr.reader) + 2 ≤ fuel
  unfolding pending
  left_fits fuel lr e h =
      omega
        (arith, e, h, length-append (take lr.buf_data_len lr.byte_buffer) (reads.left lr.reader))

  -- A file that is written with one line feed behind each line, none of which has a line feed or ends
  -- with a carriage return, is read back line by line, in order and to its end, by a reader that goes
  -- through it once, whatever pieces the reads give, if none of them fails.
  pub next-unlines :
      (fuel : ℕ) (ls : List (List ℕ)) (lr : LineReader f)
      → Readable
      → All IsClean ls
      → Once fuel ls lr
      → Gives fuel (map to_value ls) lr
  unfolding Once
  next-unlines fuel [] lr readable clean once =
      let (text, valid, _, _, enough) = once in
      let (got, e, out) =
        get_value-Outcome f to_value reads fuel lr valid
          (left_fits fuel lr (ap length text) enough) in
      give_end fuel lr got readable once e
        (subst (λ t. Outcome f to_value reads lr.position t lr got) text out)
  next-unlines fuel (l ∷ ls) lr readable (clean, cleans) once =
      let (text, valid, _, _, enough) = once in
      let (got, e, out) =
        get_value-Outcome f to_value reads fuel lr valid
          (left_fits fuel lr (ap length text) enough) in
      give_row fuel l ls lr got readable clean once
        (λ lr' once'. next-unlines fuel ls lr' readable cleans once') e
        (subst (λ t. Outcome f to_value reads lr.position t lr got) text out)
