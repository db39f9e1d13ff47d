-- ===== src/LineReader/Tests.antt =====
-- The line reader on a file that is a list of bytes.
use pewpew.Prelude.{
  ℕ, ◌≤◌, ◌<◌, ◌≡◌, refl, ◌⊎◌, inl, true, false, none, some, List, [], ◌∷◌, ◌++◌, length, take,
  drop, ◌==◌, arith,
}
use pewpew.Select.Expression.{Result, ok, err}
use pewpew.LineReader.{Files, LineReader, Got, get_value, find_newline, ends_line}
use pewpew.LineReader.Values.{}
use pewpew.LineReader.Lines.{Reads, pending, Valid, Outcome}
use pewpew.LineReader.Rounds.{get_value-Outcome}
use pewpew.LineReader.Whole.{unlines, IsClean, Readable, Once, Gives, next-unlines}

data Never : Type 0 where

-- A read gives one byte.
unfoldable read_byte : List ℕ → ℕ → Result Never (List ℕ) × List ℕ
read_byte [] n = (ok [], [])
read_byte (b ∷ r) n = (ok (b ∷ []), r)

abbrev bytes : Files
bytes = record {
  Error = Never;
  Reader = List ℕ;
  read = read_byte;
  read_exact = λ r n. (ok (take n r), drop n r);
  seek = λ r n. (ok n, r);
}

bytes-Reads : Reads bytes
unfolding read_byte
bytes-Reads = record { left = λ r. r; read_left = read_left }
  where
    read_left :
        (r : List ℕ) (n : ℕ)
        → 0 < n
        → ((bs : List ℕ) × ((read_byte r n).0 ≡ ok bs)
            × (r ≡ bs ++ (read_byte r n).1)
            × (length bs ≤ n)
            × ((length bs == 0) ≡ true → r ≡ []))
          ⊎ ((e : Never) × ((read_byte r n).0 ≡ err e))
    read_left [] n h = inl ([], refl, refl, omega (arith, h), λ q. refl)
    read_left (b ∷ r) n h = inl (b ∷ [], refl, refl, omega (arith, h), λ q. ground (arith, q))

-- "ab", an empty line and "c".
abbrev rows : List (List ℕ)
rows = (97 ∷ 98 ∷ []) ∷ [] ∷ (99 ∷ []) ∷ []

abbrev as_is : List ℕ → List ℕ
as_is bs = bs

-- A reader whose buffer has two of the file's bytes, of three.
abbrev started : LineReader bytes
started = record {
  byte_buffer = 97 ∷ 98 ∷ 0 ∷ [];
  buf_data_len = 2;
  position = 0;
  positions = [];
  random = none;
  reader = 10 ∷ 10 ∷ 99 ∷ 10 ∷ [];
  repeat = false;
}

started-Valid : Valid bytes as_is bytes-Reads started
unfolding Valid
started-Valid = omega arith

get_value-Outcome_example :
    (got : Got bytes as_is) × (get_value bytes as_is 6 none started ≡ some got)
    × Outcome bytes as_is bytes-Reads 0 (pending bytes as_is bytes-Reads started) started got
get_value-Outcome_example =
    get_value-Outcome bytes as_is bytes-Reads 6 started started-Valid
      (unfold bytes-Reads in omega arith)

bytes-Readable : Readable bytes as_is bytes-Reads
bytes-Readable r e = elim e [ ]

started-Once : Once bytes as_is bytes-Reads 9 rows started
unfolding Once pending Valid unlines bytes-Reads
started-Once = (refl, omega arith, refl, refl, omega arith)

next-unlines_example : Gives bytes as_is bytes-Reads 9 rows started
unfolding IsClean find_newline ends_line
next-unlines_example =
    next-unlines bytes as_is bytes-Reads 9 rows started bytes-Readable
      ((refl, refl), ((refl, refl), ((refl, refl), tt))) started-Once
