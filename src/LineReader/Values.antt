-- ===== src/LineReader/Values.antt =====
-- `LineReader::new`, `seek` and `next`, which gives the values of the lines.
use pewpew.Prelude.{
  ℕ, zero, suc, ◌%◌, Bool, Option, none, some, List, [], ◌∷◌, ◌++◌, length, get_elem?, replicate,
  ◌==◌, if◌then◌else◌,
}
use pewpew.Select.Expression.{Result, ok, err}
use pewpew.LineReader.{Files, LineReader, kb8, get_value}

module _ (f : Files) {V : Type 0} (to_value : List ℕ → V) where
  unfoldable pub seek : ℕ → LineReader f → Result f.Error ℕ × LineReader f
  seek pos lr = elim (f.seek lr.reader pos).0 [
    | ok n ↦ (ok n, record lr { buf_data_len = 0; reader = (f.seek lr.reader pos).1; position = n })
    | err e ↦ (err e, record lr { buf_data_len = 0; reader = (f.seek lr.reader pos).1 })
  ]

  -- The positions of all lines, in the file's order.
  unfoldable pub read_positions : ℕ → ℕ → LineReader f → Option (Result f.Error (LineReader f))
  unfolding get_value
  read_positions fuel zero lr = none
  read_positions fuel (suc rounds) lr = elim (get_value f to_value fuel none lr) [
    | none ↦ none
    | some (none, lr') ↦ some (ok lr')
    | some (some (err e), lr') ↦ some (err e)
    | some (some (ok (v, pos, size)), lr') ↦
        read_positions fuel rounds (record lr' { positions = lr'.positions ++ (pos, size) ∷ [] })
  ]

  -- The position that is drawn is sought, if there is any.
  unfoldable pub start_random : ℕ → LineReader f → Result f.Error (LineReader f)
  unfolding seek
  start_random drawn lr =
      if length lr.positions == 0 then ok lr else elim (get_elem? lr.positions drawn) [
        | none ↦ ok (record lr { random = some (length lr.positions) })
        | some (pos, size) ↦ elim (seek pos lr).0 [
          | err e ↦ err e
          | ok n ↦ ok (record (seek pos lr).1 { random = some (length lr.positions) })
        ]
      ]

  unfoldable pub open_file : Bool → f.Reader → LineReader f
  open_file repeat reader = record {
    byte_buffer = replicate kb8 0;
    buf_data_len = 0;
    position = 0;
    positions = [];
    random = none;
    reader = reader;
    repeat = repeat;
  }

  unfoldable pub new : ℕ → ℕ → ℕ → Bool → Bool → f.Reader → Option (Result f.Error (LineReader f))
  unfolding read_positions start_random open_file
  new fuel rounds drawn random repeat reader =
      if random
      then elim (read_positions fuel rounds (open_file repeat reader)) [
        | none ↦ none
        | some (err e) ↦ some (err e)
        | some (ok lr) ↦ some (start_random drawn lr)
      ]
      else if repeat
      then some (ok (record (open_file repeat reader) { positions = (0, 0) ∷ [] }))
      else some (ok (open_file repeat reader))

  unfoldable pub remove_at : ℕ → List (ℕ × ℕ) → List (ℕ × ℕ)
  remove_at i [] = []
  remove_at zero (p ∷ ps) = ps
  remove_at (suc i) (p ∷ ps) = p ∷ remove_at i ps

  -- What `next` returns of a line.
  unfoldable pub value_of : Option (Result f.Error (V × ℕ × ℕ)) → Option (Result f.Error V)
  value_of none = none
  value_of (some (err e)) = some (err e)
  value_of (some (ok (v, pos, size))) = some (ok v)

  -- The end of a file that repeats: its first position is sought and read.
  unfoldable pub start_over : ℕ → LineReader f → Option (Option (Result f.Error V) × LineReader f)
  unfolding seek get_value value_of
  start_over fuel lr = elim (get_elem? lr.positions 0) [
    | none ↦ some (none, lr)
    | some (pos, size) ↦ elim (seek pos lr).0 [
      | err e ↦ some (some (err e), (seek pos lr).1)
      | ok n ↦ elim (get_value f to_value fuel (some size) (seek pos lr).1) [
        | none ↦ none
        | some (result, lr'') ↦ some (value_of result, lr'')
      ]
    ]
  ]

  unfoldable pub next_value :
      ℕ → Option ℕ → LineReader f → Option (Option (Result f.Error V) × LineReader f)
  unfolding get_value value_of start_over
  next_value fuel size_hint lr = elim (get_value f to_value fuel size_hint lr) [
    | none ↦ none
    | some (none, lr') ↦ if lr'.repeat then start_over fuel lr' else some (none, lr')
    | some (some r, lr') ↦ some (value_of (some r), lr')
  ]

  -- A position is taken from the list, unless the reader repeats.
  unfoldable pub take_position : ℕ → LineReader f → LineReader f
  unfolding remove_at
  take_position i lr = if lr.repeat then lr else record lr { positions = remove_at i lr.positions }

  -- `Iterator::next`.
  unfoldable pub next : ℕ → ℕ → LineReader f → Option (Option (Result f.Error V) × LineReader f)
  unfolding next_value take_position seek
  next fuel drawn lr = elim lr.random [
    | none ↦ next_value fuel none lr
    | some bound ↦
        let i = drawn % length lr.positions in
        elim (get_elem? lr.positions i) [
          | none ↦ some (none, lr)
          | some (pos, size) ↦ elim (seek pos (take_position i lr)).0 [
            | err e ↦ some (some (err e), (seek pos (take_position i lr)).1)
            | ok n ↦ next_value fuel (some size) (seek pos (take_position i lr)).1
          ]
        ]
  ]
