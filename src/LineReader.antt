-- ===== src/LineReader.antt =====
-- src/providers/line_reader.rs: a file's lines, each as a value. Bytes are numbers. The file and its
-- reads are the parameter `Files`; the text of a line as a value is the parameter `to_value`, and a
-- random number that is drawn is an argument. `none` is a panic, or a loop that is out of fuel.
pub mod Values
pub mod Buffer
pub mod Lines
pub mod Rounds
pub mod Whole
mod Tests
use pewpew.Prelude.{
  ℕ, zero, suc, ◌+◌, ◌-◌, ◌%◌, ◌*◌, Bool, true, false, ◌&&◌, ◌||◌, Option, none, some, List, [],
  ◌∷◌, ◌++◌, length, get_elem?, take, drop, replicate, ◌==◌, leb, ltb, if◌then◌else◌, usize_mod,
  map,
}
use pewpew.Select.Expression.{Result, ok, err}

-- `Read` and `Seek` of a file, on buffers of a given length.
pub record Files : Type 1 where
  pub Error : Type 0
  pub Reader : Type 0
  pub read : Reader → ℕ → Result Error (List ℕ) × Reader
  pub read_exact : Reader → ℕ → Result Error (List ℕ) × Reader
  pub seek : Reader → ℕ → Result Error ℕ × Reader

abbrev pub kb8 : ℕ
kb8 = 8 * 1024

unfoldable pub wrapping_add : ℕ → ℕ → ℕ
wrapping_add a b = (a + b) % usize_mod

unfoldable pub find_newline : List ℕ → Option ℕ
find_newline [] = none
find_newline (b ∷ bs) =
    let rest = find_newline bs in
    if b == 10 then some 0 else elim rest [ none ↦ none | some i ↦ some (i + 1) ]

unfoldable pub resize : ℕ → List ℕ → List ℕ
resize n buffer = take n buffer ++ replicate (n - length buffer) 0

unfoldable pub ends_line : List ℕ → Bool
ends_line [] = false
ends_line (b ∷ []) = b == 10 || b == 13
ends_line (b ∷ c ∷ bs) = ends_line (c ∷ bs)

-- The loop that shortens `raw_value`, from `i` bytes on.
unfoldable pub raw_value : ℕ → List ℕ → List ℕ
unfolding ends_line
raw_value zero buffer = []
raw_value (suc i) buffer =
    let shorter = raw_value i buffer in
    if ends_line (take (suc i) buffer) then shorter else take (suc i) buffer

pub record LineReader (f : Files) : Type 0 where
  pub byte_buffer : List ℕ
  pub buf_data_len : ℕ
  pub position : ℕ
  pub positions : List (ℕ × ℕ)
  pub random : Option ℕ
  pub reader : f.Reader
  pub repeat : Bool

module _ (f : Files) {V : Type 0} (to_value : List ℕ → V) where
  abbrev pub Got : Type 0
  Got = Option (Result f.Error (V × ℕ × ℕ)) × LineReader f

  -- A line of `i` bytes, which is drained from the buffer with what ends it.
  unfoldable pub give_line : ℕ → ℕ → LineReader f → Option Got
  unfolding raw_value wrapping_add
  give_line position i lr =
      if leb (i + 1) (length lr.byte_buffer)
      then some (
        some (ok (to_value (raw_value i lr.byte_buffer), position, i)),
        record lr {
          position = wrapping_add lr.position (i + 1);
          byte_buffer = drop (i + 1) lr.byte_buffer;
          buf_data_len = lr.buf_data_len - (i + 1);
        },
      )
      else none

  -- The buffer once the bytes are read behind the data.
  unfoldable pub filled : List ℕ → LineReader f → f.Reader → LineReader f
  unfolding resize
  filled bs lr reader =
      let buffer = resize (kb8 + lr.buf_data_len) lr.byte_buffer in
      record lr {
        byte_buffer =
            take lr.buf_data_len buffer ++ (bs ++ drop (lr.buf_data_len + length bs) buffer);
        buf_data_len = lr.buf_data_len + length bs;
        reader = reader;
      }

  unfoldable pub read_more :
      (Bool → LineReader f → Option Got)
      → Result f.Error (List ℕ) × f.Reader
      → LineReader f
      → Option Got
  unfolding filled resize
  read_more again (ok bs, reader) lr = again (length bs == 0) (filled bs lr reader)
  read_more again (err e, reader) lr = some (
    some (err e),
    record lr { byte_buffer = resize (kb8 + lr.buf_data_len) lr.byte_buffer; reader = reader },
  )

  unfoldable pub find_line :
      (Bool → LineReader f → Option Got) → ℕ → Bool → Option ℕ → LineReader f → Option Got
  unfolding give_line read_more
  find_line again position eof (some i) lr = give_line position i lr
  find_line again position true none lr = give_line position lr.buf_data_len lr
  find_line again position false none lr = read_more again (f.read lr.reader kb8) lr

  -- The loop of `get_value`, on fuel.
  unfoldable pub get_line : ℕ → ℕ → Bool → LineReader f → Option Got
  unfolding find_line find_newline
  get_line zero position eof lr = none
  get_line (suc fuel) position eof lr =
      if eof && lr.buf_data_len == 0
      then some (none, lr)
      else find_line (get_line fuel position) position eof
          (find_newline (take lr.buf_data_len lr.byte_buffer)) lr

  -- `get_value` after a size hint: the bytes of a known line are read at once.
  unfoldable pub read_hint : ℕ → ℕ → LineReader f → Result f.Error (List ℕ) × f.Reader → Option Got
  unfolding get_line
  read_hint fuel hint lr (ok bs, reader) = get_line fuel lr.position false (record lr {
    byte_buffer = bs ++ drop hint lr.byte_buffer;
    buf_data_len = hint;
    reader = reader;
  })
  read_hint fuel hint lr (err e, reader) = some (some (err e), record lr { reader = reader })

  unfoldable pub extended : ℕ → LineReader f → LineReader f
  unfolding wrapping_add
  extended hint lr = record lr {
    byte_buffer = lr.byte_buffer ++ replicate (hint - length lr.byte_buffer) 0;
    position = wrapping_add lr.position hint;
  }

  unfoldable pub get_value : ℕ → Option ℕ → LineReader f → Option Got
  unfolding read_hint extended get_line
  get_value fuel none lr = get_line fuel lr.position false lr
  get_value fuel (some hint) lr =
      read_hint fuel hint (extended hint lr) (f.read_exact lr.reader hint)
