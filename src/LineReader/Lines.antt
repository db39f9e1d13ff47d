-- ===== src/LineReader/Lines.antt =====
-- What a round of `get_value` reads of a file.
use pewpew.Prelude.{
  ℕ, suc, ◌+◌, ◌-◌, ◌≤◌, ◌<◌, ◌≡◌, ◌≢◌, refl, sym, ap, ◌∙◌, ◌⊎◌, Bool, true, Option, none, some,
  List, [], ◌∷◌, ◌++◌, append_assoc, append-nil, length, take, drop, length-take, length-drop, ◌==◌,
  leb, arith,
}
use pewpew.Select.Expression.{ok, err}
use pewpew.LineReader.{
  Files, LineReader, kb8, wrapping_add, find_newline, raw_value, Got, give_line, filled, find_line,
}
use pewpew.LineReader.Buffer.{
  line, after, trimmed, find_newline-none, find_newline-some, take-take, drop-take, trimmed-take,
  data_filled, length_filled,
}

-- A read into a buffer gives the next bytes that are left, and none only at the end, or fails.
pub record Reads (f : Files) : Type 0 where
  pub left : f.Reader → List ℕ
  pub read_left :
      (r : f.Reader) (n : ℕ)
      → 0 < n
      → ((bs : List ℕ) × ((f.read r n).0 ≡ ok bs)
          × (left r ≡ bs ++ left (f.read r n).1)
          × (length bs ≤ n)
          × ((length bs == 0) ≡ true → left r ≡ []))
        ⊎ ((e : f.Error) × ((f.read r n).0 ≡ err e))

fits_leb : (a b : ℕ) → a ≤ b → leb a b ≡ true
fits_leb a b h = ground (arith, h)

not_nil : (xs ys : List ℕ) → 0 < length xs → xs ++ ys ≢ []
not_nil [] ys h e = omega (arith, h)
not_nil (x ∷ xs) ys h e = absurd (not_zero (ap length e))
  where
    not_zero : {k : ℕ} → suc k ≢ 0
    not_zero q = omega (arith, q)

module _ (f : Files) {V : Type 0} (to_value : List ℕ → V) (reads : Reads f) where
  -- What is still to come: the data in the buffer, then what is left of the file.
  unfoldable pub pending : LineReader f → List ℕ
  pending lr = take lr.buf_data_len lr.byte_buffer ++ reads.left lr.reader

  unfoldable pub Valid : LineReader f → Type 0
  Valid lr = lr.buf_data_len ≤ length lr.byte_buffer

  -- A call at a position leaves what is behind the first line, and the settings as they were.
  unfoldable pub Outcome : ℕ → List ℕ → LineReader f → Got f to_value → Type 0
  unfolding pending Valid line after trimmed wrapping_add
  Outcome start text lr (none, lr') =
      (text ≡ [])
      × (pending lr' ≡ [])
      × Valid lr'
      × (lr'.position ≡ lr.position)
      × (lr'.random ≡ lr.random)
      × (lr'.repeat ≡ lr.repeat)
  Outcome start text lr (some (err e), lr') =
      (lr'.position ≡ lr.position) × (r : f.Reader) × ((f.read r kb8).0 ≡ err e)
  Outcome start text lr (some (ok (v, position, size)), lr') =
      (text ≢ [])
      × (v ≡ to_value (trimmed (line text)))
      × (position ≡ start)
      × (size ≡ length (line text))
      × (pending lr' ≡ after text)
      × Valid lr'
      × (lr'.position ≡ wrapping_add lr.position (size + 1))
      × (lr'.random ≡ lr.random)
      × (lr'.repeat ≡ lr.repeat)

  give_line-Outcome :
      (start i : ℕ) (text : List ℕ) (lr : LineReader f)
      → Valid lr
      → i + 1 ≤ length lr.byte_buffer
      → text ≢ []
      → line text ≡ take i lr.byte_buffer
      → after text
        ≡ take (lr.buf_data_len - (i + 1)) (drop (i + 1) lr.byte_buffer) ++ reads.left lr.reader
      → (got : Got f to_value) × (give_line f to_value start i lr ≡ some got)
        × Outcome start text lr got
  unfolding give_line Outcome Valid pending
  give_line-Outcome start i text lr valid room some_text first behind =
      let size = length-take i lr.byte_buffer (omega (arith, room)) in
      let given = record lr {
        position = wrapping_add lr.position (i + 1);
        byte_buffer = drop (i + 1) lr.byte_buffer;
        buf_data_len = lr.buf_data_len - (i + 1);
      } in
      (
        (some (ok (to_value (raw_value i lr.byte_buffer), start, i)), given),
        rw (give_line, fits_leb (i + 1) (length lr.byte_buffer) room) refl,
        (
          some_text,
          ap to_value
              (sym (trimmed-take i lr.byte_buffer (omega (arith, room))) ∙ ap trimmed (sym first)),
          refl,
          sym size ∙ ap length (sym first),
          sym behind,
          omega (arith, length-drop (i + 1) lr.byte_buffer, valid),
          refl,
          refl,
          refl,
        ),
      )

  pub filled-pending :
      (bs : List ℕ) (lr : LineReader f) (reader : f.Reader)
      → Valid lr
      → pending (filled f to_value bs lr reader)
        ≡ take lr.buf_data_len lr.byte_buffer ++ (bs ++ reads.left reader)
  unfolding Valid pending filled
  filled-pending bs lr reader valid =
      ap (λ ys. ys ++ reads.left reader) (data_filled lr.buf_data_len bs lr.byte_buffer valid)
      ∙ append_assoc (take lr.buf_data_len lr.byte_buffer) bs (reads.left reader)

  pub filled-room :
      (bs : List ℕ) (lr : LineReader f) (reader : f.Reader)
      → length bs ≤ kb8
      → (filled f to_value bs lr reader).buf_data_len + (kb8 - length bs)
        ≡ length (filled f to_value bs lr reader).byte_buffer
  unfolding filled
  filled-room bs lr reader h = sym (length_filled lr.buf_data_len bs lr.byte_buffer h)

  pub pending_all :
      (lr : LineReader f) → lr.buf_data_len ≡ 0 → reads.left lr.reader ≡ [] → pending lr ≡ []
  unfolding pending
  pending_all lr h e = ap (λ n. take n lr.byte_buffer ++ reads.left lr.reader) h ∙ e

  abbrev pub Found : ℕ → List ℕ → LineReader f → Option (Got f to_value) → Type 0
  Found start text lr o = (got : Got f to_value) × (o ≡ some got) × Outcome start text lr got

  -- A newline among the data.
  pub has_line :
      (again : Bool → LineReader f → Option (Got f to_value)) (start i : ℕ) (eof : Bool)
      (lr : LineReader f)
      → Valid lr
      → find_newline (take lr.buf_data_len lr.byte_buffer) ≡ some i
      → Found start (pending lr) lr (find_line f to_value again start eof (some i) lr)
  unfolding find_line Valid pending
  has_line again start i eof lr valid h =
      let n = lr.buf_data_len in
      let buffer = lr.byte_buffer in
      let more = reads.left lr.reader in
      let size = length-take n buffer valid in
      let (room, first, behind) = find_newline-some (take n buffer) more i h in
      give_line-Outcome start i (pending lr) lr valid (omega (arith, room, size, valid))
        (λ e. not_nil (take n buffer) more (omega (arith, room)) e)
        (first ∙ take-take i n buffer (omega (arith, room, size)))
        (behind
          ∙ ap (λ ys. ys ++ more) (sym (drop-take (i + 1) n buffer (omega (arith, room, size)))))

  -- The last line, which no newline ends.
  pub last_line :
      (again : Bool → LineReader f → Option (Got f to_value)) (start : ℕ) (lr : LineReader f)
      → Valid lr
      → find_newline (take lr.buf_data_len lr.byte_buffer) ≡ none
      → reads.left lr.reader ≡ []
      → lr.buf_data_len + 1 ≤ length lr.byte_buffer
      → 0 < lr.buf_data_len
      → Found start (pending lr) lr (find_line f to_value again start true none lr)
  unfolding find_line Valid pending
  last_line again start lr valid h e room some_data =
      let n = lr.buf_data_len in
      let buffer = lr.byte_buffer in
      let size = length-take n buffer valid in
      let (first, behind) = find_newline-none (take n buffer) h in
      let text : pending lr ≡ take n buffer =
        ap (λ ys. take n buffer ++ ys) e ∙ append-nil (take n buffer) in
      let no_data : n - (n + 1) ≡ 0 = omega arith in
      give_line-Outcome start n (pending lr) lr valid room
        (λ q. not_nil (take n buffer) (reads.left lr.reader) (omega (arith, some_data, size)) q)
        (ap line text ∙ first)
        (ap after text
          ∙ behind
          ∙ sym (ap (λ k. take k (drop (n + 1) buffer) ++ reads.left lr.reader) no_data ∙ e))
