-- ===== src/LineReader/Rounds.antt =====
-- A call of `get_value`, round by round.
use pewpew.Prelude.{
  ℕ, zero, suc, ◌+◌, ◌≤◌, ◌≡◌, refl, sym, ap, subst, ◌∙◌, inl, inr, Bool, Bool-cases, true, false,
  Option, Option-cases, none, some, List, [], ◌∷◌, ◌++◌, length, length-append, take, ◌==◌,
  if◌then◌else◌, arith,
}
use pewpew.Select.Expression.{ok, err}
use pewpew.LineReader.{
  Files, LineReader, kb8, find_newline, resize, Got, filled, read_more, find_line, get_line,
  get_value,
}
use pewpew.LineReader.Lines.{
  Reads, pending, Valid, Outcome, filled-pending, filled-room, pending_all, Found, has_line,
  last_line,
}

same_number : (a b : ℕ) → (a == b) ≡ true → a ≡ b
same_number a b h = ground (arith, h)

some_bytes : (n : ℕ) → (suc n == 0) ≡ false
some_bytes n = ground arith

module _ (f : Files) {V : Type 0} (to_value : List ℕ → V) (reads : Reads f) where
  -- The rounds that are left, with one for the read that finds the end.
  unfoldable pub rounds_needed : Bool → ℕ → ℕ
  rounds_needed eof bytes = if eof then 1 else bytes + 2

  filled-Valid :
      (bs : List ℕ) (lr : LineReader f) (reader : f.Reader)
      → length bs ≤ kb8
      → Valid f to_value reads (filled f to_value bs lr reader)
  unfolding Valid
  filled-Valid bs lr reader h = omega (arith, filled-room f to_value reads bs lr reader h)

  -- When the reader has found the end, nothing is left and the buffer has room.
  unfoldable pub Ended : Bool → LineReader f → Type 0
  Ended true lr = (reads.left lr.reader ≡ []) × (lr.buf_data_len + 1 ≤ length lr.byte_buffer)
  Ended false lr = Unit

  Outcome-filled :
      (start : ℕ) (text bs : List ℕ) (lr : LineReader f) (reader : f.Reader) (got : Got f to_value)
      → Outcome f to_value reads start text (filled f to_value bs lr reader) got
      → Outcome f to_value reads start text lr got
  unfolding Outcome filled
  Outcome-filled start text bs lr reader (none, lr') h = h
  Outcome-filled start text bs lr reader (some (err e), lr') h = h
  Outcome-filled start text bs lr reader (some (ok (v, position, size)), lr') h = h

  filled-Ended :
      (bs : List ℕ) (lr : LineReader f)
      → reads.left lr.reader ≡ bs ++ reads.left (f.read lr.reader kb8).1
      → ((length bs == 0) ≡ true → reads.left lr.reader ≡ [])
      → length bs ≤ kb8
      → Ended (length bs == 0) (filled f to_value bs lr (f.read lr.reader kb8).1)
  unfolding Ended filled
  filled-Ended [] lr e ended h = (
    sym e ∙ ended refl,
    omega (arith, filled-room f to_value reads [] lr (f.read lr.reader kb8).1 h),
  )
  filled-Ended (b ∷ bs) lr e ended h =
      subst (λ eof. Ended eof (filled f to_value (b ∷ bs) lr (f.read lr.reader kb8).1))
        (sym (some_bytes (length bs))) tt

  rounds_left :
      (bs rest text : List ℕ) (fuel : ℕ)
      → text ≡ bs ++ rest
      → length text + 2 ≤ suc fuel
      → rounds_needed (length bs == 0) (length rest) ≤ fuel
  unfolding rounds_needed
  rounds_left [] rest text fuel e h = omega (arith, h)
  rounds_left (b ∷ bs) rest text fuel e h =
      rw (some_bytes (length bs)) (omega (arith, h, ap length e, length-append bs rest))

  -- A read, where a further round behaves.
  read_round :
      (again : Bool → LineReader f → Option (Got f to_value)) (fuel start : ℕ) (lr : LineReader f)
      → ((eof : Bool) (lr' : LineReader f)
          → Valid f to_value reads lr'
          → Ended eof lr'
          → rounds_needed eof (length (reads.left lr'.reader)) ≤ fuel
          → Found f to_value reads start (pending f to_value reads lr') lr' (again eof lr'))
      → Valid f to_value reads lr
      → length (reads.left lr.reader) + 2 ≤ suc fuel
      → Found f to_value reads start
          (pending f to_value reads lr)
          lr
          (read_more f to_value again (f.read lr.reader kb8) lr)
  unfolding read_more rounds_needed pending
  read_round again fuel start lr further valid enough =
      let reader = (f.read lr.reader kb8).1 in
      elim (reads.read_left lr.reader kb8 (omega arith)) [
        | inl (bs, p, e, size, ended) ↦
            let (got, q, out) =
              further (length bs == 0) (filled f to_value bs lr reader)
                (filled-Valid bs lr reader size) (filled-Ended bs lr e ended size)
                (rounds_left bs (reads.left reader) (reads.left lr.reader) fuel e enough) in
            (
              got,
              ap (λ r. read_more f to_value again (r, reader) lr) p ∙ q,
              Outcome-filled start (pending f to_value reads lr) bs lr reader got (
                  subst
                    (λ text.
                      Outcome f to_value reads start text (filled f to_value bs lr reader) got)
                    (filled-pending f to_value reads bs lr reader valid
                      ∙ sym (ap (λ ys. take lr.buf_data_len lr.byte_buffer ++ ys) e))
                    out),
            )
        | inr (x, p) ↦ (
          (
            some (err x),
            record lr {
              byte_buffer = resize (kb8 + lr.buf_data_len) lr.byte_buffer;
              reader = reader;
            },
          ),
          ap (λ r. read_more f to_value again (r, reader) lr) p,
          (unfold Outcome in (refl, lr.reader, p)),
        )
      ]

  get_line-Outcome :
      (fuel start : ℕ) (eof : Bool) (lr : LineReader f)
      → Valid f to_value reads lr
      → Ended eof lr
      → rounds_needed eof (length (reads.left lr.reader)) ≤ fuel
      → Found f to_value reads start
          (pending f to_value reads lr)
          lr
          (get_line f to_value fuel start eof lr)
  unfolding get_line rounds_needed Ended find_line
  get_line-Outcome zero start true lr valid ended enough = absurd (omega (arith, enough))
  get_line-Outcome zero start false lr valid ended enough = absurd (omega (arith, enough))
  get_line-Outcome (suc fuel) start true lr valid (e, room) enough =
      let again = get_line f to_value fuel start in
      elim (Bool-cases (lr.buf_data_len == 0)) [
        | inl h ↦
            let nothing = pending_all f to_value reads lr (same_number lr.buf_data_len 0 h) e in
            ((none, lr), rw h refl, (unfold Outcome in (nothing, nothing, valid, refl, refl, refl)))
        | inr h ↦
            subst
              (λ c. Found f to_value reads start (pending f to_value reads lr) lr (
                if c
                then some (none, lr)
                else find_line f to_value again start true
                    (find_newline (take lr.buf_data_len lr.byte_buffer)) lr))
              (sym h)
              (elim (Option-cases (find_newline (take lr.buf_data_len lr.byte_buffer))) [
                | inl q ↦
                    subst
                      (λ o.
                        Found f to_value reads start (pending f to_value reads lr) lr
                          (find_line f to_value again start true o lr))
                      (sym q)
                      (last_line f to_value reads again start lr valid q e room (ground (arith, h)))
                | inr (i, q) ↦
                    subst
                      (λ o.
                        Found f to_value reads start (pending f to_value reads lr) lr
                          (find_line f to_value again start true o lr))
                      (sym q) (has_line f to_value reads again start i true lr valid q)
              ])
      ]
  get_line-Outcome (suc fuel) start false lr valid ended enough =
      let again = get_line f to_value fuel start in
      elim (Option-cases (find_newline (take lr.buf_data_len lr.byte_buffer))) [
        | inl h ↦
            subst
              (λ o.
                Found f to_value reads start (pending f to_value reads lr) lr
                  (find_line f to_value again start false o lr))
              (sym h) (read_round again fuel start lr (get_line-Outcome fuel start) valid enough)
        | inr (i, h) ↦
            subst
              (λ o.
                Found f to_value reads start (pending f to_value reads lr) lr
                  (find_line f to_value again start false o lr))
              (sym h) (has_line f to_value reads again start i false lr valid h)
      ]

  -- `get_value` without a size hint returns, with fuel for two rounds more than the file has bytes
  -- left. It gives the next line, without what ends it, its place and its length, and leaves what is
  -- behind it to come; or it gives nothing if nothing is to come; or the error of a read.
  pub get_value-Outcome :
      (fuel : ℕ) (lr : LineReader f)
      → Valid f to_value reads lr
      → length (reads.left lr.reader) + 2 ≤ fuel
      → (got : Got f to_value) × (get_value f to_value fuel none lr ≡ some got)
        × Outcome f to_value reads lr.position (pending f to_value reads lr) lr got
  unfolding get_value Ended rounds_needed
  get_value-Outcome fuel lr valid enough =
      get_line-Outcome fuel lr.position false lr valid tt enough
