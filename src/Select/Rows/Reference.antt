-- ===== src/Select/Rows/Reference.antt =====
-- The rows of a select, against a reference that evaluates everything for every row.
use pewpew.Prelude.{
  ◌≡◌, ◌≢◌, refl, sym, ap, ◌∙◌, Bool, true, false, Option, none, some, List, [], ◌∷◌, map, All,
  if◌then◌else◌,
}
use pewpew.Select.Json.{Numbers, Value}
use pewpew.Select.Expression.{Result, ok, err, ◌>>=◌}
use pewpew.Select.Rows.{
  Select, ResultIter, collect, transposed, Row, evaluate_select, holds, join_iter, for_each_of,
  select_if, checked_row, selected_row, rows, single_iter, joined_iter, as_iter,
}

-- A row without an error in it.
unfoldable pub IsSound : {E A : Type 0} → ResultIter E A → Type 0
unfolding collect
IsSound {E} {A} row = (vs : List A) × (collect row ≡ ok vs)

if_joined : {A B : Type 0} (xs : List A) (b b' : B) → xs ≢ [] → elim xs [ [] ↦ b | _ ∷ _ ↦ b' ] ≡ b'
if_joined [] b b' h = absurd (h refl)
if_joined (x ∷ xs) b b' h = refl

transposed_tail :
    {E A : Type 0} (r : Result E (Option A)) (xs ys : ResultIter E (Option A))
    → transposed xs ≡ transposed ys
    → transposed (r ∷ xs) ≡ transposed (r ∷ ys)
unfolding transposed
transposed_tail (ok none) xs ys h = h
transposed_tail (ok (some v)) xs ys h = ap (λ zs. ok v ∷ zs) h
transposed_tail (err e) xs ys h = ap (λ zs. err e ∷ zs) h

-- Rows that are all left out.
nothing_left :
    {E A B : Type 0} (f : ResultIter E A → Result E (Option B)) (rs : List (ResultIter E A))
    → All IsSound rs
    → ((row : ResultIter E A) → IsSound row → f row ≡ ok none)
    → transposed (map f rs) ≡ []
unfolding transposed
nothing_left f [] h k = refl
nothing_left f (row ∷ rs) (h, hs) k = rw (k row h) (nothing_left f rs hs k)

transposed_same :
    {E A B : Type 0} (f g : ResultIter E A → Result E (Option B)) (rs : List (ResultIter E A))
    → All IsSound rs
    → ((row : ResultIter E A) → IsSound row → f row ≡ g row)
    → transposed (map f rs) ≡ transposed (map g rs)
unfolding transposed
transposed_same f g [] h k = refl
transposed_same f g (row ∷ rs) (h, hs) k =
    ap (λ r. transposed (r ∷ map f rs)) (k row h)
    ∙ transposed_tail (g row) (map f rs) (map g rs) (transposed_same f g rs hs k)

module _ {n : Numbers} {E L : Type 0} (json_eq : Value n → Value n → Bool)
    (leaf : Row n → L → Result E (Value n)) (leaf_iter : L → Result E (ResultIter E (Value n)))
    (product : List (ResultIter E (Value n)) → List (ResultIter E (Value n))) where
  -- A row for which the where clause and the select are both evaluated.
  unfoldable pub reference_row : Select n L → ResultIter E (Value n) → Result E (Option (Value n))
  unfolding collect holds select_if
  reference_row s row = do
    vs ← collect row
    b ← holds json_eq leaf leaf_iter product (some vs) s.where_clause
    select_if json_eq leaf leaf_iter product (some vs) s.select b

  abbrev wanted : Select n L → Row n → Result E Bool
  wanted s row = holds json_eq leaf leaf_iter product row s.where_clause

  abbrev chosen : Select n L → Row n → Bool → Result E (Option (Value n))
  chosen s row b = select_if json_eq leaf leaf_iter product row s.select b

  abbrev selected : Select n L → Row n → Result E (Value n)
  selected s row = evaluate_select json_eq leaf leaf_iter product row s.select

  abbrev joined_rows : Select n L → List (ResultIter E (Value n))
  joined_rows s = product (map (join_iter json_eq leaf leaf_iter product) s.join)

  -- A row with the select's own flag, which is false where the select does not read the row.
  checked_row-reference_row :
      (s : Select n L) (row : ResultIter E (Value n))
      → s.references_for_each ≡ true
      → IsSound row
      → checked_row json_eq leaf leaf_iter product s row ≡ reference_row s row
  unfolding checked_row reference_row for_each_of IsSound
  checked_row-reference_row s row h (vs, e) = rw (h, e) refl

  selected_row-reference_row :
      (s : Select n L) (flag : Bool) (row : ResultIter E (Value n))
      → s.references_for_each ≡ flag
      → (flag ≡ false → (vs : List (Value n)) → selected s (some vs) ≡ selected s none)
      → ((vs : List (Value n)) → wanted s (some vs) ≡ ok true)
      → IsSound row
      → selected_row json_eq leaf leaf_iter product s row ≡ reference_row s row
  unfolding selected_row reference_row for_each_of IsSound select_if
  selected_row-reference_row s true row h k l (vs, e) = rw (h, e, l vs) refl
  selected_row-reference_row s false row h k l (vs, e) = rw (h, e, l vs, k refl vs) refl

  reference_row_unwanted :
      (s : Select n L) (row : ResultIter E (Value n))
      → ((vs : List (Value n)) → wanted s (some vs) ≡ ok false)
      → IsSound row
      → reference_row s row ≡ ok none
  unfolding reference_row IsSound select_if
  reference_row_unwanted s row l (vs, e) = rw (e, l vs) refl

  -- The rows where the where clause comes to a value that is the same for all rows.
  rows_once :
      (s : Select n L) (b : Bool)
      → (s.references_for_each ≡ false
          → (vs : List (Value n)) → selected s (some vs) ≡ selected s none)
      → ((vs : List (Value n)) → wanted s (some vs) ≡ ok b)
      → All IsSound (joined_rows s)
      → (if b
          then rows json_eq leaf leaf_iter product (selected_row json_eq leaf leaf_iter product s) s
          else [])
        ≡ rows json_eq leaf leaf_iter product (reference_row s) s
  unfolding rows
  rows_once s true k l h =
      transposed_same (selected_row json_eq leaf leaf_iter product s) (reference_row s)
        (joined_rows s) h (λ row. selected_row-reference_row s s.references_for_each row refl k l)
  rows_once s false k l h =
      sym (nothing_left (reference_row s) (joined_rows s) h (λ row. reference_row_unwanted s row l))

  as_iter-joined_iter :
      (s : Select n L)
      → s.join ≢ []
      → as_iter json_eq leaf leaf_iter product s ≡ joined_iter json_eq leaf leaf_iter product s
  unfolding as_iter
  as_iter-joined_iter s h =
      if_joined s.join (single_iter json_eq leaf leaf_iter product s)
        (joined_iter json_eq leaf leaf_iter product s) h

  joined_iter-rows :
      (s : Select n L) (flag b : Bool)
      → s.where_references_for_each ≡ flag
      → (s.references_for_each ≡ false
          → (vs : List (Value n)) → selected s (some vs) ≡ selected s none)
      → (flag ≡ true → s.references_for_each ≡ true)
      → (flag ≡ false → (vs : List (Value n)) → wanted s (some vs) ≡ wanted s none)
      → (flag ≡ false → wanted s none ≡ ok b)
      → All IsSound (joined_rows s)
      → joined_iter json_eq leaf leaf_iter product s
        ≡ ok (rows json_eq leaf leaf_iter product (reference_row s) s)
  unfolding joined_iter rows reference_row
  joined_iter-rows s true b e k l m w h = rw e (
      ap ok (
        transposed_same (checked_row json_eq leaf leaf_iter product s) (reference_row s)
          (joined_rows s) h (λ row. checked_row-reference_row s row (l refl))))
  joined_iter-rows s false b e k l m w h =
      rw (e, w refl) (ap ok (rows_once s b k (λ vs. m refl vs ∙ w refl) h))

  -- With a for_each, the rows of a select are those of the reference, which evaluates the where
  -- clause and the select for every row. The select does not depend on the row where it is not
  -- marked to reference it, and the where clause neither, which then has a value; a where clause
  -- that is marked is with a select that is marked too; and no row has an error.
  pub as_iter-reference_row :
      (s : Select n L) (b : Bool)
      → s.join ≢ []
      → (s.references_for_each ≡ false
          → (vs : List (Value n))
          → evaluate_select json_eq leaf leaf_iter product (some vs) s.select
            ≡ evaluate_select json_eq leaf leaf_iter product none s.select)
      → (s.where_references_for_each ≡ true → s.references_for_each ≡ true)
      → (s.where_references_for_each ≡ false
          → (vs : List (Value n))
          → holds json_eq leaf leaf_iter product (some vs) s.where_clause
            ≡ holds json_eq leaf leaf_iter product none s.where_clause)
      → (s.where_references_for_each ≡ false
          → holds json_eq leaf leaf_iter product none s.where_clause ≡ ok b)
      → All IsSound (product (map (join_iter json_eq leaf leaf_iter product) s.join))
      → as_iter json_eq leaf leaf_iter product s
        ≡ ok (rows json_eq leaf leaf_iter product (reference_row s) s)
  as_iter-reference_row s b j k l m w h =
      as_iter-joined_iter s j ∙ joined_iter-rows s s.where_references_for_each b refl k l m w h
