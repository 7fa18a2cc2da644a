-- ===== src/Validate/Edit.antt =====
-- levenshtein against the edit distance by its recursive definition.
use dippin_lang.Base.{Str, ℕ, suc, ◌+◌, List, [], ◌∷◌, ◌≡◌, refl, ap, length, arith}
use dippin_lang.Validate.Distance.{
  min3, cost, fill_levenshtein_row, first_row, levenshtein_rows, last_cell, levenshtein,
}

-- The least number of insertions, deletions and replacements of a byte that turn one text into the
-- other; the texts are read from their ends, the order in which the rows are filled.
unfoldable pub edit_distance : Str → Str → ℕ
edit_distance [] ys = length ys
edit_distance (x ∷ xs) [] = suc (length xs)
edit_distance (x ∷ xs) (y ∷ ys) =
    let left = edit_distance (x ∷ xs) ys in
    let above = edit_distance xs (y ∷ ys) in
    let diagonal = edit_distance xs ys in min3 (left + 1) (above + 1) (diagonal + cost x y)

-- The cells of a row from a column on: `ys` are the bytes in front of it, from the last.
abbrev row : Str → Str → Str → List ℕ
row xs ys [] = edit_distance xs ys ∷ []
row xs ys (b ∷ bs) = edit_distance xs ys ∷ row xs (b ∷ ys) bs

first_row-row : (ys bs : Str) → first_row (length ys) bs ≡ row [] ys bs
unfolding first_row edit_distance
first_row-row ys [] = refl
first_row-row ys (b ∷ bs) = ap (λ r. length ys ∷ r) (first_row-row (b ∷ ys) bs)

fill-row :
    (x : ℕ) (xs ys bs : Str)
    → edit_distance (x ∷ xs) ys
        ∷ fill_levenshtein_row x bs (edit_distance (x ∷ xs) ys) (row xs ys bs)
      ≡ row (x ∷ xs) ys bs
unfolding fill_levenshtein_row edit_distance
fill-row x xs ys [] = refl
fill-row x xs ys (b ∷ []) = refl
fill-row x xs ys (b ∷ c ∷ bs) =
    ap (λ r. edit_distance (x ∷ xs) ys ∷ r) (fill-row x xs (b ∷ ys) (c ∷ bs))

-- The row of `xs`, the bytes so far from the last, is followed by the row of all bytes.
abbrev pub reversed_onto : Str → Str → Str
reversed_onto [] acc = acc
reversed_onto (x ∷ xs) acc = reversed_onto xs (x ∷ acc)

rows-row :
    (xs a b : Str)
    → levenshtein_rows (suc (length xs)) a b (row xs [] b) ≡ row (reversed_onto a xs) [] b
unfolding levenshtein_rows edit_distance
rows-row xs [] b = refl
rows-row xs (x ∷ a) b = rw (fill-row x xs [] b) (rows-row (x ∷ xs) a b)

last_cell-row : (xs ys bs : Str) → last_cell (row xs ys bs) ≡ edit_distance xs (reversed_onto bs ys)
unfolding last_cell
last_cell-row xs ys [] = refl
last_cell-row xs ys (b ∷ []) = refl
last_cell-row xs ys (b ∷ c ∷ bs) = last_cell-row xs (b ∷ ys) (c ∷ bs)

length-reversed_onto : (xs acc : Str) → length (reversed_onto xs acc) ≡ length xs + length acc
length-reversed_onto [] acc = omega arith
length-reversed_onto (x ∷ xs) acc = omega (arith, length-reversed_onto xs (x ∷ acc))

edit_distance-empty : (xs : Str) → edit_distance xs [] ≡ length xs
unfolding edit_distance
edit_distance-empty [] = refl
edit_distance-empty (x ∷ xs) = refl

edit_distance-of_empty : (ys : Str) → edit_distance [] ys ≡ length ys
unfolding edit_distance
edit_distance-of_empty ys = refl

-- For all texts, the two rows compute the edit distance of the texts, read from their ends.
pub levenshtein-edit_distance :
    (a b : Str) → levenshtein a b ≡ edit_distance (reversed_onto a []) (reversed_onto b [])
unfolding levenshtein
levenshtein-edit_distance [] b =
    omega (arith, edit_distance-of_empty (reversed_onto b []), length-reversed_onto b [])
levenshtein-edit_distance (x ∷ a) [] =
    omega (arith, edit_distance-empty (reversed_onto a (x ∷ [])), length-reversed_onto a (x ∷ []))
levenshtein-edit_distance (x ∷ a) (y ∷ b) =
    rw (first_row-row [] (y ∷ b), rows-row [] (x ∷ a) (y ∷ b))
      (last_cell-row (reversed_onto (x ∷ a) []) [] (y ∷ b))
