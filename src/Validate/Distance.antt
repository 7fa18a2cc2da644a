-- ===== src/Validate/Distance.antt =====
-- levenshtein of validator/validate.go, with its two rows, and closestNodeID.
use dippin_lang.Base.{Str, ℕ, suc, ◌+◌, List, [], ◌∷◌, length, ltb, eqb, if◌then◌else◌}
use dippin_lang.Ir.{Node}

unfoldable pub min3 : ℕ → ℕ → ℕ → ℕ
min3 a b c = let m = if ltb b a then b else a in if ltb c m then c else m

abbrev pub cost : ℕ → ℕ → ℕ
cost x y = if eqb x y then 0 else 1

-- fillLevenshteinRow from a column on: `left` is curr[j-1], and the second list is prev[j-1:].
unfoldable pub fill_levenshtein_row : ℕ → Str → ℕ → List ℕ → List ℕ
fill_levenshtein_row x (y ∷ ys) left (diagonal ∷ above ∷ prev) =
    let cell = min3 (left + 1) (above + 1) (diagonal + cost x y) in
    cell ∷ fill_levenshtein_row x ys cell (above ∷ prev)
fill_levenshtein_row x _ left _ = []

-- prev[j] = j, from a column on
unfoldable pub first_row : ℕ → Str → List ℕ
first_row j [] = j ∷ []
first_row j (y ∷ ys) = j ∷ first_row (suc j) ys

-- The loop over the rows; `i` is the number of the row, which stands in column 0.
unfoldable pub levenshtein_rows : ℕ → Str → Str → List ℕ → List ℕ
levenshtein_rows i [] b prev = prev
levenshtein_rows i (x ∷ xs) b prev =
    levenshtein_rows (suc i) xs b (i ∷ fill_levenshtein_row x b i prev)

-- prev[lb]
unfoldable pub last_cell : List ℕ → ℕ
last_cell [] = 0
last_cell (d ∷ []) = d
last_cell (d ∷ e ∷ ds) = last_cell (e ∷ ds)

unfoldable pub levenshtein : Str → Str → ℕ
levenshtein [] b = length b
levenshtein (x ∷ a) [] = suc (length a)
levenshtein (x ∷ a) (y ∷ b) = last_cell (levenshtein_rows 1 (x ∷ a) (y ∷ b) (first_row 0 (y ∷ b)))

-- The loop of closestNodeID: the best distance and the best ID so far.
unfoldable pub closest : Str → List Node → ℕ → Str → Str
closest name [] best_dist best_id = best_id
closest name (n ∷ ns) best_dist best_id =
    let d = levenshtein name n.id in
    if ltb d best_dist then closest name ns d n.id else closest name ns best_dist best_id

unfoldable pub closest_node_id : List Node → Str → Str
closest_node_id ns name = closest name ns 3 []
