-- ===== src/Validate/Edits.antt =====
-- The least number of edits between two texts, and that levenshtein computes it.
use dippin_lang.Base.{
  Str, ℕ, suc, ◌+◌, ◌≤◌, [], ◌∷◌, ◌++◌, ◌≡◌, ◌⊎◌, inl, inr, refl, sym, subst, ◌∙◌, length, arith,
  eqb, eqb_iff, Bool-cases,
}
use mathlib.Core.List.{append-nil}
use dippin_lang.Validate.Distance.{min3, cost, levenshtein}
use dippin_lang.Validate.Edit.{edit_distance, reversed_onto, levenshtein-edit_distance}

-- The first text becomes the second by that many insertions, deletions and replacements of a byte.
pub data Edits : ℕ → Str → Str → Type 0 where
  done : Edits 0 [] []
  keep : {n : ℕ} {s t : Str} (c : ℕ) → Edits n s t → Edits n (c ∷ s) (c ∷ t)
  replace : {n : ℕ} {s t : Str} (c d : ℕ) → Edits n s t → Edits (suc n) (c ∷ s) (d ∷ t)
  add : {n : ℕ} {s t : Str} (d : ℕ) → Edits n s t → Edits (suc n) s (d ∷ t)
  delete : {n : ℕ} {s t : Str} (c : ℕ) → Edits n s t → Edits (suc n) (c ∷ s) t

counted : {n m : ℕ} {s t : Str} → n ≡ m → Edits n s t → Edits m s t
counted {s = s} {t = t} e h = subst (λ k. Edits k s t) e h

all_added : (t : Str) → Edits (length t) [] t
all_added [] = done
all_added (d ∷ t) = add d (all_added t)

all_deleted : (s : Str) → Edits (length s) s []
all_deleted [] = done
all_deleted (c ∷ s) = delete c (all_deleted s)

min3-cases : (a b c : ℕ) → (min3 a b c ≡ a) ⊎ ((min3 a b c ≡ b) ⊎ (min3 a b c ≡ c))
unfolding min3
min3-cases a b c = ground arith

min3-le : (a b c : ℕ) → (min3 a b c ≤ a) × (min3 a b c ≤ b) × (min3 a b c ≤ c)
unfolding min3
min3-le a b c = ground arith

-- The last byte of both, kept or replaced.
diagonal : {n : ℕ} {s t : Str} (c d : ℕ) → Edits n s t → Edits (n + cost c d) (c ∷ s) (d ∷ t)
diagonal {n} {s} {t} c d h = elim (Bool-cases (eqb c d)) [
  | inl e ↦
      subst (λ x. Edits (n + cost c d) (c ∷ s) (x ∷ t)) ((eqb_iff c d).0 e)
        (counted (ground (arith, e)) (keep c h))
  | inr e ↦ counted (ground (arith, e)) (replace c d h)
]

-- The distance is attained.
attained : (s t : Str) → Edits (edit_distance s t) s t
unfolding edit_distance
attained [] t = all_added t
attained (c ∷ s) [] = all_deleted (c ∷ s)
attained (c ∷ s) (d ∷ t) =
    let left = edit_distance (c ∷ s) t in
    let above = edit_distance s (d ∷ t) in
    let beside = edit_distance s t in
    elim (min3-cases (left + 1) (above + 1) (beside + cost c d)) [
      | inl e ↦ counted (omega (arith, e)) (add d (attained (c ∷ s) t))
      | inr (inl e) ↦ counted (omega (arith, e)) (delete c (attained s (d ∷ t)))
      | inr (inr e) ↦ counted (sym e) (diagonal c d (attained s t))
    ]

add-le : (s t : Str) (d : ℕ) → edit_distance s (d ∷ t) ≤ suc (edit_distance s t)
unfolding edit_distance
add-le [] t d = omega arith
add-le (c ∷ s) t d = omega (
  arith,
  min3-le (edit_distance (c ∷ s) t + 1) (edit_distance s (d ∷ t) + 1)
      (edit_distance s t + cost c d),
)

delete-le : (s t : Str) (c : ℕ) → edit_distance (c ∷ s) t ≤ suc (edit_distance s t)
unfolding edit_distance
delete-le [] [] c = omega arith
delete-le (x ∷ s) [] c = omega arith
delete-le s (d ∷ t) c = omega (
  arith,
  min3-le (edit_distance (c ∷ s) t + 1) (edit_distance s (d ∷ t) + 1)
      (edit_distance s t + cost c d),
)

diagonal-le : (s t : Str) (c d : ℕ) → edit_distance (c ∷ s) (d ∷ t) ≤ edit_distance s t + cost c d
unfolding edit_distance
diagonal-le s t c d = omega (
  arith,
  min3-le (edit_distance (c ∷ s) t + 1) (edit_distance s (d ∷ t) + 1)
      (edit_distance s t + cost c d),
)

-- No edits are fewer.
least : {n : ℕ} {s t : Str} → Edits n s t → edit_distance s t ≤ n
unfolding edit_distance
least done = omega arith
least (keep {n} {s} {t} c h) =
    let free : cost c c ≡ 0 = ground arith in omega (arith, diagonal-le s t c c, free, least h)
least (replace {n} {s} {t} c d h) =
    let once : cost c d ≤ 1 = ground arith in omega (arith, diagonal-le s t c d, once, least h)
least (add {n} {s} {t} d h) = omega (arith, add-le s t d, least h)
least (delete {n} {s} {t} c h) = omega (arith, delete-le s t c, least h)

-- Edits of two texts are edits of the texts turned round.
turned :
    {n m : ℕ} {s t x y : Str}
    → Edits n s t
    → Edits m x y
    → Edits (n + m) (reversed_onto s x) (reversed_onto t y)
turned done k = counted (omega arith) k
turned (keep c h) k = turned h (keep c k)
turned (replace c d h) k = counted (omega arith) (turned h (replace c d k))
turned (add d h) k = counted (omega arith) (turned h (add d k))
turned (delete c h) k = counted (omega arith) (turned h (delete c k))

reversed_onto-twice : (s x y : Str) → reversed_onto (reversed_onto s x) y ≡ reversed_onto x (s ++ y)
reversed_onto-twice [] x y = refl
reversed_onto-twice (c ∷ s) x y = reversed_onto-twice s (c ∷ x) y

back : (s : Str) → reversed_onto (reversed_onto s []) [] ≡ s
back s = reversed_onto-twice s [] [] ∙ append-nil s

-- For all texts, some edits of that number turn the first into the second, and no fewer do.
pub levenshtein-Edits :
    (a b : Str) → Edits (levenshtein a b) a b × ((n : ℕ) → Edits n a b → levenshtein a b ≤ n)
levenshtein-Edits a b =
    let same = levenshtein-edit_distance a b in
    let n = edit_distance (reversed_onto a []) (reversed_onto b []) in
    let found = turned (attained (reversed_onto a []) (reversed_onto b [])) done in
    let at_a =
      subst (λ s. Edits (n + 0) s (reversed_onto (reversed_onto b []) [])) (back a) found in
    let at_b : Edits (n + 0) a b = subst (λ t. Edits (n + 0) a t) (back b) at_a in
    (counted (omega (arith, same)) at_b, λ m h. omega (arith, same, least (turned h done)))
