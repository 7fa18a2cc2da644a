-- ===== src/Dipx/Paths/Outside.antt =====
-- What path.Clean makes of paths of names, and of those that begin with two dots.
use mathlib.Core.List.{
  reverse, reverse-append, reverse-cons, reverse-reverse, append_assoc, append-nil,
}
use dippin_lang.Base.{
  Str, List, [], ◌∷◌, ◌++◌, ◌≡◌, inl, inr, refl, sym, ap, subst, ◌∙◌, arith, false, eqb, split,
  has_prefix, bytes, All, Bool-cases, ◌==◌, ==_iff, List-cases, if◌then◌else◌,
}
use dippin_lang.Dipx.Paths.{slash, dot, join, clean_component, clean_components, clean}
use dippin_lang.Dipx.Paths.Clean.{IsPart, plain-IsPlainPath}
use dippin_lang.Dipx.Paths.Segments.{NoSlash, split-join}
use dippin_lang.Dipx.Paths.Walk.{IsName, sunk, Sunk}

pub All-reverse : (P : Str → Type 0) (s t : List Str) → All P s → All P t → All P (reverse s ++ t)
All-reverse P [] t h k = k
All-reverse P (c ∷ s) t h k =
    subst (All P) (sym (ap (λ x. x ++ t) (reverse-cons c s) ∙ append_assoc (reverse s) (c ∷ []) t))
      (All-reverse P s (c ∷ t) h.1 (h.0, k))

pub init-All : (P : Str → Type 0) (xs ys : List Str) → All P (xs ++ ys) → All P xs
init-All P [] ys h = tt
init-All P (x ∷ xs) ys h = (h.0, init-All P xs ys h.1)

pub both-All : (cs : List Str) → All IsPart cs → All NoSlash cs → All IsName cs
both-All [] h k = tt
both-All (c ∷ cs) h k = ((h.0, k.0), both-All cs h.1 k.1)

pub parts : (cs : List Str) → All IsName cs → All IsPart cs
parts [] h = tt
parts (c ∷ cs) h = (h.0.0, parts cs h.1)

pub unslashed : (cs : List Str) → All IsName cs → All NoSlash cs
unslashed [] h = tt
unslashed (c ∷ cs) h = (h.0.1, unslashed cs h.1)

-- A text, or a dot where it is empty.
abbrev pub or_dot : Str → Str
or_dot s = if s == [] then dot ∷ [] else s

pub clean-relative :
    (s : Str)
    → has_prefix s (slash ∷ []) ≡ false
    → clean s ≡ or_dot (join (reverse (clean_components false [] (split slash s))))
unfolding clean
clean-relative s h = rw h refl

pub or_dot-filled : (s : Str) → (s == []) ≡ false → or_dot s ≡ s
or_dot-filled s h = rw h refl

pub relative_first :
    (s x : Str) (xs : List Str)
    → split slash s ≡ x ∷ xs
    → (x == []) ≡ false
    → has_prefix s (slash ∷ []) ≡ false
unfolding split has_prefix
relative_first [] x xs e h = refl
relative_first (c ∷ s) x xs e h = elim (Bool-cases (eqb c slash)) [
  | inl f ↦
      let first : [] ≡ x = ground (arith, rw f at e) in
      absurd (ground (arith, h, ==_iff x [], first))
  | inr f ↦ rw f refl
]

pub join-filled : (c : Str) (cs : List Str) → IsPart c → (join (c ∷ cs) == []) ≡ false
unfolding join ◌==◌
join-filled [] cs h = absurd (ground (arith, h.filled))
join-filled (x ∷ c) [] h = refl
join-filled (x ∷ c) (d ∷ cs) h = refl

-- A path that begins with a "..".
abbrev IsOutside : Str → Type 0
IsOutside s = (t : List Str) × (s ≡ join (bytes ".." ∷ t))

outside_split :
    (t : List Str) → (u : List Str) × (split slash (join (bytes ".." ∷ t)) ≡ bytes ".." ∷ u)
unfolding join split
outside_split [] = ([], refl)
outside_split (x ∷ t) = (split slash (join (x ∷ t)), refl)

outside_filled : (t : List Str) → (join (bytes ".." ∷ t) == []) ≡ false
unfolding join ◌==◌
outside_filled [] = refl
outside_filled (x ∷ t) = refl

pub Sunk-IsOutside : (out : List Str) → Sunk out → IsOutside (or_dot (join (reverse out)))
Sunk-IsOutside out (r, e) =
    let turned : reverse out ≡ bytes ".." ∷ reverse r =
      ap reverse e ∙ reverse-append r (bytes ".." ∷ []) in
    (reverse r, ap (λ x. or_dot (join x)) turned ∙ or_dot-filled _ (outside_filled (reverse r)))

pub clean-IsOutside : (s : Str) → IsOutside s → IsOutside (clean s)
unfolding clean_components clean_component ◌==◌
clean-IsOutside s (t, e) =
    let whole = join (bytes ".." ∷ t) in
    let (u, f) = outside_split t in
    let relative = relative_first whole (bytes "..") u f refl in
    let cleaned : clean whole
        ≡ or_dot (join (reverse (clean_components false [] (bytes ".." ∷ u)))) =
      clean-relative whole relative
      ∙ ap (λ x. or_dot (join (reverse (clean_components false [] x)))) f in
    let (r', g) = Sunk-IsOutside (clean_components false (bytes ".." ∷ []) u) (sunk [] u) in
    (r', ap clean e ∙ cleaned ∙ g)

pub IsOutside-refused : (s : Str) → IsOutside s → ¬ All IsPart (split slash s)
unfolding ◌==◌
IsOutside-refused s (t, e) h =
    let (u, f) = outside_split t in
    let first : All IsPart (bytes ".." ∷ u) = subst (All IsPart) (ap (split slash) e ∙ f) h in
    absurd (ground (arith, first.0.up))

here_cleaned : clean (or_dot (join [])) ≡ bytes "."
unfolding clean clean_components clean_component join split has_prefix ◌==◌
here_cleaned = refl

pub here_refused : ¬ All IsPart (split slash (bytes "."))
unfolding split ◌==◌
here_refused h = absurd (ground (arith, h.0.here))

-- Names stand for the path that they make up.
pub names_cleaned :
    (es : List Str) (q : Str)
    → All IsName es
    → q ≡ clean (or_dot (join (reverse es)))
    → All IsPart (split slash q)
    → reverse (split slash q) ≡ es
names_cleaned es q h e parts_q = elim (List-cases (reverse es)) [
  | inl empty ↦
      let here : q ≡ bytes "." = e ∙ ap (λ x. clean (or_dot (join x))) empty ∙ here_cleaned in
      absurd (here_refused (subst (λ x. All IsPart (split slash x)) here parts_q))
  | inr (c, cs, turned) ↦
      let back : All IsName (c ∷ cs) =
        subst (All IsName) (append-nil (reverse es) ∙ turned) (All-reverse IsName es [] h tt) in
      let whole = join (c ∷ cs) in
      let pieces : split slash whole ≡ c ∷ cs = split-join c cs (unslashed (c ∷ cs) back) in
      let plain = plain-IsPlainPath whole (subst (All IsPart) (sym pieces) (parts (c ∷ cs) back)) in
      let filled = join-filled c cs back.0.0 in
      let same : q ≡ whole =
        e
        ∙ ap (λ x. clean (or_dot (join x))) turned
        ∙ ap clean (or_dot-filled whole filled)
        ∙ plain.cleaned (λ n. ground (arith, filled, ==_iff whole [], n)) in
      ap (λ x. reverse (split slash x)) same
      ∙ ap reverse pieces
      ∙ ap reverse (sym turned)
      ∙ reverse-reverse es
]
