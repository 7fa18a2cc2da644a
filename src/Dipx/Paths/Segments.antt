-- ===== src/Dipx/Paths/Segments.antt =====
-- Paths of dipx/resolve.go cut at their slashes: joined, appended, and without the last component.
use dippin_lang.Base.{
  Str, ℕ, List, [], ◌∷◌, ◌++◌, ◌≡◌, inl, inr, refl, sym, ap, subst, ◌∙◌, arith, true, false, eqb,
  eqb_iff, split, All, Bool-cases, ◌==◌, ==_iff, In,
}
use dippin_lang.Dipx.Paths.{slash, join, clean_component, clean_components, up_to_slash}
use dippin_lang.Dipx.Paths.Clean.{split-IsSome, join-split}

abbrev pub NoSlash : Str → Type 0
NoSlash c = ¬ In slash c

pub split-append : (a b : Str) → split slash (a ++ slash ∷ b) ≡ split slash a ++ split slash b
unfolding split
split-append [] b = refl
split-append (c ∷ a) b =
    let (x, xs, e) = split-IsSome a in
    let ih : split slash (a ++ slash ∷ b) ≡ x ∷ (xs ++ split slash b) =
      split-append a b ∙ ap (λ s. s ++ split slash b) e in
    elim (Bool-cases (eqb c slash)) [ inl f ↦ rw (f, ih, e) refl | inr f ↦ rw (f, ih, e) refl ]

split-NoSlash : (c : Str) → NoSlash c → split slash c ≡ c ∷ []
unfolding split
split-NoSlash [] h = refl
split-NoSlash (x ∷ c) h = elim (Bool-cases (eqb x slash)) [
  | inl e ↦ absurd (h (inl (sym ((eqb_iff x slash).0 e))))
  | inr e ↦ rw (e, split-NoSlash c (λ i. h (inr i))) refl
]

pub split-join :
    (c : Str) (cs : List Str) → All NoSlash (c ∷ cs) → split slash (join (c ∷ cs)) ≡ c ∷ cs
unfolding join
split-join c [] h = split-NoSlash c h.0
split-join c (d ∷ cs) h =
    split-append c (join (d ∷ cs))
    ∙ ap (λ s. s ++ split slash (join (d ∷ cs))) (split-NoSlash c h.0)
    ∙ ap (λ s. c ∷ s) (split-join d cs h.1)

pub each_NoSlash : (s : Str) → All NoSlash (split slash s)
unfolding split
each_NoSlash [] = (λ i. i, tt)
each_NoSlash (c ∷ s) =
    let (x, xs, e) = split-IsSome s in
    let rest : All NoSlash (x ∷ xs) = subst (All NoSlash) e (each_NoSlash s) in
    elim (Bool-cases (eqb c slash)) [
      | inl f ↦ rw f (λ i. i, each_NoSlash s)
      | inr f ↦ rw (f, e) (λ i. elim i [ inl g ↦ ground (arith, f, g) | inr j ↦ rest.0 j ], rest.1)
    ]

pub clean_components-append :
    (out xs ys : List Str)
    → clean_components false out (xs ++ ys)
      ≡ clean_components false (clean_components false out xs) ys
unfolding clean_components
clean_components-append out [] ys = refl
clean_components-append out (x ∷ xs) ys =
    clean_components-append (clean_component false out x) xs ys

split_other :
    (c : ℕ) (s x : Str) (xs : List Str)
    → eqb c slash ≡ false
    → split slash s ≡ x ∷ xs
    → split slash (c ∷ s) ≡ (c ∷ x) ∷ xs
unfolding split
split_other c s x xs e h = rw (e, h) refl

up_slash : (c : ℕ) (s : Str) → eqb c slash ≡ true → up_to_slash (c ∷ s) ≡ slash ∷ up_to_slash s
unfolding up_to_slash
up_slash c s e = elim (Bool-cases (up_to_slash s == [])) [
  | inl n ↦
      rw (n, e)
        (ap (λ d. d ∷ []) ((eqb_iff c slash).0 e)
          ∙ ap (λ r. slash ∷ r) (sym ((==_iff (up_to_slash s) []).0 n)))
  | inr n ↦ rw n (ap (λ d. d ∷ up_to_slash s) ((eqb_iff c slash).0 e))
]

up_none : (c : ℕ) (s : Str) → eqb c slash ≡ false → up_to_slash s ≡ [] → up_to_slash (c ∷ s) ≡ []
unfolding up_to_slash
up_none c s e h = rw ((==_iff (up_to_slash s) []).1 h, e) refl

up_some : (c : ℕ) (s : Str) → up_to_slash s == [] ≡ false → up_to_slash (c ∷ s) ≡ c ∷ up_to_slash s
unfolding up_to_slash
up_some c s n = rw n refl

-- The components of a text, without the last, are those of the text up to its last slash.
pub record Parent (s : Str) (init : List Str) (f : Str) : Type 0 where
  pub whole : split slash s ≡ init ++ f ∷ []
  pub before : split slash (up_to_slash s) ≡ init ++ [] ∷ []

two_components : (s x : Str) (xs : List Str) → split slash s ≡ (x ∷ xs) ++ [] ∷ [] → ¬ s ≡ []
unfolding split
two_components s x [] e n =
    let two : split slash [] ≡ x ∷ [] ∷ [] = sym (ap (split slash) n) ∙ e in cc
two_components s x (y ∷ xs) e n =
    let two : split slash [] ≡ x ∷ y ∷ (xs ++ [] ∷ []) = sym (ap (split slash) n) ∙ e in cc

extended :
    (c : ℕ) (s : Str) (init : List Str) (f : Str)
    → eqb c slash ≡ false
    → Parent s init f
    → (init' : List Str) × (f' : Str) × Parent (c ∷ s) init' f'
unfolding join split
extended c s [] f e h =
    let none_before : up_to_slash s ≡ [] = sym (join-split (up_to_slash s)) ∙ ap join h.before in
    (
      [],
      c ∷ f,
      record {
        whole = split_other c s f [] e h.whole;
        before = ap (split slash) (up_none c s e none_before);
      },
    )
extended c s (x ∷ init) f e h =
    let some_before : up_to_slash s == [] ≡ false =
      ground (arith, two_components (up_to_slash s) x init h.before, ==_iff (up_to_slash s) []) in
    (
      (c ∷ x) ∷ init,
      f,
      record {
        whole = split_other c s x (init ++ f ∷ []) e h.whole;
        before =
            ap (split slash) (up_some c s some_before)
            ∙ split_other c (up_to_slash s) x (init ++ [] ∷ []) e h.before;
      },
    )

pub Parent-of : (s : Str) → (init : List Str) × (f : Str) × Parent s init f
unfolding split up_to_slash
Parent-of [] = ([], [], record { whole = refl; before = refl })
Parent-of (c ∷ s) =
    let (init, f, h) = Parent-of s in
    elim (Bool-cases (eqb c slash)) [
      | inl e ↦ (
        [] ∷ init,
        f,
        record {
          whole = rw e (ap (λ x. [] ∷ x) h.whole);
          before = ap (split slash) (up_slash c s e) ∙ ap (λ x. [] ∷ x) h.before;
        },
      )
      | inr e ↦ extended c s init f e h
    ]
