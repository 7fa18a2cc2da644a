-- ===== src/Dipx/Paths/Clean.antt =====
-- Paths whose components are plain: cleaning leaves them as they are.
use mathlib.Core.List.{reverse, reverse-cons, append_assoc, append-nil}
use dippin_lang.Base.{
  Str, ℕ, List, [], ◌∷◌, ◌++◌, ◌≡◌, inl, inr, refl, sym, ap, ◌∙◌, arith, Bool, false, eqb, eqb_iff,
  split, has_prefix, has_substring, bytes, All, Bool-cases, ◌==◌, ==_iff,
}
use dippin_lang.Dipx.Paths.{slash, dot, join, clean_component, clean_components, clean}

-- Neither empty nor a dot nor two.
pub record IsPart (c : Str) : Type 0 where
  pub filled : c == [] ≡ false
  pub here : c == dot ∷ [] ≡ false
  pub up : c == dot ∷ dot ∷ [] ≡ false

pub split-IsSome : (s : Str) → (x : Str) × (xs : List Str) × (split slash s ≡ x ∷ xs)
unfolding split
split-IsSome [] = ([], [], refl)
split-IsSome (c ∷ s) = elim (Bool-cases (eqb c slash)) [
  | inl e ↦ ([], split slash s, rw e refl)
  | inr e ↦ let (x, xs, h) = split-IsSome s in (c ∷ x, xs, rw (e, h) refl)
]

join-attach : (c : ℕ) (x : Str) (xs : List Str) → join ((c ∷ x) ∷ xs) ≡ c ∷ join (x ∷ xs)
unfolding join
join-attach c x [] = refl
join-attach c x (y ∷ ys) = refl

pub join-split : (s : Str) → join (split slash s) ≡ s
unfolding split join
join-split [] = refl
join-split (c ∷ s) =
    let (x, xs, h) = split-IsSome s in
    let whole = join-split s in
    let ih : join (x ∷ xs) ≡ s = rw h at whole in
    elim (Bool-cases (eqb c slash)) [
      | inl e ↦ rw (e, h) (ap (λ t. slash ∷ t) ih ∙ ap (λ d. d ∷ s) (sym ((eqb_iff c slash).0 e)))
      | inr e ↦ rw (e, h) (join-attach c x xs ∙ ap (λ t. c ∷ t) ih)
    ]

pub clean-IsPart :
    (rooted : Bool) (out cs : List Str)
    → All IsPart cs
    → reverse (clean_components rooted out cs) ≡ reverse out ++ cs
unfolding clean_components
clean-IsPart rooted out [] h = sym (append-nil (reverse out))
clean-IsPart rooted out (c ∷ cs) h =
    let pushed : clean_component rooted out c ≡ c ∷ out =
      unfold clean_component in rw (h.0.filled, h.0.here, h.0.up) refl in
    rw pushed (
      clean-IsPart rooted (c ∷ out) cs h.1
      ∙ ap (λ r. r ++ cs) (reverse-cons c out)
      ∙ append_assoc (reverse out) (c ∷ []) cs)

-- A path that begins with a slash begins with an empty component.
unrooted : (s : Str) → All IsPart (split slash s) → has_prefix s (slash ∷ []) ≡ false
unfolding split has_prefix ◌==◌
unrooted [] h = refl
unrooted (c ∷ s) h = elim (Bool-cases (eqb c slash)) [
  | inl e ↦ let first = rw (e, split) at h in absurd (ground (arith, first.0.filled))
  | inr e ↦ rw e refl
]

-- All the components but the first.
abbrev later : List Str → List Str
later [] = []
later (c ∷ cs) = cs

IsPart-later : (cs : List Str) → All IsPart cs → All IsPart (later cs)
IsPart-later [] h = tt
IsPart-later (c ∷ cs) h = h.1

single_slashes :
    (s : Str) → All IsPart (later (split slash s)) → has_substring s (bytes "//") ≡ false
unfolding split has_prefix has_substring
single_slashes [] h = refl
single_slashes (c ∷ s) h =
    let (x, xs, some_x) = split-IsSome s in
    elim (Bool-cases (eqb c slash)) [
      | inl e ↦
          let parts : All IsPart (split slash s) = rw e at h in
          rw (e, unrooted s parts, single_slashes s (IsPart-later (split slash s) parts)) refl
      | inr e ↦
          let parts : All IsPart (later (split slash s)) = rw some_x (rw (e, some_x) at h) in
          rw (e, single_slashes s parts) refl
    ]

-- What the checks on the structure of a path ask follows where its components are plain.
pub record IsPlainPath (p : Str) : Type 0 where
  pub relative : has_prefix p (bytes "/") ≡ false
  pub singly : has_substring p (bytes "//") ≡ false
  pub cleaned : (¬ p ≡ []) → clean p ≡ p

pub plain-IsPlainPath : (p : Str) → All IsPart (split slash p) → IsPlainPath p
unfolding clean
plain-IsPlainPath p h =
    let relative = unrooted p h in
    let body : join (reverse (clean_components false [] (split slash p))) ≡ p =
      ap join (clean-IsPart false [] (split slash p) h) ∙ join-split p in
    record {
      relative = relative;
      singly = single_slashes p (IsPart-later (split slash p) h);
      cleaned = λ filled. rw (relative, body) (ground (arith, ==_iff p [], filled));
    }
