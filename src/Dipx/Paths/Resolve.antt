-- ===== src/Dipx/Paths/Resolve.antt =====
-- Where resolveLexically of dipx/resolve.go leads: the components of the reference, walked one by one from the
-- directory of the parent.
use mathlib.Core.List.{reverse, reverse-reverse, append-nil}
use dippin_lang.Base.{
  Str, ℕ, List, [], ◌∷◌, ◌++◌, ◌≡◌, inl, inr, refl, sym, ap, subst, ◌∙◌, arith, true, false,
  eqb_iff, split, has_prefix, bytes, All, Bool-cases, ◌==◌, ==_iff, In, if◌then◌else◌,
}
use dippin_lang.Dipx.Paths.{
  slash, dot, join, clean_component, clean_components, clean, up_to_slash, dir_of, join_path,
  resolve_lexically,
}
use dippin_lang.Base.Fallible.{ok, err-ne-ok}
use dippin_lang.Dipx.Paths.Canonical.{IsCanonical, canonicalize_iff, every-IsPart}
use dippin_lang.Dipx.Paths.Clean.{IsPart, join-split, clean-IsPart}
use dippin_lang.Dipx.Paths.Segments.{
  NoSlash, split-append, split-join, each_NoSlash, clean_components-append, Parent, Parent-of,
}
use dippin_lang.Dipx.Paths.Walk.{IsName, Walks, walked}
use dippin_lang.Dipx.Paths.Outside.{
  All-reverse, init-All, both-All, parts, unslashed, or_dot, clean-relative, or_dot-filled,
  relative_first, join-filled, Sunk-IsOutside, clean-IsOutside, IsOutside-refused, here_refused,
  names_cleaned,
}

has_prefix-In : (s t : Str) (x : ℕ) → has_prefix s t ≡ true → In x t → In x s
unfolding has_prefix
has_prefix-In s [] x h i = absurd i
has_prefix-In [] (p ∷ t) x h i = cc
has_prefix-In (c ∷ s) (p ∷ t) x h i = ground (arith, h, i, has_prefix-In s t x, eqb_iff c p)

-- A path in workflows/ has a directory.
some_directory : (p f : Str) → has_prefix p (bytes "workflows/") ≡ true → ¬ split slash p ≡ f ∷ []
unfolding join
some_directory p f inside e =
    let names : All NoSlash (f ∷ []) = subst (All NoSlash) e (each_NoSlash p) in
    let same : f ≡ p = sym (ap join e) ∙ join-split p in
    absurd (
      names.0 (
        subst (In slash) (sym same)
          (has_prefix-In p (bytes "workflows/") slash inside (ground arith))))

dir_of-Parent :
    (p i : Str) (is : List Str) (f : Str)
    → Parent p (i ∷ is) f
    → All IsPart (i ∷ is)
    → dir_of p ≡ join (i ∷ is)
unfolding clean_components clean_component ◌==◌
dir_of-Parent p i is f h parts_dir =
    let u = up_to_slash p in
    let relative = relative_first u i (is ++ [] ∷ []) h.before parts_dir.0.filled in
    let walked_to : clean_components false [] (split slash u) ≡ clean_components false [] (i ∷ is) =
      ap (clean_components false []) h.before ∙ clean_components-append [] (i ∷ is) ([] ∷ []) in
    let turned : reverse (clean_components false [] (split slash u)) ≡ i ∷ is =
      ap reverse walked_to ∙ clean-IsPart false [] (i ∷ is) parts_dir in
    clean-relative u relative
    ∙ ap (λ x. or_dot (join x)) turned
    ∙ or_dot-filled (join (i ∷ is)) (join-filled i is parts_dir.0)

not_dot : (i : Str) (is : List Str) → All IsName (i ∷ is) → (join (i ∷ is) == dot ∷ []) ≡ false
unfolding split
not_dot i is h = elim (Bool-cases (join (i ∷ is) == dot ∷ [])) [
  | inr e ↦ e
  | inl e ↦
      let same = (==_iff (join (i ∷ is)) (dot ∷ [])).0 e in
      let pieces = sym (split-join i is (unslashed (i ∷ is) h)) ∙ ap (split slash) same in
      absurd (here_refused (subst (All IsPart) pieces (parts (i ∷ is) h)))
]

-- What resolveLexically gives to Canonicalize.
prepared :
    (i : Str) (is : List Str) (ref : Str)
    → All IsName (i ∷ is)
    → (ref == []) ≡ false
    → join_path (join (i ∷ is)) ref
      ≡ or_dot (join (reverse (clean_components false (reverse (i ∷ is)) (split slash ref))))
unfolding join_path
prepared i is ref h some_ref =
    let dir = join (i ∷ is) in
    let dir_split = split-join i is (unslashed (i ∷ is) h) in
    let pieces : split slash (dir ++ slash ∷ ref) ≡ (i ∷ is) ++ split slash ref =
      split-append dir ref ∙ ap (λ x. x ++ split slash ref) dir_split in
    let relative =
      relative_first (dir ++ slash ∷ ref) i (is ++ split slash ref) pieces h.0.0.filled in
    let base : clean_components false [] (i ∷ is) ≡ reverse (i ∷ is) =
      sym (reverse-reverse (clean_components false [] (i ∷ is)))
      ∙ ap reverse (clean-IsPart false [] (i ∷ is) (parts (i ∷ is) h)) in
    rw (join-filled i is h.0.0, some_ref)
      (clean-relative (dir ++ slash ∷ ref) relative
        ∙ ap (λ x. or_dot (join (reverse (clean_components false [] x)))) pieces
        ∙ ap (λ x. or_dot (join (reverse x)))
            (clean_components-append [] (i ∷ is) (split slash ref)
              ∙ ap (λ x. clean_components false x (split slash ref)) base))

led :
    (i : Str) (is : List Str) (ref q : Str)
    → All IsName (i ∷ is)
    → q
      ≡ clean
          (or_dot (join (reverse (clean_components false (reverse (i ∷ is)) (split slash ref)))))
    → All IsPart (split slash q)
    → Walks (reverse (i ∷ is)) (split slash ref) (reverse (split slash q))
led i is ref q h e parts_q =
    let start =
      subst (All IsName) (append-nil (reverse (i ∷ is))) (All-reverse IsName (i ∷ is) [] h tt) in
    let out = clean_components false (reverse (i ∷ is)) (split slash ref) in
    elim (walked (reverse (i ∷ is)) (split slash ref) start (each_NoSlash ref)) [
      | inl (w, n) ↦
          subst (Walks (reverse (i ∷ is)) (split slash ref)) (sym (names_cleaned out q n e parts_q))
            w
      | inr r ↦
          let outside = clean-IsOutside (or_dot (join (reverse out))) (Sunk-IsOutside out r) in
          absurd (
            IsOutside-refused (clean (or_dot (join (reverse out)))) outside
              (subst (λ x. All IsPart (split slash x)) e parts_q))
    ]

from_directory :
    (nfc : Str → Str) (ref parent q : Str) (directory : List Str) (file : Str)
    → IsCanonical nfc parent
    → Parent parent directory file
    → (ref == []) ≡ false
    → q ≡ clean (join_path (if dir_of parent == dot ∷ [] then [] else dir_of parent) ref)
    → IsCanonical nfc q
    → Walks (reverse directory) (split slash ref) (reverse (split slash q))
from_directory nfc ref parent q [] file canonical p e same safe =
    absurd (some_directory parent file canonical.inside p.whole)
from_directory nfc ref parent q (i ∷ is) file canonical p e same safe =
    let all_parts =
      subst (All IsPart) p.whole (every-IsPart (split slash parent) canonical.components) in
    let all_unslashed = subst (All NoSlash) p.whole (each_NoSlash parent) in
    let names : All IsName (i ∷ is) =
      both-All (i ∷ is) (init-All IsPart (i ∷ is) (file ∷ []) all_parts)
        (init-All NoSlash (i ∷ is) (file ∷ []) all_unslashed) in
    let dir = dir_of-Parent parent i is file p (parts (i ∷ is) names) in
    let kept : (if dir_of parent == dot ∷ [] then [] else dir_of parent) ≡ join (i ∷ is) =
      ap (λ d. if d == dot ∷ [] then [] else d) dir ∙ rw (not_dot i is names) refl in
    let reached =
      same ∙ ap (λ d. clean (join_path d ref)) kept ∙ ap clean (prepared i is ref names e) in
    led i is ref q names reached (every-IsPart (split slash q) safe.components)

-- Where the parent is a path that Canonicalize accepts and a reference resolves, the result is such a path too,
-- and the components of the reference, walked one by one from the directory of the parent, lead to it: an empty
-- one or a dot stays, two dots go up from a directory that is there, and any other goes down.
pub resolve_lexically-Walks :
    (nfc : Str → Str) (ref parent q : Str)
    → IsCanonical nfc parent
    → resolve_lexically nfc ref parent ≡ ok q
    → IsCanonical nfc q
      × (directory : List Str) × (file : Str) × (split slash parent ≡ directory ++ file ∷ [])
      × Walks (reverse directory) (split slash ref) (reverse (split slash q))
unfolding resolve_lexically
resolve_lexically-Walks nfc ref parent q canonical h = elim (Bool-cases (ref == [])) [
  | inl e ↦ absurd (err-ne-ok (rw e at h))
  | inr e ↦
      let (directory, file, p) = Parent-of parent in
      let (same, safe) = (canonicalize_iff nfc _ q).0 (rw e at h) in
      let safe' : IsCanonical nfc q = subst (IsCanonical nfc) (sym same) safe in
      (
        safe',
        directory,
        file,
        p.whole,
        from_directory nfc ref parent q directory file canonical p e same safe',
      )
]
