-- ===== src/Dipx/Paths/Canonical.antt =====
-- Which paths Canonicalize accepts.
use dippin_lang.Base.{
  Str, ℕ, List, [], ◌∷◌, ◌≡◌, ◌↔◌, ◌≤◌, inl, inr, refl, sym, ap, subst, arith, Bool, true, false,
  ◌||◌, not, eqb, eqb_iff, ltb, split, length, has_prefix, has_suffix, bytes, All, Bool-cases, ◌==◌,
  ==_iff, contains, contains_iff, In-of_All,
}
use dippin_lang.Base.Fallible.{ok, err, ◌>>=◌, >>=-eq_ok, ok-injective}
use dippin_lang.Dipx.Errors.{Bundled}
use dippin_lang.Dipx.Paths.{
  slash, dot, to_upper, clean, valid_string, unsafe_if, strip_ext, is_windows_reserved,
  check_component_whitespace_and_dots, check_component, check_each_component, check_path_components,
  check_rune, check_each_rune, check_bytes, check_path_basics, has_dot_dot_segment,
  check_path_structure, check_path_suffix, check_path_idempotent, canonicalize,
}
use dippin_lang.Dipx.Paths.Clean.{IsPart, plain-IsPlainPath}
use dippin_lang.Dipx.Paths.Component.{
  IsAllowed, EndsIn, IsDevice, begins_iff, ends_iff, strip_ext-IsStem, IsStem-strip_ext,
  reserved_iff,
}

-- Neither a control character nor a backslash.
abbrev pub IsPathByte : ℕ → Type 0
IsPathByte c = (32 ≤ c) × (¬ c ≡ 127) × (¬ c ≡ b'\\')

pub record IsCanonical (nfc : Str → Str) (p : Str) : Type 0 where
  pub encoded : valid_string p ≡ true
  pub printable : All IsPathByte p
  pub normal : nfc p ≡ p
  pub short : length p ≤ 1024
  pub shallow : length (split slash p) ≤ 16
  pub components : All IsAllowed (split slash p)
  pub inside : has_prefix p (bytes "workflows/") ≡ true
  pub suffix : has_suffix p (bytes ".dip") ≡ true

unequal : (a b : Str) → (a == b) ≡ false → ¬ a ≡ b
unequal a b h e = ground (arith, h, (==_iff a b).1 e)

unequal' : (a b : Str) → (¬ a ≡ b) → (a == b) ≡ false
unequal' a b h = elim (Bool-cases (a == b)) [ inl e ↦ absurd (h ((==_iff a b).0 e)) | inr e ↦ e ]

neither : (a b : Bool) → (a || b) ≡ false → (a ≡ false) × (b ≡ false)
neither a b h = (ground (arith, h), ground (arith, h))

both_not : (a b : Bool) → a ≡ false → b ≡ false → (a || b) ≡ false
both_not a b h k = ground (arith, h, k)

abbrev Passes : Bundled Unit → Type 0
Passes check = check ≡ ok tt

then_iff : (a b : Bundled Unit) → Passes (a >>= λ _. b) ↔ (Passes a × Passes b)
then_iff (ok x) b = (λ h. (refl, h), λ h. h.1)
then_iff (err e) b = (λ h. cc, λ h. h.0)

unsafe_iff : (p : Str) (bad : Bool) → Passes (unsafe_if p bad) ↔ (bad ≡ false)
unsafe_iff p true = (λ h. cc, λ h. cc)
unsafe_iff p false = (λ h. refl, λ h. refl)

check_component_iff : (p c : Str) → Passes (check_component p c) ↔ IsAllowed c
unfolding check_component check_component_whitespace_and_dots
check_component_iff p c =
    let filled = unsafe_iff p (c == []) in
    let unspaced = unsafe_iff p (has_prefix c (bytes " ") || has_suffix c (bytes " ")) in
    let stem = unsafe_iff p (has_suffix (strip_ext c) (bytes " ")) in
    let undotted = unsafe_iff p (has_suffix c (bytes ".")) in
    let free = unsafe_iff p (is_windows_reserved c) in
    (
      λ h.
          let (a, h1) = (then_iff _ _).0 h in
          let (h2, e) = (then_iff _ _).0 h1 in
          let (b, h3) = (then_iff _ _).0 h2 in
          let (c', d) = (then_iff _ _).0 h3 in
          let (front, back) = neither _ _ (unspaced.0 b) in
          record {
            filled = unequal c [] (filled.0 a);
            front = (begins_iff b' ' c).0 front;
            back = (ends_iff b' ' c).0 back;
            undotted = (ends_iff dot c).0 (undotted.0 d);
            stem = λ s is_stem.
                subst (λ x. (¬ EndsIn b' ' x) × (¬ IsDevice (to_upper x)))
                  (IsStem-strip_ext s c is_stem)
                  ((ends_iff b' ' (strip_ext c)).0 (stem.0 c'), (reserved_iff c).0 (free.0 e));
          },
      λ (s : IsAllowed c).
          let (unspaced_stem, no_device) = s.stem (strip_ext c) (strip_ext-IsStem c) in
          let ends = both_not _ _ ((begins_iff b' ' c).1 s.front) ((ends_iff b' ' c).1 s.back) in
          (then_iff _ _).1 (
            filled.1 (unequal' c [] s.filled),
            (then_iff _ _).1 (
              (then_iff _ _).1 (
                unspaced.1 ends,
                (then_iff _ _).1 (
                  stem.1 ((ends_iff b' ' (strip_ext c)).1 unspaced_stem),
                  undotted.1 ((ends_iff dot c).1 s.undotted),
                ),
              ),
              free.1 ((reserved_iff c).1 no_device),
            ),
          ),
    )

check_each_component_iff :
    (p : Str) (cs : List Str) → Passes (check_each_component p cs) ↔ All IsAllowed cs
unfolding check_each_component
check_each_component_iff p [] = (λ h. tt, λ h. refl)
check_each_component_iff p (c ∷ cs) =
    let both = then_iff (check_component p c) (check_each_component p cs) in
    let first = check_component_iff p c in
    let rest = check_each_component_iff p cs in
    (λ h. (first.0 (both.0 h).0, rest.0 (both.0 h).1), λ h. both.1 (first.1 h.0, rest.1 h.1))

check_rune_iff : (p : Str) (c : ℕ) → Passes (check_rune p c) ↔ IsPathByte c
unfolding check_rune
check_rune_iff p c =
    let tested = unsafe_iff p (eqb c b'\\' || (eqb c 0 || (ltb c 0x20 || eqb c 0x7f))) in
    (λ h. ground (arith, tested.0 h), λ h. tested.1 (ground (arith, h)))

check_each_rune_iff : (p rs : Str) → Passes (check_each_rune p rs) ↔ All IsPathByte rs
unfolding check_each_rune
check_each_rune_iff p [] = (λ h. tt, λ h. refl)
check_each_rune_iff p (c ∷ cs) =
    let both = then_iff (check_rune p c) (check_each_rune p cs) in
    let first = check_rune_iff p c in
    let rest = check_each_rune_iff p cs in
    (λ h. (first.0 (both.0 h).0, rest.0 (both.0 h).1), λ h. both.1 (first.1 h.0, rest.1 h.1))

IsAllowed-IsPart : (c : Str) → IsAllowed c → IsPart c
IsAllowed-IsPart c s = record {
  filled = unequal' c [] s.filled;
  here = unequal' c (bytes ".") (λ e. s.undotted ([], e));
  up = unequal' c (bytes "..") (λ e. s.undotted (bytes ".", e));
}

pub every-IsPart : (cs : List Str) → All IsAllowed cs → All IsPart cs
every-IsPart [] h = tt
every-IsPart (c ∷ cs) h = (IsAllowed-IsPart c h.0, every-IsPart cs h.1)

not_here : (p : Str) → All IsAllowed (split slash p) → has_prefix p (bytes "./") ≡ false
unfolding has_prefix has_suffix split
not_here [] h = refl
not_here (c ∷ []) h = ground arith
not_here (c ∷ d ∷ s) h = elim (Bool-cases (eqb c dot)) [
  | inr e ↦ rw e refl
  | inl e ↦ elim (Bool-cases (eqb d slash)) [
    | inr f ↦ ground (arith, e, f)
    | inl f ↦
        let first = subst (λ x. All IsAllowed (split slash (x ∷ d ∷ s))) ((eqb_iff c dot).0 e) h in
        let both =
          subst (λ y. All IsAllowed (split slash (dot ∷ y ∷ s))) ((eqb_iff d slash).0 f) first in
        absurd (both.0.undotted ([], refl))
  ]
]

no_dot_dot : (p : Str) → All IsPart (split slash p) → has_dot_dot_segment p ≡ false
unfolding has_dot_dot_segment
no_dot_dot p h = elim (Bool-cases (contains (split slash p) (bytes ".."))) [
  | inr e ↦ e
  | inl e ↦
      let found = (contains_iff (split slash p) (bytes "..")).0 e in
      let part = In-of_All IsPart (split slash p) (bytes "..") h found in
      absurd (ground (arith, part.up, ==_iff (bytes "..") (bytes "..")))
]

check_path_basics_iff :
    (nfc : Str → Str) (p : Str)
    → Passes (check_path_basics nfc p) ↔ (
        (p == [] ≡ false)
        × (valid_string p ≡ true)
        × All IsPathByte p
        × (nfc p ≡ p)
        × (length p ≤ 1024))
unfolding check_path_basics check_bytes
check_path_basics_iff nfc p =
    let filled = unsafe_iff p (p == []) in
    let encoded = unsafe_iff p (not (valid_string p)) in
    let printable = check_each_rune_iff p p in
    let normal = unsafe_iff p (not (nfc p == p)) in
    let short = unsafe_iff p (ltb 1024 (length p)) in
    (
      λ h.
          let (a, h1) = (then_iff _ _).0 h in
          let (h2, h3) = (then_iff _ _).0 h1 in
          let (b, c) = (then_iff _ _).0 h2 in
          let (d, e) = (then_iff _ _).0 h3 in
          (
            filled.0 a,
            ground (arith, encoded.0 b),
            printable.0 c,
            ground (arith, normal.0 d, ==_iff (nfc p) p),
            ground (arith, short.0 e),
          ),
      λ (a, b, c, d, e). (then_iff _ _).1 (
        filled.1 a,
        (then_iff _ _).1 (
          (then_iff _ _).1 (encoded.1 (ground (arith, b)), printable.1 c),
          (then_iff _ _).1
              (normal.1 (ground (arith, d, ==_iff (nfc p) p)), short.1 (ground (arith, e))),
        ),
      ),
    )

check_path_components_iff :
    (p : Str)
    → Passes (check_path_components p)
      ↔ ((length (split slash p) ≤ 16) × All IsAllowed (split slash p))
unfolding check_path_components
check_path_components_iff p =
    let few = unsafe_iff p (ltb 16 (length (split slash p))) in
    let each = check_each_component_iff p (split slash p) in
    (
      λ h. let (a, b) = (then_iff _ _).0 h in (ground (arith, few.0 a), each.0 b),
      λ (a, b). (then_iff _ _).1 (few.1 (ground (arith, a)), each.1 b),
    )

check_path_suffix_iff :
    (p : Str)
    → Passes (check_path_suffix p)
      ↔ ((has_prefix p (bytes "workflows/") ≡ true) × (has_suffix p (bytes ".dip") ≡ true))
unfolding check_path_suffix
check_path_suffix_iff p =
    let inside = unsafe_iff p (not (has_prefix p (bytes "workflows/"))) in
    let ends = unsafe_iff p (not (has_suffix p (bytes ".dip"))) in
    (
      λ h.
          let (a, b) = (then_iff _ _).0 h in (ground (arith, inside.0 a), ground (arith, ends.0 b)),
      λ (a, b). (then_iff _ _).1 (inside.1 (ground (arith, a)), ends.1 (ground (arith, b))),
    )

-- The structure and the idempotence need no check of their own.
check_path_structure-IsAllowed :
    (p : Str) → All IsAllowed (split slash p) → Passes (check_path_structure p)
unfolding check_path_structure
check_path_structure-IsAllowed p h =
    let parts = every-IsPart (split slash p) h in
    let plain = plain-IsPlainPath p parts in
    rw (plain.relative, not_here p h, plain.singly, no_dot_dot p parts) refl

check_path_idempotent-IsAllowed :
    (p : Str) → (p == [] ≡ false) → All IsAllowed (split slash p) → Passes (check_path_idempotent p)
unfolding check_path_idempotent
check_path_idempotent-IsAllowed p filled h =
    let same =
      (plain-IsPlainPath p (every-IsPart (split slash p) h)).cleaned
        (ground (arith, filled, ==_iff p [])) in
    (unsafe_iff p (not (clean p == p))).1 (ground (arith, same, ==_iff (clean p) p))

pub IsCanonical-filled : (nfc : Str → Str) (p : Str) → IsCanonical nfc p → p == [] ≡ false
unfolding has_prefix
IsCanonical-filled nfc p h =
    ground (arith, h.inside, ==_iff p [], ap (λ s. has_prefix s (bytes "workflows/")))

-- Canonicalize accepts a path, and returns it as it is, exactly if it is valid UTF-8 in NFC form without
-- control characters and backslashes, of at most 1024 bytes and 16 components, lies in workflows/, ends in
-- .dip, and none of its components is empty, begins or ends with a space, ends in a dot, or has a text before
-- its first dot that ends with a space or is a device of Windows: CON, PRN, AUX, NUL, or COM or LPT with a
-- digit, in any case.
pub canonicalize_iff :
    (nfc : Str → Str) (p q : Str) → (canonicalize nfc p ≡ ok q) ↔ ((q ≡ p) × IsCanonical nfc p)
unfolding canonicalize
canonicalize_iff nfc p q = (
  λ h.
      let (a, basics, h1) = >>=-eq_ok (check_path_basics nfc p) _ h in
      let (b, structure, h2) = >>=-eq_ok (check_path_structure p) _ h1 in
      let (c, components, h3) = >>=-eq_ok (check_path_components p) _ h2 in
      let (d, suffix, h4) = >>=-eq_ok (check_path_suffix p) _ h3 in
      let (e, idempotent, h5) = >>=-eq_ok (check_path_idempotent p) _ h4 in
      let (filled, encoded, printable, normal, short) = (check_path_basics_iff nfc p).0 basics in
      let (shallow, components) = (check_path_components_iff p).0 components in
      let (inside, ends) = (check_path_suffix_iff p).0 suffix in
      (
        sym (ok-injective h5),
        record {
          encoded = encoded;
          printable = printable;
          normal = normal;
          short = short;
          shallow = shallow;
          components = components;
          inside = inside;
          suffix = ends;
        },
      ),
  λ (same, h).
      let filled = IsCanonical-filled nfc p h in
      rw
        (
          (check_path_basics_iff nfc p).1 (filled, h.encoded, h.printable, h.normal, h.short),
          check_path_structure-IsAllowed p h.components,
          (check_path_components_iff p).1 (h.shallow, h.components),
          (check_path_suffix_iff p).1 (h.inside, h.suffix),
          check_path_idempotent-IsAllowed p filled h.components,
        )
        (ap ok (sym same)),
)
