-- ===== src/Dipx/Paths/Component.antt =====
-- Which components of a path the checks of dipx/resolve.go let pass, in terms of their texts.
use mathlib.Core.List.{reverse, reverse-append, reverse-cons, reverse-reverse}
use dippin_lang.Base.{
  Str, ℕ, [], ◌∷◌, ◌++◌, ◌≡◌, ◌↔◌, ◌⊎◌, ◌≤◌, inl, inr, refl, sym, ap, subst, ◌∙◌, arith, true,
  false, eqb, eqb_iff, has_prefix, has_suffix, bytes, Bool-cases, contains, contains_iff, In,
}
use dippin_lang.Dipx.Paths.{
  dot, strip_ext, to_upper, is_windows_reserved, is_windows_numbered_reserved,
}

-- The text ends in the byte.
abbrev pub EndsIn : ℕ → Str → Type 0
EndsIn x c = (init : Str) × (c ≡ init ++ x ∷ [])

-- `s` is the text before the first dot, or all of the text where it has none.
abbrev pub IsStem : Str → Str → Type 0
IsStem s c = (¬ In dot s) × ((c ≡ s) ⊎ ((rest : Str) × (c ≡ s ++ dot ∷ rest)))

-- A device of Windows in upper case: CON, PRN, AUX, NUL, or COM or LPT with a digit.
abbrev pub IsDevice : Str → Type 0
IsDevice u =
    In u (bytes "CON" ∷ bytes "PRN" ∷ bytes "AUX" ∷ bytes "NUL" ∷ [])
    ⊎ ((d : ℕ) × (b'0' ≤ d)
        × (d ≤ b'9')
        × ((u ≡ bytes "COM" ++ d ∷ []) ⊎ (u ≡ bytes "LPT" ++ d ∷ [])))

-- Not empty, without a space at an end, before the first dot or a dot at the end, and before the first dot no
-- device, in any case of its letters.
pub record IsAllowed (c : Str) : Type 0 where
  pub filled : ¬ c ≡ []
  pub front : (rest : Str) → ¬ c ≡ b' ' ∷ rest
  pub back : ¬ EndsIn b' ' c
  pub undotted : ¬ EndsIn dot c
  pub stem : (s : Str) → IsStem s c → (¬ EndsIn b' ' s) × (¬ IsDevice (to_upper s))

pub begins_iff :
    (x : ℕ) (c : Str) → (has_prefix c (x ∷ []) ≡ false) ↔ ((rest : Str) → ¬ c ≡ x ∷ rest)
unfolding has_prefix
begins_iff x [] = (λ h rest e. cc, λ h. refl)
begins_iff x (y ∷ c) = elim (Bool-cases (eqb y x)) [
  | inl e ↦ (
    λ h. absurd (ground (arith, rw e at h)),
    λ h. absurd (h c (ap (λ z. z ∷ c) ((eqb_iff y x).0 e))),
  )
  | inr e ↦ (λ h rest s. ground (arith, e, s), λ h. rw e refl)
]

ends_in : (x : ℕ) (c : Str) → EndsIn x c → has_suffix c (x ∷ []) ≡ true
unfolding has_suffix has_prefix
ends_in x c (init, e) =
    let turned : reverse c ≡ x ∷ reverse init = ap reverse e ∙ reverse-append init (x ∷ []) in
    rw turned (ground (arith, eqb_iff x x))

of_suffix : (x : ℕ) (r c : Str) → reverse c ≡ r → has_prefix r (x ∷ []) ≡ true → EndsIn x c
unfolding has_prefix
of_suffix x [] c e h = cc
of_suffix x (y ∷ r) c e h =
    let same : y ≡ x = (eqb_iff y x).0 (ground (arith, h)) in
    (
      reverse r,
      sym (reverse-reverse c)
          ∙ ap reverse e
          ∙ reverse-cons y r
          ∙ ap (λ z. reverse r ++ z ∷ []) same,
    )

pub ends_iff : (x : ℕ) (c : Str) → (has_suffix c (x ∷ []) ≡ false) ↔ (¬ EndsIn x c)
unfolding has_suffix
ends_iff x c = (
  λ h s. ground (arith, h, ends_in x c s),
  λ h. elim (Bool-cases (has_prefix (reverse c) (x ∷ []))) [
    | inl e ↦ absurd (h (of_suffix x (reverse c) c refl e))
    | inr e ↦ e
  ],
)

pub strip_ext-IsStem : (c : Str) → IsStem (strip_ext c) c
unfolding strip_ext
strip_ext-IsStem [] = (λ i. i, inl refl)
strip_ext-IsStem (x ∷ c) = elim (Bool-cases (eqb x dot)) [
  | inl e ↦ rw e (λ i. i, inr (c, ap (λ y. y ∷ c) ((eqb_iff x dot).0 e)))
  | inr e ↦
      let (undotted, split) = strip_ext-IsStem c in
      rw e (
        λ i. elim i [ inl s ↦ ground (arith, e, s) | inr j ↦ undotted j ],
        elim split [
          | inl s ↦ inl (ap (λ t. x ∷ t) s)
          | inr (rest, s) ↦ inr (rest, ap (λ t. x ∷ t) s)
        ],
      )
]

strip_ext-undotted : (s : Str) → (¬ In dot s) → strip_ext s ≡ s
unfolding strip_ext
strip_ext-undotted [] h = refl
strip_ext-undotted (x ∷ s) h = elim (Bool-cases (eqb x dot)) [
  | inl e ↦ absurd (h (inl (sym ((eqb_iff x dot).0 e))))
  | inr e ↦ rw e (ap (λ t. x ∷ t) (strip_ext-undotted s (λ i. h (inr i))))
]

strip_ext-dotted : (s rest : Str) → (¬ In dot s) → strip_ext (s ++ dot ∷ rest) ≡ s
unfolding strip_ext
strip_ext-dotted [] rest h = refl
strip_ext-dotted (x ∷ s) rest h = elim (Bool-cases (eqb x dot)) [
  | inl e ↦ absurd (h (inl (sym ((eqb_iff x dot).0 e))))
  | inr e ↦ rw e (ap (λ t. x ∷ t) (strip_ext-dotted s rest (λ i. h (inr i))))
]

pub IsStem-strip_ext : (s c : Str) → IsStem s c → strip_ext c ≡ s
IsStem-strip_ext s c (undotted, inl e) = ap strip_ext e ∙ strip_ext-undotted s undotted
IsStem-strip_ext s c (undotted, inr (rest, e)) = ap strip_ext e ∙ strip_ext-dotted s rest undotted

abbrev IsNumbered : Str → Type 0
IsNumbered u =
    (d : ℕ) × (b'0' ≤ d) × (d ≤ b'9') × ((u ≡ bytes "COM" ++ d ∷ []) ⊎ (u ≡ bytes "LPT" ++ d ∷ []))

is_numbered : (u : Str) → IsNumbered u → is_windows_numbered_reserved u ≡ true
unfolding is_windows_numbered_reserved has_prefix
is_numbered u (d, low, high, inl e) =
    subst (λ x. is_windows_numbered_reserved x ≡ true) (sym e) (ground (arith, low, high))
is_numbered u (d, low, high, inr e) =
    subst (λ x. is_windows_numbered_reserved x ≡ true) (sym e) (ground (arith, low, high))

of_IsNumbered : (u : Str) → is_windows_numbered_reserved u ≡ true → IsNumbered u
unfolding is_windows_numbered_reserved has_prefix
of_IsNumbered [] h = cc
of_IsNumbered (a ∷ []) h = cc
of_IsNumbered (a ∷ b ∷ []) h = cc
of_IsNumbered (a ∷ b ∷ c ∷ []) h = cc
of_IsNumbered (a ∷ b ∷ c ∷ d ∷ []) h = (d, ground (arith, h), ground (arith, h), ground (arith, h))
of_IsNumbered (a ∷ b ∷ c ∷ d ∷ e ∷ u) h = absurd (ground (arith, h))

pub reserved_iff :
    (c : Str) → (is_windows_reserved c ≡ false) ↔ (¬ IsDevice (to_upper (strip_ext c)))
unfolding is_windows_reserved
reserved_iff c =
    let u = to_upper (strip_ext c) in
    let named = contains_iff (bytes "CON" ∷ bytes "PRN" ∷ bytes "AUX" ∷ bytes "NUL" ∷ []) u in
    (
      λ h device. elim device [
        | inl i ↦ ground (arith, h, named.1 i)
        | inr n ↦ ground (arith, h, is_numbered u n)
      ],
      λ h.
          elim (Bool-cases
            (contains (bytes "CON" ∷ bytes "PRN" ∷ bytes "AUX" ∷ bytes "NUL" ∷ []) u)) [
              | inl e ↦ absurd (h (inl (named.0 e)))
              | inr e ↦ elim (Bool-cases (is_windows_numbered_reserved u)) [
                | inl f ↦ absurd (h (inr (of_IsNumbered u f)))
                | inr f ↦ rw (e, f) refl
              ]
            ],
    )
