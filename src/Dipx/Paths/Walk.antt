-- ===== src/Dipx/Paths/Walk.antt =====
-- Walks along the components of a path, and the components that path.Clean keeps.
use dippin_lang.Base.{
  Str, List, [], ◌∷◌, ◌++◌, ◌≡◌, ◌⊎◌, inl, inr, refl, sym, ap, subst, ◌∙◌, false, bytes, All,
  Bool-cases, ◌==◌, ==_iff, In,
}
use dippin_lang.Dipx.Paths.{slash, clean_component, clean_components}
use dippin_lang.Dipx.Paths.Clean.{IsPart}
use dippin_lang.Dipx.Paths.Segments.{NoSlash}

-- A component that names a file or a directory.
abbrev pub IsName : Str → Type 0
IsName c = IsPart c × (¬ In slash c)

-- From a directory, its components the last first, along components to a place.
pub data Walks : List Str → List Str → List Str → Type 0 where
  arrived : {ds : List Str} → Walks ds [] ds
  stay :
      {c : Str} {ds cs es : List Str}
      → (c ≡ []) ⊎ (c ≡ bytes ".")
      → Walks ds cs es
      → Walks ds (c ∷ cs) es
  up : {d : Str} {ds cs es : List Str} → Walks ds cs es → Walks (d ∷ ds) (bytes ".." ∷ cs) es
  down : {c : Str} {ds cs es : List Str} → IsPart c → Walks (c ∷ ds) cs es → Walks ds (c ∷ cs) es

-- What a step of cleaning does, apart from going up.
data Step (out : List Str) (c : Str) : Type 0 where
  stays : (c ≡ []) ⊎ (c ≡ bytes ".") → clean_component false out c ≡ out → Step out c
  rises : c ≡ bytes ".." → Step out c
  descends : IsPart c → clean_component false out c ≡ c ∷ out → Step out c

Step-of : (out : List Str) (c : Str) → Step out c
unfolding clean_component
Step-of out c = elim (Bool-cases (c == [])) [
  | inl e ↦ stays (inl ((==_iff c []).0 e)) (rw e refl)
  | inr e ↦ elim (Bool-cases (c == bytes ".")) [
    | inl f ↦ stays (inr ((==_iff c (bytes ".")).0 f)) (rw (e, f) refl)
    | inr f ↦ elim (Bool-cases (c == bytes "..")) [
      | inl g ↦ rises ((==_iff c (bytes "..")).0 g)
      | inr g ↦ descends (record { filled = e; here = f; up = g }) (rw (e, f, g) refl)
    ]
  ]
]

rise : (d : Str) (ds : List Str) → IsPart d → clean_component false (d ∷ ds) (bytes "..") ≡ ds
unfolding clean_component ◌==◌
rise d ds h = rw h.up refl

-- From the top of a directory, or on a "..", it goes on to one more.
sunk_rise :
    (r : List Str)
    → (r' : List Str) × (clean_component false (r ++ bytes ".." ∷ []) (bytes "..")
        ≡ r' ++ bytes ".." ∷ [])
unfolding clean_component ◌==◌
sunk_rise [] = (bytes ".." ∷ [], refl)
sunk_rise (d ∷ r) = elim (Bool-cases (d == bytes "..")) [
  | inl e ↦ (bytes ".." ∷ d ∷ r, rw e refl)
  | inr e ↦ (r, rw e refl)
]

-- Below everything stands a "..", which nothing takes away.
sunk_step :
    (r : List Str) (c : Str)
    → (r' : List Str) × (clean_component false (r ++ bytes ".." ∷ []) c ≡ r' ++ bytes ".." ∷ [])
sunk_step r c = elim (Step-of (r ++ bytes ".." ∷ []) c) [
  | stays e s ↦ (r, s)
  | descends h s ↦ (c ∷ r, s)
  | rises e ↦
      subst
        (λ x.
          (r' : List Str) × (clean_component false (r ++ bytes ".." ∷ []) x
            ≡ r' ++ bytes ".." ∷ []))
        (sym e) (sunk_rise r)
]

pub sunk :
    (r cs : List Str)
    → (r' : List Str) × (clean_components false (r ++ bytes ".." ∷ []) cs ≡ r' ++ bytes ".." ∷ [])
unfolding clean_components
sunk r [] = (r, refl)
sunk r (c ∷ cs) =
    let (r', e) = sunk_step r c in
    let (r'', f) = sunk r' cs in (r'', ap (λ x. clean_components false x cs) e ∙ f)

abbrev pub Sunk : List Str → Type 0
Sunk out = (r : List Str) × (out ≡ r ++ bytes ".." ∷ [])

-- Cleaning walks, unless it goes up from where there is nothing above.
abbrev Outcome : List Str → List Str → Type 0
Outcome ds cs =
    (Walks ds cs (clean_components false ds cs) × All IsName (clean_components false ds cs))
    ⊎ Sunk (clean_components false ds cs)

risen :
    (ds cs : List Str)
    → ((es : List Str) → All IsName es → Outcome es cs)
    → All IsName ds
    → Outcome ds (bytes ".." ∷ cs)
unfolding clean_components clean_component ◌==◌
risen [] cs rec h = inr (sunk [] cs)
risen (d ∷ ds) cs rec h =
    let s = rise d ds h.0.0 in
    rw s (elim (rec ds h.1) [ inl (w, n) ↦ inl (up w, n) | inr r ↦ inr r ])

pub walked : (ds cs : List Str) → All IsName ds → All NoSlash cs → Outcome ds cs
unfolding clean_components
walked ds [] h k = inl (arrived, h)
walked ds (c ∷ cs) h k = elim (Step-of ds c) [
  | stays e s ↦ rw s (elim (walked ds cs h k.1) [ inl (w, n) ↦ inl (stay e w, n) | inr r ↦ inr r ])
  | descends p s ↦ rw s (elim (walked (c ∷ ds) cs ((p, k.0), h) k.1) [
    | inl (w, n) ↦ inl (down p w, n)
    | inr r ↦ inr r
  ])
  | rises e ↦ subst (λ x. Outcome ds (x ∷ cs)) (sym e) (risen ds cs (λ es n. walked es cs n k.1) h)
]
