-- ===== src/Dipx/Structure/Clean.antt =====
-- Which documents the structure pass over a manifest accepts.
use dippin_lang.Base.{
  Str, ℕ, suc, ◌<◌, List, [], ◌∷◌, ◌≡◌, ◌≢◌, ◌↔◌, refl, sym, ap, subst, ◌∙◌, arith, true, false,
  inl, inr, contains_iff, ==_iff, In, Distinct,
}
use dippin_lang.Base.Fallible.{ok, err, ◌>>=◌}
use dippin_lang.Dipx.Structure.{
  Validation, Validated, max_manifest_depth, signatures, accepted, validate_json_structure,
}
use dippin_lang.Dipx.Structure.Document.{
  Json, text, plain, array, object, Items, none_left, item, Members, no_more, member, tokens_of,
  HasNames, check_key, inspect, inspect_items, inspect_members,
}
use dippin_lang.Dipx.Structure.Inspected.{validate_json_structure-inspect}

abbrev pub keys : Members → List Str
keys no_more = []
keys (member key j ms) = key ∷ keys ms

-- At a depth: containers nest 32 deep at most, the keys of an object are distinct, and those of the
-- outermost object do not include "signatures".
abbrev mutual
  pub IsClean : ℕ → Json → Type 0
  IsClean depth (text s) = Unit
  IsClean depth plain = Unit
  IsClean depth (array xs) = (depth < max_manifest_depth) × AreClean (suc depth) xs
  IsClean depth (object ms) =
      (depth < max_manifest_depth)
      × Distinct (keys ms)
      × ((depth ≡ 0) → ¬ In signatures (keys ms))
      × HasClean (suc depth) ms

  pub AreClean : ℕ → Items → Type 0
  AreClean depth none_left = Unit
  AreClean depth (item j xs) = IsClean depth j × AreClean depth xs

  pub HasClean : ℕ → Members → Type 0
  HasClean depth no_more = Unit
  HasClean depth (member key j ms) = IsClean depth j × HasClean depth ms

-- The keys that come, behind those that are there.
abbrev AreFresh : ℕ → List Str → List Str → Type 0
AreFresh depth seen [] = Unit
AreFresh depth seen (key ∷ rest) =
    (¬ In key seen) × ((depth ≡ 1) → key ≢ signatures) × AreFresh depth (key ∷ seen) rest

check_key-passes :
    (depth : ℕ) (seen : List Str) (key : Str)
    → (check_key depth seen key ≡ ok tt) ↔ ((¬ In key seen) × ((depth ≡ 1) → key ≢ signatures))
check_key-passes depth seen key = ground (arith, contains_iff seen key, ==_iff key signatures)

then_passes : (m n : Validated Unit) → ((m >>= λ u. n) ≡ ok tt) ↔ ((m ≡ ok tt) × (n ≡ ok tt))
then_passes (ok tt) n = ground arith
then_passes (err e) n = ground arith

fresh_iff :
    (depth : ℕ) (seen ks : List Str)
    → AreFresh depth seen ks
      ↔ (((k : Str) → In k ks → ¬ In k seen) × Distinct ks × ((depth ≡ 1) → ¬ In signatures ks))
fresh_iff depth seen [] = (λ h. (λ k i j. i, tt, λ e i. i), λ h. tt)
fresh_iff depth seen (key ∷ ks) =
    let rest = fresh_iff depth (key ∷ seen) ks in
    (
      λ h.
          let (apart, distinct, free) = rest.0 h.2 in
          (
            λ k i j. elim i [
              | inl e ↦ h.0 (subst (λ x. In x seen) e j)
              | inr i ↦ apart k i (inr j)
            ],
            (λ i. apart key i (inl refl), distinct),
            λ e i. elim i [ inl same ↦ h.1 e (sym same) | inr i ↦ free e i ],
          ),
      λ h.
          let (apart, (new, distinct), free) = h in
          (
            apart key (inl refl),
            λ e same. free e (inl (sym same)),
            rest.1 (
              λ k i j. elim j [
                | inl e ↦ new (subst (λ x. In x ks) e i)
                | inr j ↦ apart k (inr i) j
              ],
              distinct,
              λ e i. free e (inr i),
            ),
          ),
    )

fresh_top :
    (depth : ℕ) (ms : Members)
    → AreFresh (suc depth) [] (keys ms)
      ↔ (Distinct (keys ms) × ((depth ≡ 0) → ¬ In signatures (keys ms)))
fresh_top depth ms =
    let fresh = fresh_iff (suc depth) [] (keys ms) in
    (
      λ h. let (apart, distinct, free) = fresh.0 h in (distinct, λ e. free (ap suc e)),
      λ h. fresh.1 (λ k i j. j, h.0, λ e. h.1 (omega (arith, e))),
    )

mutual
  unfolding inspect

  inspect_iff : (depth : ℕ) (j : Json) → (inspect depth j ≡ ok tt) ↔ IsClean depth j
  inspect_iff depth (text s) = (λ h. tt, λ h. refl)
  inspect_iff depth plain = (λ h. tt, λ h. refl)
  inspect_iff depth (array xs) = ground (arith, inspect_items_iff (suc depth) xs)
  inspect_iff depth (object ms) =
      ground (arith, inspect_members_iff (suc depth) [] ms, fresh_top depth ms)

  inspect_items_iff :
      (depth : ℕ) (xs : Items) → (inspect_items depth xs ≡ ok tt) ↔ AreClean depth xs
  inspect_items_iff depth none_left = (λ h. tt, λ h. refl)
  inspect_items_iff depth (item j xs) = ground (
    arith,
    then_passes (inspect depth j) (inspect_items depth xs),
    inspect_iff depth j,
    inspect_items_iff depth xs,
  )

  inspect_members_iff :
      (depth : ℕ) (seen : List Str) (ms : Members)
      → (inspect_members depth seen ms ≡ ok tt)
        ↔ (AreFresh depth seen (keys ms) × HasClean depth ms)
  inspect_members_iff depth seen no_more = (λ h. (tt, tt), λ h. refl)
  inspect_members_iff depth seen (member key j ms) =
      let later = inspect_members depth (key ∷ seen) ms in
      ground (
        arith,
        then_passes (check_key depth seen key) (inspect depth j >>= λ u. later),
        then_passes (inspect depth j) later,
        check_key-passes depth seen key,
        inspect_iff depth j,
        inspect_members_iff depth (key ∷ seen) ms,
      )

abbrev without_state : Validated Validation → Validated Unit
without_state r = r >>= λ v. ok tt

accepted_iff : (r : Validated Validation) → (accepted r ≡ true) ↔ (without_state r ≡ ok tt)
accepted_iff (ok v) = (λ h. refl, λ h. refl)
accepted_iff (err e) = (λ h. ground (arith, h), λ h. ground (arith, h))

-- The structure pass accepts the tokens of a document without empty keys exactly if its containers nest
-- 32 deep at most, the keys of each object are distinct, and those of the outermost object do not include
-- "signatures".
pub validate_json_structure_iff :
    (j : Json)
    → HasNames j
    → (accepted (validate_json_structure false (tokens_of j [])) ≡ true) ↔ IsClean 0 j
validate_json_structure_iff j named =
    let same = validate_json_structure-inspect j named in
    let result = validate_json_structure false (tokens_of j []) in
    let clean = inspect_iff 0 j in
    (
      λ h. clean.0 (sym same ∙ (accepted_iff result).0 h),
      λ h. (accepted_iff result).1 (same ∙ clean.1 h),
    )
