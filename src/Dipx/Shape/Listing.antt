-- ===== src/Dipx/Shape/Listing.antt =====
-- Which manifests verifyManifestShape accepts.
use dippin_lang.Base.{
  Str, ℕ, List, [], ◌∷◌, ◌≡◌, ◌↔◌, ◌≤◌, ◌⊎◌, inl, inr, refl, sym, ap, subst, arith, true, eqb,
  eqb_iff, length, map, contains, contains_iff, In, Distinct, All, Bool-cases, ◌==◌, ℤ, pos, negsuc,
}
use dippin_lang.Base.Fallible.{ok, >>=-eq_ok, ok-injective, err-ne-ok}
use dippin_lang.Dipx.Paths.{canonicalize}
use dippin_lang.Dipx.Paths.Canonical.{IsCanonical, IsCanonical-filled, canonicalize_iff}
use dippin_lang.Dipx.Shape.{
  ManifestEntry, Manifest, SeenPaths, listed_paths, supported_format_versions, is_supported_version,
  all_lower_hex, is_valid_hash, verify_manifest_version_and_count, verify_entry_fields,
  check_and_record_path, verify_one_file, verify_files, verify_entry_in_files, nothing_seen,
  verify_manifest_shape,
}

abbrev pub IsHexDigit : ℕ → Type 0
IsHexDigit r = ((b'0' ≤ r) × (r ≤ b'9')) ⊎ ((b'a' ≤ r) × (r ≤ b'f'))

abbrev pub IsHash : Str → Type 0
IsHash s = (length s ≡ 64) × All IsHexDigit s

all_lower_hex_iff : (s : Str) → (all_lower_hex s ≡ true) ↔ All IsHexDigit s
unfolding all_lower_hex
all_lower_hex_iff [] = (λ h. tt, λ h. refl)
all_lower_hex_iff (r ∷ s) = ground (arith, all_lower_hex_iff s)

is_valid_hash_iff : (s : Str) → (is_valid_hash s ≡ true) ↔ IsHash s
unfolding is_valid_hash
is_valid_hash_iff s = ground (arith, all_lower_hex_iff s, eqb_iff (length s) 64)

abbrev pub folds : (Str → Str) → List Str → List Str
folds to_lower ps = map to_lower ps

In-folds :
    (f : Str → Str) (y : Str) (xs : List Str) → In y (folds f xs) → (x : Str) × In x xs × (y ≡ f x)
In-folds f y [] i = absurd i
In-folds f y (x ∷ xs) (inl e) = (x, inl refl, e)
In-folds f y (x ∷ xs) (inr i) = let (z, j, e) = In-folds f y xs i in (z, inr j, e)

folds-In : (f : Str → Str) (x : Str) (xs : List Str) → In x xs → In (f x) (folds f xs)
folds-In f x [] i = absurd i
folds-In f x (y ∷ xs) (inl e) = inl (ap f e)
folds-In f x (y ∷ xs) (inr i) = inr (folds-In f x xs i)

module _ (nfc to_lower : Str → Str) where
  abbrev pub IsSound : ManifestEntry → Type 0
  IsSound e = IsCanonical nfc e.path × IsHash e.sha256

  verify_entry_fields-IsSound :
      (e : ManifestEntry) → (verify_entry_fields nfc e ≡ ok tt) ↔ IsSound e
  unfolding verify_entry_fields
  verify_entry_fields-IsSound e = (
    λ h. elim (Bool-cases (e.path == [])) [
      | inl t ↦ absurd (err-ne-ok (rw (t, verify_entry_fields) at h))
      | inr t ↦
          let (q, canonical, hash) =
            >>=-eq_ok (canonicalize nfc e.path) _ (rw (t, verify_entry_fields) at h) in
          elim (Bool-cases (is_valid_hash e.sha256)) [
            | inl v ↦
                (((canonicalize_iff nfc e.path q).0 canonical).1, (is_valid_hash_iff e.sha256).0 v)
            | inr v ↦ absurd (err-ne-ok (rw v at hash))
          ]
    ],
    λ h.
        rw
          (
            IsCanonical-filled nfc e.path h.0,
            (canonicalize_iff nfc e.path e.path).1 (refl, h.0),
            (is_valid_hash_iff e.sha256).1 h.1,
          )
          refl,
  )

  recorded :
      (p : Str) (s t : SeenPaths)
      → (check_and_record_path to_lower p s ≡ ok t) ↔ (
          (¬ In p s.seen_byte)
          × (¬ In (to_lower p) s.seen_fold)
          × (t ≡ record { seen_byte = p ∷ s.seen_byte; seen_fold = to_lower p ∷ s.seen_fold }))
  unfolding check_and_record_path
  recorded p s t = elim (Bool-cases (contains s.seen_byte p)) [
    | inl e ↦ (
      λ h. absurd (err-ne-ok (rw (e, check_and_record_path) at h)),
      λ h. absurd (h.0 ((contains_iff s.seen_byte p).0 e)),
    )
    | inr e ↦ elim (Bool-cases (contains s.seen_fold (to_lower p))) [
      | inl f ↦ (
        λ h. absurd (err-ne-ok (rw (e, f, check_and_record_path) at h)),
        λ h. absurd (h.1 ((contains_iff s.seen_fold (to_lower p)).0 f)),
      )
      | inr f ↦ (
        λ h. (
          ground (arith, e, contains_iff s.seen_byte p),
          ground (arith, f, contains_iff s.seen_fold (to_lower p)),
          sym (ok-injective (rw (e, f, check_and_record_path) at h)),
        ),
        λ h. rw (e, f) (ap ok (sym h.2)),
      )
    ]
  ]

  -- What the loop over the files has checked, and what it has recorded.
  record Recorded (es : List ManifestEntry) (s t : SeenPaths) : Type 0 where
    sound : All IsSound es
    distinct : Distinct (folds to_lower (listed_paths es))
    fresh : (x : Str) → In x (listed_paths es) → ¬ In (to_lower x) s.seen_fold
    seen : (x : Str) → In x t.seen_byte ↔ (In x s.seen_byte ⊎ In x (listed_paths es))

  verify_files-Recorded :
      (es : List ManifestEntry) (s t : SeenPaths)
      → verify_files nfc to_lower es s ≡ ok t
      → Recorded es s t
  unfolding verify_files verify_one_file listed_paths
  verify_files-Recorded [] s t h = record {
    sound = tt;
    distinct = tt;
    fresh = λ x i. absurd i;
    seen = λ x.
        subst (λ (u : SeenPaths). In x u.seen_byte ↔ (In x s.seen_byte ⊎ ⊥)) (ok-injective h)
          (inl, λ i. elim i [ inl j ↦ j | inr j ↦ absurd j ]);
  }
  verify_files-Recorded (e ∷ es) s t h =
      let (u, one, rest) = >>=-eq_ok (verify_one_file nfc to_lower e s) _ h in
      let (v, fields, path) = >>=-eq_ok (verify_entry_fields nfc e) _ one in
      let (new, new_fold, same) = (recorded e.path s u).0 path in
      let r = verify_files-Recorded es u t rest in
      let folded : u.seen_fold ≡ to_lower e.path ∷ s.seen_fold =
        ap (λ (x : SeenPaths). x.seen_fold) same in
      let byted : u.seen_byte ≡ e.path ∷ s.seen_byte = ap (λ (x : SeenPaths). x.seen_byte) same in
      let apart : (x : Str)
          → In x (listed_paths es)
          → ¬ In (to_lower x) (to_lower e.path ∷ s.seen_fold) =
        λ x i. subst (λ fs. ¬ In (to_lower x) fs) folded (r.fresh x i) in
      record {
        sound = ((verify_entry_fields-IsSound e).0 fields, r.sound);
        distinct = (
          λ i.
              let (x, j, same_fold) = In-folds to_lower _ (listed_paths es) i in
              apart x j (inl (sym same_fold)),
          r.distinct,
        );
        fresh = λ x i j. elim i [
          | inl same_path ↦ new_fold (subst (λ y. In (to_lower y) s.seen_fold) same_path j)
          | inr k ↦ apart x k (inr j)
        ];
        seen = λ x. ground (arith, r.seen x, byted);
      }

  verify_files-accepts :
      (es : List ManifestEntry) (s : SeenPaths)
      → All IsSound es
      → Distinct (folds to_lower (listed_paths es))
      → ((x : Str) → In x (listed_paths es) → ¬ In (to_lower x) s.seen_fold)
      → ((x : Str) → In x s.seen_byte → In (to_lower x) s.seen_fold)
      → (t : SeenPaths) × (verify_files nfc to_lower es s ≡ ok t)
  unfolding verify_files verify_one_file listed_paths
  verify_files-accepts [] s sound distinct fresh folded = (s, refl)
  verify_files-accepts (e ∷ es) s sound distinct fresh folded =
      let u : SeenPaths = record {
        seen_byte = e.path ∷ s.seen_byte;
        seen_fold = to_lower e.path ∷ s.seen_fold;
      } in
      let new_fold = fresh e.path (inl refl) in
      let one = (recorded e.path s u).1 (λ i. new_fold (folded e.path i), new_fold, refl) in
      let (t, rest) =
        verify_files-accepts es u sound.1 distinct.1
          (λ x i j. elim j [
            | inl same ↦ distinct.0 (
                subst (λ y. In y (folds to_lower (listed_paths es))) same
                  (folds-In to_lower x (listed_paths es) i))
            | inr k ↦ fresh x (inr i) k
          ])
          (λ x i. elim i [ inl same ↦ inl (ap to_lower same) | inr k ↦ inr (folded x k) ]) in
      (t, rw ((verify_entry_fields-IsSound e).1 sound.0, one) rest)

supported_iff : (v : ℤ) → (is_supported_version v supported_format_versions ≡ true) ↔ (v ≡ pos 1)
unfolding is_supported_version
supported_iff (pos n) = ground (arith, ap pos)
supported_iff (negsuc n) = (λ h. cc, λ h. cc)

version_and_count_iff :
    (m : Manifest)
    → (verify_manifest_version_and_count m ≡ ok tt)
      ↔ ((m.format_version ≡ pos 1) × (¬ length m.files ≡ 0))
unfolding verify_manifest_version_and_count
version_and_count_iff m =
    elim (Bool-cases (is_supported_version m.format_version supported_format_versions)) [
      | inr e ↦ (
        λ h. absurd (err-ne-ok (rw (e, verify_manifest_version_and_count) at h)),
        λ h. ground (arith, e, h.0, supported_iff m.format_version),
      )
      | inl e ↦ elim (Bool-cases (eqb (length m.files) 0)) [
        | inl f ↦ (
          λ h. absurd (err-ne-ok (rw (e, f, verify_manifest_version_and_count) at h)),
          λ h. absurd (h.1 ((eqb_iff (length m.files) 0).0 f)),
        )
        | inr f ↦
            (λ h. ((supported_iff m.format_version).0 e, ground (arith, f)), λ h. rw (e, f) refl)
      ]
    ]

pub record IsListing (nfc to_lower : Str → Str) (m : Manifest) : Type 0 where
  pub version : m.format_version ≡ pos 1
  pub sound : All (IsSound nfc to_lower) m.files
  pub distinct : Distinct (folds to_lower (listed_paths m.files))
  pub entry : In m.entry (listed_paths m.files)

sound_path :
    (nfc to_lower : Str → Str) (es : List ManifestEntry) (p : Str)
    → All (IsSound nfc to_lower) es
    → In p (listed_paths es)
    → IsCanonical nfc p
unfolding listed_paths
sound_path nfc to_lower [] p h i = absurd i
sound_path nfc to_lower (e ∷ es) p h (inl same) = subst (IsCanonical nfc) (sym same) h.0.0
sound_path nfc to_lower (e ∷ es) p h (inr i) = sound_path nfc to_lower es p h.1 i

entry_filled : (es : List ManifestEntry) (p : Str) → In p (listed_paths es) → ¬ length es ≡ 0
unfolding listed_paths
entry_filled [] p i e = i
entry_filled (x ∷ es) p i e = ground (arith, e)

-- verifyManifestShape returns no error exactly if the format version is 1, the path of each file is one that
-- Canonicalize accepts, its hash has 64 lower-case hexadecimal digits, no two paths are the same in lower case,
-- and the entry is one of the paths.
pub verify_manifest_shape_iff :
    (nfc to_lower : Str → Str) (m : Manifest)
    → (verify_manifest_shape nfc to_lower m ≡ ok tt) ↔ IsListing nfc to_lower m
unfolding verify_manifest_shape verify_entry_in_files
verify_manifest_shape_iff nfc to_lower m = (
  λ h.
      let (u, counted, h1) = >>=-eq_ok (verify_manifest_version_and_count m) _ h in
      let (s, files, h2) = >>=-eq_ok (verify_files nfc to_lower m.files nothing_seen) _ h1 in
      let (q, canonical, h3) = >>=-eq_ok (canonicalize nfc m.entry) _ h2 in
      let r = verify_files-Recorded nfc to_lower m.files nothing_seen s files in
      elim (Bool-cases (contains s.seen_byte m.entry)) [
        | inr e ↦ absurd (err-ne-ok (rw e at h3))
        | inl e ↦ record {
          version = ((version_and_count_iff m).0 counted).0;
          sound = r.sound;
          distinct = r.distinct;
          entry = elim ((r.seen m.entry).0 ((contains_iff s.seen_byte m.entry).0 e)) [
            | inl i ↦ absurd i
            | inr i ↦ i
          ];
        }
      ],
  λ (l : IsListing nfc to_lower m).
      let (t, files) =
        verify_files-accepts nfc to_lower m.files nothing_seen l.sound l.distinct (λ x i j. j)
          (λ x i. absurd i) in
      let r = verify_files-Recorded nfc to_lower m.files nothing_seen t files in
      rw
        (
          (version_and_count_iff m).1 (l.version, entry_filled m.files m.entry l.entry),
          files,
          (canonicalize_iff nfc m.entry m.entry).1
              (refl, sound_path nfc to_lower m.files m.entry l.sound l.entry),
          (contains_iff t.seen_byte m.entry).1 ((r.seen m.entry).1 (inr l.entry)),
        )
        refl,
)
