-- ===== src/Dipx/Shape.antt =====
-- verifyManifestShape of dipx/manifest.go. Like the NFC form, strings.ToLower with its tables of Unicode is an
-- argument.
pub mod Listing
use dippin_lang.Base.{
  Str, ℕ, List, [], ◌∷◌, Bool, true, false, ◌&&◌, ◌||◌, not, eqb, leb, length, contains, ◌==◌,
  if◌then◌else◌, ℤ, pos, negsuc,
}
use dippin_lang.Base.Fallible.{ok, err, ◌>>=◌}
use dippin_lang.Dipx.Errors.{
  Bundled, new_error, unsupported_format_version, manifest_invalid, entry_not_in_manifest,
}
use dippin_lang.Dipx.Paths.{canonicalize, between}

pub record ManifestEntry : Type 0 where
  pub path : Str
  pub sha256 : Str

pub record Manifest : Type 0 where
  pub format_version : ℤ
  pub entry : Str
  pub files : List ManifestEntry

-- The keys of the sets that the code makes of files[].
unfoldable pub listed_paths : List ManifestEntry → List Str
listed_paths [] = []
listed_paths (e ∷ es) = e.path ∷ listed_paths es

-- The sets that verifyFiles fills.
pub record SeenPaths : Type 0 where
  pub seen_byte : List Str
  pub seen_fold : List Str

abbrev pub supported_format_versions : List ℤ
supported_format_versions = pos 1 ∷ []

abbrev same_version : ℤ → ℤ → Bool
same_version (pos a) (pos b) = eqb a b
same_version (negsuc a) (negsuc b) = eqb a b
same_version _ _ = false

unfoldable pub is_supported_version : ℤ → List ℤ → Bool
is_supported_version v [] = false
is_supported_version v (sv ∷ rest) = same_version sv v || is_supported_version v rest

abbrev pub is_lower_hex_rune : ℕ → Bool
is_lower_hex_rune r = between b'0' r b'9' || between b'a' r b'f'

unfoldable pub all_lower_hex : Str → Bool
all_lower_hex [] = true
all_lower_hex (r ∷ s) = is_lower_hex_rune r && all_lower_hex s

unfoldable pub is_valid_hash : Str → Bool
is_valid_hash s = eqb (length s) 64 && all_lower_hex s

unfoldable pub verify_manifest_version_and_count : Manifest → Bundled Unit
verify_manifest_version_and_count m =
    if not (is_supported_version m.format_version supported_format_versions)
    then err (new_error unsupported_format_version [])
    else if eqb (length m.files) 0
    then err (new_error manifest_invalid [])
    else ok tt

unfoldable pub verify_entry_fields : (Str → Str) → ManifestEntry → Bundled Unit
verify_entry_fields nfc e =
    if e.path == []
    then err (new_error manifest_invalid [])
    else canonicalize nfc e.path >>= λ _.
        if is_valid_hash e.sha256 then ok tt else err (new_error manifest_invalid e.path)

unfoldable pub check_and_record_path : (Str → Str) → Str → SeenPaths → Bundled SeenPaths
check_and_record_path to_lower path s =
    if contains s.seen_byte path
    then err (new_error manifest_invalid path)
    else if contains s.seen_fold (to_lower path)
    then err (new_error manifest_invalid path)
    else ok (record { seen_byte = path ∷ s.seen_byte; seen_fold = to_lower path ∷ s.seen_fold })

unfoldable pub verify_one_file :
    (Str → Str) → (Str → Str) → ManifestEntry → SeenPaths → Bundled SeenPaths
verify_one_file nfc to_lower e s =
    verify_entry_fields nfc e >>= λ _. check_and_record_path to_lower e.path s

unfoldable pub verify_files :
    (Str → Str) → (Str → Str) → List ManifestEntry → SeenPaths → Bundled SeenPaths
verify_files nfc to_lower [] s = ok s
verify_files nfc to_lower (e ∷ es) s =
    verify_one_file nfc to_lower e s >>= λ t. verify_files nfc to_lower es t

unfoldable pub verify_entry_in_files : (Str → Str) → Manifest → List Str → Bundled Unit
verify_entry_in_files nfc m seen_byte = canonicalize nfc m.entry >>= λ _.
    if contains seen_byte m.entry then ok tt else err (new_error entry_not_in_manifest m.entry)

abbrev pub nothing_seen : SeenPaths
nothing_seen = record { seen_byte = []; seen_fold = [] }

unfoldable pub verify_manifest_shape : (Str → Str) → (Str → Str) → Manifest → Bundled Unit
verify_manifest_shape nfc to_lower m = verify_manifest_version_and_count m >>= λ _.
    verify_files nfc to_lower m.files nothing_seen >>= λ s. verify_entry_in_files nfc m s.seen_byte
