-- ===== src/Dipx/Paths.antt =====
-- dipx/resolve.go: the paths inside a bundle, with what it uses of Go's packages path and unicode/utf8. The
-- NFC form of a text, which golang.org/x/text yields, is an argument.
pub mod Clean
pub mod Component
pub mod Canonical
pub mod Segments
pub mod Walk
pub mod Outside
pub mod Resolve
use mathlib.Core.List.{reverse}
use dippin_lang.Base.{
  Str, ℕ, zero, suc, ◌-◌, List, [], ◌∷◌, ◌++◌, Bool, true, false, not, ◌&&◌, ◌||◌, eqb, ltb, leb,
  contains, length, split, has_prefix, has_suffix, has_substring, map, bytes, ◌==◌, if◌then◌else◌,
  Option, none, some, get_elem?,
}
use dippin_lang.Base.Fallible.{ok, err, ◌>>=◌}
use dippin_lang.Dipx.Errors.{Bundled, new_error, path_unsafe}

abbrev pub max_path_bytes : ℕ
max_path_bytes = 1024

abbrev pub max_path_components : ℕ
max_path_components = 16

abbrev pub slash : ℕ
slash = b'/'

abbrev pub dot : ℕ
dot = b'.'

abbrev pub between : ℕ → ℕ → ℕ → Bool
between low c high = leb low c && leb c high

-- For the first byte of a rune, how many follow, and the bounds of the second.
abbrev pub first_byte : ℕ → Option (ℕ × ℕ × ℕ)
first_byte c =
    if ltb c 0x80
    then some (0, 0, 0)
    else if between 0xc2 c 0xdf
    then some (1, 0x80, 0xbf)
    else if eqb c 0xe0
    then some (2, 0xa0, 0xbf)
    else if eqb c 0xed
    then some (2, 0x80, 0x9f)
    else if between 0xe1 c 0xef
    then some (2, 0x80, 0xbf)
    else if eqb c 0xf0
    then some (3, 0x90, 0xbf)
    else if eqb c 0xf4
    then some (3, 0x80, 0x8f)
    else if between 0xf1 c 0xf3
    then some (3, 0x80, 0xbf)
    else none

unfoldable pub valid_bytes : ℕ → ℕ → ℕ → Str → Bool
valid_bytes zero low high [] = true
valid_bytes (suc n) low high [] = false
valid_bytes zero low high (c ∷ s) = elim (first_byte c) [
  | none ↦ false
  | some (n, low', high') ↦ valid_bytes n low' high' s
]
valid_bytes (suc n) low high (c ∷ s) = between low c high && valid_bytes n 0x80 0xbf s

-- utf8.ValidString
abbrev pub valid_string : Str → Bool
valid_string s = valid_bytes 0 0 0 s

-- strings.Join with a slash
unfoldable pub join : List Str → Str
join [] = []
join (c ∷ []) = c
join (c ∷ d ∷ cs) = c ++ slash ∷ join (d ∷ cs)

-- One component of path.Clean, onto those before it, the last first.
unfoldable pub clean_component : Bool → List Str → Str → List Str
clean_component rooted out c =
    if c == [] || (c == dot ∷ [])
    then out
    else if c == dot ∷ dot ∷ []
    then elim out [
      | [] ↦ if rooted then [] else c ∷ []
      | top ∷ rest ↦ if top == dot ∷ dot ∷ [] then c ∷ top ∷ rest else rest
    ]
    else c ∷ out

unfoldable pub clean_components : Bool → List Str → List Str → List Str
clean_components rooted out [] = out
clean_components rooted out (c ∷ cs) = clean_components rooted (clean_component rooted out c) cs

-- path.Clean
unfoldable pub clean : Str → Str
clean p =
    let rooted = has_prefix p (slash ∷ []) in
    let body = join (reverse (clean_components rooted [] (split slash p))) in
    if rooted then slash ∷ body else if body == [] then dot ∷ [] else body

-- The text up to its last slash, or none of it.
unfoldable pub up_to_slash : Str → Str
up_to_slash [] = []
up_to_slash (c ∷ s) =
    let rest = up_to_slash s in
    if rest == [] then (if eqb c slash then c ∷ [] else []) else c ∷ rest

-- path.Dir
abbrev pub dir_of : Str → Str
dir_of p = clean (up_to_slash p)

-- path.Join of two
unfoldable pub join_path : Str → Str → Str
join_path a b =
    if a == []
    then (if b == [] then [] else clean b)
    else if b == []
    then clean a
    else clean (a ++ slash ∷ b)

-- Each check returns an unsafe path, or nothing.
abbrev pub unsafe_if : Str → Bool → Bundled Unit
unsafe_if p bad = if bad then err (new_error path_unsafe p) else ok tt

-- strings.ToUpper, for ASCII: no other letter's upper case is a letter of the names compared below.
abbrev pub to_upper : Str → Str
to_upper s = map (λ c. if between b'a' c b'z' then c - 32 else c) s

unfoldable pub strip_ext : Str → Str
strip_ext [] = []
strip_ext (c ∷ s) = let rest = strip_ext s in if eqb c dot then [] else c ∷ rest

unfoldable pub is_windows_numbered_reserved : Str → Bool
is_windows_numbered_reserved upper =
    eqb (length upper) 4
    && ((has_prefix upper (bytes "COM") || has_prefix upper (bytes "LPT"))
        && (elim (get_elem? upper 3) [ none ↦ false | some r ↦ between b'0' r b'9' ]))

unfoldable pub is_windows_reserved : Str → Bool
is_windows_reserved c =
    let upper = to_upper (strip_ext c) in
    contains (bytes "CON" ∷ bytes "PRN" ∷ bytes "AUX" ∷ bytes "NUL" ∷ []) upper
    || is_windows_numbered_reserved upper

unfoldable pub check_component_whitespace_and_dots : Str → Str → Bundled Unit
check_component_whitespace_and_dots p c =
    unsafe_if p (has_prefix c (bytes " ") || has_suffix c (bytes " ")) >>= λ _.
    unsafe_if p (has_suffix (strip_ext c) (bytes " ")) >>= λ _.
    unsafe_if p (has_suffix c (bytes "."))

unfoldable pub check_component : Str → Str → Bundled Unit
check_component p c = unsafe_if p (c == []) >>= λ _.
    check_component_whitespace_and_dots p c >>= λ _. unsafe_if p (is_windows_reserved c)

unfoldable pub check_each_component : Str → List Str → Bundled Unit
check_each_component p [] = ok tt
check_each_component p (c ∷ cs) = check_component p c >>= λ _. check_each_component p cs

unfoldable pub check_path_components : Str → Bundled Unit
check_path_components p = unsafe_if p (ltb max_path_components (length (split slash p))) >>= λ _.
    check_each_component p (split slash p)

-- The bytes of a rune beyond ASCII are none of those refused, so that bytes stand for runes.
unfoldable pub check_rune : Str → ℕ → Bundled Unit
check_rune p r = unsafe_if p (eqb r b'\\' || (eqb r 0 || (ltb r 0x20 || eqb r 0x7f)))

unfoldable pub check_each_rune : Str → Str → Bundled Unit
check_each_rune p [] = ok tt
check_each_rune p (r ∷ rs) = check_rune p r >>= λ _. check_each_rune p rs

unfoldable pub check_bytes : Str → Bundled Unit
check_bytes p = unsafe_if p (not (valid_string p)) >>= λ _. check_each_rune p p

unfoldable pub check_path_basics : (Str → Str) → Str → Bundled Unit
check_path_basics nfc p = unsafe_if p (p == []) >>= λ _. check_bytes p >>= λ _.
    unsafe_if p (not (nfc p == p)) >>= λ _. unsafe_if p (ltb max_path_bytes (length p))

unfoldable pub has_dot_dot_segment : Str → Bool
has_dot_dot_segment p = contains (split slash p) (dot ∷ dot ∷ [])

unfoldable pub check_path_structure : Str → Bundled Unit
check_path_structure p = unsafe_if p (has_prefix p (bytes "/")) >>= λ _.
    unsafe_if p (has_prefix p (bytes "./")) >>= λ _.
    unsafe_if p (has_substring p (bytes "//")) >>= λ _. unsafe_if p (has_dot_dot_segment p)

unfoldable pub check_path_suffix : Str → Bundled Unit
check_path_suffix p = unsafe_if p (not (has_prefix p (bytes "workflows/"))) >>= λ _.
    unsafe_if p (not (has_suffix p (bytes ".dip")))

unfoldable pub check_path_idempotent : Str → Bundled Unit
check_path_idempotent p = unsafe_if p (not (clean p == p))

unfoldable pub canonicalize : (Str → Str) → Str → Bundled Str
canonicalize nfc p = check_path_basics nfc p >>= λ _. check_path_structure p >>= λ _.
    check_path_components p >>= λ _.
    check_path_suffix p >>= λ _. check_path_idempotent p >>= λ _. ok p

unfoldable pub resolve_lexically : (Str → Str) → Str → Str → Bundled Str
resolve_lexically nfc ref_path relative_to =
    if ref_path == []
    then err (new_error path_unsafe ref_path)
    else let dir = dir_of relative_to in
      canonicalize nfc (clean (join_path (if dir == dot ∷ [] then [] else dir) ref_path))
