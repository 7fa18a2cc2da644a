-- ===== src/Base/Text.antt =====
-- Go strings as lists of bytes, with the functions of package strings that the program calls.
-- `to_lower` treats ASCII, as the program's identifiers and operators are.
use Prim.Native.Nat.{ℕ, zero, suc, ◌+◌}
use Prim.Native.Char.{code}
use Prim.Native.String.{String}
use mathlib.Core.Path.{◌≡◌, refl}
use mathlib.Core.Logic.{◌↔◌, ◌⊎◌}
use mathlib.Core.Bool.{Bool, true, false, ◌&&◌, ◌||◌}
use mathlib.Core.List.{List, [], ◌∷◌, map, reverse}
use native.Mathlib.Omega.{arith}
use dippin_lang.Base.Tests.{eqb, leb, ltb, eqb_iff, if◌then◌else◌}
use dippin_lang.Base.Lists.{In}

abbrev pub Str : Type 0
Str = List ℕ

-- The bytes of a literal.
abbrev pub bytes : String → Str
bytes String.[] = []
bytes (String.◌∷◌ c s) = code c ∷ bytes s

infix 50 ◌==◌
unfoldable pub ◌==◌ : Str → Str → Bool
[] == [] = true
[] == (y ∷ ys) = false
(x ∷ xs) == [] = false
(x ∷ xs) == (y ∷ ys) = eqb x y && (xs == ys)

pub ==_iff : (a b : Str) → ((a == b) ≡ true) ↔ (a ≡ b)
unfolding ◌==◌
==_iff [] [] = (λ _. refl, λ _. refl)
==_iff [] (y ∷ ys) = ground arith
==_iff (x ∷ xs) [] = ground arith
==_iff (x ∷ xs) (y ∷ ys) = ground (arith, ==_iff xs ys, eqb_iff x y)

pub ==-refl : (a : Str) → (a == a) ≡ true
==-refl a = (==_iff a a).1 refl

pub ==-cases : (a b : Str) → ((a ≡ b) × ((a == b) ≡ true)) ⊎ ((¬ (a ≡ b)) × ((a == b) ≡ false))
==-cases a b = ground (arith, ==_iff a b)

-- A lookup in a `map[string]bool` that serves as a set.
unfoldable pub contains : List Str → Str → Bool
contains [] a = false
contains (x ∷ xs) a = (a == x) || contains xs a

pub contains_iff : (xs : List Str) (a : Str) → (contains xs a ≡ true) ↔ In a xs
unfolding contains
contains_iff [] a = ground arith
contains_iff (x ∷ xs) a = ground (arith, contains_iff xs a, ==_iff a x)

-- `set[a] = true`; the length is that of the map.
unfoldable pub add : Str → List Str → List Str
add a xs = if contains xs a then xs else a ∷ xs

pub contains-add : (xs : List Str) (a b : Str) → contains (add a xs) b ≡ ((b == a) || contains xs b)
unfolding add contains
contains-add xs a b = ground (arith, ==_iff b a)

-- strings.HasPrefix
unfoldable pub has_prefix : Str → Str → Bool
has_prefix s [] = true
has_prefix [] (p ∷ ps) = false
has_prefix (c ∷ s) (p ∷ ps) = eqb c p && has_prefix s ps

abbrev strip : Str → Str → Str
strip s [] = s
strip [] (p ∷ ps) = []
strip (c ∷ s) (p ∷ ps) = strip s ps

-- strings.TrimPrefix
unfoldable pub trim_prefix : Str → Str → Str
trim_prefix s p = if has_prefix s p then strip s p else s

-- strings.HasSuffix
unfoldable pub has_suffix : Str → Str → Bool
has_suffix s p = has_prefix (reverse s) (reverse p)

-- strings.Contains
unfoldable pub has_substring : Str → Str → Bool
has_substring [] p = has_prefix [] p
has_substring (c ∷ s) p = has_prefix (c ∷ s) p || has_substring s p

abbrev lower : ℕ → ℕ
lower c = if leb b'A' c && leb c b'Z' then c + 32 else c

-- strings.ToLower
unfoldable pub to_lower : Str → Str
to_lower s = map lower s

abbrev pub is_space : ℕ → Bool
is_space c = (leb 9 c && leb c 13) || eqb c 32

-- White space of two bytes in UTF-8: U+0085 and U+00A0.
abbrev is_space_pair : ℕ → ℕ → Bool
is_space_pair a b = eqb a 0xc2 && (eqb b 0x85 || eqb b 0xa0)

-- White space of three: U+1680, U+2000 to U+200A, U+2028, U+2029, U+202F, U+205F and U+3000.
abbrev is_space_triple : ℕ → ℕ → ℕ → Bool
is_space_triple a b c =
    (eqb a 0xe1 && (eqb b 0x9a && eqb c 0x80))
    || ((eqb a 0xe2
          && ((eqb b 0x80
                && ((leb 0x80 c && leb c 0x8a) || (eqb c 0xa8 || (eqb c 0xa9 || eqb c 0xaf))))
              || (eqb b 0x81 && eqb c 0x9f)))
        || (eqb a 0xe3 && (eqb b 0x80 && eqb c 0x80)))

-- How many bytes of a text are the white space that it begins with.
unfoldable pub space_size : Str → ℕ
space_size [] = 0
space_size (a ∷ []) = if is_space a then 1 else 0
space_size (a ∷ b ∷ []) = if is_space a then 1 else if is_space_pair a b then 2 else 0
space_size (a ∷ b ∷ c ∷ s) =
    if is_space a
    then 1
    else if is_space_pair a b
    then 2
    else if is_space_triple a b c
    then 3
    else 0

-- The same for the white space that it ends with, the last byte first.
unfoldable pub last_space_size : Str → ℕ
last_space_size [] = 0
last_space_size (c ∷ []) = if is_space c then 1 else 0
last_space_size (c ∷ b ∷ []) = if is_space c then 1 else if is_space_pair b c then 2 else 0
last_space_size (c ∷ b ∷ a ∷ s) =
    if is_space c
    then 1
    else if is_space_pair b c
    then 2
    else if is_space_triple a b c
    then 3
    else 0

-- Without the number of bytes, and then without white space.
unfoldable pub trim_with : (Str → ℕ) → ℕ → Str → Str
trim_with size n [] = []
trim_with size (suc n) (c ∷ s) = trim_with size n s
trim_with size zero (c ∷ s) = elim (size (c ∷ s)) [ zero ↦ c ∷ s | suc n ↦ trim_with size n s ]

-- strings.TrimSpace
unfoldable pub trim_space : Str → Str
trim_space s = reverse (trim_with last_space_size 0 (reverse (trim_with space_size 0 s)))

abbrev attach : ℕ → List Str → List Str
attach c [] = (c ∷ []) ∷ []
attach c (p ∷ ps) = (c ∷ p) ∷ ps

-- strings.Split at one byte
unfoldable pub split : ℕ → Str → List Str
split sep [] = [] ∷ []
split sep (c ∷ s) = let rest = split sep s in if eqb c sep then [] ∷ rest else attach c rest

-- The order of sort.Strings.
unfoldable pub str_le : Str → Str → Bool
str_le [] ys = true
str_le (x ∷ xs) [] = false
str_le (x ∷ xs) (y ∷ ys) = ltb x y || (eqb x y && str_le xs ys)

unfoldable pub insert_sorted : Str → List Str → List Str
insert_sorted a [] = a ∷ []
insert_sorted a (x ∷ xs) = if str_le a x then a ∷ x ∷ xs else x ∷ insert_sorted a xs

-- sort.Strings
unfoldable pub sort_strings : List Str → List Str
sort_strings [] = []
sort_strings (x ∷ xs) = insert_sorted x (sort_strings xs)

pub In-insert_sorted : (a b : Str) (xs : List Str) → In a (insert_sorted b xs) ↔ In a (b ∷ xs)
unfolding insert_sorted
In-insert_sorted a b [] = (λ h. h, λ h. h)
In-insert_sorted a b (x ∷ xs) = ground (arith, In-insert_sorted a b xs)

pub In-sort_strings : (a : Str) (xs : List Str) → In a (sort_strings xs) ↔ In a xs
unfolding sort_strings
In-sort_strings a [] = (λ h. h, λ h. h)
In-sort_strings a (x ∷ xs) =
    ground (arith, In-sort_strings a xs, In-insert_sorted a x (sort_strings xs))
