-- ===== src/Parser/Lexer/Line.antt =====
-- parser/lexer.go: the tokens of one line. Where the code keeps a line and an index into it, these functions
-- take the text from the index on, and return how many bytes a token takes. unicode.IsLetter and
-- unicode.IsDigit are those of ASCII.
use mathlib.Core.List.{reverse}
use dippin_lang.Base.{
  Str, ℕ, zero, suc, List, [], ◌∷◌, Bool, true, false, not, ◌&&◌, ◌||◌, eqb, leb, length, take,
  drop, contains, is_space, trim_space, has_prefix, bytes, ◌==◌, if◌then◌else◌, Option, none, some,
}

pub data TokenType : Type 0 where
  token_error : TokenType
  token_eof : TokenType
  token_newline : TokenType
  token_indent : TokenType
  token_outdent : TokenType
  token_keyword : TokenType
  token_identifier : TokenType
  token_operator : TokenType
  token_literal : TokenType
  token_colon : TokenType
  token_comma : TokenType
  token_arrow : TokenType
  token_back_arrow : TokenType
  token_lparen : TokenType
  token_rparen : TokenType
  token_lbracket : TokenType
  token_raw_block : TokenType

-- A token that is found at the beginning of a text.
pub record Lexeme : Type 0 where
  pub type : TokenType
  pub value : Str
  pub size : ℕ

abbrev pub is_letter : ℕ → Bool
is_letter ch = (leb b'a' ch && leb ch b'z') || (leb b'A' ch && leb ch b'Z')

abbrev pub is_digit : ℕ → Bool
is_digit ch = leb b'0' ch && leb ch b'9'

abbrev pub is_alpha_num : ℕ → Bool
is_alpha_num ch = is_letter ch || is_digit ch

abbrev pub is_ident_word_char : ℕ → Bool
is_ident_word_char ch =
    is_alpha_num ch || (eqb ch b'_' || (eqb ch b'-' || (eqb ch b'.' || eqb ch b'/')))

abbrev pub is_ident_rune : ℕ → Bool
is_ident_rune ch = is_alpha_num ch || eqb ch b'_'

abbrev pub is_operator_start : ℕ → Bool
is_operator_start ch = eqb ch b'=' || (eqb ch b'!' || (eqb ch b'<' || eqb ch b'>'))

-- unicode.IsSpace of a byte
abbrev pub is_space_byte : ℕ → Bool
is_space_byte ch = is_space ch || (eqb ch 0x85 || eqb ch 0xa0)

abbrev pub punctuation_token : ℕ → Option TokenType
punctuation_token ch =
    if eqb ch b':'
    then some token_colon
    else if eqb ch b','
    then some token_comma
    else if eqb ch b'('
    then some token_lparen
    else if eqb ch b')'
    then some token_rparen
    else if eqb ch b'['
    then some token_lbracket
    else none

unfoldable pub try_lex_punctuation : Str → Option Lexeme
try_lex_punctuation [] = none
try_lex_punctuation (c ∷ s) = elim (punctuation_token c) [
  | none ↦ none
  | some t ↦ some (record { type = t; value = c ∷ []; size = 1 })
]

unfoldable pub try_lex_arrow : Str → Option Lexeme
try_lex_arrow s =
    if has_prefix s (bytes "->")
    then some (record { type = token_arrow; value = bytes "->"; size = 2 })
    else if has_prefix s (bytes "<-")
    then some (record { type = token_back_arrow; value = bytes "<-"; size = 2 })
    else none

abbrev pub two_char_operators : List Str
two_char_operators = bytes "==" ∷ bytes "!=" ∷ bytes "<=" ∷ bytes ">=" ∷ []

unfoldable pub try_lex_operator : Str → Option Lexeme
try_lex_operator [] = none
try_lex_operator (c ∷ s) =
    if not (is_operator_start c)
    then none
    else if contains two_char_operators (take 2 (c ∷ s))
    then some (record { type = token_operator; value = take 2 (c ∷ s); size = 2 })
    else some (record { type = token_operator; value = c ∷ []; size = 1 })

-- The content of a quoted string and what it takes, the closing quote included. `escaped` says that a
-- backslash stands before the text: appendQuotedChar takes it with the next byte.
unfoldable pub read_quoted_content : Bool → Str → Str × ℕ
read_quoted_content escaped [] = ([], 0)
read_quoted_content escaped (c ∷ s) =
    let opens = not escaped && (eqb c b'\\' && not (s == [])) in
    let (content, n) = read_quoted_content opens s in
    if not escaped && eqb c b'"'
    then ([], 1)
    else if opens
    then (content, suc n)
    else (c ∷ content, suc n)

unfoldable pub try_lex_quoted_string : Str → Option Lexeme
try_lex_quoted_string [] = none
try_lex_quoted_string (c ∷ s) =
    let (content, n) = read_quoted_content false s in
    if eqb c b'"'
    then some (record { type = token_literal; value = content; size = suc n })
    else none

unfoldable pub ident_word : Str → Str
ident_word [] = []
ident_word (c ∷ s) = let rest = ident_word s in if is_ident_word_char c then c ∷ rest else []

unfoldable pub try_lex_identifier : Str → Option Lexeme
try_lex_identifier [] = none
try_lex_identifier (c ∷ s) =
    let word = ident_word (c ∷ s) in
    if is_alpha_num c
    then some (record { type = token_identifier; value = word; size = length word })
    else none

abbrev pub or_else : Option Lexeme → Option Lexeme → Option Lexeme
or_else none other = other
or_else (some t) other = some t

-- The first of the token types that fits.
unfoldable pub lex_one_token : Str → Option Lexeme
lex_one_token s = or_else (try_lex_punctuation s) (
    or_else (try_lex_arrow s)
      (or_else (try_lex_operator s) (or_else (try_lex_quoted_string s) (try_lex_identifier s))))

-- lineIndent
unfoldable pub line_indent : Str → ℕ
line_indent [] = 0
line_indent (c ∷ s) = let rest = line_indent s in if eqb c b' ' || eqb c b'\t' then suc rest else 0

abbrev is_blank_byte : ℕ → Bool
is_blank_byte c = eqb c b' ' || (eqb c b'\t' || eqb c b'\r')

unfoldable pub skip_blanks : Str → Str
skip_blanks [] = []
skip_blanks (c ∷ s) = let rest = skip_blanks s in if is_blank_byte c then rest else c ∷ s

-- strings.TrimRight of spaces, tabs and carriage returns
abbrev pub trim_right : Str → Str
trim_right s = reverse (skip_blanks (reverse s))

unfoldable pub is_blank_or_comment : Str → Bool
is_blank_or_comment line = elim (trim_space line) [ [] ↦ true | c ∷ s ↦ eqb c b'#' ]

-- The text before a # that is not inside quotes, where there is one.
unfoldable pub find_unquoted_hash : Bool → Str → Option ℕ
find_unquoted_hash in_quote [] = none
find_unquoted_hash in_quote (c ∷ s) =
    let quoted = if eqb c b'"' then not in_quote else in_quote in
    let rest = find_unquoted_hash quoted s in
    if not quoted && eqb c b'#' then some 0 else elim rest [ none ↦ none | some i ↦ some (suc i) ]

-- The byte before an index is a space or a tab.
abbrev blank_before : Str → ℕ → Bool
blank_before [] i = false
blank_before (c ∷ s) zero = false
blank_before (c ∷ s) (suc zero) = eqb c b' ' || eqb c b'\t'
blank_before (c ∷ s) (suc (suc i)) = blank_before s (suc i)

unfoldable pub is_strippable_hash : Str → ℕ → Bool
is_strippable_hash line idx = eqb idx (line_indent line) || blank_before line idx

unfoldable pub strip_comment : Str → Str
strip_comment line =
    let trimmed = trim_right line in
    elim (find_unquoted_hash false trimmed) [
      | none ↦ trimmed
      | some idx ↦ if is_strippable_hash trimmed idx then take idx trimmed else trimmed
    ]

unfoldable pub before_colon : Str → Option Str
before_colon [] = none
before_colon (c ∷ s) =
    let rest = before_colon s in
    if eqb c b':' then some [] else elim rest [ none ↦ none | some key ↦ some (c ∷ key) ]

unfoldable pub all_ident : Str → Bool
all_ident [] = true
all_ident (c ∷ s) = is_ident_rune c && all_ident s

unfoldable pub is_key_colon_line : Str → Bool
is_key_colon_line content = elim (before_colon content) [
  | none ↦ false
  | some key ↦
      not (key == []) && (all_ident key && (trim_space (drop (suc (length key)) content) == []))
]
