-- ===== src/Parser/Edges.antt =====
-- parser/parse_edges.go, with what it uses of parser/parser.go and parser/parse_helpers.go. The lexer is the
-- list of the tokens that are left, and the location of the end of file that it yields behind them.
pub mod Attributes
pub mod Fuel
use dippin_lang.Base.{
  Str, ℕ, zero, suc, ◌+◌, ◌-◌, ◌*◌, List, [], ◌∷◌, ◌++◌, Bool, true, false, not, ◌&&◌, ◌||◌, leb,
  ltb, length, contains, trim_space, bytes, ◌==◌, if◌then◌else◌, Option, none, some, ℤ, pos, negsuc,
}
use dippin_lang.Ir.{Edge, Condition, SourceLocation}
use dippin_lang.Ir.Lookup.{plain_edge}
use dippin_lang.Parser.Lexer.Line.{
  TokenType, token_eof, token_newline, token_outdent, token_indent, token_arrow, token_colon,
  token_literal, token_lbracket, token_error, token_keyword, token_identifier, token_operator,
  token_comma, token_back_arrow, token_lparen, token_rparen, token_raw_block, is_digit,
}
use dippin_lang.Parser.Lexer.{LexToken}

-- What the texts of the diagnostics mention.
pub data ParseDiagnostic : Type 0 where
  unexpected : TokenType → LexToken → ParseDiagnostic
  bracket_syntax : LexToken → ParseDiagnostic
  invalid_integer : Str → Str → SourceLocation → ParseDiagnostic

pub record EdgeParser : Type 0 where
  pub stream : List LexToken
  pub end_location : SourceLocation
  pub diagnostics : List ParseDiagnostic
  pub edges : List Edge

abbrev pub eof_at : SourceLocation → LexToken
eof_at location = record { type = token_eof; value = []; location = location }

abbrev pub peek_of : SourceLocation → List LexToken → LexToken
peek_of location [] = eof_at location
peek_of location (t ∷ ts) = t

-- PeekToken
abbrev pub peek : EdgeParser → LexToken
peek p = peek_of p.end_location p.stream

abbrev pub tail_of : List LexToken → List LexToken
tail_of [] = []
tail_of (t ∷ ts) = ts

-- The parser behind NextToken; the token is that of `peek`.
abbrev pub skip : EdgeParser → EdgeParser
skip p = record p { stream = tail_of p.stream }

abbrev pub report : ParseDiagnostic → EdgeParser → EdgeParser
report d p = record p { diagnostics = p.diagnostics ++ d ∷ [] }

abbrev pub type_code : TokenType → ℕ
type_code token_error = 0
type_code token_eof = 1
type_code token_newline = 2
type_code token_indent = 3
type_code token_outdent = 4
type_code token_keyword = 5
type_code token_identifier = 6
type_code token_operator = 7
type_code token_literal = 8
type_code token_colon = 9
type_code token_comma = 10
type_code token_arrow = 11
type_code token_back_arrow = 12
type_code token_lparen = 13
type_code token_rparen = 14
type_code token_lbracket = 15
type_code token_raw_block = 16

abbrev pub has_type : TokenType → LexToken → Bool
has_type type t = leb (type_code t.type) (type_code type) && leb (type_code type) (type_code t.type)

unfoldable pub expect : TokenType → EdgeParser → EdgeParser
expect type p =
    if has_type type (peek p) then skip p else report (unexpected type (peek p)) (skip p)

-- A newline or the end of the file.
abbrev pub ends_line : LexToken → Bool
ends_line t = has_type token_newline t || has_type token_eof t

unfoldable pub drop_line : List LexToken → List LexToken
drop_line [] = []
drop_line (t ∷ ts) = let rest = drop_line ts in if ends_line t then t ∷ ts else rest

abbrev pub consume_until_newline : EdgeParser → EdgeParser
consume_until_newline p = record p { stream = drop_line p.stream }

unfoldable pub emit_bracket_syntax_error : EdgeParser → EdgeParser
emit_bracket_syntax_error p = consume_until_newline (report (bracket_syntax (peek p)) (skip p))

abbrev pub edge_attr_keywords : List Str
edge_attr_keywords = bytes "label" ∷ bytes "weight" ∷ bytes "restart" ∷ []

abbrev pub format_condition_token : LexToken → Str
format_condition_token t = if has_type token_literal t then b'"' ∷ t.value ++ b'"' ∷ [] else t.value

-- The parts of a condition, and the tokens behind it.
unfoldable pub condition_parts : List LexToken → List Str × List LexToken
condition_parts [] = ([], [])
condition_parts (t ∷ ts) =
    let (parts, rest) = condition_parts ts in
    if ends_line t || contains edge_attr_keywords t.value
    then ([], t ∷ ts)
    else (format_condition_token t ∷ parts, rest)

-- strings.Join with a space
unfoldable pub join_words : List Str → Str
join_words [] = []
join_words (w ∷ []) = w
join_words (w ∷ v ∷ ws) = w ++ b' ' ∷ join_words (v ∷ ws)

-- readConditionRaw: the text, and the parser behind it.
abbrev pub read_condition_raw : EdgeParser → Str × EdgeParser
read_condition_raw p = (
  trim_space (join_words (condition_parts p.stream).0),
  record p { stream = (condition_parts p.stream).1 },
)

abbrev pub max_int : ℕ
max_int = 9223372036854775807

abbrev pub max_uint : ℕ
max_uint = 18446744073709551615

-- The value of a text of digits. It is out of range, whatever follows, once it is above that of 64 bits.
unfoldable pub digits_value : ℕ → Str → Option ℕ
digits_value n [] = some n
digits_value n (c ∷ s) =
    let m = n * 10 + (c - b'0') in
    let rest = digits_value m s in
    if is_digit c then (if leb m max_uint then rest else some m) else none

abbrev unsigned : Str → Option ℕ
unsigned [] = none
unsigned (c ∷ s) = digits_value 0 (c ∷ s)

abbrev negated : ℕ → ℤ
negated zero = pos 0
negated (suc n) = negsuc n

-- strconv.Atoi: the value, and whether there is no error. A value out of range is cut to the range.
unfoldable pub atoi : Str → ℤ × Bool
atoi [] = (pos 0, false)
atoi (c ∷ s) =
    let minus = c ∷ [] == bytes "-" in
    let plus = c ∷ [] == bytes "+" in
    elim (unsigned (if minus || plus then s else c ∷ s)) [
      | none ↦ (pos 0, false)
      | some n ↦
          if minus
          then (if leb n (suc max_int) then (negated n, true) else (negsuc max_int, false))
          else (if leb n max_int then (pos n, true) else (pos max_int, false))
    ]

unfoldable pub parse_int : Str → Str → SourceLocation → EdgeParser → ℤ × EdgeParser
parse_int val key loc p =
    let (v, sound) = atoi val in (v, if sound then p else report (invalid_integer val key loc) p)

-- An edge whose attributes are read, with the parser.
abbrev pub Parsed : Type 0
Parsed = Edge × EdgeParser

abbrev pub with_condition : Edge → Str × EdgeParser → Parsed
with_condition e (raw, p) = (record e { condition = some (record { raw = raw; parsed = none }) }, p)

abbrev pub with_weight : Edge → ℤ × EdgeParser → Parsed
with_weight e (v, p) = (record e { weight = v }, p)

unfoldable pub apply_edge_attribute : Str → Edge → EdgeParser → Parsed
apply_edge_attribute attr e p =
    let q = expect token_colon p in
    if attr == bytes "when"
    then with_condition e (read_condition_raw p)
    else if attr == bytes "label"
    then (record e { label = (peek q).value }, skip q)
    else if attr == bytes "weight"
    then with_weight e (parse_int (peek q).value (bytes "weight") (peek q).location (skip q))
    else if attr == bytes "restart"
    then (record e { restart = (peek q).value == bytes "true" }, skip q)
    else (e, p)

-- The loop of parseEdgeAttributes, on fuel: a round takes a token or more.
unfoldable pub attributes_loop : ℕ → Edge → EdgeParser → Parsed
attributes_loop zero e p = (e, p)
attributes_loop (suc fuel) e p =
    let (e', p') = apply_edge_attribute (peek p).value e (skip p) in
    let rest = attributes_loop fuel e' p' in if ends_line (peek p) then (e, p) else rest

unfoldable pub parse_edge_attributes : Edge → EdgeParser → Parsed
parse_edge_attributes e p =
    if has_type token_lbracket (peek p)
    then (e, emit_bracket_syntax_error p)
    else attributes_loop (length p.stream) e p

abbrev pub add_edge : Parsed → EdgeParser
add_edge (e, p) = expect token_newline (record p { edges = p.edges ++ e ∷ [] })

unfoldable pub parse_single_edge : EdgeParser → EdgeParser
parse_single_edge p =
    let q = expect token_arrow (skip p) in
    add_edge (parse_edge_attributes (plain_edge (peek p).value (peek q).value) (skip q))

-- The loop of parseEdgesBody, on fuel: a round takes a token or more.
unfoldable pub parse_edges_body : ℕ → EdgeParser → EdgeParser
parse_edges_body zero p = p
parse_edges_body (suc fuel) p =
    let next = if has_type token_newline (peek p) then skip p else parse_single_edge p in
    let rest = parse_edges_body fuel next in
    if has_type token_outdent (peek p) || has_type token_eof (peek p) then p else rest

unfoldable pub parse_edges : EdgeParser → EdgeParser
parse_edges p =
    let q = expect token_indent (expect token_newline (skip p)) in
    expect token_outdent (parse_edges_body (length q.stream) q)
