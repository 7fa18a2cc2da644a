-- ===== src/Parser/Lexer.antt =====
-- parser/lexer.go: a text becomes tokens, line by line, with a stack of the indentations that are open. The
-- lexer that the code mutates is a record passed from step to step; its column is 1 between the steps.
pub mod Line
pub mod Levels
pub mod Stack
pub mod Nesting
pub mod Progress
pub mod Taken
use mathlib.Core.List.{reverse}
use dippin_lang.Base.{
  Str, ℕ, zero, suc, ◌+◌, ◌-◌, List, [], ◌∷◌, ◌++◌, Bool, true, false, not, ◌&&◌, ◌||◌, eqb, leb,
  ltb, length, take, drop, map, get_elem?, split, trim_space, bytes, ◌==◌, if◌then◌else◌, Option,
  none, some, pos, is_space,
}
use dippin_lang.Ir.{SourceLocation}
use dippin_lang.Parser.Lexer.Line.{
  TokenType, token_eof, token_newline, token_indent, token_outdent, token_identifier, token_colon,
  token_raw_block, Lexeme, lex_one_token, is_space_byte, line_indent, trim_right,
  is_blank_or_comment, strip_comment, before_colon, is_key_colon_line,
}

pub record LexToken : Type 0 where
  pub type : TokenType
  pub value : Str
  pub location : SourceLocation

-- `indent_stack` has its top first.
pub record Lexer : Type 0 where
  pub lines : List Str
  pub line : ℕ
  pub indent_stack : List ℕ
  pub tokens : List LexToken
  pub token_idx : ℕ

abbrev pub location_at : Str → ℕ → ℕ → SourceLocation
location_at file line column = record {
  file = file;
  line = pos line;
  column = pos column;
  end_line = pos 0;
  end_column = pos 0;
}

abbrev pub token_at : TokenType → Str → Str → ℕ → ℕ → LexToken
token_at type value file line column = record {
  type = type;
  value = value;
  location = location_at file line column;
}

abbrev pub emit : LexToken → Lexer → Lexer
emit t l = record l { tokens = l.tokens ++ t ∷ [] }

-- The top of the stack; the code would panic on an empty one.
abbrev pub current_indent : List ℕ → ℕ
current_indent [] = 0
current_indent (top ∷ rest) = top

-- The loop of emitIndentTokens, while more than one indentation is open.
unfoldable pub emit_outdents : LexToken → ℕ → List ℕ → Lexer → Lexer
emit_outdents t indent [] l = l
emit_outdents t indent (top ∷ []) l = l
emit_outdents t indent (top ∷ next ∷ rest) l =
    let popped =
      emit_outdents t indent (next ∷ rest) (emit t (record l { indent_stack = next ∷ rest })) in
    if ltb indent top then popped else l

unfoldable pub emit_indent_tokens : Str → ℕ → Lexer → Lexer
emit_indent_tokens file indent l =
    if ltb (current_indent l.indent_stack) indent
    then emit (token_at token_indent [] file l.line 1)
        (record l { indent_stack = indent ∷ l.indent_stack })
    else emit_outdents (token_at token_outdent [] file l.line 1) indent l.indent_stack l

unfoldable pub pop_remaining : LexToken → List ℕ → Lexer → Lexer
pop_remaining t [] l = l
pop_remaining t (top ∷ []) l = l
pop_remaining t (top ∷ next ∷ rest) l =
    pop_remaining t (next ∷ rest) (emit t (record l { indent_stack = next ∷ rest }))

unfoldable pub emit_remaining_outdents : Str → Lexer → Lexer
emit_remaining_outdents file l =
    pop_remaining (token_at token_outdent [] file l.line 1) l.indent_stack l

-- The loop of lexLine on the text from index i on; each round takes a byte or more.
unfoldable pub lex_rest : ℕ → Str → ℕ → ℕ → Str → Lexer → Lexer
lex_rest zero file offset i s l = l
lex_rest (suc fuel) file offset i [] l = l
lex_rest (suc fuel) file offset i (c ∷ s) l =
    let found = lex_one_token (c ∷ s) in
    let spaced = is_space_byte c in
    let n = if spaced then 1 else (elim found [ none ↦ 1 | some t ↦ t.size ]) in
    let l' = if spaced then l else (elim found [
      | none ↦ l
      | some t ↦ emit (token_at t.type t.value file l.line (offset + i)) l
    ]) in
    lex_rest fuel file offset (i + n) (drop n (c ∷ s)) l'

unfoldable pub lex_line : Str → Str → Lexer → Lexer
lex_line file line l = lex_rest (length line) file (1 + current_indent l.indent_stack) 0 line l

-- A line that is empty but for white space.
abbrev is_blank_line : Str → Bool
is_blank_line line = trim_space (trim_right line) == []

-- On the lines from index idx on.
unfoldable pub find_next_content_line : List Str → ℕ → ℕ
find_next_content_line [] idx = idx
find_next_content_line (nl ∷ rest) idx =
    let later = find_next_content_line rest (suc idx) in if is_blank_line nl then later else idx

unfoldable pub find_block_end : List Str → ℕ → ℕ → ℕ
find_block_end [] indent block_end = block_end
find_block_end (bl ∷ rest) indent block_end =
    let later = find_block_end rest indent (suc block_end) in
    if is_blank_line bl
    then later
    else if leb (line_indent (trim_right bl)) indent
    then block_end
    else later

abbrev trim_carriage_returns : Str → Str
trim_carriage_returns [] = []
trim_carriage_returns (c ∷ s) =
    let rest = trim_carriage_returns s in if eqb c b'\r' && (rest == []) then [] else c ∷ rest

abbrev drop_indent : ℕ → Str → Str
drop_indent zero s = s
drop_indent (suc n) [] = []
drop_indent (suc n) (c ∷ s) =
    let rest = drop_indent n s in if eqb c b' ' || eqb c b'\t' then rest else c ∷ s

unfoldable pub strip_indent_prefix : ℕ → Str → Str
strip_indent_prefix indent line = drop_indent indent (trim_carriage_returns line)

abbrev drop_blank : List Str → List Str
drop_blank [] = []
drop_blank (x ∷ xs) = let rest = drop_blank xs in if trim_space x == [] then rest else x ∷ xs

abbrev join_lines : List Str → Str
join_lines [] = []
join_lines (x ∷ []) = x
join_lines (x ∷ y ∷ ys) = x ++ b'\n' ∷ join_lines (y ∷ ys)

unfoldable pub trim_trailing_blank_lines : List Str → Str
trim_trailing_blank_lines lines = join_lines (reverse (drop_blank (reverse lines)))

unfoldable pub extract_raw_block : List Str → ℕ → ℕ → ℕ → Str
extract_raw_block lines start end indent =
    trim_trailing_blank_lines
      (map (strip_indent_prefix indent) (take (end - start) (drop start lines)))

abbrev pub line_at : List Str → ℕ → Str
line_at lines i = elim (get_elem? lines i) [ none ↦ [] | some line ↦ line ]

-- The index behind a block that follows line i, with its tokens emitted, or nothing.
unfoldable pub try_collect_block : Str → ℕ → ℕ → Lexer → Option (ℕ × Lexer)
try_collect_block file i indent l =
    let next = find_next_content_line (drop (suc i) l.lines) (suc i) in
    let next_indent = line_indent (line_at l.lines next) in
    let block_end = find_block_end (drop next l.lines) indent next in
    let raw_text = extract_raw_block l.lines next block_end next_indent in
    let l1 = emit (token_at token_newline [] file l.line 1) l in
    let l2 = emit (token_at token_raw_block raw_text file (suc next) (suc next_indent)) l1 in
    let l3 = emit (token_at token_newline [] file (suc block_end) 1) l2 in
    if leb (length l.lines) next
    then none
    else if leb next_indent indent
    then none
    else some (block_end, l3)

-- The key and its colon.
unfoldable pub emit_key : Str → ℕ → Str → Lexer → Lexer
emit_key file indent content l =
    let key : Str = elim (before_colon content) [ none ↦ [] | some key ↦ key ] in
    emit (token_at token_colon (bytes ":") file l.line (suc (indent + length key)))
      (emit (token_at token_identifier key file l.line (suc indent)) l)

-- Where there is no block, the line ends.
abbrev pub or_end_line : Str → ℕ → Str → Lexer → Option (ℕ × Lexer) → ℕ × Lexer
or_end_line file i line l none =
    (suc i, emit (token_at token_newline [] file l.line (suc (length line))) l)
or_end_line file i line l (some collected) = collected

-- Where the next line to lex is, with the tokens of this one.
unfoldable pub lex_key_colon_block : Str → ℕ → ℕ → Str → Str → Lexer → ℕ × Lexer
lex_key_colon_block file i indent content line l =
    let l' = emit_key file indent content l in
    or_end_line file i line l' (try_collect_block file i indent l')

unfoldable pub lex_content : Str → ℕ → Str → Str → Lexer → ℕ × Lexer
lex_content file i trimmed line l =
    let indent = line_indent trimmed in
    let content = drop indent trimmed in
    let l' = emit_indent_tokens file indent l in
    if is_key_colon_line content then lex_key_colon_block file i indent content line l' else (
      suc i,
      emit (token_at token_newline [] file l'.line (suc (length line))) (lex_line file content l'),
    )

-- lexOneLine, and the index that `lex` goes on with.
unfoldable pub lex_one_line : Str → ℕ → Lexer → ℕ × Lexer
lex_one_line file i l =
    let line = line_at l.lines i in
    let l' = record l { line = suc i } in
    let trimmed = trim_right line in
    let stripped = strip_comment trimmed in
    if is_blank_or_comment trimmed
    then (suc i, l')
    else if trim_space stripped == []
    then (suc i, l')
    else lex_content file i stripped line l'

-- The loop of lex, on fuel.
unfoldable pub lex_lines : ℕ → Str → ℕ → Lexer → Lexer
lex_lines zero file i l = l
lex_lines (suc fuel) file i l =
    let (next, l') = lex_one_line file i l in
    let rest = lex_lines fuel file next l' in if ltb i (length l.lines) then rest else l

unfoldable pub lex : Str → Lexer → Lexer
lex file l =
    let l' = emit_remaining_outdents file (lex_lines (length l.lines) file 0 l) in
    emit (token_at token_eof [] file l'.line 1) l'

unfoldable pub new_lexer : Str → Str → Lexer
new_lexer input file = lex file (record {
  lines = split b'\n' input;
  line = 1;
  indent_stack = 0 ∷ [];
  tokens = [];
  token_idx = 0;
})

-- The location of an end of file behind the last token has no file.
unfoldable pub peek_token : Lexer → LexToken
peek_token l = elim (get_elem? l.tokens l.token_idx) [
  | none ↦ token_at token_eof [] [] l.line 1
  | some t ↦ t
]

unfoldable pub next_token : Lexer → LexToken × Lexer
next_token l = elim (get_elem? l.tokens l.token_idx) [
  | none ↦ (token_at token_eof [] [] l.line 1, l)
  | some t ↦ (t, record l { token_idx = suc l.token_idx })
]
