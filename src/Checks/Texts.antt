-- ===== src/Checks/Texts.antt =====
-- Texts of workflows and their tokens.
use dippin_lang.Base.{
  Str, List, [], ◌∷◌, ◌++◌, ◌+◌, ◌≡◌, refl, bytes, some, split, contains, has_prefix, trim_with,
  space_size, last_space_size, trim_space, ◌==◌, arith, length,
}
use dippin_lang.Parser.Lexer.Line.{
  TokenType, token_eof, token_newline, token_indent, token_outdent, token_identifier, token_arrow,
  token_colon, token_raw_block, try_lex_punctuation, try_lex_arrow, try_lex_operator,
  read_quoted_content, try_lex_quoted_string, ident_word, try_lex_identifier, lex_one_token,
  line_indent, skip_blanks, is_blank_or_comment, find_unquoted_hash, is_strippable_hash,
  strip_comment, before_colon, all_ident, is_key_colon_line,
}
use dippin_lang.Parser.Lexer.{
  LexToken, Lexer, emit_outdents, emit_indent_tokens, pop_remaining, emit_remaining_outdents,
  lex_rest, lex_line, find_next_content_line, find_block_end, strip_indent_prefix,
  trim_trailing_blank_lines, extract_raw_block, try_collect_block, emit_key, lex_key_colon_block,
  lex_content, lex_one_line, lex_lines, lex, new_lexer, current_indent,
}
use dippin_lang.Parser.Lexer.Levels.{depth_after}
use dippin_lang.Parser.Lexer.Nesting.{new_lexer-balanced}
use dippin_lang.Parser.Lexer.Taken.{LexesRest}
use dippin_lang.Parser.Lexer.Progress.{LexesLines, lex_loops_end}
use dippin_lang.Formatter.Values.{
  IsReadable, quoted, IsReadBack, quote_value, needs_quoting, lex_one_token-quote_value,
}

abbrev lines : List Str
lines =
    bytes "edges"
    ∷ bytes "  a -> b  # on"
    ∷ []
    ∷ bytes "prompt:"
    ∷ bytes "    Do: it"
    ∷ bytes "  now"
    ∷ []

abbrev text : Str
text = bytes "edges\n  a -> b  # on\n\nprompt:\n    Do: it\n  now"

-- All that the lexer calls, to be opened at once.
lexing : Unit {0}
unfolding ◌==◌ contains has_prefix split trim_with space_size last_space_size trim_space
    try_lex_punctuation try_lex_arrow try_lex_operator read_quoted_content try_lex_quoted_string
    ident_word try_lex_identifier lex_one_token line_indent skip_blanks is_blank_or_comment
    find_unquoted_hash is_strippable_hash strip_comment before_colon all_ident is_key_colon_line
    emit_outdents emit_indent_tokens pop_remaining emit_remaining_outdents lex_rest lex_line
    find_next_content_line find_block_end strip_indent_prefix trim_trailing_blank_lines
    extract_raw_block try_collect_block emit_key lex_key_colon_block lex_content lex_one_line
    lex_lines lex new_lexer
lexing = tt

abbrev types : List LexToken → List TokenType
types [] = []
types (t ∷ ts) = t.type ∷ types ts

abbrev values : List LexToken → List Str
values [] = []
values (t ∷ ts) = t.value ∷ values ts

text-types :
    types (new_lexer text []).tokens
    ≡ token_identifier ∷ token_newline ∷ token_indent ∷ token_identifier ∷ token_arrow
      ∷ token_identifier ∷ token_newline ∷ token_outdent ∷ token_identifier ∷ token_colon
      ∷ token_newline ∷ token_raw_block ∷ token_newline ∷ token_eof ∷ []
unfolding lexing
text-types = refl

text-values :
    values (new_lexer text []).tokens
    ≡ bytes "edges"
      ∷ []
      ∷ []
      ∷ bytes "a"
      ∷ bytes "->"
      ∷ bytes "b"
      ∷ []
      ∷ []
      ∷ bytes "prompt"
      ∷ bytes ":"
      ∷ []
      ∷ bytes "Do: it\nnow"
      ∷ []
      ∷ []
      ∷ []
unfolding lexing
text-values = refl

new_lexer-balanced_example :
    (depth_after (some 0) (new_lexer text []).tokens ≡ some 0)
    × ((new_lexer text []).indent_stack ≡ 0 ∷ [])
    × ((ts : List LexToken) × (t : LexToken) × ((new_lexer text []).tokens ≡ ts ++ t ∷ [])
        × (t.type ≡ token_eof))
new_lexer-balanced_example = new_lexer-balanced text []

abbrev start : Lexer
start = record { lines = lines; line = 1; indent_stack = 0 ∷ []; tokens = []; token_idx = 0 }

lex_loops_end_example :
    LexesLines [] 0 start (lex_lines (length start.lines) [] 0 start)
    × ((line : Str) (k : Lexer)
        → LexesRest [] (1 + current_indent k.indent_stack) 0 line k (lex_line [] line k))
lex_loops_end_example = lex_loops_end [] start

two_words-IsReadable : IsReadable (bytes "  when x") (bytes "go on")
unfolding needs_quoting
two_words-IsReadable = quoted refl (ground arith)

lex_one_token-quote_value_example :
    IsReadBack (bytes "  when x") (bytes "go on") (quote_value (bytes "go on"))
lex_one_token-quote_value_example =
    lex_one_token-quote_value (bytes "go on") (bytes "  when x") two_words-IsReadable

-- The sign of a weight is no token.
sign-lost :
    values (new_lexer (bytes "weight: -1") []).tokens
    ≡ bytes "weight" ∷ bytes ":" ∷ bytes "1" ∷ [] ∷ [] ∷ []
unfolding lexing
sign-lost = refl
