-- ===== src/Formatter/Values.antt =====
-- formatter/format.go: values with their quotes, which the lexer takes off again.
use dippin_lang.Base.{
  Str, ℕ, suc, [], ◌∷◌, ◌++◌, ◌≡◌, ◌⊎◌, inl, inr, refl, sym, subst, arith, Bool, true, false, not,
  ◌||◌, eqb, length, All, none, some, has_prefix, ◌==◌, if◌then◌else◌, length-append,
}
use mathlib.Core.List.{append_assoc}
use dippin_lang.Parser.Lexer.Line.{
  Lexeme, token_literal, token_identifier, is_letter, is_digit, is_alpha_num, is_ident_word_char,
  is_operator_start, read_quoted_content, ident_word, try_lex_punctuation, try_lex_arrow,
  try_lex_operator, try_lex_quoted_string, try_lex_identifier, lex_one_token,
}

abbrev pub is_unquoted_alphanumeric : ℕ → Bool
is_unquoted_alphanumeric ch = is_letter ch || is_digit ch

-- The bytes of a rune beyond ASCII are as little allowed as the rune.
abbrev pub is_unquoted_char : ℕ → Bool
is_unquoted_char ch =
    is_unquoted_alphanumeric ch
    || (eqb ch b'_' || (eqb ch b'-' || (eqb ch b'.' || (eqb ch b'/' || eqb ch b':'))))

unfoldable pub needs_quoting : Str → Bool
needs_quoting [] = false
needs_quoting (ch ∷ s) = not (is_unquoted_char ch) || needs_quoting s

abbrev pub quotes : Str → Str
quotes s = b'"' ∷ s ++ b'"' ∷ []

unfoldable pub quote_value : Str → Str
quote_value s = if s == [] then quotes [] else if needs_quoting s then quotes s else s

-- Neither a quote nor a backslash nor a newline, at which the lexer cuts the text into lines.
abbrev pub IsQuotable : ℕ → Type 0
IsQuotable c = (¬ c ≡ b'"') × (¬ c ≡ b'\\') × (¬ c ≡ b'\n')

abbrev pub IsWordByte : ℕ → Type 0
IsWordByte c = is_ident_word_char c ≡ true

-- The text behind a word does not go on with the word.
abbrev pub Stops : Str → Type 0
Stops [] = Unit
Stops (c ∷ s) = is_ident_word_char c ≡ false

-- Values that the lexer reads back, before the text `rest`.
pub data IsReadable (rest : Str) : Str → Type 0 where
  empty : IsReadable rest []
  quoted : {s : Str} → needs_quoting s ≡ true → All IsQuotable s → IsReadable rest s
  word :
      {c : ℕ} {s : Str}
      → is_alpha_num c ≡ true
      → All IsWordByte (c ∷ s)
      → Stops rest
      → IsReadable rest (c ∷ s)

read_quoted_content-plain :
    (s rest : Str)
    → All IsQuotable s
    → read_quoted_content false (s ++ b'"' ∷ rest) ≡ (s, suc (length s))
unfolding read_quoted_content
read_quoted_content-plain [] rest h = refl
read_quoted_content-plain (c ∷ s) rest h =
    let escapes : eqb c b'\\' ≡ false = ground (arith, h.0) in
    let closes : eqb c b'"' ≡ false = ground (arith, h.0) in
    rw (escapes, closes, read_quoted_content-plain s rest h.1) refl

lex_quotes :
    (s rest : Str)
    → All IsQuotable s
    → lex_one_token (quotes s ++ rest)
      ≡ some (record { type = token_literal; value = s; size = length (quotes s) })
unfolding lex_one_token try_lex_punctuation try_lex_arrow try_lex_operator try_lex_quoted_string
    has_prefix
lex_quotes s rest h =
    let text : (s ++ b'"' ∷ []) ++ rest ≡ s ++ b'"' ∷ rest = append_assoc s (b'"' ∷ []) rest in
    let size : length (s ++ b'"' ∷ []) ≡ suc (length s) =
      omega (arith, length-append s (b'"' ∷ [])) in
    rw (text, read_quoted_content-plain s rest h, size) refl

ident_word-Stops : (s rest : Str) → All IsWordByte s → Stops rest → ident_word (s ++ rest) ≡ s
unfolding ident_word
ident_word-Stops [] [] h stops = refl
ident_word-Stops [] (c ∷ rest) h stops = rw stops refl
ident_word-Stops (c ∷ s) rest h stops = rw (h.0, ident_word-Stops s rest h.1 stops) refl

-- A letter or a digit begins no other token.
no_other_token :
    (c : ℕ) (t : Str)
    → is_alpha_num c ≡ true
    → (try_lex_punctuation (c ∷ t) ≡ none)
      × (try_lex_arrow (c ∷ t) ≡ none)
      × (try_lex_operator (c ∷ t) ≡ none)
      × (try_lex_quoted_string (c ∷ t) ≡ none)
unfolding try_lex_punctuation try_lex_arrow try_lex_operator try_lex_quoted_string has_prefix
no_other_token c t letter = (
  ground (arith, letter),
  ground (arith, letter),
  (let start : is_operator_start c ≡ false = ground (arith, letter) in rw start refl),
  ground (arith, letter),
)

word_lexed :
    (c : ℕ) (s rest : Str)
    → is_alpha_num c ≡ true
    → All IsWordByte (c ∷ s)
    → Stops rest
    → lex_one_token ((c ∷ s) ++ rest)
      ≡ some (record { type = token_identifier; value = c ∷ s; size = length (c ∷ s) })
unfolding lex_one_token try_lex_identifier
word_lexed c s rest letter worded stops =
    let (a, b, d, e) = no_other_token c (s ++ rest) letter in
    rw (a, b, d, e, letter, ident_word-Stops (c ∷ s) rest worded stops) refl

word_bytes : (s : Str) → All IsWordByte s → needs_quoting s ≡ false
unfolding needs_quoting
word_bytes [] h = refl
word_bytes (c ∷ s) h = ground (arith, h.0, word_bytes s h.1)

quote_value-quotes : (s : Str) → (s ≡ []) ⊎ (needs_quoting s ≡ true) → quote_value s ≡ quotes s
unfolding quote_value ◌==◌
quote_value-quotes [] h = refl
quote_value-quotes (c ∷ s) (inl h) = cc
quote_value-quotes (c ∷ s) (inr h) = rw h refl

quote_value-word : (c : ℕ) (s : Str) → needs_quoting (c ∷ s) ≡ false → quote_value (c ∷ s) ≡ c ∷ s
unfolding quote_value ◌==◌
quote_value-word c s h = rw h refl

-- `written` is read as one token of the value.
abbrev pub IsReadBack : Str → Str → Str → Type 0
IsReadBack rest value written =
    (t : Lexeme) × (lex_one_token (written ++ rest) ≡ some t)
    × (t.value ≡ value)
    × (t.size ≡ length written)

-- A value is written, and a call of the lexer at it, within a line, reads one token of that value, which takes
-- all that was written. The value is empty, or it needs quotes and has neither a quote nor a backslash nor a
-- newline, or it is a word that begins with a
-- letter or a digit and that the text behind does not go on with.
pub lex_one_token-quote_value :
    (s rest : Str) → IsReadable rest s → IsReadBack rest s (quote_value s)
lex_one_token-quote_value [] rest empty =
    subst (IsReadBack rest []) (sym (quote_value-quotes [] (inl refl)))
      (_, lex_quotes [] rest tt, refl, refl)
lex_one_token-quote_value s rest (quoted needs plain) =
    subst (IsReadBack rest s) (sym (quote_value-quotes s (inr needs)))
      (_, lex_quotes s rest plain, refl, refl)
lex_one_token-quote_value (c ∷ s) rest (word letter worded stops) =
    subst (IsReadBack rest (c ∷ s)) (sym (quote_value-word c s (word_bytes (c ∷ s) worded)))
      (_, word_lexed c s rest letter worded stops, refl, refl)
