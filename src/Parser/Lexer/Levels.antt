-- ===== src/Parser/Lexer/Levels.antt =====
-- What a token does to the number of open indentations.
use dippin_lang.Base.{
  Str, ℕ, zero, suc, List, [], ◌∷◌, ◌++◌, ◌≡◌, inl, inr, refl, arith, Bool, true, false, Bool-cases,
  Option, none, some,
}
use dippin_lang.Parser.Lexer.Line.{
  TokenType, token_error, token_keyword, token_eof, token_newline, token_indent, token_outdent,
  token_identifier, token_operator, token_literal, token_colon, token_comma, token_arrow,
  token_back_arrow, token_lparen, token_rparen, token_lbracket, token_raw_block, Lexeme,
  is_alpha_num, is_operator_start, punctuation_token, try_lex_punctuation, try_lex_arrow,
  try_lex_operator, try_lex_quoted_string, try_lex_identifier, lex_one_token, or_else,
}
use dippin_lang.Parser.Lexer.{LexToken}

-- The number of open indentations behind a token, where there is one to close.
abbrev pub level_after : TokenType → Option ℕ → Option ℕ
level_after t none = none
level_after token_indent (some d) = some (suc d)
level_after token_outdent (some zero) = none
level_after token_outdent (some (suc d)) = some d
level_after _ (some d) = some d

abbrev pub depth_after : Option ℕ → List LexToken → Option ℕ
depth_after d [] = d
depth_after d (t ∷ ts) = depth_after (level_after t.type d) ts

pub depth_after-append :
    (d : Option ℕ) (ts : List LexToken) (t : LexToken)
    → depth_after d (ts ++ t ∷ []) ≡ level_after t.type (depth_after d ts)
depth_after-append d [] t = refl
depth_after-append d (u ∷ ts) t = depth_after-append (level_after u.type d) ts t

-- A token that neither opens nor closes an indentation.
abbrev pub IsNeutral : TokenType → Type 0
IsNeutral t = (d : ℕ) → level_after t (some d) ≡ some d

abbrev pub neutral : TokenType → Bool
neutral token_indent = false
neutral token_outdent = false
neutral _ = true

pub neutral-IsNeutral : (t : TokenType) → neutral t ≡ true → IsNeutral t
neutral-IsNeutral token_indent h = cc
neutral-IsNeutral token_outdent h = cc
neutral-IsNeutral token_error h = λ d. refl
neutral-IsNeutral token_eof h = λ d. refl
neutral-IsNeutral token_newline h = λ d. refl
neutral-IsNeutral token_keyword h = λ d. refl
neutral-IsNeutral token_identifier h = λ d. refl
neutral-IsNeutral token_operator h = λ d. refl
neutral-IsNeutral token_literal h = λ d. refl
neutral-IsNeutral token_colon h = λ d. refl
neutral-IsNeutral token_comma h = λ d. refl
neutral-IsNeutral token_arrow h = λ d. refl
neutral-IsNeutral token_back_arrow h = λ d. refl
neutral-IsNeutral token_lparen h = λ d. refl
neutral-IsNeutral token_rparen h = λ d. refl
neutral-IsNeutral token_lbracket h = λ d. refl
neutral-IsNeutral token_raw_block h = λ d. refl

-- The type of what is found, where something is found.
abbrev neutral_type : Option TokenType → Bool
neutral_type none = true
neutral_type (some t) = neutral t

abbrev pub neutral_lexeme : Option Lexeme → Bool
neutral_lexeme none = true
neutral_lexeme (some t) = neutral t.type

punctuation_neutral : (c : ℕ) → neutral_type (punctuation_token c) ≡ true
punctuation_neutral c = ground arith

try_punctuation_neutral : (s : Str) → neutral_lexeme (try_lex_punctuation s) ≡ true
unfolding try_lex_punctuation
try_punctuation_neutral [] = refl
try_punctuation_neutral (c ∷ s) = ground (arith, punctuation_neutral c)

try_arrow_neutral : (s : Str) → neutral_lexeme (try_lex_arrow s) ≡ true
unfolding try_lex_arrow
try_arrow_neutral s = ground arith

try_operator_neutral : (s : Str) → neutral_lexeme (try_lex_operator s) ≡ true
unfolding try_lex_operator
try_operator_neutral [] = refl
try_operator_neutral (c ∷ s) = elim (Bool-cases (is_operator_start c)) [
  | inr e ↦ rw e refl
  | inl e ↦ rw e (ground arith)
]

try_quoted_neutral : (s : Str) → neutral_lexeme (try_lex_quoted_string s) ≡ true
unfolding try_lex_quoted_string
try_quoted_neutral [] = refl
try_quoted_neutral (c ∷ s) = ground arith

try_identifier_neutral : (s : Str) → neutral_lexeme (try_lex_identifier s) ≡ true
unfolding try_lex_identifier
try_identifier_neutral [] = refl
try_identifier_neutral (c ∷ s) = elim (Bool-cases (is_alpha_num c)) [
  | inl e ↦ rw e refl
  | inr e ↦ rw e refl
]

or_else_neutral :
    (a b : Option Lexeme)
    → neutral_lexeme a ≡ true
    → neutral_lexeme b ≡ true
    → neutral_lexeme (or_else a b) ≡ true
or_else_neutral none b h k = k
or_else_neutral (some t) b h k = h

pub lex_one_token_neutral : (s : Str) → neutral_lexeme (lex_one_token s) ≡ true
unfolding lex_one_token
lex_one_token_neutral s = or_else_neutral (try_lex_punctuation s) _ (try_punctuation_neutral s) (
    or_else_neutral (try_lex_arrow s) _ (try_arrow_neutral s) (
      or_else_neutral (try_lex_operator s) _ (try_operator_neutral s) (
        or_else_neutral (try_lex_quoted_string s) (try_lex_identifier s) (try_quoted_neutral s)
          (try_identifier_neutral s))))
