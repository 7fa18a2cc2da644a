-- ===== src/Parser/Lexer/Taken.antt =====
-- Every lexeme takes a byte or more, so that the loop along a line has fuel enough.
use dippin_lang.Base.{
  Str, ℕ, zero, suc, ◌+◌, ◌≤◌, ◌<◌, [], ◌∷◌, ◌≡◌, inl, inr, refl, arith, Bool, true, ltb, length,
  drop, Bool-cases, Option-cases, Option, none, some, false,
}
use dippin_lang.Parser.Lexer.Line.{
  Lexeme, is_space_byte, lex_one_token, or_else, is_operator_start, is_alpha_num, ident_word,
  try_lex_punctuation, try_lex_arrow, try_lex_operator, try_lex_quoted_string, try_lex_identifier,
}
use dippin_lang.Parser.Lexer.{token_at, emit, Lexer, lex_rest}

abbrev takes_some : Option Lexeme → Bool
takes_some none = true
takes_some (some t) = ltb 0 t.size

punctuation_takes_some : (s : Str) → takes_some (try_lex_punctuation s) ≡ true
unfolding try_lex_punctuation
punctuation_takes_some [] = refl
punctuation_takes_some (c ∷ s) = ground arith

arrow_takes_some : (s : Str) → takes_some (try_lex_arrow s) ≡ true
unfolding try_lex_arrow
arrow_takes_some s = ground arith

operator_takes_some : (s : Str) → takes_some (try_lex_operator s) ≡ true
unfolding try_lex_operator
operator_takes_some [] = refl
operator_takes_some (c ∷ s) = elim (Bool-cases (is_operator_start c)) [
  | inr e ↦ rw e refl
  | inl e ↦ rw e (ground arith)
]

quoted_takes_some : (s : Str) → takes_some (try_lex_quoted_string s) ≡ true
unfolding try_lex_quoted_string
quoted_takes_some [] = refl
quoted_takes_some (c ∷ s) = ground arith

identifier_takes_some : (s : Str) → takes_some (try_lex_identifier s) ≡ true
unfolding try_lex_identifier ident_word
identifier_takes_some [] = refl
identifier_takes_some (c ∷ s) = elim (Bool-cases (is_alpha_num c)) [
  | inl e ↦ rw e (ground arith)
  | inr e ↦ rw e refl
]

or_else-takes_some :
    (a b : Option Lexeme)
    → takes_some a ≡ true
    → takes_some b ≡ true
    → takes_some (or_else a b) ≡ true
or_else-takes_some none b h k = k
or_else-takes_some (some t) b h k = h

lex_one_token-takes_some : (s : Str) → takes_some (lex_one_token s) ≡ true
unfolding lex_one_token
lex_one_token-takes_some s =
    or_else-takes_some (try_lex_punctuation s) _ (punctuation_takes_some s) (
      or_else-takes_some (try_lex_arrow s) _ (arrow_takes_some s) (
        or_else-takes_some (try_lex_operator s) _ (operator_takes_some s) (
          or_else-takes_some (try_lex_quoted_string s) (try_lex_identifier s) (quoted_takes_some s)
            (identifier_takes_some s))))

drop-le : (n : ℕ) (s : Str) → length (drop n s) ≤ length s
drop-le zero s = omega arith
drop-le (suc n) [] = omega arith
drop-le (suc n) (c ∷ s) = omega (arith, drop-le n s)

drop-lt : (n c : ℕ) (s : Str) → 0 < n → length (drop n (c ∷ s)) ≤ length s
drop-lt zero c s h = absurd (omega (arith, h))
drop-lt (suc n) c s h = drop-le n s

-- The loop along a line as the code runs it, without fuel: from an index, the text from there on and a lexer
-- to the lexer at its end.
pub data LexesRest (file : Str) (offset : ℕ) : ℕ → Str → Lexer → Lexer → Type 0 where
  line_end : {i : ℕ} {l : Lexer} → LexesRest file offset i [] l l
  space :
      {i c : ℕ} {s : Str} {l k : Lexer}
      → is_space_byte c ≡ true
      → LexesRest file offset (i + 1) s l k
      → LexesRest file offset i (c ∷ s) l k
  unknown :
      {i c : ℕ} {s : Str} {l k : Lexer}
      → is_space_byte c ≡ false
      → lex_one_token (c ∷ s) ≡ none
      → LexesRest file offset (i + 1) s l k
      → LexesRest file offset i (c ∷ s) l k
  token :
      {i c : ℕ} {s : Str} {l k : Lexer} (t : Lexeme)
      → is_space_byte c ≡ false
      → lex_one_token (c ∷ s) ≡ some t
      → LexesRest file offset
          (i + t.size)
          (drop t.size (c ∷ s))
          (emit (token_at t.type t.value file l.line (offset + i)) l)
          k
      → LexesRest file offset i (c ∷ s) l k

-- Fuel for the bytes that are left is enough.
pub lex_rest_ends :
    (fuel : ℕ) (file : Str) (offset i : ℕ) (s : Str) (l : Lexer)
    → length s ≤ fuel
    → LexesRest file offset i s l (lex_rest fuel file offset i s l)
unfolding lex_rest
lex_rest_ends zero file offset i [] l h = line_end
lex_rest_ends (suc fuel) file offset i [] l h = line_end
lex_rest_ends zero file offset i (c ∷ s) l h = absurd (omega (arith, h))
lex_rest_ends (suc fuel) file offset i (c ∷ s) l h = elim (Bool-cases (is_space_byte c)) [
  | inl e ↦ space e (rw e (lex_rest_ends fuel file offset (i + 1) s l (omega (arith, h))))
  | inr e ↦ elim (Option-cases (lex_one_token (c ∷ s))) [
    | inl f ↦
        unknown e f (rw (e, f) (lex_rest_ends fuel file offset (i + 1) s l (omega (arith, h))))
    | inr (t, f) ↦
        let taken : ltb 0 t.size ≡ true = rw f at (lex_one_token-takes_some (c ∷ s)) in
        let shorter = drop-lt t.size c s (ground (arith, taken)) in
        token t e f (
          rw (e, f)
            (lex_rest_ends fuel file offset (i + t.size) (drop t.size (c ∷ s)) _
              (omega (arith, h, shorter))))
  ]
]
