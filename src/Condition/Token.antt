-- ===== src/Condition/Token.antt =====
-- tokenizeCondition of simulate/condition.go. An index into `raw` is the suffix that starts there,
-- and a tokenizer answers with its token and the number of bytes consumed.
use dippin_lang.Base.{
  Str, ℕ, zero, suc, ◌+◌, List, [], ◌∷◌, ◌++◌, Bool, ◌||◌, eqb, ltb, length, take, drop,
  if◌then◌else◌, bytes, ◌==◌, trim_space,
}

-- ' ' or '\t', as skipCondWhitespace tests
abbrev pub is_blank : ℕ → Bool
is_blank c = eqb c 32 || eqb c 9

unfoldable pub skip_cond_whitespace : Str → Str
skip_cond_whitespace [] = []
skip_cond_whitespace (c ∷ s) =
    let rest = skip_cond_whitespace s in if is_blank c then rest else c ∷ s

-- '"' or '\''
unfoldable pub is_quote_char : ℕ → Bool
is_quote_char c = eqb c 34 || eqb c 39

-- '=', '!', '<' or '>'
unfoldable pub is_operator_char : ℕ → Bool
is_operator_char c = eqb c b'=' || (eqb c b'!' || (eqb c b'<' || eqb c b'>'))

unfoldable pub is_two_char_operator : Str → Bool
is_two_char_operator s =
    (s == bytes "==") || ((s == bytes "!=") || ((s == bytes "<=") || (s == bytes ">=")))

unfoldable pub is_word_break : ℕ → Bool
unfolding is_operator_char
is_word_break c = is_blank c || is_operator_char c

-- The bytes in front of the first that passes the test: where the scan `for !stop(raw[i])` ends.
unfoldable pub scan_until : (ℕ → Bool) → Str → Str
scan_until stop [] = []
scan_until stop (c ∷ s) = let rest = scan_until stop s in if stop c then [] else c ∷ rest

abbrev pub Token : Type 0
Token = Str × ℕ

-- What follows the opening quote: a missing closing quote is not counted.
unfoldable pub quoted_rest : ℕ → Str → Token
unfolding scan_until
quoted_rest quote s =
    let token = scan_until (eqb quote) s in
    (token, if ltb (length token) (length s) then length token + 2 else length token + 1)

unfoldable pub try_tokenize_quoted : Str → Token
unfolding is_quote_char quoted_rest
try_tokenize_quoted [] = ([], 0)
try_tokenize_quoted (c ∷ s) = if is_quote_char c then quoted_rest c s else ([], 0)

unfoldable pub try_tokenize_operator : Str → Token
unfolding is_operator_char is_two_char_operator
try_tokenize_operator [] = ([], 0)
try_tokenize_operator (c ∷ s) =
    if is_operator_char c
    then (if is_two_char_operator (take 2 (c ∷ s)) then (take 2 (c ∷ s), 2) else (c ∷ [], 1))
    else ([], 0)

unfoldable pub try_tokenize_word : Str → Token
unfolding scan_until is_word_break
try_tokenize_word s = let word = scan_until is_word_break s in (word, length word)

unfoldable pub tokenize_one : Str → Token
unfolding try_tokenize_quoted try_tokenize_operator try_tokenize_word
tokenize_one s =
    if ltb 0 (try_tokenize_quoted s).1
    then try_tokenize_quoted s
    else if ltb 0 (try_tokenize_operator s).1
    then try_tokenize_operator s
    else try_tokenize_word s

-- `i += consumed` after a token, `i++` where nothing was consumed.
abbrev pub advance : Token → Str → Str
advance (token, consumed) s = if ltb 0 consumed then drop consumed s else drop 1 s

abbrev pub emitted : Token → List Str
emitted (token, consumed) = if ltb 0 consumed then token ∷ [] else []

-- The main loop, on fuel; each round ends further on, so the length of the text is enough.
unfoldable pub tokenize_loop : ℕ → Str → List Str
unfolding skip_cond_whitespace tokenize_one
tokenize_loop zero s = []
tokenize_loop (suc fuel) s = elim (skip_cond_whitespace s) [
  | [] ↦ []
  | c ∷ rest ↦
      let t = tokenize_one (c ∷ rest) in emitted t ++ tokenize_loop fuel (advance t (c ∷ rest))
]

unfoldable pub tokenize_condition : Str → List Str
unfolding trim_space tokenize_loop
tokenize_condition raw = let s = trim_space raw in tokenize_loop (length s) s
