-- ===== src/Parser/Lexer/Nesting.antt =====
-- Indentations are opened and closed in pairs, whatever the lines.
use dippin_lang.Base.{
  Str, ℕ, zero, suc, ◌+◌, List, [], ◌∷◌, ◌++◌, ◌≡◌, inl, inr, refl, ap, ◌∙◌, arith, true, ltb, leb,
  length, drop, Bool-cases, Option-cases, Option, none, some, split, trim_space, bytes, ◌==◌,
}
use dippin_lang.Parser.Lexer.Line.{
  token_eof, token_newline, token_outdent, token_identifier, token_colon, token_raw_block,
  lex_one_token, is_space_byte, strip_comment, trim_right, is_blank_or_comment, line_indent,
  is_key_colon_line,
}
use dippin_lang.Parser.Lexer.{
  LexToken, Lexer, token_at, emit, current_indent, emit_indent_tokens, pop_remaining,
  emit_remaining_outdents, lex_rest, lex_line, line_at, find_next_content_line, try_collect_block,
  emit_key, or_end_line, lex_key_colon_block, lex_content, lex_one_line, lex_lines, lex, new_lexer,
}
use dippin_lang.Parser.Lexer.Levels.{depth_after, neutral, neutral-IsNeutral, lex_one_token_neutral}
use dippin_lang.Parser.Lexer.Stack.{
  IsNested, emitted, emit-IsNested, emit_indent_tokens-IsNested, pop_remaining-IsNested,
}

lex_rest-IsNested :
    (fuel : ℕ) (file : Str) (offset i : ℕ) (s : Str) (l : Lexer)
    → IsNested l
    → IsNested (lex_rest fuel file offset i s l)
unfolding lex_rest
lex_rest-IsNested zero file offset i s l h = h
lex_rest-IsNested (suc fuel) file offset i [] l h = h
lex_rest-IsNested (suc fuel) file offset i (c ∷ s) l h = elim (Bool-cases (is_space_byte c)) [
  | inl e ↦ rw e (lex_rest-IsNested fuel file offset (i + 1) s l h)
  | inr e ↦ elim (Option-cases (lex_one_token (c ∷ s))) [
    | inl none_found ↦ rw (e, none_found) (lex_rest-IsNested fuel file offset (i + 1) s l h)
    | inr (t, found) ↦
        let quiet : neutral t.type ≡ true = rw found at (lex_one_token_neutral (c ∷ s)) in
        rw (e, found)
          (lex_rest-IsNested fuel file offset (i + t.size) (drop t.size (c ∷ s)) _ (
            emit-IsNested (token_at t.type t.value file l.line (offset + i)) l
              (neutral-IsNeutral t.type quiet) h))
  ]
]

lex_line-IsNested : (file line : Str) (l : Lexer) → IsNested l → IsNested (lex_line file line l)
unfolding lex_line
lex_line-IsNested file line l h =
    lex_rest-IsNested (length line) file (1 + current_indent l.indent_stack) 0 line l h

newline-IsNested :
    (file : Str) (line column : ℕ) (l : Lexer)
    → IsNested l
    → IsNested (emit (token_at token_newline [] file line column) l)
newline-IsNested file line column l h =
    emit-IsNested (token_at token_newline [] file line column) l (λ d. refl) h

-- The outcome of a look for a block, where there is one.
abbrev CollectsNested : Option (ℕ × Lexer) → Type 0
CollectsNested none = Unit
CollectsNested (some (block_end, l)) = IsNested l

try_collect_block-IsNested :
    (file : Str) (i indent : ℕ) (l : Lexer)
    → IsNested l
    → CollectsNested (try_collect_block file i indent l)
unfolding try_collect_block
try_collect_block-IsNested file i indent l h =
    let next = find_next_content_line (drop (suc i) l.lines) (suc i) in
    let next_indent = line_indent (line_at l.lines next) in
    elim (Bool-cases (leb (length l.lines) next)) [
      | inl e ↦ rw e tt
      | inr e ↦ elim (Bool-cases (leb next_indent indent)) [
        | inl f ↦ rw (e, f) tt
        | inr f ↦
            rw (e, f)
              (newline-IsNested file _ 1 _ (
                emit-IsNested (token_at token_raw_block _ file _ _) _ (λ d. refl)
                  (newline-IsNested file l.line 1 l h)))
      ]
    ]

or_end_line-IsNested :
    (file : Str) (i : ℕ) (line : Str) (l : Lexer) (collected : Option (ℕ × Lexer))
    → IsNested l
    → CollectsNested collected
    → IsNested (or_end_line file i line l collected).1
or_end_line-IsNested file i line l none h c = newline-IsNested file l.line (suc (length line)) l h
or_end_line-IsNested file i line l (some (block_end, l')) h c = c

emit_key-IsNested :
    (file : Str) (indent : ℕ) (content : Str) (l : Lexer)
    → IsNested l
    → IsNested (emit_key file indent content l)
unfolding emit_key
emit_key-IsNested file indent content l h =
    emit-IsNested (token_at token_colon (bytes ":") file l.line _) _ (λ d. refl)
      (emit-IsNested (token_at token_identifier _ file l.line (suc indent)) l (λ d. refl) h)

key_colon-IsNested :
    (file : Str) (i indent : ℕ) (content line : Str) (l : Lexer)
    → IsNested l
    → IsNested (lex_key_colon_block file i indent content line l).1
unfolding lex_key_colon_block
key_colon-IsNested file i indent content line l h =
    let l' = emit_key file indent content l in
    let h' = emit_key-IsNested file indent content l h in
    or_end_line-IsNested file i line l' (try_collect_block file i indent l') h'
      (try_collect_block-IsNested file i indent l' h')

lex_content-IsNested :
    (file : Str) (i : ℕ) (trimmed line : Str) (l : Lexer)
    → IsNested l
    → IsNested (lex_content file i trimmed line l).1
unfolding lex_content
lex_content-IsNested file i trimmed line l h =
    let indent = line_indent trimmed in
    let content = drop indent trimmed in
    let l' = emit_indent_tokens file indent l in
    let h' = emit_indent_tokens-IsNested file indent l h in
    elim (Bool-cases (is_key_colon_line content)) [
      | inl e ↦ rw e (key_colon-IsNested file i indent content line l' h')
      | inr e ↦ rw e (
          newline-IsNested file l'.line (suc (length line)) _
            (lex_line-IsNested file content l' h'))
    ]

-- Lexing a line keeps the depth of the tokens and the height of the stack together, whatever the line.
pub lex_one_line-IsNested :
    (file : Str) (i : ℕ) (l : Lexer) → IsNested l → IsNested (lex_one_line file i l).1
unfolding lex_one_line
lex_one_line-IsNested file i l h =
    let line = line_at l.lines i in
    let trimmed = trim_right line in
    let l' = record l { line = suc i } in
    let h' : IsNested l' = record {
      open_levels = h.open_levels;
      balanced = h.balanced;
      height = h.height;
      stairs = h.stairs;
    } in
    elim (Bool-cases (is_blank_or_comment trimmed)) [
      | inl e ↦ rw e h'
      | inr e ↦ elim (Bool-cases (trim_space (strip_comment trimmed) == [])) [
        | inl f ↦ rw (e, f) h'
        | inr f ↦ rw (e, f) (lex_content-IsNested file i (strip_comment trimmed) line l' h')
      ]
    ]

lex_lines-IsNested :
    (fuel : ℕ) (file : Str) (i : ℕ) (l : Lexer) → IsNested l → IsNested (lex_lines fuel file i l)
unfolding lex_lines
lex_lines-IsNested zero file i l h = h
lex_lines-IsNested (suc fuel) file i l h = elim (Bool-cases (ltb i (length l.lines))) [
  | inr e ↦ rw e h
  | inl e ↦ rw e (
      lex_lines-IsNested fuel file (lex_one_line file i l).0 (lex_one_line file i l).1
        (lex_one_line-IsNested file i l h))
]

-- The tokens of a text: each indentation that is opened is closed, none is closed that is not open, the stack
-- is back at the margin, and an end of file stands last.
pub new_lexer-balanced :
    (input file : Str)
    → (depth_after (some 0) (new_lexer input file).tokens ≡ some 0)
      × ((new_lexer input file).indent_stack ≡ 0 ∷ [])
      × ((ts : List LexToken) × (t : LexToken) × ((new_lexer input file).tokens ≡ ts ++ t ∷ [])
          × (t.type ≡ token_eof))
unfolding new_lexer lex emit_remaining_outdents
new_lexer-balanced input file =
    let l : Lexer = record {
      lines = split b'\n' input;
      line = 1;
      indent_stack = 0 ∷ [];
      tokens = [];
      token_idx = 0;
    } in
    let start : IsNested l = record {
      open_levels = 0;
      balanced = refl;
      height = refl;
      stairs = refl;
    } in
    let l' = lex_lines (length l.lines) file 0 l in
    let (h, margin) =
      pop_remaining-IsNested (token_at token_outdent [] file l'.line 1) l'.indent_stack l' refl refl
        (lex_lines-IsNested (length l.lines) file 0 l start) in
    let last = pop_remaining (token_at token_outdent [] file l'.line 1) l'.indent_stack l' in
    let closed : h.open_levels ≡ 0 = omega (arith, h.height, ap length margin) in
    (
      emitted (token_at token_eof [] file last.line 1) last (h.balanced ∙ ap some closed) refl,
      margin,
      (last.tokens, token_at token_eof [] file last.line 1, refl, refl),
    )
