-- ===== src/Parser/Lexer/Progress.antt =====
-- Every round of the lexer's loops gets further: the fuel is enough.
use dippin_lang.Base.{
  Str, ℕ, zero, suc, ◌+◌, ◌≤◌, ◌<◌, List, [], ◌∷◌, ◌≡◌, inl, inr, refl, ap, ◌∙◌, arith, ltb, leb,
  length, drop, Bool-cases, Option-cases, Option, none, some, trim_space, ◌==◌,
}
use dippin_lang.Parser.Lexer.Line.{
  is_space_byte, lex_one_token, line_indent, strip_comment, trim_right, is_blank_or_comment,
  is_key_colon_line,
}
use dippin_lang.Parser.Lexer.Taken.{LexesRest, lex_rest_ends}
use dippin_lang.Parser.Lexer.{
  LexToken, Lexer, current_indent, emit_outdents, emit_indent_tokens, lex_rest, lex_line, line_at,
  find_next_content_line, find_block_end, try_collect_block, emit_key, or_end_line,
  lex_key_colon_block, lex_content, lex_one_line, lex_lines,
}

next_content-le : (rest : List Str) (idx : ℕ) → idx ≤ find_next_content_line rest idx
unfolding find_next_content_line
next_content-le [] idx = omega arith
next_content-le (nl ∷ rest) idx = ground (arith, next_content-le rest (suc idx))

block_end-le : (rest : List Str) (indent start : ℕ) → start ≤ find_block_end rest indent start
unfolding find_block_end
block_end-le [] indent start = omega arith
block_end-le (bl ∷ rest) indent start = ground (arith, block_end-le rest indent (suc start))

emit_outdents-lines :
    (t : LexToken) (indent : ℕ) (stack : List ℕ) (l : Lexer)
    → (emit_outdents t indent stack l).lines ≡ l.lines
unfolding emit_outdents
emit_outdents-lines t indent [] l = refl
emit_outdents-lines t indent (top ∷ []) l = refl
emit_outdents-lines t indent (top ∷ next ∷ rest) l = elim (Bool-cases (ltb indent top)) [
  | inr e ↦ rw e refl
  | inl e ↦ rw e (emit_outdents-lines t indent (next ∷ rest) _)
]

emit_indent_tokens-lines :
    (file : Str) (indent : ℕ) (l : Lexer) → (emit_indent_tokens file indent l).lines ≡ l.lines
unfolding emit_indent_tokens
emit_indent_tokens-lines file indent l =
    elim (Bool-cases (ltb (current_indent l.indent_stack) indent)) [
      | inl e ↦ rw e refl
      | inr e ↦ rw e (emit_outdents-lines _ indent l.indent_stack l)
    ]

-- The second lexer has the lines of the first.
record SameLines (l k : Lexer) : Type 0 where
  same : k.lines ≡ l.lines

lex_rest-SameLines :
    (fuel : ℕ) (file : Str) (offset i : ℕ) (s : Str) (l k : Lexer)
    → SameLines l k
    → SameLines l (lex_rest fuel file offset i s k)
unfolding lex_rest
lex_rest-SameLines zero file offset i s l k h = h
lex_rest-SameLines (suc fuel) file offset i [] l k h = h
lex_rest-SameLines (suc fuel) file offset i (c ∷ s) l k h = elim (Bool-cases (is_space_byte c)) [
  | inl e ↦ rw e (lex_rest-SameLines fuel file offset (i + 1) s l k h)
  | inr e ↦ elim (Option-cases (lex_one_token (c ∷ s))) [
    | inl f ↦ rw (e, f) (lex_rest-SameLines fuel file offset (i + 1) s l k h)
    | inr (t, f) ↦
        rw (e, f)
          (lex_rest-SameLines fuel file offset (i + t.size) (drop t.size (c ∷ s)) l _
            (record { same = h.same }))
  ]
]

-- The next line is a later one, of the same lines.
pub record Advances (i : ℕ) (l : Lexer) (r : ℕ × Lexer) : Type 0 where
  pub further : i < r.0
  pub same : r.1.lines ≡ l.lines

abbrev CollectsLater : ℕ → Lexer → Option (ℕ × Lexer) → Type 0
CollectsLater i l none = Unit
CollectsLater i l (some r) = Advances i l r

try_collect_block-CollectsLater :
    (file : Str) (i indent : ℕ) (l : Lexer) → CollectsLater i l (try_collect_block file i indent l)
unfolding try_collect_block
try_collect_block-CollectsLater file i indent l =
    let next = find_next_content_line (drop (suc i) l.lines) (suc i) in
    let later = next_content-le (drop (suc i) l.lines) (suc i) in
    let behind = block_end-le (drop next l.lines) indent next in
    elim (Bool-cases (leb (length l.lines) next)) [
      | inl e ↦ rw e tt
      | inr e ↦ elim (Bool-cases (leb (line_indent (line_at l.lines next)) indent)) [
        | inl f ↦ rw (e, f) tt
        | inr f ↦ rw (e, f) (record { further = omega (arith, later, behind); same = refl })
      ]
    ]

or_end_line-Advances :
    (file : Str) (i : ℕ) (line : Str) (l : Lexer) (collected : Option (ℕ × Lexer))
    → CollectsLater i l collected
    → Advances i l (or_end_line file i line l collected)
or_end_line-Advances file i line l none c = record { further = omega arith; same = refl }
or_end_line-Advances file i line l (some r) c = c

key_colon-Advances :
    (file : Str) (i indent : ℕ) (content line : Str) (l : Lexer)
    → Advances i l (lex_key_colon_block file i indent content line l)
unfolding lex_key_colon_block emit_key
key_colon-Advances file i indent content line l =
    let l' = emit_key file indent content l in
    let a =
      or_end_line-Advances file i line l' (try_collect_block file i indent l')
        (try_collect_block-CollectsLater file i indent l') in
    record { further = a.further; same = a.same }

lex_content-Advances :
    (file : Str) (i : ℕ) (trimmed line : Str) (l : Lexer)
    → Advances i l (lex_content file i trimmed line l)
unfolding lex_content lex_line
lex_content-Advances file i trimmed line l =
    let indent = line_indent trimmed in
    let content = drop indent trimmed in
    let l' = emit_indent_tokens file indent l in
    let kept = emit_indent_tokens-lines file indent l in
    elim (Bool-cases (is_key_colon_line content)) [
      | inl e ↦
          let a = key_colon-Advances file i indent content line l' in
          rw e (record { further = a.further; same = a.same ∙ kept })
      | inr e ↦ rw e (record {
        further = omega arith;
        same =
            (lex_rest-SameLines (length content) file (1 + current_indent l'.indent_stack) 0 content
              l' l' (record { same = refl })).same
            ∙ kept;
      })
    ]

pub lex_one_line-Advances : (file : Str) (i : ℕ) (l : Lexer) → Advances i l (lex_one_line file i l)
unfolding lex_one_line
lex_one_line-Advances file i l =
    let line = line_at l.lines i in
    let trimmed = trim_right line in
    let l' = record l { line = suc i } in
    elim (Bool-cases (is_blank_or_comment trimmed)) [
      | inl e ↦ rw e (record { further = omega arith; same = refl })
      | inr e ↦ elim (Bool-cases (trim_space (strip_comment trimmed) == [])) [
        | inl f ↦ rw (e, f) (record { further = omega arith; same = refl })
        | inr f ↦
            let a = lex_content-Advances file i (strip_comment trimmed) line l' in
            rw (e, f) (record { further = a.further; same = a.same })
      ]
    ]

-- The loop over the lines as the code runs it, without fuel: from a line and a lexer to the lexer at its end.
pub data LexesLines (file : Str) : ℕ → Lexer → Lexer → Type 0 where
  text_end : {i : ℕ} {l : Lexer} → length l.lines ≤ i → LexesLines file i l l
  line :
      {i : ℕ} {l k : Lexer}
      → i < length l.lines
      → LexesLines file (lex_one_line file i l).0 (lex_one_line file i l).1 k
      → LexesLines file i l k

lex_lines_end :
    (fuel : ℕ) (file : Str) (i : ℕ) (l : Lexer)
    → length l.lines ≤ fuel + i
    → LexesLines file i l (lex_lines fuel file i l)
unfolding lex_lines
lex_lines_end zero file i l h = text_end (omega (arith, h))
lex_lines_end (suc fuel) file i l h = elim (Bool-cases (ltb i (length l.lines))) [
  | inr e ↦ rw e (text_end (ground (arith, e)))
  | inl e ↦
      let a = lex_one_line-Advances file i l in
      let size = ap (λ (ls : List Str). length ls) a.same in
      line (ground (arith, e)) (
        rw e (
          lex_lines_end fuel file (lex_one_line file i l).0 (lex_one_line file i l).1
            (omega (arith, h, a.further, size))))
]

-- The loops of the lexer end: the rounds of the loop over the lines, as the code runs it without fuel, lead
-- from the first line to the end of the text and to the lexer that the model computes, and so do the rounds of
-- the loop along any line, from its first byte to its end.
pub lex_loops_end :
    (file : Str) (l : Lexer)
    → LexesLines file 0 l (lex_lines (length l.lines) file 0 l)
      × ((line : Str) (k : Lexer)
          → LexesRest file (1 + current_indent k.indent_stack) 0 line k (lex_line file line k))
unfolding lex_line
lex_loops_end file l = (
  lex_lines_end (length l.lines) file 0 l (omega arith),
  λ line k.
      lex_rest_ends (length line) file (1 + current_indent k.indent_stack) 0 line k (omega arith),
)
