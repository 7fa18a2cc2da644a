-- ===== src/Parser/Lexer/Stack.antt =====
-- The indentations that are open, and the tokens that open and close them.
use dippin_lang.Base.{
  Str, ℕ, suc, ◌<◌, List, [], ◌∷◌, ◌++◌, ◌≡◌, inl, inr, refl, sym, ap, subst, ◌∙◌, arith, ltb,
  length, Bool-cases, some,
}
use dippin_lang.Parser.Lexer.Line.{token_indent, token_outdent}
use dippin_lang.Parser.Lexer.{
  LexToken, Lexer, token_at, emit, current_indent, emit_outdents, emit_indent_tokens, pop_remaining,
}
use dippin_lang.Parser.Lexer.Levels.{
  level_after, depth_after, depth_after-append, IsNeutral, neutral,
}

-- Indentations that grow from 0 at the bottom of the stack.
abbrev pub IsStairs : List ℕ → Type 0
IsStairs [] = ⊥
IsStairs (x ∷ []) = x ≡ 0
IsStairs (x ∷ y ∷ rest) = (y < x) × IsStairs (y ∷ rest)

pub record IsNested (l : Lexer) : Type 0 where
  pub open_levels : ℕ
  pub balanced : depth_after (some 0) l.tokens ≡ some open_levels
  pub height : length l.indent_stack ≡ suc open_levels
  pub stairs : IsStairs l.indent_stack

pub emitted :
    (t : LexToken) (l : Lexer) {d e : ℕ}
    → depth_after (some 0) l.tokens ≡ some d
    → level_after t.type (some d) ≡ some e
    → depth_after (some 0) (l.tokens ++ t ∷ []) ≡ some e
emitted t l h k = depth_after-append (some 0) l.tokens t ∙ ap (level_after t.type) h ∙ k

abbrev pub emit-IsNested :
    (t : LexToken) (l : Lexer) → IsNeutral t.type → IsNested l → IsNested (emit t l)
emit-IsNested t l neutral h = record {
  open_levels = h.open_levels;
  balanced = emitted t l h.balanced (neutral h.open_levels);
  height = h.height;
  stairs = h.stairs;
}

IsStairs-push : (x : ℕ) (xs : List ℕ) → current_indent xs < x → IsStairs xs → IsStairs (x ∷ xs)
IsStairs-push x [] deeper h = absurd h
IsStairs-push x (y ∷ ys) deeper h = (deeper, h)

-- An indentation is opened beyond the top.
open-IsNested :
    (file : Str) (indent : ℕ) (l : Lexer)
    → current_indent l.indent_stack < indent
    → IsNested l
    → IsNested (
        emit
          (token_at token_indent [] file l.line 1)
          (record l { indent_stack = indent ∷ l.indent_stack }))
open-IsNested file indent l deeper h = record {
  open_levels = suc h.open_levels;
  balanced = emitted (token_at token_indent [] file l.line 1) l h.balanced refl;
  height = ap suc h.height;
  stairs = IsStairs-push indent l.indent_stack deeper h.stairs;
}

pop-IsNested :
    (t : LexToken) (l : Lexer) (top next : ℕ) (rest : List ℕ)
    → t.type ≡ token_outdent
    → l.indent_stack ≡ top ∷ next ∷ rest
    → IsNested l
    → IsNested (emit t (record l { indent_stack = next ∷ rest }))
pop-IsNested t l top next rest out stack h =
    let higher : suc (suc (length rest)) ≡ suc h.open_levels = sym (ap length stack) ∙ h.height in
    let level : h.open_levels ≡ suc (length rest) = omega (arith, higher) in
    record {
      open_levels = length rest;
      balanced =
          emitted t l (h.balanced ∙ ap some level)
            (ap (λ x. level_after x (some (suc (length rest)))) out);
      height = refl;
      stairs = (subst IsStairs stack h.stairs).1;
    }

emit_outdents-IsNested :
    (t : LexToken) (indent : ℕ) (stack : List ℕ) (l : Lexer)
    → t.type ≡ token_outdent
    → l.indent_stack ≡ stack
    → IsNested l
    → IsNested (emit_outdents t indent stack l)
unfolding emit_outdents
emit_outdents-IsNested t indent [] l out same h = h
emit_outdents-IsNested t indent (top ∷ []) l out same h = h
emit_outdents-IsNested t indent (top ∷ next ∷ rest) l out same h =
    elim (Bool-cases (ltb indent top)) [
      | inr e ↦ rw e h
      | inl e ↦ rw e (
          emit_outdents-IsNested t indent (next ∷ rest) _ out refl
            (pop-IsNested t l top next rest out same h))
    ]

pub emit_indent_tokens-IsNested :
    (file : Str) (indent : ℕ) (l : Lexer) → IsNested l → IsNested (emit_indent_tokens file indent l)
unfolding emit_indent_tokens
emit_indent_tokens-IsNested file indent l h =
    elim (Bool-cases (ltb (current_indent l.indent_stack) indent)) [
      | inl e ↦ rw e (open-IsNested file indent l (ground (arith, e)) h)
      | inr e ↦ rw e (
          emit_outdents-IsNested (token_at token_outdent [] file l.line 1) indent l.indent_stack l
            refl refl h)
    ]

-- At the end one indentation is left, the one of the margin.
pub pop_remaining-IsNested :
    (t : LexToken) (stack : List ℕ) (l : Lexer)
    → t.type ≡ token_outdent
    → l.indent_stack ≡ stack
    → IsNested l
    → IsNested (pop_remaining t stack l) × ((pop_remaining t stack l).indent_stack ≡ 0 ∷ [])
unfolding pop_remaining
pop_remaining-IsNested t [] l out same h = absurd (subst IsStairs same h.stairs)
pop_remaining-IsNested t (top ∷ []) l out same h =
    (h, same ∙ ap (λ x. x ∷ []) (subst IsStairs same h.stairs))
pop_remaining-IsNested t (top ∷ next ∷ rest) l out same h =
    pop_remaining-IsNested t (next ∷ rest) _ out refl (pop-IsNested t l top next rest out same h)
