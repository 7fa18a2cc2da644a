-- ===== src/Parser/Edges/Fuel.antt =====
-- Every round of the parser of edges takes a token or more: the fuel is enough.
use dippin_lang.Base.{
  Str, ℕ, zero, suc, ◌≤◌, ◌<◌, List, [], ◌∷◌, ◌≡◌, inl, inr, refl, arith, Bool, true, false, ◌||◌,
  length, bytes, ◌==◌, Bool-cases,
}
use dippin_lang.Ir.{Edge, SourceLocation}
use dippin_lang.Ir.Lookup.{plain_edge}
use dippin_lang.Parser.Lexer.Line.{
  TokenType, token_newline, token_eof, token_colon, token_arrow, token_lbracket, token_outdent,
}
use dippin_lang.Parser.Lexer.{LexToken}
use dippin_lang.Parser.Edges.{
  Parsed, EdgeParser, peek, peek_of, skip, tail_of, has_type, expect, ends_line, drop_line,
  emit_bracket_syntax_error, condition_parts, with_weight, atoi, parse_int, apply_edge_attribute,
  attributes_loop, parse_edge_attributes, parse_single_edge, parse_edges_body,
}

-- The second parser has no more tokens left than the first.
record Within (n : ℕ) (q : EdgeParser) : Type 0 where
  fits : length q.stream ≤ n

tail-le : (ts : List LexToken) → length (tail_of ts) ≤ length ts
tail-le [] = omega arith
tail-le (t ∷ ts) = omega arith

drop_line-le : (ts : List LexToken) → length (drop_line ts) ≤ length ts
unfolding drop_line
drop_line-le [] = omega arith
drop_line-le (t ∷ ts) = ground (arith, drop_line-le ts)

condition-le : (ts : List LexToken) → length (condition_parts ts).1 ≤ length ts
unfolding condition_parts
condition-le [] = omega arith
condition-le (t ∷ ts) = ground (arith, condition-le ts)

abbrev skip-Within : {n : ℕ} (p : EdgeParser) → Within n p → Within n (skip p)
skip-Within p h = record { fits = omega (arith, h.fits, tail-le p.stream) }

expect-Within : {n : ℕ} (type : TokenType) (p : EdgeParser) → Within n p → Within n (expect type p)
unfolding expect
expect-Within type p h = elim (Bool-cases (has_type type (peek p))) [
  | inl e ↦ rw e (skip-Within p h)
  | inr e ↦ rw e (record { fits = omega (arith, h.fits, tail-le p.stream) })
]

parse_int-Within :
    {n : ℕ} (e : Edge) (t : LexToken) (p : EdgeParser)
    → Within n p
    → Within n (with_weight e (parse_int t.value (bytes "weight") t.location p)).1
unfolding parse_int
parse_int-Within e t p h = elim (Bool-cases (atoi t.value).1) [
  | inl s ↦ rw s h
  | inr s ↦ rw s (record { fits = h.fits })
]

apply-Within :
    {n : ℕ} (attr : Str) (e : Edge) (p : EdgeParser)
    → Within n p
    → Within n (apply_edge_attribute attr e p).1
unfolding apply_edge_attribute
apply-Within attr e p h =
    let q = expect token_colon p in
    let after : Within _ (skip q) = skip-Within q (expect-Within token_colon p h) in
    elim (Bool-cases (attr == bytes "when")) [
      | inl a ↦ rw a (record { fits = omega (arith, h.fits, condition-le p.stream) })
      | inr a ↦ elim (Bool-cases (attr == bytes "label")) [
        | inl b ↦ rw (a, b) after
        | inr b ↦ elim (Bool-cases (attr == bytes "weight")) [
          | inl c ↦ rw (a, b, c) (parse_int-Within e (peek q) (skip q) after)
          | inr c ↦ elim (Bool-cases (attr == bytes "restart")) [
            | inl d ↦ rw (a, b, c, d) after
            | inr d ↦ rw (a, b, c, d) h
          ]
        ]
      ]
    ]

loop-Within :
    {n : ℕ} (fuel : ℕ) (e : Edge) (p : EdgeParser)
    → Within n p
    → Within n (attributes_loop fuel e p).1
unfolding attributes_loop
loop-Within zero e p h = h
loop-Within (suc fuel) e p h = elim (Bool-cases (ends_line (peek p))) [
  | inl s ↦ rw s h
  | inr s ↦
      let next = apply_edge_attribute (peek p).value e (skip p) in
      rw s
        (loop-Within fuel next.0 next.1 (apply-Within (peek p).value e (skip p) (skip-Within p h)))
]

attributes-Within :
    {n : ℕ} (e : Edge) (p : EdgeParser) → Within n p → Within n (parse_edge_attributes e p).1
unfolding parse_edge_attributes emit_bracket_syntax_error
attributes-Within e p h = elim (Bool-cases (has_type token_lbracket (peek p))) [
  | inl s ↦
      rw s
        (record { fits = omega (arith, h.fits, tail-le p.stream, drop_line-le (tail_of p.stream)) })
  | inr s ↦ rw s (loop-Within (length p.stream) e p h)
]

single-Within : {n : ℕ} (p : EdgeParser) → Within n (skip p) → Within n (parse_single_edge p)
unfolding parse_single_edge
single-Within p h =
    let q = expect token_arrow (skip p) in
    let read =
      attributes-Within (plain_edge (peek p).value (peek q).value) (skip q)
        (skip-Within q (expect-Within token_arrow (skip p) h)) in
    expect-Within token_newline _ (record { fits = read.fits })

eof-peek :
    (location : SourceLocation) (ts : List LexToken)
    → length ts ≤ 0
    → has_type token_eof (peek_of location ts) ≡ true
eof-peek location [] h = refl
eof-peek location (t ∷ ts) h = absurd (omega (arith, h))

tail-lt :
    (location : SourceLocation) (ts : List LexToken)
    → has_type token_eof (peek_of location ts) ≡ false
    → length (tail_of ts) < length ts
tail-lt location [] h = cc
tail-lt location (t ∷ ts) h = omega arith

-- The block of edges ends, or the file does.
abbrev pub ends_block : LexToken → Bool
ends_block t = has_type token_outdent t || has_type token_eof t

-- The loop of parseEdgesBody as the code runs it, without fuel.
pub data ParsesBody : EdgeParser → EdgeParser → Type 0 where
  block_end : {p : EdgeParser} → ends_block (peek p) ≡ true → ParsesBody p p
  empty_line :
      {p q : EdgeParser}
      → ends_block (peek p) ≡ false
      → has_type token_newline (peek p) ≡ true
      → ParsesBody (skip p) q
      → ParsesBody p q
  edge :
      {p q : EdgeParser}
      → ends_block (peek p) ≡ false
      → has_type token_newline (peek p) ≡ false
      → ParsesBody (parse_single_edge p) q
      → ParsesBody p q

-- The loop of parseEdgeAttributes.
pub data ReadsAttributes : Edge → EdgeParser → Parsed → Type 0 where
  line_end : {e : Edge} {p : EdgeParser} → ends_line (peek p) ≡ true → ReadsAttributes e p (e, p)
  attribute :
      {e : Edge} {p : EdgeParser} {r : Parsed}
      → ends_line (peek p) ≡ false
      → ReadsAttributes
          (apply_edge_attribute (peek p).value e (skip p)).0
          (apply_edge_attribute (peek p).value e (skip p)).1
          r
      → ReadsAttributes e p r

taken-Within :
    {n : ℕ} (p : EdgeParser)
    → length p.stream ≤ suc n
    → has_type token_eof (peek p) ≡ false
    → Within n (skip p)
taken-Within p h inside = record { fits = omega (arith, h, tail-lt p.end_location p.stream inside) }

body_end :
    (fuel : ℕ) (p : EdgeParser) → length p.stream ≤ fuel → ParsesBody p (parse_edges_body fuel p)
unfolding parse_edges_body
body_end zero p h = block_end (let eof = eof-peek p.end_location p.stream h in ground (arith, eof))
body_end (suc fuel) p h = elim (Bool-cases (ends_block (peek p))) [
  | inl e ↦ rw e (block_end e)
  | inr e ↦
      let taken : Within fuel (skip p) = taken-Within p h (ground (arith, e)) in
      elim (Bool-cases (has_type token_newline (peek p))) [
        | inl f ↦ empty_line e f (rw (e, f) (body_end fuel (skip p) taken.fits))
        | inr f ↦
            edge e f (rw (e, f) (body_end fuel (parse_single_edge p) (single-Within p taken).fits))
      ]
]

attributes_end :
    (fuel : ℕ) (e : Edge) (p : EdgeParser)
    → length p.stream ≤ fuel
    → ReadsAttributes e p (attributes_loop fuel e p)
unfolding attributes_loop
attributes_end zero e p h =
    line_end (let eof = eof-peek p.end_location p.stream h in ground (arith, eof))
attributes_end (suc fuel) e p h = elim (Bool-cases (ends_line (peek p))) [
  | inl f ↦ rw f (line_end f)
  | inr f ↦
      let taken : Within fuel (skip p) = taken-Within p h (ground (arith, f)) in
      let next = apply_edge_attribute (peek p).value e (skip p) in
      attribute f (
        rw f
          (attributes_end fuel next.0 next.1 (apply-Within (peek p).value e (skip p) taken).fits))
]

-- The loops of the parser of edges end: the rounds of the loop over a block, as the code runs it without fuel,
-- lead from the parser to the end of the block or of the file and to the parser that the model computes, and
-- so do the rounds of the loop over the attributes of an edge, to the end of the line.
pub edge_loops_end :
    (p : EdgeParser)
    → ParsesBody p (parse_edges_body (length p.stream) p)
      × ((e : Edge) → ReadsAttributes e p (attributes_loop (length p.stream) e p))
edge_loops_end p = (
  body_end (length p.stream) p (omega arith),
  λ e. attributes_end (length p.stream) e p (omega arith),
)
