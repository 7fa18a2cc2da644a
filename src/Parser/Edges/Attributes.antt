-- ===== src/Parser/Edges/Attributes.antt =====
-- Which edge is read from the tokens of its attributes.
use dippin_lang.Base.{
  Str, ℕ, zero, suc, ◌≤◌, List, [], ◌∷◌, ◌++◌, ◌≡◌, inl, inr, refl, ap, ◌∙◌, arith, true, false,
  length, length-append, contains, trim_space, bytes, ◌==◌, All, Bool-cases, some, none, ℤ,
}
use mathlib.Core.List.{append_assoc}
use dippin_lang.Ir.{Edge, Condition}
use dippin_lang.Ir.Lookup.{plain_edge}
use dippin_lang.Parser.Lexer.Line.{token_newline, token_colon, token_arrow, token_lbracket}
use dippin_lang.Parser.Lexer.{LexToken}
use dippin_lang.Parser.Edges.{
  EdgeParser, peek, has_type, expect, ends_line, edge_attr_keywords, format_condition_token,
  condition_parts, join_words, atoi, parse_int, apply_edge_attribute, attributes_loop,
  parse_edge_attributes, parse_single_edge,
}

abbrev pub formats : List LexToken → List Str
formats [] = []
formats (t ∷ ts) = format_condition_token t ∷ formats ts

-- A token that goes on with a condition.
abbrev pub InCondition : LexToken → Type 0
InCondition t = (ends_line t ≡ false) × (contains edge_attr_keywords t.value ≡ false)

-- No token, or the keyword of an attribute.
abbrev pub OpensAttribute : List LexToken → Type 0
OpensAttribute [] = Unit
OpensAttribute (t ∷ ts) = contains edge_attr_keywords t.value ≡ true

abbrev pub condition_of : List LexToken → Condition
condition_of words = record { raw = trim_space (join_words (formats words)); parsed = none }

-- The keyword of an attribute, which neither ends the line nor is a bracket.
pub record IsKeyword (word : Str) (key : LexToken) : Type 0 where
  pub spelled : key.value ≡ word
  pub inside : ends_line key ≡ false
  pub bare : has_type token_lbracket key ≡ false

-- The tokens are attributes that make the second edge of the first.
pub data Writes : Edge → List LexToken → Edge → Type 0 where
  plain : {e : Edge} → Writes e [] e
  label :
      {e e' : Edge} {key colon v : LexToken} {ts : List LexToken}
      → IsKeyword (bytes "label") key
      → has_type token_colon colon ≡ true
      → Writes (record e { label = v.value }) ts e'
      → Writes e (key ∷ colon ∷ v ∷ ts) e'
  weight :
      {e e' : Edge} {key colon v : LexToken} {ts : List LexToken} {n : ℤ}
      → IsKeyword (bytes "weight") key
      → has_type token_colon colon ≡ true
      → atoi v.value ≡ (n, true)
      → Writes (record e { weight = n }) ts e'
      → Writes e (key ∷ colon ∷ v ∷ ts) e'
  restart :
      {e e' : Edge} {key colon v : LexToken} {ts : List LexToken}
      → IsKeyword (bytes "restart") key
      → has_type token_colon colon ≡ true
      → Writes (record e { restart = v.value == bytes "true" }) ts e'
      → Writes e (key ∷ colon ∷ v ∷ ts) e'
  when :
      {e e' : Edge} {key : LexToken} (words ts : List LexToken)
      → IsKeyword (bytes "when") key
      → All InCondition words
      → OpensAttribute ts
      → Writes (record e { condition = some (condition_of words) }) ts e'
      → Writes e (key ∷ words ++ ts) e'

condition_parts-append :
    (words s : List LexToken)
    → All InCondition words
    → condition_parts s ≡ ([], s)
    → condition_parts (words ++ s) ≡ (formats words, s)
unfolding condition_parts
condition_parts-append [] s h stops = stops
condition_parts-append (t ∷ ts) s h stops =
    rw (h.0.0, h.0.1, condition_parts-append ts s h.1 stops) refl

opens_stop :
    (ts : List LexToken) (nl : LexToken) (rest : List LexToken)
    → OpensAttribute ts
    → ends_line nl ≡ true
    → condition_parts (ts ++ nl ∷ rest) ≡ ([], ts ++ nl ∷ rest)
unfolding condition_parts
opens_stop [] nl rest h ends = rw ends refl
opens_stop (t ∷ ts) nl rest h ends = elim (Bool-cases (ends_line t)) [
  | inl e ↦ rw e refl
  | inr e ↦ rw (e, h) refl
]

module _ (p : EdgeParser) where
  abbrev left : List LexToken → EdgeParser
  left s = record p { stream = s }

  apply_label :
      (e : Edge) (colon v : LexToken) (s : List LexToken)
      → has_type token_colon colon ≡ true
      → apply_edge_attribute (bytes "label") e (left (colon ∷ v ∷ s))
        ≡ (record e { label = v.value }, left s)
  unfolding apply_edge_attribute expect ◌==◌
  apply_label e colon v s h = rw h refl

  apply_restart :
      (e : Edge) (colon v : LexToken) (s : List LexToken)
      → has_type token_colon colon ≡ true
      → apply_edge_attribute (bytes "restart") e (left (colon ∷ v ∷ s))
        ≡ (record e { restart = v.value == bytes "true" }, left s)
  unfolding apply_edge_attribute expect ◌==◌
  apply_restart e colon v s h = rw h refl

  apply_weight :
      (e : Edge) (colon v : LexToken) (n : ℤ) (s : List LexToken)
      → has_type token_colon colon ≡ true
      → atoi v.value ≡ (n, true)
      → apply_edge_attribute (bytes "weight") e (left (colon ∷ v ∷ s))
        ≡ (record e { weight = n }, left s)
  unfolding apply_edge_attribute expect ◌==◌ parse_int
  apply_weight e colon v n s h sound = rw (h, sound) refl

  apply_when :
      (e : Edge) (words s : List LexToken)
      → condition_parts (words ++ s) ≡ (formats words, s)
      → apply_edge_attribute (bytes "when") e (left (words ++ s))
        ≡ (record e { condition = some (condition_of words) }, left s)
  unfolding apply_edge_attribute ◌==◌
  apply_when e words s h = rw h refl

  loop_ends :
      (fuel : ℕ) (e : Edge) (nl : LexToken) (rest : List LexToken)
      → ends_line nl ≡ true
      → attributes_loop fuel e (left (nl ∷ rest)) ≡ (e, left (nl ∷ rest))
  unfolding attributes_loop
  loop_ends zero e nl rest h = refl
  loop_ends (suc fuel) e nl rest h = rw h refl

  loop_goes_on :
      (fuel : ℕ) (e e1 : Edge) (key : LexToken) (word : Str) (s s1 : List LexToken)
      → IsKeyword word key
      → apply_edge_attribute word e (left s) ≡ (e1, left s1)
      → attributes_loop (suc fuel) e (left (key ∷ s)) ≡ attributes_loop fuel e1 (left s1)
  unfolding attributes_loop
  loop_goes_on fuel e e1 key word s s1 k h = rw (k.spelled, k.inside, h) refl

  loop_Writes :
      (fuel : ℕ) (nl : LexToken) (rest : List LexToken) {e e' : Edge} {ts : List LexToken}
      → Writes e ts e'
      → length ts ≤ fuel
      → ends_line nl ≡ true
      → attributes_loop fuel e (left (ts ++ nl ∷ rest)) ≡ (e', left (nl ∷ rest))
  loop_Writes fuel nl rest {e} plain size ends = loop_ends fuel e nl rest ends
  loop_Writes zero nl rest (label k colon w) size ends = absurd (omega (arith, size))
  loop_Writes zero nl rest (weight k colon sound w) size ends = absurd (omega (arith, size))
  loop_Writes zero nl rest (restart k colon w) size ends = absurd (omega (arith, size))
  loop_Writes zero nl rest (when words ts k inside opens w) size ends = absurd (omega (arith, size))
  loop_Writes (suc fuel) nl rest {e} (label {key} {colon} {v} {ts} k h w) size ends =
      loop_goes_on fuel e _ key (bytes "label") _ _ k (apply_label e colon v (ts ++ nl ∷ rest) h)
      ∙ loop_Writes fuel nl rest w (omega (arith, size)) ends
  loop_Writes (suc fuel) nl rest {e} (weight {key} {colon} {v} {ts} {n} k h sound w) size ends =
      loop_goes_on fuel e _ key (bytes "weight") _ _ k
        (apply_weight e colon v n (ts ++ nl ∷ rest) h sound)
      ∙ loop_Writes fuel nl rest w (omega (arith, size)) ends
  loop_Writes (suc fuel) nl rest {e} (restart {key} {colon} {v} {ts} k h w) size ends =
      loop_goes_on fuel e _ key (bytes "restart") _ _ k
        (apply_restart e colon v (ts ++ nl ∷ rest) h)
      ∙ loop_Writes fuel nl rest w (omega (arith, size)) ends
  loop_Writes (suc fuel) nl rest {e} (when {key} words ts k inside opens w) size ends =
      let parts =
        condition_parts-append words (ts ++ nl ∷ rest) inside (opens_stop ts nl rest opens ends) in
      let sum = length-append words ts in
      ap (λ s. attributes_loop (suc fuel) e (left (key ∷ s))) (append_assoc words ts (nl ∷ rest))
      ∙ loop_goes_on fuel e _ key (bytes "when") _ _ k (apply_when e words (ts ++ nl ∷ rest) parts)
      ∙ loop_Writes fuel nl rest w (omega (arith, size, sum)) ends

newline-bare :
    (nl : LexToken)
    → has_type token_newline nl ≡ true
    → (has_type token_lbracket nl ≡ false) × (ends_line nl ≡ true)
newline-bare nl h = (ground (arith, h), ground (arith, h))

first_bare :
    (p : EdgeParser) (nl : LexToken) (rest : List LexToken) {e e' : Edge} {ts : List LexToken}
    → Writes e ts e'
    → has_type token_newline nl ≡ true
    → has_type token_lbracket (peek (record p { stream = ts ++ nl ∷ rest })) ≡ false
first_bare p nl rest plain h = (newline-bare nl h).0
first_bare p nl rest (label k colon w) h = k.bare
first_bare p nl rest (weight k colon sound w) h = k.bare
first_bare p nl rest (restart k colon w) h = k.bare
first_bare p nl rest (when words ts k inside opens w) h = k.bare

attributes-Writes :
    (p : EdgeParser) (nl : LexToken) (rest : List LexToken) {e e' : Edge} {ts : List LexToken}
    → Writes e ts e'
    → has_type token_newline nl ≡ true
    → parse_edge_attributes e (record p { stream = ts ++ nl ∷ rest })
      ≡ (e', record p { stream = nl ∷ rest })
unfolding parse_edge_attributes
attributes-Writes p nl rest {ts = ts} w h =
    let size = length-append ts (nl ∷ rest) in
    rw (first_bare p nl rest w h) (
      loop_Writes p (length (ts ++ nl ∷ rest)) nl rest w (omega (arith, size))
        (newline-bare nl h).1)

-- A line of an edge is its ends with an arrow, attributes that write it, and a newline. The parser adds that
-- edge, reports nothing, and goes on behind the line.
pub parse_single_edge-Writes :
    (p : EdgeParser) (from arrow to nl : LexToken) (ts rest : List LexToken) (e : Edge)
    → has_type token_arrow arrow ≡ true
    → has_type token_newline nl ≡ true
    → Writes (plain_edge from.value to.value) ts e
    → parse_single_edge (record p { stream = from ∷ arrow ∷ to ∷ ts ++ nl ∷ rest })
      ≡ record p { stream = rest; edges = p.edges ++ e ∷ [] }
unfolding parse_single_edge expect
parse_single_edge-Writes p from arrow to nl ts rest e arrows newline w =
    rw (arrows, attributes-Writes p nl rest w newline, newline) refl
