-- ===== src/Condition/Parse.antt =====
-- ParseCondition of simulate/condition.go: recursive descent over the tokens that remain. Reading
-- past the end gives the empty token, as `peek` does.
use dippin_lang.Base.{
  Str, ℕ, zero, suc, ◌-◌, List, [], ◌∷◌, Bool, true, false, ◌||◌, length, if◌then◌else◌, bytes,
  ◌==◌,
}
use dippin_lang.Ir.{ConditionExpr, cond_and, cond_or, cond_not, cond_compare}
use dippin_lang.Condition.Token.{tokenize_condition}

-- The errors that the code formats, with what they mention.
pub data ParseError : Type 0 where
  unexpected_token : Str → ℕ → ParseError
  expected_variable : ParseError
  expected_operator : Str → ParseError
  unknown_operator : Str → ParseError
  expected_value : Str → Str → ParseError

pub data Result (A : Type 0) : Type 0 where
  ok : A → Result A
  err : ParseError → Result A

infixl 5 ◌>>=◌
abbrev pub ◌>>=◌ : {A B : Type 0} → Result A → (A → Result B) → Result B
ok a >>= f = f a
err e >>= f = err e

-- An expression, and the tokens behind it.
abbrev pub Parsed : Type 0
Parsed = Result (ConditionExpr × List Str)

abbrev pub is_valid_operator : Str → Bool
is_valid_operator op =
    (op == bytes "=")
    || ((op == bytes "==")
        || ((op == bytes "!=")
            || ((op == bytes "contains")
                || ((op == bytes "startswith")
                    || ((op == bytes "endswith") || (op == bytes "in"))))))

abbrev pub is_end : Str → Bool
is_end [] = true
is_end (c ∷ s) = false

abbrev pub kw_not : Str
kw_not = bytes "not"

abbrev pub kw_and : Str
kw_and = bytes "and"

abbrev pub kw_or : Str
kw_or = bytes "or"

-- p.next()
abbrev pub next : List Str → Str × List Str
next [] = ([], [])
next (t ∷ ts) = (t, ts)

unfoldable pub parse_op_value : Str → List Str → Result (Str × Str × List Str)
parse_op_value variable ts =
    let (op, after_op) = next ts in
    if is_end op
    then err (expected_operator variable)
    else if is_valid_operator op
    then (let (value, rest) = next after_op in
        if is_end value then err (expected_value variable op) else ok (op, value, rest))
    else err (unknown_operator op)

-- Whether an infix "not" stands there, and the tokens behind it.
unfoldable pub consume_infix_not : List Str → Bool × List Str
consume_infix_not [] = (false, [])
consume_infix_not (t ∷ ts) = if t == kw_not then (true, ts) else (false, t ∷ ts)

unfoldable pub parse_compare : List Str → Parsed
unfolding parse_op_value consume_infix_not
parse_compare ts =
    let (variable, after_variable) = next ts in
    if is_end variable then err expected_variable else do
      let (negated, after_not) = consume_infix_not after_variable
      (op, value, rest) ← parse_op_value variable after_not
      let cmp = cond_compare variable op value
      ok (if negated then cond_not cmp else cmp, rest)

unfoldable pub parse_unary : List Str → Parsed
unfolding parse_compare
parse_unary [] = parse_compare []
parse_unary (t ∷ ts) =
    let inner = parse_unary ts in
    if t == kw_not then (inner >>= λ (e, rest). ok (cond_not e, rest)) else parse_compare (t ∷ ts)

-- `for p.peek() == "and"`, on fuel: a round uses up two tokens or more.
unfoldable pub and_loop : ℕ → ConditionExpr → List Str → Parsed
unfolding parse_unary
and_loop fuel left [] = ok (left, [])
and_loop zero left (t ∷ ts) = ok (left, t ∷ ts)
and_loop (suc fuel) left (t ∷ ts) =
    if t == kw_and
    then (parse_unary ts >>= λ (right, rest). and_loop fuel (cond_and left right) rest)
    else ok (left, t ∷ ts)

unfoldable pub parse_and : List Str → Parsed
unfolding parse_unary and_loop
parse_and ts = do (left, rest) ← parse_unary ts; and_loop (length rest) left rest

unfoldable pub or_loop : ℕ → ConditionExpr → List Str → Parsed
unfolding parse_and
or_loop fuel left [] = ok (left, [])
or_loop zero left (t ∷ ts) = ok (left, t ∷ ts)
or_loop (suc fuel) left (t ∷ ts) =
    if t == kw_or
    then (parse_and ts >>= λ (right, rest). or_loop fuel (cond_or left right) rest)
    else ok (left, t ∷ ts)

unfoldable pub parse_or : List Str → Parsed
unfolding parse_and or_loop
parse_or ts = do (left, rest) ← parse_and ts; or_loop (length rest) left rest

-- The check of ParseCondition that no token is left; `total` is the number of tokens.
unfoldable pub finish : ℕ → ConditionExpr → List Str → Result ConditionExpr
finish total e [] = ok e
finish total e (t ∷ ts) = err (unexpected_token t (total - (suc (length ts))))

unfoldable pub parse_tokens : List Str → Result ConditionExpr
unfolding parse_or finish
parse_tokens ts = do (e, rest) ← parse_or ts; finish (length ts) e rest

unfoldable pub parse_condition : Str → Result ConditionExpr
unfolding tokenize_condition parse_tokens
parse_condition raw = parse_tokens (tokenize_condition raw)
