-- ===== src/Condition/Complete.antt =====
-- The loops of the condition parser against the derivations of the grammar.
use dippin_lang.Base.{
  Str, ℕ, zero, subst, suc, ◌≤◌, ◌<◌, List, [], ◌∷◌, ◌≡◌, ◌↔◌, inl, inr, true, false, length, arith,
  refl, ==_iff, ◌==◌, ◌∙◌, bytes,
}
use dippin_lang.Ir.{ConditionExpr, cond_and, cond_or}
use dippin_lang.Condition.Parse.{
  ok, is_valid_operator, is_end, kw_not, kw_and, kw_or, parse_op_value, consume_infix_not,
  parse_compare, parse_unary, and_loop, parse_and, or_loop, parse_or, finish, parse_tokens,
}
use dippin_lang.Condition.Grammar.{
  Unary, compare, compare_not, negate, Conjunction, Disjunction, >>=-eq_ok, Result-cases,
  parse_unary→Unary, parse_and→Conjunction, parse_or→Disjunction,
}

-- The parser finds every derivation.
valid→not_keyword : (op : Str) → is_valid_operator op ≡ true → (op == kw_not) ≡ false
valid→not_keyword op h = ground (
  arith,
  ==_iff op kw_not,
  ==_iff op (bytes "="),
  ==_iff op (bytes "=="),
  ==_iff op (bytes "!="),
  ==_iff op (bytes "contains"),
  ==_iff op (bytes "startswith"),
  ==_iff op (bytes "endswith"),
  ==_iff op (bytes "in"),
)

valid→not_end : (op : Str) → is_valid_operator op ≡ true → is_end op ≡ false
unfolding ◌==◌
valid→not_end [] h = cc
valid→not_end (c ∷ op) h = refl

parse_unary_complete :
    (ts : List Str) (e : ConditionExpr) (rest : List Str)
    → Unary ts e rest
    → (parse_unary ts ≡ ok (e, rest)) × (suc (length rest) ≤ length ts)
unfolding parse_unary parse_compare consume_infix_not parse_op_value
parse_unary_complete ts e rest (compare {x} {op} {v} c n) =
    ground (arith, valid→not_keyword op c.operator, valid→not_end op c.operator)
parse_unary_complete ts e rest (compare_not {x} {n = m} {op} {v} c n mn) =
    ground (arith, valid→not_end op c.operator)
parse_unary_complete ts e rest (negate {ts = us} {e = inner} tn d) =
    ground (arith, parse_unary_complete us inner rest d)

-- Fuel beyond the number of tokens changes nothing.
and_loop_fuel :
    (f g : ℕ) (l : ConditionExpr) (ts : List Str)
    → length ts ≤ f
    → length ts ≤ g
    → and_loop f l ts ≡ and_loop g l ts
unfolding and_loop
and_loop_fuel f g l [] p q = refl
and_loop_fuel zero g l (t ∷ ts) p q = absurd (omega arith)
and_loop_fuel (suc f) zero l (t ∷ ts) p q = absurd (omega arith)
and_loop_fuel (suc f) (suc g) l (t ∷ ts) p q = elim (Result-cases (parse_unary ts)) [
  | inl (bad, e) ↦ rw e
  | inr ((r, mid), e) ↦
      let shorter = parse_unary_complete ts r mid (parse_unary→Unary ts r mid e) in
      let same = and_loop_fuel f g (cond_and l r) mid (omega arith) (omega arith) in rw (e, same)
]

Conjunction→parse_and :
    {ts : List Str} {e : ConditionExpr} {rest : List Str}
    → Conjunction ts e rest
    → parse_and ts ≡ and_loop (length rest) e rest
unfolding parse_and
Conjunction→parse_and {ts} {e} {rest} (Conjunction.one d) =
    rw ((parse_unary_complete ts e rest d).0)
Conjunction→parse_and {ts} {rest} (Conjunction.more {l} {r} {t} {mid} d ta u) =
    let (parsed, shorter) = parse_unary_complete mid r rest u in
    Conjunction→parse_and d
    ∙ (rw (ta, and_loop)
        (rw (parsed) (
          and_loop_fuel (length mid) (length rest) (cond_and l r) rest (omega arith)
            (omega arith))))

Conjunction-length :
    {ts : List Str} {e : ConditionExpr} {rest : List Str}
    → Conjunction ts e rest
    → length rest < length ts
Conjunction-length {ts} {e} {rest} (Conjunction.one d) = (parse_unary_complete ts e rest d).1
Conjunction-length {ts} {rest} (Conjunction.more {r} {mid} d ta u) =
    omega (arith, Conjunction-length d, (parse_unary_complete mid r rest u).1)

or_loop_fuel :
    (f g : ℕ) (l : ConditionExpr) (ts : List Str)
    → length ts ≤ f
    → length ts ≤ g
    → or_loop f l ts ≡ or_loop g l ts
unfolding or_loop
or_loop_fuel f g l [] p q = refl
or_loop_fuel zero g l (t ∷ ts) p q = absurd (omega arith)
or_loop_fuel (suc f) zero l (t ∷ ts) p q = absurd (omega arith)
or_loop_fuel (suc f) (suc g) l (t ∷ ts) p q = elim (Result-cases (parse_and ts)) [
  | inl (bad, e) ↦ rw e
  | inr ((r, mid), e) ↦
      let shorter = Conjunction-length (parse_and→Conjunction ts r mid e) in
      let same = or_loop_fuel f g (cond_or l r) mid (omega arith) (omega arith) in rw (e, same)
]

-- No "and" follows, so that a conjunction ends there.
abbrev Stops : List Str → Type 0
Stops [] = Unit
Stops (t ∷ ts) = (t == kw_and) ≡ false

and_loop-Stops :
    (f : ℕ) (e : ConditionExpr) (rest : List Str) → Stops rest → and_loop f e rest ≡ ok (e, rest)
unfolding and_loop
and_loop-Stops f e [] s = refl
and_loop-Stops zero e (t ∷ rest) s = refl
and_loop-Stops (suc f) e (t ∷ rest) s = rw s

or→Stops : (t : Str) → (t == kw_or) ≡ true → (t == kw_and) ≡ false
or→Stops t h = ground (arith, ==_iff t kw_or, ==_iff t kw_and)

Disjunction→parse_or :
    {ts : List Str} {e : ConditionExpr} {rest : List Str}
    → Disjunction ts e rest
    → Stops rest
    → parse_or ts ≡ or_loop (length rest) e rest
unfolding parse_or
Disjunction→parse_or {ts} {e} {rest} (Disjunction.one d) s =
    rw (Conjunction→parse_and d, and_loop-Stops (length rest) e rest s)
Disjunction→parse_or {ts} {rest} (Disjunction.more {l} {r} {t} {mid} d to c) s =
    let parsed : parse_and mid ≡ ok (r, rest) =
      Conjunction→parse_and c ∙ and_loop-Stops (length rest) r rest s in
    let same = or_loop_fuel (length mid) (length rest) (cond_or l r) rest in
    let shorter = Conjunction-length c in
    Disjunction→parse_or d (or→Stops t to)
    ∙ rw (to, or_loop) (rw parsed (same (omega arith) (omega arith)))

finish-eq_ok :
    (n : ℕ) (e' : ConditionExpr) (rest : List Str) (e : ConditionExpr)
    → finish n e' rest ≡ ok e
    → (rest ≡ []) × (e' ≡ e)
unfolding finish
finish-eq_ok n e' [] e h = (refl, cc)
finish-eq_ok n e' (t ∷ ts) e h = cc

-- The parser accepts a list of tokens with an expression exactly if the grammar derives that
-- expression from all the tokens: disjunctions of conjunctions, grouped to the left, of comparisons
-- under any number of "not"s, without parentheses.
pub parse_tokens_iff :
    (ts : List Str) (e : ConditionExpr) → (parse_tokens ts ≡ ok e) ↔ Disjunction ts e []
unfolding parse_tokens finish
parse_tokens_iff ts e = (
  λ h.
      let ((e', rest), parsed, finished) =
        >>=-eq_ok (parse_or ts) (λ (e', rest). finish (length ts) e' rest) h in
      let (empty, same) = finish-eq_ok (length ts) e' rest e finished in
      subst (λ r. Disjunction ts e r) empty
        (subst (λ x. Disjunction ts x rest) same (parse_or→Disjunction ts e' rest parsed)),
  λ d. rw (Disjunction→parse_or d tt, or_loop) refl,
)
