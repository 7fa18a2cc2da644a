-- ===== src/Condition/Grammar.antt =====
-- The grammar in the comment of ParseCondition, with the infix "not" that the code also reads, as
-- derivations that say which tokens are left.
use dippin_lang.Base.{
  Str, ℕ, zero, suc, List, [], ◌∷◌, ◌≡◌, ◌⊎◌, inl, inr, Bool, true, false, length, arith, refl,
  ◌==◌, if◌then◌else◌, Bool-cases,
}
use dippin_lang.Ir.{ConditionExpr, cond_and, cond_or, cond_not, cond_compare}
use dippin_lang.Condition.Parse.{
  ParseError, Result, ok, err, ◌>>=◌, Parsed, is_valid_operator, is_end, kw_not, kw_and, kw_or,
  parse_op_value, parse_compare, parse_unary, and_loop, parse_and, or_loop, parse_or,
}

-- A comparison may stand for itself.
pub record IsComparison (x op v : Str) : Type 0 where
  pub variable : is_end x ≡ false
  pub operator : is_valid_operator op ≡ true
  pub value : is_end v ≡ false

-- Unary ts e rest: the tokens `ts` are those of `e`, then `rest`.
pub data Unary : List Str → ConditionExpr → List Str → Type 0 where
  compare :
      {x op v : Str} {rest : List Str}
      → IsComparison x op v
      → (x == kw_not) ≡ false
      → Unary (x ∷ op ∷ v ∷ rest) (cond_compare x op v) rest
  compare_not :
      {x n op v : Str} {rest : List Str}
      → IsComparison x op v
      → (x == kw_not) ≡ false
      → (n == kw_not) ≡ true
      → Unary (x ∷ n ∷ op ∷ v ∷ rest) (cond_not (cond_compare x op v)) rest
  negate :
      {t : Str} {ts : List Str} {e : ConditionExpr} {rest : List Str}
      → (t == kw_not) ≡ true
      → Unary ts e rest
      → Unary (t ∷ ts) (cond_not e) rest

pub data Conjunction : List Str → ConditionExpr → List Str → Type 0 where
  one :
      {ts : List Str} {e : ConditionExpr} {rest : List Str}
      → Unary ts e rest
      → Conjunction ts e rest
  more :
      {ts : List Str} {l r : ConditionExpr} {t : Str} {mid rest : List Str}
      → Conjunction ts l (t ∷ mid)
      → (t == kw_and) ≡ true
      → Unary mid r rest
      → Conjunction ts (cond_and l r) rest

pub data Disjunction : List Str → ConditionExpr → List Str → Type 0 where
  one :
      {ts : List Str} {e : ConditionExpr} {rest : List Str}
      → Conjunction ts e rest
      → Disjunction ts e rest
  more :
      {ts : List Str} {l r : ConditionExpr} {t : Str} {mid rest : List Str}
      → Disjunction ts l (t ∷ mid)
      → (t == kw_or) ≡ true
      → Conjunction mid r rest
      → Disjunction ts (cond_or l r) rest

-- What the parser finds has a derivation.
parse_op_value-eq_ok :
    (x : Str) (ts : List Str) (op v : Str) (rest : List Str)
    → parse_op_value x ts ≡ ok (op, v, rest)
    → (ts ≡ op ∷ v ∷ rest) × (is_valid_operator op ≡ true) × (is_end v ≡ false)
unfolding parse_op_value
parse_op_value-eq_ok x [] op v rest h = ground arith
parse_op_value-eq_ok x (a ∷ []) op v rest h = ground arith
parse_op_value-eq_ok x (a ∷ b ∷ ts) op v rest h =
    ground (arith, Bool-cases (is_end a), Bool-cases (is_valid_operator a), Bool-cases (is_end b))

pub >>=-eq_ok :
    {S T : Type 0} (parsed : Result S) (continue : S → Result T) {t : T}
    → (parsed >>= continue) ≡ ok t
    → (s : S) × (parsed ≡ ok s) × (continue s ≡ ok t)
>>=-eq_ok (ok s) continue h = (s, refl, h)
>>=-eq_ok (err failure) continue h = cc

abbrev found : ConditionExpr → List Str → Parsed
found e rest = ok (e, rest)

ok-transport :
    (P : ConditionExpr → List Str → Type 0) {a e : ConditionExpr} {r rest : List Str}
    → found a r ≡ found e rest
    → P a r
    → P e rest
ok-transport P {a} {e} {r} {rest} h p =
    let same : a ≡ e = cc in let left : r ≡ rest = cc in rw (← same, ← left) p

pub Result-cases :
    {A : Type 0} (r : Result A) → ((e : ParseError) × (r ≡ err e)) ⊎ ((a : A) × (r ≡ ok a))
Result-cases (ok a) = inr (a, refl)
Result-cases (err e) = inl (e, refl)

-- What parse_compare does behind the variable and an infix "not".
abbrev comparison : Str → Bool → Str × Str × List Str → Parsed
comparison x negated (op, value, rest) =
    let cmp = cond_compare x op value in ok (if negated then cond_not cmp else cmp, rest)

comparison→Unary :
    (x : Str) (negated : Bool) (t : Str) (ts : List Str) (e : ConditionExpr) (rest : List Str)
    → is_end x ≡ false
    → (x == kw_not) ≡ false
    → (t == kw_not) ≡ negated
    → (parse_op_value x (if negated then ts else t ∷ ts) >>= comparison x negated) ≡ ok (e, rest)
    → Unary (x ∷ t ∷ ts) e rest
comparison→Unary x true t ts e rest start n tn h =
    let ((op, v, r), parsed, built) = >>=-eq_ok (parse_op_value x ts) (comparison x true) h in
    let (shape, valid, full) = parse_op_value-eq_ok x ts op v r parsed in
    rw shape (
      ok-transport (Unary (x ∷ t ∷ op ∷ v ∷ r)) built
        (compare_not (record { variable = start; operator = valid; value = full }) n tn))
comparison→Unary x false t ts e rest start n tn h =
    let ((op, v, r), parsed, built) =
      >>=-eq_ok (parse_op_value x (t ∷ ts)) (comparison x false) h in
    let (shape, valid, full) = parse_op_value-eq_ok x (t ∷ ts) op v r parsed in
    rw shape (
      ok-transport (Unary (x ∷ op ∷ v ∷ r)) built
        (compare (record { variable = start; operator = valid; value = full }) n))

parse_compare→Unary :
    (x : Str) (ts : List Str) (e : ConditionExpr) (rest : List Str)
    → (x == kw_not) ≡ false
    → parse_compare (x ∷ ts) ≡ ok (e, rest)
    → Unary (x ∷ ts) e rest
unfolding parse_compare
parse_compare→Unary x [] e rest n h = ground arith
parse_compare→Unary x (t ∷ ts) e rest n h = elim (Bool-cases (is_end x)) [
  | inl end ↦ ground arith
  | inr start ↦ elim (Bool-cases (t == kw_not)) [
    | inl tn ↦ comparison→Unary x true t ts e rest start n tn (rw (start, tn, parse_compare) at h)
    | inr tn ↦ comparison→Unary x false t ts e rest start n tn (rw (start, tn, parse_compare) at h)
  ]
]

pub parse_unary→Unary :
    (ts : List Str) (e : ConditionExpr) (rest : List Str)
    → parse_unary ts ≡ ok (e, rest)
    → Unary ts e rest
unfolding parse_unary
parse_unary→Unary [] e rest h = ground arith
parse_unary→Unary (t ∷ ts) e rest h = elim (Bool-cases (t == kw_not)) [
  | inl tn ↦
      let ((inner, r), parsed, built) =
        >>=-eq_ok (parse_unary ts) (λ (inner, r). ok (cond_not inner, r))
          (rw (tn, parse_unary) at h) in
      ok-transport (Unary (t ∷ ts)) built (negate tn (parse_unary→Unary ts inner r parsed))
  | inr tn ↦ parse_compare→Unary t ts e rest tn (rw (tn, parse_unary) at h)
]

and_loop→Conjunction :
    (fuel : ℕ) (all : List Str) (l : ConditionExpr) (ts : List Str) (e : ConditionExpr)
    (rest : List Str)
    → Conjunction all l ts
    → and_loop fuel l ts ≡ ok (e, rest)
    → Conjunction all e rest
unfolding and_loop
and_loop→Conjunction fuel all l [] e rest d h = ok-transport (Conjunction all) h d
and_loop→Conjunction zero all l (t ∷ ts) e rest d h = ok-transport (Conjunction all) h d
and_loop→Conjunction (suc fuel) all l (t ∷ ts) e rest d h = elim (Bool-cases (t == kw_and)) [
  | inl ta ↦
      let ((r, mid), parsed, built) =
        >>=-eq_ok (parse_unary ts) (λ (r, mid). and_loop fuel (cond_and l r) mid)
          (rw (ta, and_loop) at h) in
      and_loop→Conjunction fuel all (cond_and l r) mid e rest
        (Conjunction.more d ta (parse_unary→Unary ts r mid parsed)) built
  | inr ta ↦ ok-transport (Conjunction all) (rw (ta, and_loop) at h) d
]

pub parse_and→Conjunction :
    (ts : List Str) (e : ConditionExpr) (rest : List Str)
    → parse_and ts ≡ ok (e, rest)
    → Conjunction ts e rest
unfolding parse_and
parse_and→Conjunction ts e rest h =
    let ((l, r), parsed, looped) =
      >>=-eq_ok (parse_unary ts) (λ (l, r). and_loop (length r) l r) h in
    and_loop→Conjunction (length r) ts l r e rest
      (Conjunction.one (parse_unary→Unary ts l r parsed)) looped

or_loop→Disjunction :
    (fuel : ℕ) (all : List Str) (l : ConditionExpr) (ts : List Str) (e : ConditionExpr)
    (rest : List Str)
    → Disjunction all l ts
    → or_loop fuel l ts ≡ ok (e, rest)
    → Disjunction all e rest
unfolding or_loop
or_loop→Disjunction fuel all l [] e rest d h = ok-transport (Disjunction all) h d
or_loop→Disjunction zero all l (t ∷ ts) e rest d h = ok-transport (Disjunction all) h d
or_loop→Disjunction (suc fuel) all l (t ∷ ts) e rest d h = elim (Bool-cases (t == kw_or)) [
  | inl ta ↦
      let ((r, mid), parsed, built) =
        >>=-eq_ok (parse_and ts) (λ (r, mid). or_loop fuel (cond_or l r) mid)
          (rw (ta, or_loop) at h) in
      or_loop→Disjunction fuel all (cond_or l r) mid e rest
        (Disjunction.more d ta (parse_and→Conjunction ts r mid parsed)) built
  | inr ta ↦ ok-transport (Disjunction all) (rw (ta, or_loop) at h) d
]

pub parse_or→Disjunction :
    (ts : List Str) (e : ConditionExpr) (rest : List Str)
    → parse_or ts ≡ ok (e, rest)
    → Disjunction ts e rest
unfolding parse_or
parse_or→Disjunction ts e rest h =
    let ((l, r), parsed, looped) = >>=-eq_ok (parse_and ts) (λ (l, r). or_loop (length r) l r) h in
    or_loop→Disjunction (length r) ts l r e rest
      (Disjunction.one (parse_and→Conjunction ts l r parsed)) looped
