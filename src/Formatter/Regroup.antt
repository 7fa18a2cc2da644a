-- ===== src/Formatter/Regroup.antt =====
-- Chains of one connective, as they are written and as the condition parser groups them.
use dippin_lang.Base.{
  Str, List, [], ◌∷◌, ◌++◌, ◌≡◌, refl, sym, subst, arith, false, ◌&&◌, ◌||◌, ◌==◌, ==-refl, Map,
}
use mathlib.Core.List.{append-nil, append_assoc}
use dippin_lang.Ir.{ConditionExpr, cond_and, cond_or, cond_not, cond_compare}
use dippin_lang.Condition.Parse.{kw_not, kw_and, kw_or}
use dippin_lang.Condition.Grammar.{IsComparison, Unary, compare, negate, Conjunction, Disjunction}
use dippin_lang.Condition.Eval.{eval_condition}
use dippin_lang.Formatter.Words.{IsToken}

-- A comparison of words, under any number of "not"s.
pub data IsLiteral : ConditionExpr → Type 0 where
  compares :
      {x op v : Str}
      → IsComparison x op v
      → (x == kw_not) ≡ false
      → IsToken x
      → IsToken op
      → IsToken v
      → IsLiteral (cond_compare x op v)
  negates : {e : ConditionExpr} → IsLiteral e → IsLiteral (cond_not e)

-- Literals joined by "and"; or by "or".
pub data IsAnds : ConditionExpr → Type 0 where
  literal_and : {e : ConditionExpr} → IsLiteral e → IsAnds e
  ands : {l r : ConditionExpr} → IsAnds l → IsAnds r → IsAnds (cond_and l r)

pub data IsOrs : ConditionExpr → Type 0 where
  literal_or : {e : ConditionExpr} → IsLiteral e → IsOrs e
  ors : {l r : ConditionExpr} → IsOrs l → IsOrs r → IsOrs (cond_or l r)

unfoldable pub written : ConditionExpr → List Str
written (cond_compare x op v) = x ∷ op ∷ v ∷ []
written (cond_not e) = kw_not ∷ written e
written (cond_and l r) = written l ++ kw_and ∷ written r
written (cond_or l r) = written l ++ kw_or ∷ written r

-- The conjuncts of the second expression, behind the first; and the disjuncts.
unfoldable pub and_onto : ConditionExpr → ConditionExpr → ConditionExpr
and_onto left (cond_and l r) = and_onto (and_onto left l) r
and_onto left e = cond_and left e

unfoldable pub or_onto : ConditionExpr → ConditionExpr → ConditionExpr
or_onto left (cond_or l r) = or_onto (or_onto left l) r
or_onto left e = cond_or left e

-- A chain, grouped to the left.
unfoldable pub regroup : ConditionExpr → ConditionExpr
regroup (cond_and l r) = and_onto (regroup l) r
regroup (cond_or l r) = or_onto (regroup l) r
regroup e = e

Unary-IsLiteral :
    {e : ConditionExpr} (rest : List Str) → IsLiteral e → Unary (written e ++ rest) e rest
unfolding written
Unary-IsLiteral rest (compares c h x op v) = compare c h
Unary-IsLiteral rest (negates l) = negate {t = kw_not} (==-refl kw_not) (Unary-IsLiteral rest l)

regroup_literal : {e : ConditionExpr} → IsLiteral e → regroup e ≡ e
unfolding regroup
regroup_literal (compares c h x op v) = refl
regroup_literal (negates l) = refl

Conjunction-more :
    {ts : List Str} {left r : ConditionExpr} (rest : List Str)
    → IsAnds r
    → Conjunction ts left (kw_and ∷ (written r ++ rest))
    → Conjunction ts (and_onto left r) rest
unfolding written and_onto
Conjunction-more rest (literal_and (compares c h x op v)) d =
    Conjunction.more d (==-refl kw_and) (Unary-IsLiteral rest (compares c h x op v))
Conjunction-more rest (literal_and (negates l)) d =
    Conjunction.more d (==-refl kw_and) (Unary-IsLiteral rest (negates l))
Conjunction-more {ts} {left} rest (ands {l} {r} a b) d =
    let behind = append_assoc (written l) (kw_and ∷ written r) rest in
    Conjunction-more rest b (
      Conjunction-more (kw_and ∷ (written r ++ rest)) a
        (subst (λ t. Conjunction ts left (kw_and ∷ t)) behind d))

Conjunction-IsAnds :
    {e : ConditionExpr} (rest : List Str)
    → IsAnds e
    → Conjunction (written e ++ rest) (regroup e) rest
unfolding written regroup
Conjunction-IsAnds {e} rest (literal_and l) =
    subst (λ x. Conjunction (written e ++ rest) x rest) (sym (regroup_literal l))
      (Conjunction.one (Unary-IsLiteral rest l))
Conjunction-IsAnds rest (ands {l} {r} a b) = Conjunction-more rest b (
    subst (λ t. Conjunction t (regroup l) (kw_and ∷ (written r ++ rest)))
      (sym (append_assoc (written l) (kw_and ∷ written r) rest))
      (Conjunction-IsAnds (kw_and ∷ (written r ++ rest)) a))

Disjunction-more :
    {ts : List Str} {left r : ConditionExpr} (rest : List Str)
    → IsOrs r
    → Disjunction ts left (kw_or ∷ (written r ++ rest))
    → Disjunction ts (or_onto left r) rest
unfolding written or_onto
Disjunction-more rest (literal_or (compares c h x op v)) d =
    Disjunction.more d (==-refl kw_or)
      (Conjunction.one (Unary-IsLiteral rest (compares c h x op v)))
Disjunction-more rest (literal_or (negates l)) d =
    Disjunction.more d (==-refl kw_or) (Conjunction.one (Unary-IsLiteral rest (negates l)))
Disjunction-more {ts} {left} rest (ors {l} {r} a b) d =
    let behind = append_assoc (written l) (kw_or ∷ written r) rest in
    Disjunction-more rest b (
      Disjunction-more (kw_or ∷ (written r ++ rest)) a
        (subst (λ t. Disjunction ts left (kw_or ∷ t)) behind d))

Disjunction-IsOrs :
    {e : ConditionExpr} (rest : List Str)
    → IsOrs e
    → Disjunction (written e ++ rest) (regroup e) rest
unfolding written regroup
Disjunction-IsOrs {e} rest (literal_or l) =
    subst (λ x. Disjunction (written e ++ rest) x rest) (sym (regroup_literal l))
      (Disjunction.one (Conjunction.one (Unary-IsLiteral rest l)))
Disjunction-IsOrs rest (ors {l} {r} a b) = Disjunction-more rest b (
    subst (λ t. Disjunction t (regroup l) (kw_or ∷ (written r ++ rest)))
      (sym (append_assoc (written l) (kw_or ∷ written r) rest))
      (Disjunction-IsOrs (kw_or ∷ (written r ++ rest)) a))

-- Literals joined by one connective.
pub data IsChain (e : ConditionExpr) : Type 0 where
  all_and : IsAnds e → IsChain e
  all_or : IsOrs e → IsChain e

pub Disjunction-IsChain : {e : ConditionExpr} → IsChain e → Disjunction (written e) (regroup e) []
Disjunction-IsChain {e} (all_and a) =
    subst (λ t. Disjunction t (regroup e) []) (append-nil (written e))
      (Disjunction.one (Conjunction-IsAnds [] a))
Disjunction-IsChain {e} (all_or o) =
    subst (λ t. Disjunction t (regroup e) []) (append-nil (written e)) (Disjunction-IsOrs [] o)

and_onto-eval :
    (ctx : Map Str) (goal : Str) (left e : ConditionExpr)
    → eval_condition ctx goal (and_onto left e)
      ≡ (eval_condition ctx goal left && eval_condition ctx goal e)
unfolding and_onto eval_condition
and_onto-eval ctx goal left (cond_and l r) =
    ground (arith, and_onto-eval ctx goal (and_onto left l) r, and_onto-eval ctx goal left l)
and_onto-eval ctx goal left (cond_or l r) = refl
and_onto-eval ctx goal left (cond_not e) = refl
and_onto-eval ctx goal left (cond_compare x op v) = refl

or_onto-eval :
    (ctx : Map Str) (goal : Str) (left e : ConditionExpr)
    → eval_condition ctx goal (or_onto left e)
      ≡ (eval_condition ctx goal left || eval_condition ctx goal e)
unfolding or_onto eval_condition
or_onto-eval ctx goal left (cond_or l r) =
    ground (arith, or_onto-eval ctx goal (or_onto left l) r, or_onto-eval ctx goal left l)
or_onto-eval ctx goal left (cond_and l r) = refl
or_onto-eval ctx goal left (cond_not e) = refl
or_onto-eval ctx goal left (cond_compare x op v) = refl

-- Grouping a chain to the left does not change what it evaluates to.
pub regroup-eval :
    (ctx : Map Str) (goal : Str) (e : ConditionExpr)
    → eval_condition ctx goal (regroup e) ≡ eval_condition ctx goal e
unfolding regroup eval_condition
regroup-eval ctx goal (cond_and l r) =
    ground (arith, and_onto-eval ctx goal (regroup l) r, regroup-eval ctx goal l)
regroup-eval ctx goal (cond_or l r) =
    ground (arith, or_onto-eval ctx goal (regroup l) r, regroup-eval ctx goal l)
regroup-eval ctx goal (cond_not e) = refl
regroup-eval ctx goal (cond_compare x op v) = refl
