-- ===== src/Condition/Eval.antt =====
-- The evaluation of conditions in simulate/defaults.go, over the simulator's context map and the
-- workflow's goal.
use dippin_lang.Base.{
  Str, List, [], ◌∷◌, Bool, false, ◌&&◌, ◌||◌, not, none, some, if◌then◌else◌, bytes, ◌==◌, Map,
  lookup, has_prefix, trim_prefix, has_suffix, has_substring, split, trim_space,
}
use dippin_lang.Ir.{ConditionExpr, cond_and, cond_or, cond_not, cond_compare}

abbrev pub ctx_prefix : Str
ctx_prefix = bytes "ctx."

-- The key under which a variable is first looked up.
unfoldable pub context_key : Str → Str
context_key variable =
    if has_prefix variable ctx_prefix then trim_prefix variable ctx_prefix else variable

abbrev goal_of : Str → Str → Str
goal_of goal variable = if variable == bytes "graph.goal" then goal else []

unfoldable pub resolve_variable : Map Str → Str → Str → Str
unfolding context_key
resolve_variable ctx goal variable = elim (lookup (context_key variable) ctx) [
  | some v ↦ v
  | none ↦ elim (lookup variable ctx) [ some v ↦ v | none ↦ goal_of goal variable ]
]

unfoldable pub eval_items : Str → List Str → Bool
eval_items ctx_val [] = false
eval_items ctx_val (p ∷ ps) = (ctx_val == trim_space p) || eval_items ctx_val ps

unfoldable pub eval_in : Str → Str → Bool
unfolding eval_items
eval_in ctx_val value = eval_items ctx_val (split b',' value)

-- The operator table, then "in"; any other operator is false.
unfoldable pub apply_operator : Str → Str → Str → Bool
unfolding eval_in
apply_operator op a b =
    if op == bytes "="
    then a == b
    else if op == bytes "=="
    then a == b
    else if op == bytes "!="
    then not (a == b)
    else if op == bytes "contains"
    then has_substring a b
    else if op == bytes "startswith"
    then has_prefix a b
    else if op == bytes "endswith"
    then has_suffix a b
    else if op == bytes "in"
    then eval_in a b
    else false

unfoldable pub eval_compare : Map Str → Str → Str → Str → Str → Bool
unfolding resolve_variable apply_operator
eval_compare ctx goal variable op value =
    apply_operator op (resolve_variable ctx goal variable) value

unfoldable pub eval_condition : Map Str → Str → ConditionExpr → Bool
unfolding eval_compare
eval_condition ctx goal (cond_compare variable op value) = eval_compare ctx goal variable op value
eval_condition ctx goal (cond_and l r) = eval_condition ctx goal l && eval_condition ctx goal r
eval_condition ctx goal (cond_or l r) = eval_condition ctx goal l || eval_condition ctx goal r
eval_condition ctx goal (cond_not e) = not (eval_condition ctx goal e)
