-- ===== src/Checks/Conditions.antt =====
-- The condition parser on concrete conditions.
use dippin_lang.Base.{
  Str, List, [], ◌∷◌, ◌≡◌, ◌↔◌, refl, bytes, ◌==◌, trim_space, trim_with, space_size,
  last_space_size,
}
use dippin_lang.Ir.{ConditionExpr, cond_and, cond_or, cond_not, cond_compare}
use dippin_lang.Condition.Parse.{ok, err, expected_value, parse_tokens, parse_condition}
use dippin_lang.Condition.Grammar.{Disjunction}
use dippin_lang.Condition.Complete.{parse_tokens_iff}
use dippin_lang.Condition.Kept.{SameGraph, ensure_conditions_parsed-SameGraph}
use dippin_lang.Condition.Ensure.{ensure_conditions_parsed}
use dippin_lang.Checks.Samples.{sample}

-- not b not contains z
abbrev middle : ConditionExpr
middle = cond_not (cond_not (cond_compare (bytes "b") (bytes "contains") (bytes "z")))

abbrev long_condition : ConditionExpr
long_condition =
    cond_or (cond_and (cond_compare (bytes "ctx.a") (bytes "=") (bytes "x y")) middle)
      (cond_compare (bytes "c") (bytes "!=") (bytes "d"))

parses :
    parse_condition (bytes "ctx.a = \"x y\" and not b not contains z or c!=d") ≡ ok long_condition
unfolding parse_condition ◌==◌ trim_space trim_with space_size last_space_size
parses = refl

-- A quoted empty value is taken for the end of the input.
rejects_empty_value :
    parse_condition (bytes "ctx.a = \"\"") ≡ err (expected_value (bytes "ctx.a") (bytes "="))
unfolding parse_condition ◌==◌ trim_space trim_with space_size last_space_size
rejects_empty_value = refl

abbrev tokens : List Str
tokens = bytes "not" ∷ bytes "a" ∷ bytes "=" ∷ bytes "b" ∷ []

parse_tokens_iff_example :
    (parse_tokens tokens ≡ ok (cond_not (cond_compare (bytes "a") (bytes "=") (bytes "b"))))
    ↔ Disjunction tokens (cond_not (cond_compare (bytes "a") (bytes "=") (bytes "b"))) []
parse_tokens_iff_example =
    parse_tokens_iff tokens (cond_not (cond_compare (bytes "a") (bytes "=") (bytes "b")))

ensure_conditions_parsed-SameGraph_example : SameGraph sample (ensure_conditions_parsed sample).0
ensure_conditions_parsed-SameGraph_example = ensure_conditions_parsed-SameGraph sample
