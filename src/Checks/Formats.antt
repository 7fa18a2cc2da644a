-- ===== src/Checks/Formats.antt =====
-- Formatted conditions.
use dippin_lang.Base.{
  Str, ℕ, [], ◌∷◌, ◌≡◌, refl, bytes, true, leb, arith, Map, ◌==◌, trim_with, space_size,
  last_space_size,
}
use dippin_lang.Ir.{ConditionExpr, cond_and, cond_or, cond_not, cond_compare}
use dippin_lang.Condition.Parse.{ok, parse_condition}
use dippin_lang.Condition.Token.{is_word_break, is_operator_char, is_quote_char}
use dippin_lang.Condition.Eval.{eval_condition}
use dippin_lang.Formatter.{fmt_binary_cond_expr, format_condition_expr, format_condition}
use dippin_lang.Formatter.Words.{IsToken, word, equals}
use dippin_lang.Formatter.Regroup.{
  IsLiteral, compares, negates, literal_and, ands, regroup, IsChain, all_and,
}
use dippin_lang.Formatter.RoundTrip.{parse_condition-format_condition}

abbrev x_is : Str → ConditionExpr
x_is v = cond_compare (bytes "x") (bytes "=") v

abbrev nested : ConditionExpr
nested = cond_and (x_is (bytes "1")) (cond_and (cond_not (x_is (bytes "2"))) (x_is (bytes "3")))

nested_text : format_condition nested ≡ bytes "x = 1 and not x = 2 and x = 3"
unfolding format_condition format_condition_expr fmt_binary_cond_expr
nested_text = refl

-- The formatter puts parentheses round an "and" under an "or"; the parser reads them as parts of words.
abbrev mixed : ConditionExpr
mixed = cond_or (cond_and (x_is (bytes "1")) (x_is (bytes "2"))) (x_is (bytes "3"))

abbrev misread : ConditionExpr
misread =
    cond_or (cond_and (cond_compare (bytes "(x") (bytes "=") (bytes "1")) (x_is (bytes "2)")))
      (x_is (bytes "3"))

mixed-misread : parse_condition (format_condition mixed) ≡ ok misread
unfolding parse_condition format_condition format_condition_expr fmt_binary_cond_expr ◌==◌ trim_with
    space_size last_space_size
mixed-misread = refl

digit : (c : ℕ) → leb b'1' c ≡ true → leb c b'3' ≡ true → IsToken (c ∷ [])
unfolding is_word_break is_operator_char is_quote_char
digit c low high = word (ground (arith, low, high)) (
  record {
    unbroken = ground (arith, low, high);
    unspaced = ground (arith, low, high);
    narrow = ground (arith, low, high);
  },
  tt,
)

x-IsToken : IsToken (bytes "x")
unfolding is_word_break is_operator_char is_quote_char
x-IsToken = word refl (record { unbroken = refl; unspaced = refl; narrow = refl }, tt)

digit-IsLiteral : (c : ℕ) → leb b'1' c ≡ true → leb c b'3' ≡ true → IsLiteral (x_is (c ∷ []))
unfolding ◌==◌
digit-IsLiteral c low high =
    compares (record { variable = refl; operator = refl; value = refl }) refl x-IsToken equals
      (digit c low high)

nested-IsChain : IsChain nested
nested-IsChain = all_and (
    ands (literal_and (digit-IsLiteral b'1' refl refl)) (
      ands (literal_and (negates (digit-IsLiteral b'2' refl refl)))
        (literal_and (digit-IsLiteral b'3' refl refl))))

parse_condition-format_condition_example :
    (parse_condition (format_condition nested) ≡ ok (regroup nested))
    × ((ctx : Map Str) (goal : Str)
        → eval_condition ctx goal (regroup nested) ≡ eval_condition ctx goal nested)
parse_condition-format_condition_example = parse_condition-format_condition nested-IsChain
