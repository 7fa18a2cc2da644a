-- ===== src/Formatter.antt =====
-- formatter/format.go: the conditions and values of an edge in canonical form.
pub mod Words
pub mod Regroup
pub mod RoundTrip
pub mod Values
use dippin_lang.Base.{
  Str, ℕ, List, [], ◌∷◌, ◌++◌, Bool, true, false, not, ◌&&◌, ◌||◌, eqb, leb, Option, none, some,
  if◌then◌else◌, bytes,
}
use dippin_lang.Ir.{ConditionExpr, cond_and, cond_or, cond_not, cond_compare, Edge, Condition}

abbrev pub prec_or : ℕ
prec_or = 1

abbrev pub prec_and : ℕ
prec_and = 2

abbrev pub prec_not : ℕ
prec_not = 3

-- "%s %s %s"
abbrev pub spaced : Str → Str → Str → Str
spaced a b c = a ++ (b' ' ∷ b ++ (b' ' ∷ c))

unfoldable pub fmt_binary_cond_expr : Str → Str → Str → ℕ → ℕ → Str
fmt_binary_cond_expr left right op prec parent =
    let s = spaced left op right in
    if not (eqb parent 0) && not (eqb parent prec) then b'(' ∷ (s ++ b')' ∷ []) else s

unfoldable pub format_condition_expr : ConditionExpr → ℕ → Str
format_condition_expr (cond_compare variable op value) parent = spaced variable op value
format_condition_expr (cond_and left right) parent =
    fmt_binary_cond_expr (format_condition_expr left prec_and)
      (format_condition_expr right prec_and) (bytes "and") prec_and parent
format_condition_expr (cond_or left right) parent =
    fmt_binary_cond_expr (format_condition_expr left prec_or) (format_condition_expr right prec_or)
      (bytes "or") prec_or parent
format_condition_expr (cond_not e) parent = bytes "not " ++ format_condition_expr e prec_not

unfoldable pub format_condition : ConditionExpr → Str
format_condition e = format_condition_expr e 0
