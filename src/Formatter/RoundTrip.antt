-- ===== src/Formatter/RoundTrip.antt =====
-- A condition that is formatted and parsed again.
use dippin_lang.Base.{
  Str, ℕ, List, [], ◌∷◌, ◌++◌, ◌≡◌, ◌⊎◌, inl, inr, refl, sym, ap, ◌∙◌, arith, true, leb, bytes, All,
  Map,
}
use mathlib.Core.List.{append_assoc}
use dippin_lang.Ir.{ConditionExpr, cond_and, cond_or, cond_not, cond_compare}
use dippin_lang.Condition.Parse.{ok, kw_not, kw_and, kw_or, parse_tokens, parse_condition}
use dippin_lang.Condition.Token.{tokenize_condition, is_word_break, is_operator_char, is_quote_char}
use dippin_lang.Condition.Complete.{parse_tokens_iff}
use dippin_lang.Condition.Eval.{eval_condition}
use dippin_lang.Formatter.{
  prec_and, prec_or, prec_not, spaced, fmt_binary_cond_expr, format_condition_expr,
  format_condition,
}
use dippin_lang.Formatter.Words.{IsPlain, IsToken, word, unwords, tokenize_condition-unwords}
use dippin_lang.Formatter.Regroup.{
  IsLiteral, compares, negates, IsAnds, IsOrs, ands, ors, written, literal_and, literal_or, regroup,
  IsChain, all_and, all_or, Disjunction-IsChain, regroup-eval,
}

abbrev IsSome : List Str → Type 0
IsSome ts = (t : Str) × (rest : List Str) × (ts ≡ t ∷ rest)

unwords-spaced :
    (xs ys : List Str) (op : Str)
    → IsSome xs
    → IsSome ys
    → unwords (xs ++ op ∷ ys) ≡ spaced (unwords xs) op (unwords ys)
unfolding unwords
unwords-spaced [] ys op (t, rest, e) there = ground (arith, e)
unwords-spaced (x ∷ []) [] op some_x (t, rest, e) = ground (arith, e)
unwords-spaced (x ∷ []) (y ∷ ys) op some_x there = refl
unwords-spaced (x ∷ z ∷ zs) ys op some_x there =
    ap (λ s. x ++ b' ' ∷ s) (unwords-spaced (z ∷ zs) ys op (z, zs, refl) there)
    ∙ sym (append_assoc x (b' ' ∷ unwords (z ∷ zs)) (b' ' ∷ op ++ b' ' ∷ unwords ys))

unwords-cons : (t : Str) (ts : List Str) → IsSome ts → unwords (t ∷ ts) ≡ t ++ b' ' ∷ unwords ts
unfolding unwords
unwords-cons t [] (u, rest, e) = ground (arith, e)
unwords-cons t (u ∷ us) there = refl

written-IsSome : (e : ConditionExpr) → IsSome (written e)
unfolding written
written-IsSome (cond_compare x op v) = (x, _, refl)
written-IsSome (cond_not e) = (kw_not, _, refl)
written-IsSome (cond_and l r) =
    let (t, rest, e) = written-IsSome l in (t, _, ap (λ ts. ts ++ kw_and ∷ written r) e)
written-IsSome (cond_or l r) =
    let (t, rest, e) = written-IsSome l in (t, _, ap (λ ts. ts ++ kw_or ∷ written r) e)

kw-IsToken : IsToken kw_not × IsToken kw_and × IsToken kw_or
unfolding is_word_break is_operator_char is_quote_char
kw-IsToken =
    let plain : (c : ℕ) → leb b'a' c ≡ true → leb c b'z' ≡ true → IsPlain c = λ c low high. record {
      unbroken = ground (arith, low, high);
      unspaced = ground (arith, low, high);
      narrow = ground (arith, low, high);
    } in
    let p = λ (c : ℕ) (low : leb b'a' c ≡ true) (high : leb c b'z' ≡ true). plain c low high in
    (
      word refl (p b'n' refl refl, (p b'o' refl refl, (p b't' refl refl, tt))),
      word refl (p b'a' refl refl, (p b'n' refl refl, (p b'd' refl refl, tt))),
      word refl (p b'o' refl refl, (p b'r' refl refl, tt)),
    )

All-append : {A : Type 0} (P : A → Type 0) (xs ys : List A) → All P xs → All P ys → All P (xs ++ ys)
All-append P [] ys h k = k
All-append P (x ∷ xs) ys h k = (h.0, All-append P xs ys h.1 k)

literal_tokens : {e : ConditionExpr} → IsLiteral e → All IsToken (written e)
unfolding written
literal_tokens (compares c h x op v) = (x, (op, (v, tt)))
literal_tokens (negates l) = (kw-IsToken.0, literal_tokens l)

ands_tokens : {e : ConditionExpr} → IsAnds e → All IsToken (written e)
unfolding written
ands_tokens (literal_and l) = literal_tokens l
ands_tokens (ands {l} {r} a b) =
    All-append IsToken (written l) (kw_and ∷ written r) (ands_tokens a)
      (kw-IsToken.1, ands_tokens b)

ors_tokens : {e : ConditionExpr} → IsOrs e → All IsToken (written e)
unfolding written
ors_tokens (literal_or l) = literal_tokens l
ors_tokens (ors {l} {r} a b) =
    All-append IsToken (written l) (kw_or ∷ written r) (ors_tokens a) (kw-IsToken.2, ors_tokens b)

format-IsLiteral :
    {e : ConditionExpr} (parent : ℕ)
    → IsLiteral e
    → format_condition_expr e parent ≡ unwords (written e)
unfolding format_condition_expr written unwords
format-IsLiteral parent (compares c h x op v) = refl
format-IsLiteral parent (negates {e} l) =
    ap (λ s. bytes "not " ++ s) (format-IsLiteral prec_not l)
    ∙ sym (unwords-cons kw_not (written e) (written-IsSome e))

binary_bare :
    (left right op : Str) (prec parent : ℕ)
    → (parent ≡ 0) ⊎ (parent ≡ prec)
    → fmt_binary_cond_expr left right op prec parent ≡ spaced left op right
unfolding fmt_binary_cond_expr
binary_bare left right op prec parent h = ground (arith, h)

format-IsAnds :
    {e : ConditionExpr} (parent : ℕ)
    → (parent ≡ 0) ⊎ (parent ≡ prec_and)
    → IsAnds e
    → format_condition_expr e parent ≡ unwords (written e)
unfolding format_condition_expr written fmt_binary_cond_expr
format-IsAnds parent h (literal_and l) = format-IsLiteral parent l
format-IsAnds parent h (ands {l} {r} a b) =
    let joined =
      unwords-spaced (written l) (written r) kw_and (written-IsSome l) (written-IsSome r) in
    let left = format-IsAnds prec_and (inr refl) a in
    let right = format-IsAnds prec_and (inr refl) b in
    binary_bare _ _ kw_and prec_and parent h
    ∙ ap (λ s. spaced s kw_and (format_condition_expr r prec_and)) left
    ∙ ap (λ s. spaced (unwords (written l)) kw_and s) right
    ∙ sym joined

format-IsOrs :
    {e : ConditionExpr} (parent : ℕ)
    → (parent ≡ 0) ⊎ (parent ≡ prec_or)
    → IsOrs e
    → format_condition_expr e parent ≡ unwords (written e)
unfolding format_condition_expr written
format-IsOrs parent h (literal_or l) = format-IsLiteral parent l
format-IsOrs parent h (ors {l} {r} a b) =
    let joined =
      unwords-spaced (written l) (written r) kw_or (written-IsSome l) (written-IsSome r) in
    let left = format-IsOrs prec_or (inr refl) a in
    let right = format-IsOrs prec_or (inr refl) b in
    binary_bare _ _ kw_or prec_or parent h
    ∙ ap (λ s. spaced s kw_or (format_condition_expr r prec_or)) left
    ∙ ap (λ s. spaced (unwords (written l)) kw_or s) right
    ∙ sym joined

format-IsChain :
    {e : ConditionExpr}
    → IsChain e
    → (format_condition e ≡ unwords (written e)) × All IsToken (written e)
unfolding format_condition
format-IsChain (all_and a) = (format-IsAnds 0 (inl refl) a, ands_tokens a)
format-IsChain (all_or o) = (format-IsOrs 0 (inl refl) o, ors_tokens o)

-- Where a condition is a chain of one connective over possibly negated comparisons of words, without the
-- bytes 0xC2 and 0xE1 to 0xE3, with which white space beyond ASCII begins, its formatted text parses to the
-- chain grouped to the left, which evaluates to the same in every context.
pub parse_condition-format_condition :
    {e : ConditionExpr}
    → IsChain e
    → (parse_condition (format_condition e) ≡ ok (regroup e))
      × ((ctx : Map Str) (goal : Str)
          → eval_condition ctx goal (regroup e) ≡ eval_condition ctx goal e)
unfolding parse_condition
parse_condition-format_condition {e} chain =
    let (text, tokens) = format-IsChain chain in
    let read : tokenize_condition (format_condition e) ≡ written e =
      ap tokenize_condition text ∙ tokenize_condition-unwords (written e) tokens in
    (
      ap parse_tokens read
          ∙ (parse_tokens_iff (written e) (regroup e)).1 (Disjunction-IsChain chain),
      λ ctx goal. regroup-eval ctx goal e,
    )
