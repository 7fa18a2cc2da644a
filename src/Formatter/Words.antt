-- ===== src/Formatter/Words.antt =====
-- Texts of words with one space between them, and the tokens that the condition parser reads in them.
use dippin_lang.Base.{
  Str, ℕ, zero, suc, ◌≤◌, List, [], ◌∷◌, ◌++◌, ◌≡◌, refl, sym, ap, subst, ◌∙◌, arith, true, false,
  ltb, length, length-append, drop-length_append, bytes, ◌==◌, All, trim_space, trim_with,
  space_size, last_space_size, is_space, eqb, leb, Bool, ◌||◌, ◌&&◌,
}
use mathlib.Core.List.{append-nil, append_assoc, reverse, reverse-append, reverse-reverse}
use dippin_lang.Condition.Token.{
  is_blank, skip_cond_whitespace, is_quote_char, is_operator_char, is_two_char_operator,
  is_word_break, scan_until, try_tokenize_quoted, try_tokenize_operator, try_tokenize_word,
  tokenize_one, tokenize_loop, tokenize_condition,
}

-- The first byte of white space beyond ASCII, in UTF-8.
abbrev pub begins_wide_space : ℕ → Bool
begins_wide_space c = eqb c 0xc2 || (leb 0xe1 c && leb c 0xe3)

-- A byte that the tokenizer passes on inside a word.
pub record IsPlain (c : ℕ) : Type 0 where
  pub unbroken : is_word_break c ≡ false
  pub unspaced : is_space c ≡ false
  pub narrow : begins_wide_space c ≡ false

-- What the tokenizer reads as one token: an operator, or plain bytes without a quote in front.
pub data IsToken : Str → Type 0 where
  word : {c : ℕ} {t : Str} → is_quote_char c ≡ false → All IsPlain (c ∷ t) → IsToken (c ∷ t)
  equals : IsToken (bytes "=")
  same : IsToken (bytes "==")
  differs : IsToken (bytes "!=")

unfoldable pub unwords : List Str → Str
unwords [] = []
unwords (t ∷ []) = t
unwords (t ∷ u ∷ us) = t ++ b' ' ∷ unwords (u ∷ us)

-- What stands behind a token: nothing, or a space.
data IsBehind : Str → Type 0 where
  nothing : IsBehind []
  space : {s : Str} → IsBehind (b' ' ∷ s)

scan_until-IsPlain :
    (t s : Str) → All IsPlain t → IsBehind s → scan_until is_word_break (t ++ s) ≡ t
unfolding scan_until is_word_break is_operator_char
scan_until-IsPlain [] _ h nothing = refl
scan_until-IsPlain [] _ h space = refl
scan_until-IsPlain (c ∷ t) s h b =
    rw (h.0.unbroken, scan_until) (ap (λ u. c ∷ u) (scan_until-IsPlain t s h.1 b))

no_operator : (c : ℕ) (s : Str) → is_word_break c ≡ false → try_tokenize_operator (c ∷ s) ≡ ([], 0)
unfolding is_word_break try_tokenize_operator
no_operator c s h = ground (arith, h)

tokenize_one-IsToken : (t s : Str) → IsToken t → IsBehind s → tokenize_one (t ++ s) ≡ (t, length t)
unfolding tokenize_one try_tokenize_quoted try_tokenize_operator try_tokenize_word
    is_two_char_operator ◌==◌
tokenize_one-IsToken _ _ equals nothing = refl
tokenize_one-IsToken _ _ equals space = refl
tokenize_one-IsToken _ s same b = refl
tokenize_one-IsToken _ s differs b = refl
tokenize_one-IsToken (c ∷ t) s (word unquoted plain) b =
    rw
      (
        unquoted,
        tokenize_one,
        no_operator c (t ++ s) plain.0.unbroken,
        scan_until-IsPlain (c ∷ t) s plain b,
      )
      refl

skip_cond_whitespace-IsToken : (t s : Str) → IsToken t → skip_cond_whitespace (t ++ s) ≡ t ++ s
unfolding skip_cond_whitespace is_word_break
skip_cond_whitespace-IsToken _ s equals = refl
skip_cond_whitespace-IsToken _ s same = refl
skip_cond_whitespace-IsToken _ s differs = refl
skip_cond_whitespace-IsToken (c ∷ t) s (word unquoted plain) =
    let plain_byte : is_blank c ≡ false = ground (arith, plain.0.unbroken) in
    rw (plain_byte, skip_cond_whitespace) refl

IsToken-length : {t : Str} → IsToken t → 1 ≤ length t
IsToken-length equals = omega arith
IsToken-length same = omega arith
IsToken-length differs = omega arith
IsToken-length (word unquoted plain) = omega arith

tokenize_loop-next :
    (fuel : ℕ) (t s : Str)
    → IsToken t
    → IsBehind s
    → tokenize_loop (suc fuel) (t ++ s) ≡ t ∷ tokenize_loop fuel s
unfolding tokenize_loop
tokenize_loop-next fuel [] s h b =
    let none_left : ⊥ = omega (arith, IsToken-length h) in absurd none_left
tokenize_loop-next fuel (c ∷ t) s h b =
    let consumed : ltb 0 (suc (length t)) ≡ true = ground arith in
    rw
      (
        skip_cond_whitespace-IsToken (c ∷ t) s h,
        tokenize_loop,
        tokenize_one-IsToken (c ∷ t) s h b,
        consumed,
        drop-length_append t s,
      )
      refl

tokenize_loop-nil : (fuel : ℕ) → tokenize_loop fuel [] ≡ []
unfolding tokenize_loop skip_cond_whitespace
tokenize_loop-nil zero = refl
tokenize_loop-nil (suc fuel) = refl

tokenize_loop-unwords :
    (fuel : ℕ) (ts : List Str)
    → All IsToken ts
    → length (unwords ts) ≤ fuel
    → tokenize_loop fuel (unwords ts) ≡ ts
unfolding unwords tokenize_loop skip_cond_whitespace
tokenize_loop-unwords fuel [] h le = tokenize_loop-nil fuel
tokenize_loop-unwords zero (t ∷ []) h le =
    let none_left : ⊥ = omega (arith, le, IsToken-length h.0) in absurd none_left
tokenize_loop-unwords (suc fuel) (t ∷ []) h le =
    ap (tokenize_loop (suc fuel)) (sym (append-nil t))
    ∙ tokenize_loop-next fuel t [] h.0 nothing
    ∙ ap (λ ts. t ∷ ts) (tokenize_loop-nil fuel)
tokenize_loop-unwords zero (t ∷ u ∷ us) h le =
    let none_left : ⊥ = omega (arith, le, length-append t (b' ' ∷ unwords (u ∷ us))) in
    absurd none_left
tokenize_loop-unwords (suc zero) (t ∷ u ∷ us) h le =
    let none_left : ⊥ =
      omega (arith, le, IsToken-length h.0, length-append t (b' ' ∷ unwords (u ∷ us))) in
    absurd none_left
tokenize_loop-unwords (suc (suc fuel)) (t ∷ u ∷ us) h le =
    let rest = unwords (u ∷ us) in
    tokenize_loop-next (suc fuel) t (b' ' ∷ rest) h.0 space
    ∙ ap (λ ts. t ∷ ts)
        (tokenize_loop-unwords (suc fuel) (u ∷ us) h.1
          (omega (arith, le, IsToken-length h.0, length-append t (b' ' ∷ rest))))

abbrev IsNarrow : ℕ → Type 0
IsNarrow c = begins_wide_space c ≡ false

-- A text that begins and ends with bytes that are not spaces, without white space beyond ASCII.
record IsTrim (s : Str) : Type 0 where
  first : ℕ
  rest : Str
  front : s ≡ first ∷ rest
  first_unspaced : is_space first ≡ false
  init : Str
  last : ℕ
  back : s ≡ init ++ last ∷ []
  last_unspaced : is_space last ≡ false
  narrow : All IsNarrow s

space_size-IsNarrow :
    (c : ℕ) (s : Str) → is_space c ≡ false → All IsNarrow (c ∷ s) → space_size (c ∷ s) ≡ 0
unfolding space_size
space_size-IsNarrow c [] h n = rw h refl
space_size-IsNarrow c (b ∷ []) h n = ground (arith, h, n.0)
space_size-IsNarrow c (b ∷ a ∷ s) h n = ground (arith, h, n.0)

last_space_size-IsNarrow :
    (c : ℕ) (s : Str) → is_space c ≡ false → All IsNarrow (c ∷ s) → last_space_size (c ∷ s) ≡ 0
unfolding last_space_size
last_space_size-IsNarrow c [] h n = rw h refl
last_space_size-IsNarrow c (b ∷ []) h n = ground (arith, h, n.1.0)
last_space_size-IsNarrow c (b ∷ a ∷ s) h n = ground (arith, h, n.1.0, n.1.1.0)

trim_with-none :
    (size : Str → ℕ) (s : Str) (c : ℕ) (t : Str)
    → s ≡ c ∷ t
    → size (c ∷ t) ≡ 0
    → trim_with size 0 s ≡ s
unfolding trim_with
trim_with-none size s c t e h = subst (λ x. trim_with size 0 x ≡ x) (sym e) (rw (h, trim_with) refl)

IsNarrow-reverse : (s t : Str) → All IsNarrow s → All IsNarrow t → All IsNarrow (reverse s ++ t)
IsNarrow-reverse [] t h k = k
IsNarrow-reverse (c ∷ s) t h k =
    subst (All IsNarrow)
      (sym (ap (λ x. x ++ t) (reverse-append (c ∷ []) s) ∙ append_assoc (reverse s) (c ∷ []) t))
      (IsNarrow-reverse s (c ∷ t) h.1 (h.0, k))

trim_space-IsTrim : (s : Str) → IsTrim s → trim_space s ≡ s
unfolding trim_space
trim_space-IsTrim s h =
    let turned : reverse s ≡ h.last ∷ reverse h.init =
      ap reverse h.back ∙ reverse-append h.init (h.last ∷ []) in
    let forth = subst (All IsNarrow) h.front h.narrow in
    let back : All IsNarrow (reverse s) =
      subst (All IsNarrow) (append-nil (reverse s)) (IsNarrow-reverse s [] h.narrow tt) in
    rw
      (
        trim_with-none space_size s h.first h.rest h.front
            (space_size-IsNarrow h.first h.rest h.first_unspaced forth),
        trim_with-none last_space_size (reverse s) h.last (reverse h.init) turned (
            last_space_size-IsNarrow h.last (reverse h.init) h.last_unspaced
              (subst (All IsNarrow) turned back)),
      )
      (reverse-reverse s)

last_plain :
    (c : ℕ) (t : Str)
    → All IsPlain (c ∷ t)
    → (init : Str) × (last : ℕ) × (c ∷ t ≡ init ++ last ∷ []) × (is_space last ≡ false)
last_plain c [] h = ([], c, refl, h.0.unspaced)
last_plain c (d ∷ t) h =
    let (init, last, split, unspaced) = last_plain d t h.1 in
    (c ∷ init, last, ap (λ u. c ∷ u) split, unspaced)

IsPlain-IsNarrow : (s : Str) → All IsPlain s → All IsNarrow s
IsPlain-IsNarrow [] h = tt
IsPlain-IsNarrow (c ∷ s) h = (h.0.narrow, IsPlain-IsNarrow s h.1)

IsNarrow-append : (s t : Str) → All IsNarrow s → All IsNarrow t → All IsNarrow (s ++ t)
IsNarrow-append [] t h k = k
IsNarrow-append (c ∷ s) t h k = (h.0, IsNarrow-append s t h.1 k)

IsToken-IsTrim : (t : Str) → IsToken t → IsTrim t
IsToken-IsTrim _ equals = record {
  first = b'=';
  rest = [];
  front = refl;
  first_unspaced = refl;
  init = [];
  last = b'=';
  back = refl;
  last_unspaced = refl;
  narrow = ground arith;
}
IsToken-IsTrim _ same = record {
  first = b'=';
  rest = _;
  front = refl;
  first_unspaced = refl;
  init = bytes "=";
  last = b'=';
  back = refl;
  last_unspaced = refl;
  narrow = ground arith;
}
IsToken-IsTrim _ differs = record {
  first = b'!';
  rest = _;
  front = refl;
  first_unspaced = refl;
  init = bytes "!";
  last = b'=';
  back = refl;
  last_unspaced = refl;
  narrow = ground arith;
}
IsToken-IsTrim (c ∷ t) (word unquoted plain) =
    let (init, last, split, unspaced) = last_plain c t plain in
    record {
      first = c;
      rest = t;
      front = refl;
      first_unspaced = plain.0.unspaced;
      init = init;
      last = last;
      back = split;
      last_unspaced = unspaced;
      narrow = IsPlain-IsNarrow (c ∷ t) plain;
    }

unwords-IsTrim : (t : Str) (ts : List Str) → All IsToken (t ∷ ts) → IsTrim (unwords (t ∷ ts))
unfolding unwords
unwords-IsTrim t [] h = IsToken-IsTrim t h.0
unwords-IsTrim t (u ∷ us) h =
    let word = IsToken-IsTrim t h.0 in
    let behind = unwords-IsTrim u us h.1 in
    let text = unwords (u ∷ us) in
    record {
      first = word.first;
      rest = word.rest ++ b' ' ∷ text;
      front = ap (λ s. s ++ b' ' ∷ text) word.front;
      first_unspaced = word.first_unspaced;
      init = t ++ b' ' ∷ behind.init;
      last = behind.last;
      back =
          ap (λ s. t ++ b' ' ∷ s) behind.back
          ∙ sym (append_assoc t (b' ' ∷ behind.init) (behind.last ∷ []));
      last_unspaced = behind.last_unspaced;
      narrow = IsNarrow-append t (b' ' ∷ text) word.narrow (refl, behind.narrow);
    }

-- The tokens of words with a space between them are the words.
pub tokenize_condition-unwords :
    (ts : List Str) → All IsToken ts → tokenize_condition (unwords ts) ≡ ts
unfolding tokenize_condition unwords trim_with
tokenize_condition-unwords [] h = refl
tokenize_condition-unwords (t ∷ ts) h =
    let trimmed = trim_space-IsTrim (unwords (t ∷ ts)) (unwords-IsTrim t ts h) in
    rw (tokenize_condition, trimmed)
      (tokenize_loop-unwords (length (unwords (t ∷ ts))) (t ∷ ts) h (omega arith))
