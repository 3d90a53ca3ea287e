-- ===== src/Pattern/Render.antt =====
-- Patterns as they stand in the configuration file: the characters of their tokens, and that the
-- scanner finds these tokens again.
use jab_simul.Shared.{
  ℕ, zero, suc, ◌+◌, ◌-◌, ◌*◌, ◌/◌, ◌%◌, ◌^◌, ◌<◌, ◌≡◌, refl, ap, ◌∙◌, sym, inl, inr, Bool, true,
  false, ◌&&◌, some, List, [], ◌∷◌, ◌++◌, append_assoc, Text, codes, ltb, ◌==◌, if◌then◌else◌,
  Bool-cases, arith,
}
use native.Mathlib.Nat.{pow-succ'}
use jab_simul.Ids.{digits_of, print_unsigned}
use jab_simul.Pattern.{
  Mode, initial, expression, Token, nothing_special, begin_expr, end_expr, op_plus, op_minus,
  op_mul, op_div, op_mod, number, index, rnd, lnawias, pnawias,
}
use jab_simul.Pattern.Printf.{is_digit}
use jab_simul.Pattern.Lexer.{
  strip, close, digits, find_word, find_operator, match_initial, match_colon, match_number,
  match_word, match_expression, match, mode_after, tokens,
}
use jab_simul.Pattern.Scan.{tokens-match}
use jab_simul.Pattern.Meaning.{Piece, spell_pieces}

-- The characters of a token.
unfoldable pub text_of : Token → Text
text_of (nothing_special c) = c ∷ []
text_of begin_expr = codes "%("
text_of (end_expr fmt) = b':' ∷ (fmt ++ b')' ∷ [])
text_of op_plus = codes "+"
text_of op_minus = codes "-"
text_of op_mul = codes "*"
text_of op_div = codes "/"
text_of op_mod = codes "%"
text_of (number n) = print_unsigned n
text_of index = codes "num"
text_of rnd = codes "rnd"
text_of lnawias = codes "("
text_of pnawias = codes ")"

unfoldable pub text_of_all : List Token → Text
unfolding text_of
text_of_all [] = []
text_of_all (t ∷ ts) = text_of t ++ text_of_all ts

unfoldable pub render : List Piece → Text
unfolding text_of_all spell_pieces
render xs = text_of_all (spell_pieces xs)

abbrev pub begins_with : (ℕ → Bool) → Text → Bool
begins_with p [] = false
begins_with p (c ∷ s) = p c

unfoldable pub has_paren : Text → Bool
has_paren [] = false
has_paren (c ∷ s) = if c == b')' then true else has_paren s

-- What a token needs, in a mode and before a text, to be found again.
abbrev pub Fits : Mode → Token → Text → Type 0
Fits initial (nothing_special c) rest =
    ((c == b'\n') ≡ false) × (((c == b'%') && begins_with (λ d. d == b'(') rest) ≡ false)
Fits initial begin_expr rest = Unit {0}
Fits initial _ rest = ⊥
Fits expression (nothing_special c) rest = ⊥
Fits expression begin_expr rest = ⊥
Fits expression (end_expr fmt) rest = has_paren fmt ≡ false
Fits expression (number n) rest = (n < 10 ^ 10) × (begins_with is_digit rest ≡ false)
Fits expression _ rest = Unit {0}

close-append : (fmt s : Text) → has_paren fmt ≡ false → close (fmt ++ b')' ∷ s) ≡ some (fmt, s)
unfolding close has_paren
close-append [] s h = refl
close-append (c ∷ fmt) s h = elim (Bool-cases (c == b')')) [
  | inl e ↦ ground (arith, h, e)
  | inr e ↦ rw (e, close-append fmt s (ground (arith, h, e)))
]

digits_stop : (n : ℕ) (s : Text) → begins_with is_digit s ≡ false → digits n s ≡ (n, s)
unfolding digits
digits_stop n [] h = refl
digits_stop n (c ∷ s) h = rw h

is_digit_lem : (d : ℕ) → d < 10 → is_digit (48 + d) ≡ true
is_digit_lem d h = ground arith

digit_step : (acc d : ℕ) (s : Text) → d < 10 → digits acc ((48 + d) ∷ s) ≡ digits (acc * 10 + d) s
unfolding digits
digit_step acc d s h =
    rw (is_digit_lem d h)
      (ap (λ k. digits (acc * 10 + k) s) (let e : 48 + d - 48 ≡ d = omega arith in e))

digits-digits_of : (f n : ℕ) (s : Text) → n < 10 ^ f → digits 0 (digits_of f n ++ s) ≡ digits n s
unfolding digits_of
digits-digits_of zero n s h = ap (λ k. digits k s) (let e : 0 ≡ n = omega arith in e)
digits-digits_of (suc f) n s h = elim (Bool-cases (ltb n 10)) [
  | inl e ↦ rw e (
      digit_step 0 n s (ground (arith, e))
      ∙ ap (λ k. digits k s) (let z : 0 * 10 + n ≡ n = omega arith in z))
  | inr e ↦
      rw (e, append_assoc)
        (digits-digits_of f (n / 10) ((48 + n % 10) ∷ s) (omega (arith, pow-succ' 10 f))
          ∙ digit_step (n / 10) (n % 10) s (omega arith)
          ∙ ap (λ k. digits k s) (let e : n / 10 * 10 + n % 10 ≡ n = omega arith in e))
]

-- A printed number begins with a digit.
head_digit : (f n : ℕ) → (d : ℕ) × (ds : Text) × (d < 10) × (digits_of (suc f) n ≡ (48 + d) ∷ ds)
unfolding digits_of
head_digit zero n = elim (Bool-cases (ltb n 10)) [
  | inl e ↦ (n, [], ground (arith, e), rw e)
  | inr e ↦ (n % 10, [], omega arith, rw e)
]
head_digit (suc f) n = elim (Bool-cases (ltb n 10)) [
  | inl e ↦ (n, [], ground (arith, e), rw e)
  | inr e ↦
      let (d, ds, small, eq) = head_digit f (n / 10) in
      (d, ds ++ (48 + n % 10) ∷ [], small, rw e (ap (λ (t : Text). t ++ (48 + n % 10) ∷ []) eq))
]

match-digit : (d : ℕ) (s : Text) → d < 10 → match expression (48 + d) s ≡ match_number (48 + d) s
unfolding match match_expression
match-digit d s h = ground (arith, h)

match_number-print :
    (n d : ℕ) (ds s : Text)
    → n < 10 ^ 10
    → begins_with is_digit s ≡ false
    → print_unsigned n ≡ (48 + d) ∷ ds
    → match_number (48 + d) (ds ++ s) ≡ (some (number n), s)
unfolding match_number print_unsigned
match_number-print n d ds s h stop e =
    let whole : digits 0 ((48 + d) ∷ (ds ++ s)) ≡ (n, s) =
      rw (ap (λ (t : Text). digits 0 (t ++ s)) (sym e))
        (digits-digits_of 10 n s h ∙ digits_stop n s stop) in
    rw whole

number_found :
    (n : ℕ) (s : Text)
    → n < 10 ^ 10
    → begins_with is_digit s ≡ false
    → tokens expression (print_unsigned n ++ s) ≡ number n ∷ tokens expression s
unfolding print_unsigned mode_after
number_found n s h stop =
    let (d, ds, small, e) = head_digit 9 n in
    rw e (
      tokens-match expression (48 + d) (ds ++ s)
        (match-digit d (ds ++ s) small ∙ match_number-print n d ds s h stop e))

match_initial_lem :
    (c : ℕ) (s : Text)
    → (c == b'\n') ≡ false
    → ((c == b'%') && begins_with (λ d. d == b'(') s) ≡ false
    → match_initial c s ≡ (some (nothing_special c), s)
unfolding match_initial strip
match_initial_lem c [] line fits = ground (arith, line, fits)
match_initial_lem c (d ∷ s) line fits = ground (arith, line, fits)

match_colon_lem :
    (fmt s : Text)
    → has_paren fmt ≡ false
    → match_colon ((fmt ++ b')' ∷ []) ++ s) ≡ (some (end_expr fmt), s)
unfolding match_colon
match_colon_lem fmt s h = rw (append_assoc, match_colon, close-append fmt s h)

-- A token that fits is the first that the scanner finds.
pub first_found :
    (m : Mode) (t : Token) (s : Text)
    → Fits m t s
    → tokens m (text_of t ++ s) ≡ t ∷ tokens (mode_after t m) s
unfolding text_of match match_initial match_expression match_colon find_operator find_word
    match_word strip mode_after
first_found initial (nothing_special c) s fit =
    tokens-match initial c s (match_initial_lem c s fit.0 fit.1)
first_found initial begin_expr s fit = tokens-match initial b'%' (b'(' ∷ s) refl
first_found initial (end_expr _) s fit = absurd fit
first_found initial op_plus s fit = absurd fit
first_found initial op_minus s fit = absurd fit
first_found initial op_mul s fit = absurd fit
first_found initial op_div s fit = absurd fit
first_found initial op_mod s fit = absurd fit
first_found initial (number _) s fit = absurd fit
first_found initial index s fit = absurd fit
first_found initial rnd s fit = absurd fit
first_found initial lnawias s fit = absurd fit
first_found initial pnawias s fit = absurd fit
first_found expression (nothing_special c) s fit = absurd fit
first_found expression begin_expr s fit = absurd fit
first_found expression (end_expr fmt) s fit =
    tokens-match expression b':' ((fmt ++ b')' ∷ []) ++ s) (match_colon_lem fmt s fit)
first_found expression op_plus s fit = tokens-match expression b'+' s refl
first_found expression op_minus s fit = tokens-match expression b'-' s refl
first_found expression op_mul s fit = tokens-match expression b'*' s refl
first_found expression op_div s fit = tokens-match expression b'/' s refl
first_found expression op_mod s fit = tokens-match expression b'%' s refl
first_found expression (number n) s fit = number_found n s fit.0 fit.1
first_found expression index s fit = tokens-match expression b'n' (codes "um" ++ s) refl
first_found expression rnd s fit = tokens-match expression b'r' (codes "nd" ++ s) refl
first_found expression lnawias s fit = tokens-match expression b'(' s refl
first_found expression pnawias s fit = tokens-match expression b')' s refl
