-- ===== src/Pattern/Scan.antt =====
-- The scanner of Pattern.Lexer ends: every match takes a character, so the length is fuel enough.
use jab_simul.Shared.{
  ℕ, zero, suc, ◌+◌, ◌-◌, ◌*◌, ◌≤◌, ◌<◌, ◌≡◌, refl, ap, ◌∙◌, inl, inr, true, Option, some, List, [],
  ◌∷◌, Text, codes, length, ◌==◌, if◌then◌else◌, Option-cases, Bool-cases, arith,
}
use jab_simul.Pattern.{Mode, initial, expression, Token}
use jab_simul.Pattern.Printf.{is_digit}
use jab_simul.Pattern.Lexer.{
  strip, close, digits, words, find_word, operators, find_operator, match_initial, match_colon,
  match_number, match_word, match_expression, match, mode_after, scan, tokens,
}

strip-le : (w s r : Text) → strip w s ≡ some r → length w + length r ≤ length s
unfolding strip
strip-le [] s r h = ground arith
strip-le (w ∷ ws) [] r h = ground arith
strip-le (w ∷ ws) (c ∷ s) r h = ground (arith, strip-le ws s r)

close-lt : (s t r : Text) → close s ≡ some (t, r) → length r < length s
unfolding close
close-lt [] t r h = ground arith
close-lt (c ∷ s) t r h = elim (Option-cases (close s)) [
  | inl n ↦ ground (arith, n)
  | inr ((x, y), e) ↦ ground (arith, e, close-lt s x y e)
]

digits-le : (n : ℕ) (s : Text) → length (digits n s).1 ≤ length s
unfolding digits
digits-le n [] = omega arith
digits-le n (c ∷ s) = ground (arith, digits-le (n * 10 + (c - 48)) s)

-- The words are not empty.
abbrev Nonempty : List (Text × Token) → Type 0
Nonempty [] = Unit {0}
Nonempty ((w, t) ∷ ws) = (1 ≤ length w) × Nonempty ws

find_word-lt :
    (ws : List (Text × Token)) (s : Text) (t : Token) (r : Text)
    → Nonempty ws
    → find_word ws s ≡ some (t, r)
    → length r < length s
unfolding find_word
find_word-lt [] s t r n h = ground arith
find_word-lt ((w, u) ∷ ws) s t r n h = elim (Option-cases (strip w s)) [
  | inl e ↦ ground (arith, e, find_word-lt ws s t r n.1)
  | inr (r', e) ↦ ground (arith, e, strip-le w s r' e, n.0)
]

match_word-le : (c : ℕ) (s : Text) → length (match_word c s).1 ≤ length s
unfolding match_word
match_word-le c s = elim (Option-cases (find_word words (c ∷ s))) [
  | inl e ↦ rw (length, e) (omega arith)
  | inr ((t, r), e) ↦ rw (length, e) (omega (arith, find_word-lt words (c ∷ s) t r (omega arith) e))
]

match_colon-le : (s : Text) → length (match_colon s).1 ≤ length s
unfolding match_colon
match_colon-le s = elim (Option-cases (close s)) [
  | inl e ↦ rw (length, e) (omega arith)
  | inr ((t, r), e) ↦ rw (length, e) (omega (arith, close-lt s t r e))
]

match_number-le : (c : ℕ) (s : Text) → is_digit c ≡ true → length (match_number c s).1 ≤ length s
unfolding match_number digits
match_number-le c s h = rw h (digits-le (0 * 10 + (c - 48)) s)

match_initial-le : (c : ℕ) (s : Text) → length (match_initial c s).1 ≤ length s
unfolding match_initial
match_initial-le c s = elim (Option-cases (strip (codes "%(") (c ∷ s))) [
  | inl e ↦ rw e (ground arith)
  | inr (r, e) ↦ rw e (ground (arith, strip-le (codes "%(") (c ∷ s) r e))
]

match_expression-le : (c : ℕ) (s : Text) → length (match_expression c s).1 ≤ length s
unfolding match_expression
match_expression-le c s = elim (Option-cases (find_operator operators c)) [
  | inr (t, e) ↦ rw (length, e) (omega arith)
  | inl e ↦ rw (length, e) (otherwise c s)
]
  where
    otherwise :
        (c : ℕ) (s : Text)
        → length
            (if c == b':'
              then match_colon s
              else if is_digit c
              then match_number c s
              else match_word c s).1
          ≤ length s
    otherwise c s = elim (Bool-cases (is_digit c)) [
      | inl d ↦ ground (arith, match_colon-le s, match_number-le c s d)
      | inr d ↦ ground (arith, match_colon-le s, match_word-le c s)
    ]

pub match-le : (m : Mode) (c : ℕ) (s : Text) → length (match m c s).1 ≤ length s
unfolding match
match-le initial c s = match_initial-le c s
match-le expression c s = match_expression-le c s

same_scan : (f g : ℕ) (m : Mode) (s : Text) → length s ≤ f → length s ≤ g → scan f m s ≡ scan g m s
unfolding scan
same_scan zero zero m s hf hg = refl
same_scan zero (suc g) m [] hf hg = refl
same_scan zero (suc g) m (c ∷ s) hf hg = absurd (omega arith)
same_scan (suc f) zero m [] hf hg = refl
same_scan (suc f) zero m (c ∷ s) hf hg = absurd (omega arith)
same_scan (suc f) (suc g) m [] hf hg = refl
same_scan (suc f) (suc g) m (c ∷ s) hf hg = elim (Option-cases (match m c s).0) [
  | inl e ↦
      rw (scan, e)
        (same_scan f g m (match m c s).1 (omega (arith, match-le m c s))
          (omega (arith, match-le m c s)))
  | inr (t, e) ↦
      rw (scan, e)
        (ap (◌∷◌ t) (
          same_scan f g (mode_after t m) (match m c s).1 (omega (arith, match-le m c s))
            (omega (arith, match-le m c s))))
]

-- The scanner comes to the end of every text: with at least as many matches as the text has
-- characters, more of them find no further token.
pub scan-tokens : (fuel : ℕ) (m : Mode) (s : Text) → length s ≤ fuel → scan fuel m s ≡ tokens m s
unfolding tokens
scan-tokens fuel m s h = same_scan fuel (length s) m s h (omega arith)

-- One match at a time.
pub tokens-match :
    (m : Mode) (c : ℕ) (s : Text) {t : Token} {r : Text}
    → match m c s ≡ (some t, r)
    → tokens m (c ∷ s) ≡ t ∷ tokens (mode_after t m) r
unfolding tokens scan
tokens-match m c s {t} {r} h =
    rw (scan, ap (λ (x : Option Token × Text). x.0) h)
      (ap (◌∷◌ t) (
        scan-tokens (length s) (mode_after t m) (match m c s).1 (match-le m c s)
        ∙ ap (λ (x : Option Token × Text). tokens (mode_after t m) x.1) h))
