-- ===== src/Pattern/Broken.antt =====
-- A syntax error inside an expression leaves the start condition of the scanner behind. It spoils the
-- patterns that are read later.
use jab_simul.Shared.{
  ℕ, zero, suc, sym, subst, ◌≡◌, refl, ap, inl, inr, Bool, true, false, ◌||◌, Option, some, none,
  List, [], ◌∷◌, Text, length, ◌==◌, arith, Option-cases, Bool-cases,
}
use jab_simul.Shared.Int.{ℤ, pos}
use jab_simul.Pattern.{
  Mode, expression, Token, nothing_special, begin_expr, end_expr, number, rnd, Parse,
}
use jab_simul.Pattern.Printf.{is_digit}
use jab_simul.Pattern.Lexer.{
  strip, words, find_word, operators, find_operator, match_number, match_word, match_expression,
  match, scan, tokens,
}
use jab_simul.Pattern.Parser.{
  sprintf_pattern, yyparse, start, outcome, left_in, lexed, shift, before_expr, finish, checked,
}

-- Tokens other than a character and the begin and the end of an expression.
abbrev is_inner : Token → Bool
is_inner (nothing_special c) = false
is_inner begin_expr = false
is_inner (end_expr fmt) = false
is_inner _ = true

abbrev Inner {ℓ} : {A : Type ℓ} → List (A × Token) → Type 0
Inner [] = Unit {0}
Inner ((a, t) ∷ ts) = (is_inner t ≡ true) × Inner ts

find_operator-Inner :
    (ts : List (ℕ × Token)) (c : ℕ) (t : Token)
    → Inner ts
    → find_operator ts c ≡ some t
    → is_inner t ≡ true
unfolding find_operator
find_operator-Inner [] c t h e = cc
find_operator-Inner ((d, u) ∷ ts) c t h e = ground (arith, e, h.0, find_operator-Inner ts c t h.1)

find_word-Inner :
    (ws : List (Text × Token)) (s : Text) (t : Token) (r : Text)
    → Inner ws
    → find_word ws s ≡ some (t, r)
    → is_inner t ≡ true
unfolding find_word
find_word-Inner [] s t r h e = cc
find_word-Inner ((w, u) ∷ ws) s t r h e = elim (Option-cases (strip w s)) [
  | inl n ↦ ground (arith, n, find_word-Inner ws s t r h.1)
  | inr (k, n) ↦ ground (arith, e, n, h.0)
]

-- A match that gives no token takes one character, and one that gives a token gives an inner one.
abbrev Passes : Text → Option Token × Text → Type 0
Passes s (none, r) = r ≡ s
Passes s (some t, r) = is_inner t ≡ true

match_word-Passes : (c : ℕ) (s : Text) → Passes s (match_word c s)
unfolding match_word
match_word-Passes c s = elim (Option-cases (find_word words (c ∷ s))) [
  | inl n ↦ rw (match_word, n) refl
  | inr ((t, r), n) ↦
      rw (match_word, n)
        (find_word-Inner words (c ∷ s) t r
          (refl, (refl, (refl, (refl, (refl, (refl, (refl, (refl, tt)))))))) n)
]

match-Passes : (c : ℕ) (s : Text) → (c == b':') ≡ false → Passes s (match expression c s)
unfolding match match_expression match_number
match-Passes c s h = elim (Option-cases (find_operator operators c)) [
  | inr (t, n) ↦
      rw (match_expression, n)
        (find_operator-Inner operators c t
          (refl, (refl, (refl, (refl, (refl, (refl, (refl, tt))))))) n)
  | inl n ↦
      rw (match_expression, n, h)
        (elim (Bool-cases (is_digit c)) [
          | inl d ↦ rw d refl
          | inr d ↦ rw d (match_word-Passes c s)
        ])
]

unfoldable pub has_colon : Text → Bool
has_colon [] = false
has_colon (c ∷ s) = c == b':' || has_colon s

abbrev HeadInner : List Token → Type 0
HeadInner [] = Unit {0}
HeadInner (t ∷ ts) = is_inner t ≡ true

scan_step :
    (f c : ℕ) (s : Text) (m : Option Token × Text)
    → match expression c s ≡ m
    → Passes s m
    → HeadInner (scan f expression s)
    → HeadInner (scan (suc f) expression (c ∷ s))
unfolding scan
scan_step f c s (none, r) e k h =
    rw (scan, ap (λ (x : Option Token × Text). x.0) e)
      (subst (λ (x : Option Token × Text). HeadInner (scan f expression x.1)) (sym e)
        (subst (λ x. HeadInner (scan f expression x)) (sym k) h))
scan_step f c s (some t, r) e k h = rw (scan, ap (λ (x : Option Token × Text). x.0) e) k

scan-HeadInner : (f : ℕ) (s : Text) → has_colon s ≡ false → HeadInner (scan f expression s)
unfolding scan has_colon
scan-HeadInner zero s h = tt
scan-HeadInner (suc f) [] h = tt
scan-HeadInner (suc f) (c ∷ s) h =
    scan_step f c s (match expression c s) refl (match-Passes c s (ground (arith, h)))
      (scan-HeadInner f s (ground (arith, h)))

rejects :
    (idnum : ℤ) (random : ℕ → ℕ) (size : ℕ) (ts : List Token) (p : Parse) (old t : Text) (m : Mode)
    (d : ℕ)
    → HeadInner ts
    → outcome old (yyparse idnum random size ts start p) ≡ some (t, m, d)
    → (t ≡ left_in old p.out) × (m ≡ p.mode)
unfolding yyparse lexed shift before_expr finish
rejects idnum random size [] p old t m d h e = (cc, cc)
rejects idnum random size (nothing_special c ∷ ts) p old t m d h e = cc
rejects idnum random size (begin_expr ∷ ts) p old t m d h e = cc
rejects idnum random size (end_expr c ∷ ts) p old t m d h e = cc
rejects idnum random size (number n ∷ ts) p old t m d h e = elim (Option-cases (checked (pos n))) [
  | inl c ↦ ground (arith, c, e)
  | inr (v, c) ↦ ground (arith, c, e)
]
rejects idnum random size (rnd ∷ ts) p old t m d h e =
    elim (Option-cases (checked (pos (random p.drawn)))) [
      | inl c ↦ ground (arith, c, e)
      | inr (v, c) ↦ ground (arith, c, e)
    ]
rejects idnum random size (u ∷ ts) p old t m d h e = (cc, cc)

-- After a syntax error inside an expression, a pattern that has no colon prints nothing into its
-- buffer, and leaves the scanner where it was: so does every such pattern after it.
pub sprintf_pattern-stuck :
    (idnum : ℤ) (random : ℕ → ℕ) (size drawn : ℕ) (old pattern text : Text) (m : Mode) (d : ℕ)
    → has_colon pattern ≡ false
    → sprintf_pattern idnum random size expression drawn old pattern ≡ some (text, m, d)
    → (text ≡ old) × (m ≡ expression)
unfolding sprintf_pattern tokens
sprintf_pattern-stuck idnum random size drawn old pattern text m d h e =
    rejects idnum random size (tokens expression pattern)
      (record { mode = expression; drawn = drawn; out = none }) old text m d
      (scan-HeadInner (length pattern) pattern h) e
