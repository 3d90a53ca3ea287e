-- ===== src/Tls/Reads.antt =====
-- What jab_ssl_read of jab_simul/jab_simul-ssl.c stores and returns.
use jab_simul.Shared.{
  ℕ, zero, suc, ◌-◌, ◌≤◌, ◌<◌, ◌≡◌, refl, ap, ◌∙◌, ◌⊎◌, inl, inr, [], ◌∷◌, ◌++◌, append_assoc,
  append-nil, Option, none, some, Bool, true, false, Text, length, length-append, ltb, ◌==◌,
  if◌then◌else◌, Bool-cases, Option-cases, arith,
}
use jab_simul.Shared.Int.{ℤ, pos, negsuc}
use jab_simul.Tls.{
  Handshake, done, wants, broken, ReadAnswer, got, gone, Ssl, Answer, refused, shake, read_loop,
  read_result, jab_ssl_read,
}

-- SSL_read gives no more bytes than it is asked for.
abbrev pub FitsRead : (ℕ → ℕ → ReadAnswer) → Type 0
FitsRead read = (k count c : ℕ) (cs : Text) → read k count ≡ got c cs → length (c ∷ cs) ≤ count

-- What the answers from the k-th on give for `count` bytes, apart from any buffer: bytes up to the
-- first answer without one, or until `count` is used up, and the result of the last call.
pub data Yields (read : ℕ → ℕ → ReadAnswer) : ℕ → ℕ → Text → ReadAnswer → Type 0 where
  stops :
      (k count : ℕ) (ret : ℤ) (waits : Bool)
      → read k count ≡ gone ret waits
      → Yields read k count [] (gone ret waits)
  fills :
      (k count c : ℕ) (cs : Text)
      → read k count ≡ got c cs
      → length (c ∷ cs) ≡ count
      → Yields read k count (c ∷ cs) (got c cs)
  goes_on :
      (k count c : ℕ) (cs rest : Text) (last : ReadAnswer)
      → read k count ≡ got c cs
      → length (c ∷ cs) < count
      → Yields read (suc k) (count - length (c ∷ cs)) rest last
      → Yields read k count ((c ∷ cs) ++ rest) last

Yields-le :
    (read : ℕ → ℕ → ReadAnswer) {k count : ℕ} {rest : Text} {last : ReadAnswer}
    → Yields read k count rest last
    → length rest ≤ count
Yields-le read (stops k count ret waits e) = omega arith
Yields-le read (fills k count c cs e full) = omega (arith, full)
Yields-le read (goes_on k count c cs rest last e less more) =
    omega (arith, length-append (c ∷ cs) rest, less, Yields-le read more)

-- The loop comes to an end within `count` calls.
abbrev LoopEnds : ℕ → (ℕ → ℕ → ReadAnswer) → ℕ → ℕ → Text → Type 0
LoopEnds fuel read k count stored =
    (rest : Text) × (last : ReadAnswer) × (read_loop fuel read k count stored
      ≡ some (stored ++ rest, last))
    × Yields read k count rest last

loop_more :
    (fuel : ℕ) (read : ℕ → ℕ → ReadAnswer) (k count c : ℕ) (stored cs : Text)
    → read k count ≡ got c cs
    → ltb 0 (count - length (c ∷ cs)) ≡ true
    → read_loop (suc fuel) read k count stored
      ≡ read_loop fuel read (suc k) (count - length (c ∷ cs)) (stored ++ c ∷ cs)
unfolding read_loop
loop_more fuel read k count c stored cs e less = rw (read_loop, e, less) refl

loop_step :
    (fuel : ℕ) (read : ℕ → ℕ → ReadAnswer) (k count : ℕ) (stored : Text) (a : ReadAnswer)
    → read k count ≡ a
    → FitsRead read
    → ((left : ℕ) (now : Text) → 0 < left → left < count → LoopEnds fuel read (suc k) left now)
    → LoopEnds (suc fuel) read k count stored
unfolding read_loop
loop_step fuel read k count stored (gone ret waits) e fits ih =
    ([], gone ret waits, rw (read_loop, e, append-nil) refl, stops k count ret waits e)
loop_step fuel read k count stored (got c cs) e fits ih =
    elim (Bool-cases (ltb 0 (count - length (c ∷ cs)))) [
      | inr full ↦ (
        c ∷ cs,
        got c cs,
        rw (read_loop, e, full) refl,
        fills k count c cs e (ground (arith, full, fits k count c cs e)),
      )
      | inl less ↦
          let (rest, last, eq, more) =
            ih (count - length (c ∷ cs)) (stored ++ c ∷ cs) (ground (arith, less))
              (ground (arith, less)) in
          (
            (c ∷ cs) ++ rest,
            last,
            loop_more fuel read k count c stored cs e less
                ∙ eq
                ∙ ap (λ (t : Text). some (t, last)) (append_assoc stored (c ∷ cs) rest),
            goes_on k count c cs rest last e (ground (arith, less)) more,
          )
    ]

read_loop-ends :
    (fuel : ℕ) (read : ℕ → ℕ → ReadAnswer) (k count : ℕ) (stored : Text)
    → FitsRead read
    → 0 < count
    → count ≤ fuel
    → LoopEnds fuel read k count stored
read_loop-ends zero read k count stored fits some_left enough = absurd (omega arith)
read_loop-ends (suc fuel) read k count stored fits some_left enough =
    loop_step fuel read k count stored (read k count) refl fits (λ left now some_more less.
      read_loop-ends fuel read (suc k) left now fits some_more (omega arith))

-- How a call ends: what it returns is the number of bytes that it stored, or -1 with none stored; it
-- stores no more than `count`, says `blocked` only with -1, and what it stored is what the answers
-- of SSL_read gave, from the first call on, if the handshake was over and something was asked for.
pub record ReadEnds (ssl : Ssl) (count : ℕ) (a : Answer) : Type 0 where
  pub bounded : length a.stored ≤ count
  pub counted : (a.ret ≡ pos (length a.stored)) ⊎ ((a.ret ≡ negsuc 0) × (a.stored ≡ []))
  pub blocked_fails : a.blocked ≡ true → a.ret ≡ negsuc 0
  pub source :
      0 < count → shake ssl ≡ none → (last : ReadAnswer) × Yields ssl.read 0 count a.stored last

result-ReadEnds :
    (ssl : Ssl) (count : ℕ) (bytes : Text) (last : ReadAnswer)
    → Yields ssl.read 0 count bytes last
    → ReadEnds ssl count (read_result bytes last)
unfolding read_result
result-ReadEnds ssl count [] (gone (negsuc zero) waits) y = record {
  bounded = omega arith;
  counted = inr (refl, refl);
  blocked_fails = λ _. refl;
  source = λ _ _. (gone (negsuc zero) waits, y);
}
result-ReadEnds ssl count [] (gone (negsuc (suc n)) waits) y = record {
  bounded = omega arith;
  counted = inl refl;
  blocked_fails = λ e. cc;
  source = λ _ _. (gone (negsuc (suc n)) waits, y);
}
result-ReadEnds ssl count [] (gone (pos n) waits) y = record {
  bounded = omega arith;
  counted = inl refl;
  blocked_fails = λ e. cc;
  source = λ _ _. (gone (pos n) waits, y);
}
result-ReadEnds ssl count [] (got c cs) y = record {
  bounded = omega arith;
  counted = inl refl;
  blocked_fails = λ e. cc;
  source = λ _ _. (got c cs, y);
}
result-ReadEnds ssl count (b ∷ bs) last y = record {
  bounded = Yields-le ssl.read y;
  counted = inl refl;
  blocked_fails = λ e. cc;
  source = λ _ _. (last, y);
}

shake-refused : (ssl : Ssl) (a : Answer) → shake ssl ≡ some a → (b : Bool) × (a ≡ refused b)
unfolding shake
shake-refused ssl a e = go ssl.state_ok ssl.connect e
  where
    go :
        (ok : Bool) (h : Handshake)
        → (if ok then none else elim h as (λ _. Option Answer) [
          | done ↦ none
          | wants ↦ some (refused true)
          | broken ↦ some (refused false)
        ])
          ≡ some a
        → (b : Bool) × (a ≡ refused b)
    go true h e = absurd (cc)
    go false done e = absurd (cc)
    go false wants e = (true, cc)
    go false broken e = (false, cc)

refused-ReadEnds :
    (ssl : Ssl) (count : ℕ) (blocked : Bool)
    → shake ssl ≡ some (refused blocked)
    → ReadEnds ssl count (refused blocked)
refused-ReadEnds ssl count blocked e = record {
  bounded = omega arith;
  counted = inr (refl, refl);
  blocked_fails = λ _. refl;
  source = λ _ h. absurd (cc);
}

not_zero : (n : ℕ) → (suc n == 0) ≡ false
not_zero n = ground arith

read_refused :
    (ssl : Ssl) (n : ℕ) (a : Answer) → shake ssl ≡ some a → jab_ssl_read ssl (suc n) ≡ some a
unfolding jab_ssl_read
read_refused ssl n a e = rw (not_zero n, e) refl

read_done :
    (ssl : Ssl) (n : ℕ) (stored : Text) (last : ReadAnswer)
    → shake ssl ≡ none
    → read_loop (suc n) ssl.read 0 (suc n) [] ≡ some (stored, last)
    → jab_ssl_read ssl (suc n) ≡ some (read_result stored last)
unfolding jab_ssl_read
read_done ssl n stored last e l = rw (not_zero n, e, l) refl

-- jab_ssl_read comes to an end, within `count` calls of SSL_read, if SSL_read gives no more bytes than
-- it is asked for. It then stored at most `count` bytes, and returns their number, or -1 if there are
-- none; `blocked` is set only with -1. With the handshake over, what it stored is what SSL_read gave,
-- in order, up to the first answer without a byte or until `count` bytes came.
pub jab_ssl_read-ReadEnds :
    (ssl : Ssl) (count : ℕ)
    → FitsRead ssl.read
    → (a : Answer) × (jab_ssl_read ssl count ≡ some a) × ReadEnds ssl count a
unfolding jab_ssl_read
jab_ssl_read-ReadEnds ssl zero fits = (
  record { ret = pos 0; blocked = false; stored = [] },
  refl,
  record {
    bounded = omega arith;
    counted = inl refl;
    blocked_fails = λ e. cc;
    source = λ h. absurd (omega arith);
  },
)
jab_ssl_read-ReadEnds ssl (suc n) fits = elim (Option-cases (shake ssl)) [
  | inr (a, e) ↦
      let (b, same) = shake-refused ssl a e in
      (
        refused b,
        read_refused ssl n (refused b) (e ∙ ap some same),
        refused-ReadEnds ssl (suc n) b (e ∙ ap some same),
      )
  | inl e ↦
      let (rest, last, eq, y) =
        read_loop-ends (suc n) ssl.read 0 (suc n) [] fits (omega arith) (omega arith) in
      (
        read_result rest last,
        read_done ssl n rest last e eq,
        result-ReadEnds ssl (suc n) rest last y,
      )
]
