-- ===== src/Tls.antt =====
-- jab_simul/jab_simul-ssl.c. What OpenSSL answers is a parameter; its messages on stderr are left out.
pub mod Reads
use jab_simul.Shared.{
  ℕ, zero, suc, ◌+◌, ◌-◌, List, [], ◌∷◌, ◌++◌, Option, none, some, Bool, true, false, Text, length,
  ltb, ◌==◌, if◌then◌else◌,
}
use jab_simul.Shared.Int.{ℤ, pos, negsuc}

-- SSL_connect with SSL_get_error: above 0, or an error that only says to wait, or another one.
pub data Handshake : Type 0 where
  done wants broken : Handshake

-- SSL_read: at least one byte, or a result of 0 or below; `waits` is what SSL_get_error says of it.
pub data ReadAnswer : Type 0 where
  got : ℕ → Text → ReadAnswer
  gone : (ret : ℤ) (waits : Bool) → ReadAnswer

-- A connection: whether SSL_get_state is TLS_ST_OK, what SSL_connect does, and the answers of SSL_read
-- and SSL_write to their k-th call, for a number of bytes.
pub record Ssl : Type 0 where
  pub state_ok : Bool
  pub connect : Handshake
  pub read : ℕ → ℕ → ReadAnswer
  pub write : Text → ℤ

-- What a call returns, `*blocked`, and the bytes that it stores from the start of the buffer on.
pub record Answer : Type 0 where
  pub ret : ℤ
  pub blocked : Bool
  pub stored : Text

abbrev pub refused : Bool → Answer
refused blocked = record { ret = negsuc 0; blocked = blocked; stored = [] }

-- The first step of a read or a write: the handshake, if it is not over.
unfoldable pub shake : Ssl → Option Answer
shake ssl = if ssl.state_ok then none else elim ssl.connect [
  | done ↦ none
  | wants ↦ some (refused true)
  | broken ↦ some (refused false)
]

-- The loop of jab_ssl_read: what is stored, and the last answer. It calls SSL_read again as long as
-- something came and `count` is not used up.
unfoldable pub read_loop : ℕ → (ℕ → ℕ → ReadAnswer) → ℕ → ℕ → Text → Option (Text × ReadAnswer)
read_loop zero read k count stored = none
read_loop (suc fuel) read k count stored = elim (read k count) [
  | gone ret waits ↦ some (stored, gone ret waits)
  | got c cs ↦
      let more = read_loop fuel read (suc k) (count - length (c ∷ cs)) (stored ++ c ∷ cs) in
      if ltb 0 (count - length (c ∷ cs)) then more else some (stored ++ c ∷ cs, got c cs)
]

-- Behind the loop: with no byte and a result of -1 the call fails.
unfoldable pub read_result : Text → ReadAnswer → Answer
read_result [] (gone (negsuc zero) waits) = refused waits
read_result stored last = record { ret = pos (length stored); blocked = false; stored = stored }

-- Each call of SSL_read that goes on takes a byte of `count` or more, so `count` is fuel enough.
unfoldable pub jab_ssl_read : Ssl → ℕ → Option Answer
jab_ssl_read ssl count =
    if count == 0
    then some (record { ret = pos 0; blocked = false; stored = [] })
    else elim (shake ssl) [
      | some a ↦ some a
      | none ↦ elim (read_loop count ssl.read 0 count []) [
        | none ↦ none
        | some (stored, last) ↦ some (read_result stored last)
      ]
    ]

-- `*blocked` stays 0 whatever SSL_write returns.
unfoldable pub jab_ssl_write : Ssl → Text → Answer
unfolding shake
jab_ssl_write ssl buf = elim (shake ssl) [
  | some a ↦ a
  | none ↦ record { ret = ssl.write buf; blocked = false; stored = [] }
]

unfoldable pub jab_ssl_connect : Ssl → ℤ
jab_ssl_connect ssl = elim ssl.connect [ done ↦ pos 1 | wants ↦ pos 0 | broken ↦ negsuc 0 ]

-- jab_ssl_init with SSL_CTX_new: the context, if there is one, and the result.
unfoldable pub jab_ssl_init : Option ℕ → Option ℕ × ℤ
jab_ssl_init none = (none, pos 1)
jab_ssl_init (some ctx) = (some ctx, pos 0)

-- jab_ssl_conn with SSL_new on a context.
unfoldable pub jab_ssl_conn : Option ℕ → (ℕ → Option Ssl) → Option Ssl
jab_ssl_conn none ssl_new = none
jab_ssl_conn (some ctx) ssl_new = ssl_new ctx
