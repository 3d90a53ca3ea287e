-- ===== src/Conn.antt =====
-- Connections: the write queue and the end of a connection, in jab_simul/jab_simul-conn.c, and
-- user_conn_kill and user_finish_conn of jab_simul/jab_simul-user.c.
pub mod Accounting
pub mod Order
pub mod Kill
pub mod Drain
use jab_simul.Shared.{
  ℕ, zero, suc, ◌+◌, List, [], ◌∷◌, ◌++◌, Option, none, some, Bool, true, false, not, ◌&&◌, ltb,
  leb, Text, length, take, drop, if◌then◌else◌,
}
use jab_simul.Jabber.{Jabber, Xml}
use jab_simul.State.{Session, User, Conn, ConnState, unknown, authd, closing, UserState, can_login}
use jab_simul.State.Monad.{
  M, ◌>>=◌, ◌>>◌, pure, skip, get, set_user, set_globals, set_counts, set_packets, set_conn,
  exit_app, with_conn, fault,
}
use jab_simul.Slots.{free_place}
use jab_simul.Roster.{roster_hash_delete, priv_roster_delete}

abbrev pub max_packs_buffered : ℕ
max_packs_buffered = 10

-- The loop counts the steps to the last buffer, one less than there are buffers.
unfoldable pub queue_is_long : List (Option Text) → Bool
queue_is_long [] = false
queue_is_long (b ∷ bs) = leb max_packs_buffered (length bs)

unfoldable pub push_packet : Option Text → Conn → Conn
push_packet buf c = record c { writer = c.writer ++ buf ∷ []; pollout = true }

-- The body that jpolld_conn_write_str and jpolld_conn_write share; `true` is their result 0.
unfoldable pub enqueue : Conn → Option Text → Bool → M Bool
unfolding queue_is_long push_packet
enqueue c buf force = do
  set_packets (λ p. record p { created = suc p.created })
  if queue_is_long c.writer && not force
      then (do set_packets (λ p. record p { canceled = suc p.canceled }); pure false)
      else (do set_conn (push_packet buf); pure true)

unfoldable pub conn_write_str : Text → Bool → M Bool
unfolding enqueue
conn_write_str buf force = with_conn (pure false) (λ c. enqueue c (some buf) force)

-- For a text of NULL, of which pstrdup makes NULL.
unfoldable pub conn_write_null : Bool → M Bool
unfolding enqueue
conn_write_null force = with_conn (pure false) (λ c. enqueue c none force)

unfoldable pub conn_write : Jabber → Xml → Bool → M Bool
unfolding enqueue
conn_write lib x force = with_conn (pure false) (λ c. enqueue c (some (lib.render x)) force)

unfoldable pub exit_if_flagged : ℕ → M (Unit {0})
exit_if_flagged code = do
  s ← get
  if s.user.exit_after_login
      then (do set_user (λ u. record u { exit_after_login = false }); exit_app code)
      else skip

-- jpolld_conn_kill but for the step that tells the user, which is `tell`.
unfoldable pub close_conn : Conn → M (Unit {0}) → M (Unit {0})
close_conn c tell = do
  set_globals (λ g. record g { slots = free_place g.slots c.loc })
  set_packets (λ p. record p { canceled = p.canceled + length c.writer })
  tell
  set_counts (λ k. record k { conn_kill = suc k.conn_kill })

unfoldable pub forget_conn : User → User
forget_conn u = record u { conn = none; state = can_login; stream_opened = false }

unfoldable pub note_unexpected : M (Unit {0})
note_unexpected = do
  s ← get
  if s.user.expect_kill
      then set_user (λ u. record u { expect_kill = false })
      else set_counts (λ k. record k { unexpected_kill = suc k.unexpected_kill })

unfoldable pub user_conn_kill : M (Unit {0})
unfolding close_conn forget_conn note_unexpected exit_if_flagged
user_conn_kill = do
  with_conn skip (λ c. close_conn c skip)
  set_user forget_conn
  roster_hash_delete
  priv_roster_delete
  note_unexpected
  exit_if_flagged 0

-- jpolld_conn_kill of a connection that has its user.
unfoldable pub conn_kill : M (Unit {0})
unfolding close_conn user_conn_kill
conn_kill =
    with_conn skip λ c. close_conn c (do set_user (λ u. record u { conn = none }); user_conn_kill)

-- The connection ends when all of its queue is sent.
unfoldable pub user_finish_conn : M (Unit {0})
user_finish_conn = set_conn (λ c. record c { state = closing })

-- What write or jab_ssl_write does with a buffer: `wrote n` takes `n + 1` of its bytes, as a result of
-- 0 is no success; it would block; or it fails.
pub data SockResult : Type 0 where
  wrote : ℕ → SockResult
  would_block failed : SockResult

pub data Stop : Type 0 where
  emptied waiting broken null_read : Stop

-- What the loop of _jpolld_conn_write leaves: the queue, how many buffers went out whole, the bytes
-- that the socket took, and why it stopped.
pub record Flushed : Type 0 where
  pub left : List (Option Text)
  pub sent : ℕ
  pub out : Text
  pub stop : Stop

unfoldable pub flush_step : SockResult → Text → List (Option Text) → Flushed → Flushed
flush_step (wrote n) b bs rest =
    if ltb (suc n) (length b)
    then record {
      left = some (drop (suc n) b) ∷ bs;
      sent = 0;
      out = take (suc n) b;
      stop = waiting;
    }
    else record rest { sent = suc rest.sent; out = b ++ rest.out }
flush_step would_block b bs rest = record { left = some b ∷ bs; sent = 0; out = []; stop = waiting }
flush_step failed b bs rest = record { left = some b ∷ bs; sent = 0; out = []; stop = broken }

-- `sock k` answers the k-th write. A buffer of NULL is read for its length.
unfoldable pub flush_queue : (ℕ → Text → SockResult) → ℕ → List (Option Text) → Flushed
unfolding flush_step
flush_queue sock k [] = record { left = []; sent = 0; out = []; stop = emptied }
flush_queue sock k (none ∷ bs) = record { left = none ∷ bs; sent = 0; out = []; stop = null_read }
flush_queue sock k (some b ∷ bs) = flush_step (sock k b) b bs (flush_queue sock (suc k) bs)

abbrev pub is_closing : ConnState → Bool
is_closing closing = true
is_closing _ = false

-- After the end of a closing connection the loop of the C code tests `c->writer` once more, in memory
-- that jpolld_conn_kill has freed.
unfoldable pub after_flush : Conn → Stop → M (Unit {0})
after_flush c waiting = skip
after_flush c broken = conn_kill
after_flush c null_read = fault
after_flush c emptied = do
  set_conn (λ d. record d { pollout = not d.pollout })
  if is_closing c.state
      then (do set_user (λ u. record u { expect_kill = true }); conn_kill; fault)
      else skip

unfoldable pub flush_conn : (ℕ → Text → SockResult) → Conn → List (Option Text) → M (Unit {0})
flush_conn sock c [] = skip
flush_conn sock c (b ∷ bs) = do
  let r = flush_queue sock 0 (b ∷ bs)
  set_packets (λ p. record p { sent = p.sent + r.sent })
  set_conn (λ d. record d { writer = r.left })
  after_flush c r.stop

unfoldable pub conn_flush : (ℕ → Text → SockResult) → M (Unit {0})
unfolding flush_conn
conn_flush sock = with_conn skip (λ c. flush_conn sock c c.writer)
