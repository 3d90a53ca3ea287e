-- ===== src/Connect.antt =====
-- How a user connects: jab_simul/jab_simul-conn.c (make_conn_socket, make_clientfd,
-- accept_connected, jpolld_conn_create) and user_connect of jab_simul/jab_simul-user.c.
pub mod Opens
use jab_simul.Shared.{
  ℕ, zero, suc, [], ◌++◌, Option, none, some, Bool, true, false, ◌&&◌, Text, codes, if◌then◌else◌,
}
use jab_simul.State.{Conn, unknown, SockState, error, not_connected, conn_in_progress, connected}
use jab_simul.State.Monad.{
  M, ◌>>=◌, ◌>>◌, pure, skip, get, set_user, set_globals, set_counts, choose, fault,
}
use jab_simul.Slots.{take_place}
use jab_simul.Conn.{conn_write_str, exit_if_flagged}
use jab_simul.Ids.{fit}

-- What connect(2) answers.
pub data ConnectCall : Type 0 where
  done in_progress refused : ConnectCall

-- The system's answers: the descriptor of socket(2), whether the name resolves, connect(2); and
-- whether jab_ssl_conn makes a TLS object.
pub record SocketCalls : Type 0 where
  pub socket : Option ℕ
  pub address_found : Bool
  pub connect : ConnectCall
  pub tls : Bool

unfoldable pub start_connect : ConnectCall → ℕ → Option ℕ × SockState
start_connect done fd = (some fd, connected)
start_connect in_progress fd = (some fd, conn_in_progress)
start_connect refused fd = (none, error)

-- The descriptor, or `none` for -1, and the state left in `*psstate`.
unfoldable pub make_conn_socket : SocketCalls → Option ℕ × SockState
unfolding start_connect
make_conn_socket net = elim net.socket [
  | none ↦ (none, not_connected)
  | some fd ↦ if net.address_found then start_connect net.connect fd else (none, not_connected)
]

-- A descriptor of 0 counts as a failure.
abbrev pub positive : Option ℕ → Option ℕ
positive none = none
positive (some zero) = none
positive (some (suc fd)) = some (suc fd)

unfoldable pub make_clientfd : SocketCalls → Option ℕ × SockState
unfolding make_conn_socket
make_clientfd net = (positive (make_conn_socket net).0, (make_conn_socket net).1)

-- getsockopt(2) for SO_ERROR: it fails, or tells of no error or of one.
pub data PendingError : Type 0 where
  unreadable clean erroneous : PendingError

unfoldable pub settle_socket : PendingError → ℕ → Option ℕ × SockState
settle_socket unreadable fd = (none, error)
settle_socket clean fd = (some fd, connected)
settle_socket erroneous fd = (none, error)

unfoldable pub accept_connected : PendingError → ℕ → SockState → Option ℕ × SockState
unfolding settle_socket
accept_connected e fd conn_in_progress = settle_socket e fd
accept_connected e fd connected = (some fd, connected)
accept_connected e fd error = (none, error)
accept_connected e fd not_connected = (none, not_connected)

-- The place is polled for input only.
unfoldable pub conn_create : ℕ → ℕ → SockState → ℕ → Bool → Conn
conn_create loc fd sstate time ssl = record {
  loc = loc;
  fd = fd;
  state = unknown;
  sstate = sstate;
  writer = [];
  pollout = false;
  creation_time = time;
  responses = [];
  ssl = ssl;
}

unfoldable pub stream_open : Text → Text
stream_open server =
    codes "<stream:stream to=\""
    ++ server
    ++ codes "\" xmlns=\"jabber:client\" xmlns:stream=\"http://etherx.jabber.org/streams\">"

-- From the place on. The places run out as an undefined read.
unfoldable pub open_conn : SocketCalls → ℕ → SockState → ℕ → M Bool
unfolding conn_create stream_open
open_conn net fd sstate time = do
  s ← get
  choose (take_place s.globals.slots s.number) fault λ taken. do
    set_globals (λ g. record g { slots = taken.1 })
    set_counts (λ c. record c { conn_create = suc c.conn_create })
    set_user (λ u. record u { conn = some (conn_create taken.0 fd sstate time (u.ssl && net.tls)) })
    conn_write_str (fit 300 (stream_open s.user.server)) true >>= λ _. skip
    pure true

-- `false` is the result -1.
unfoldable pub user_connect : SocketCalls → ℕ → M Bool
unfolding make_clientfd open_conn
user_connect net time =
    choose (make_clientfd net).0 (do exit_if_flagged 0; pure false)
      λ fd. open_conn net fd (make_clientfd net).1 time
