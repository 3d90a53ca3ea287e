-- ===== src/Poll.antt =====
-- The events of the sockets: jab_simul/thread-main.c, and jpolld_conn_node of
-- jab_simul/jab_simul-conn.c. Each handler works on the user whose connection has the place.
pub mod Clock
use jab_simul.Shared.{
  ℕ, ◌/◌, ◌%◌, List, [], ◌∷◌, Option, some, Bool, true, ◌&&◌, Text, codes, if◌then◌else◌,
}
use jab_simul.Shared.Int.{pos, negsuc, ◌-ℤ◌, ltb_ℤ}
use jab_simul.Jabber.{Jabber, XmlNode}
use jab_simul.State.{Globals, connected}
use jab_simul.State.Monad.{
  M, ◌>>=◌, ◌>>◌, skip, get, set_user, set_conn, choose, with_conn, fault, exit_app,
}
use jab_simul.Conn.{SockResult, conn_flush, conn_kill, user_finish_conn}
use jab_simul.Handlers.{handle_user_node}
use jab_simul.Roster.Load.{Xhash}
use jab_simul.Life.{is_connecting}

-- What the stream parser reports: a node, the root, the end, or an error.
pub data StreamEvent : Type 0 where
  node root : XmlNode → StreamEvent
  close broken : StreamEvent

-- The error of a socket: one that only says to wait, or another.
pub data SocketError : Type 0 where
  temporary fatal : SocketError

unfoldable pub handle_pollerr : SocketError → M (Unit {0})
handle_pollerr temporary = skip
handle_pollerr fatal = with_conn fault λ c. do
  s ← get
  if is_connecting c.sstate && s.user.exit_after_login then exit_app 0 else skip
  conn_kill

unfoldable pub mark_connected : M (Unit {0})
mark_connected = set_conn (λ c. record c { sstate = connected })

unfoldable pub handle_pollout : (ℕ → Text → SockResult) → M (Unit {0})
unfolding mark_connected
handle_pollout sock =
    with_conn fault λ c. if is_connecting c.sstate then mark_connected else conn_flush sock

-- The flags of `revents`: one branch at most, errors before writes before reads.
pub record Revents : Type 0 where
  pub err : Option SocketError
  pub out : Bool
  pub input : Bool

module _ (lib : Jabber) (xh : Xhash) where
  -- jpolld_conn_node. The user of the connection is read through.
  unfoldable pub conn_node : ℕ → StreamEvent → M (Unit {0})
  conn_node now (node x) = handle_user_node lib xh x now
  conn_node now (root x) =
      set_user λ u. record u { sid = lib.get_attrib (some x) (codes "id"); stream_opened = true }
  conn_node now close = user_finish_conn
  conn_node now broken = user_finish_conn

  unfoldable pub conn_nodes : ℕ → List StreamEvent → M (Unit {0})
  unfolding conn_node
  conn_nodes now [] = skip
  conn_nodes now (e ∷ es) = do conn_node now e; conn_nodes now es

  -- `read` is what read or jab_ssl_read gives: `none` for nothing or an error that is no blocking,
  -- and otherwise what xstream_eat finds in the bytes.
  unfoldable pub handle_pollin : ℕ → Option (List StreamEvent) → M (Unit {0})
  unfolding mark_connected conn_nodes
  handle_pollin now read = with_conn fault λ c.
      if is_connecting c.sstate
      then mark_connected
      else choose read user_finish_conn (λ events. conn_nodes now events)

  unfoldable pub handle_place :
      ℕ → Revents → (ℕ → Text → SockResult) → Option (List StreamEvent) → M (Unit {0})
  unfolding handle_pollerr handle_pollout handle_pollin
  handle_place now r sock read =
      choose r.err
        (if r.out then handle_pollout sock else if r.input then handle_pollin now read else skip)
        (λ e. handle_pollerr e)

-- The part of stat_printf that is no output: events start when enough connections stand. Then -1
-- as the new limit keeps the test true with one connection or none.
unfoldable pub start_events : Globals → Globals
start_events g =
    if ltb_ℤ g.events_start_after (pos g.counts.conn_create -ℤ pos g.counts.conn_kill)
    then record g { do_events = true; events_start_after = negsuc 0 }
    else g

-- Hours, minutes and seconds of a time in microseconds.
unfoldable pub clock_of : ℕ → ℕ × ℕ × ℕ
clock_of usecs = let secs = usecs / 1000000 in (secs / 60 / 60, secs / 60 % 60, secs % 60)
