-- ===== src/Sound/Pass.antt =====
-- A pass of the main loop: user_do_your_job of jab_simul/jab_simul-user.c and the events of a
-- socket, jab_simul/thread-main.c.
use jab_simul.Shared.{ℕ, refl, List, [], ◌∷◌, Option, ◌&&◌, Text}
use jab_simul.Jabber.{Jabber}
use jab_simul.State.{Session, Conn, UserState, disabled, can_login, is_logging, logged_in}
use jab_simul.Conn.{SockResult}
use jab_simul.Events.{Outside}
use jab_simul.Roster.Load.{Xhash}
use jab_simul.Life.{
  is_connecting, connection_timed_out, is_over, check_timeouts, login, work_in, user_do_your_job,
}
use jab_simul.Poll.{
  StreamEvent, node, root, close, broken, SocketError, temporary, fatal, handle_pollerr,
  mark_connected, handle_pollout, Revents, conn_node, conn_nodes, handle_pollin, handle_place,
}
use jab_simul.Sound.Rules.{
  Safe, returned, exited, faulted, Keeps, WellKept, Safe-bind, after_step, quiet, Safe-if,
  Safe-choose, conn_changed,
}
use jab_simul.Sound.Writes.{
  conn_kill-Keeps, conn_flush-Keeps, user_finish_conn-Keeps, exit_if_flagged-Keeps,
}
use jab_simul.Sound.Requests.{login_plain-Keeps, login_digest-Keeps}
use jab_simul.Sound.Handlers.{handle_user_node-Keeps}
use jab_simul.Sound.Queue.{Sound, Keeps-Sound, user_handle_repeater_queue-Sound}

timed_out-Keeps : Keeps connection_timed_out
unfolding connection_timed_out
timed_out-Keeps others sooner queue s w =
    after_step user_finish_conn-Keeps w
      λ _ t v. exit_if_flagged-Keeps 0 others sooner queue _ (quiet v refl refl refl refl)

check_timeouts-Keeps : (now : ℕ) (c : Conn) → Keeps (check_timeouts now c)
unfolding check_timeouts
check_timeouts-Keeps now c others sooner queue s w =
    Safe-bind (λ _ t. WellKept others sooner queue t) _ _ _
      (Safe-if (is_connecting c.sstate) _ _
        (Safe-if (is_over s.user.connection_timeout now c.creation_time) _ _
          (timed_out-Keeps others sooner queue s w) (returned w))
        (returned w))
      λ _ t v.
        Safe-if (is_over s.user.login_timeout now c.creation_time) _ _
          (exit_if_flagged-Keeps 0 others sooner queue t v) (returned v)

login-Keeps : (lib : Jabber) (now : ℕ) → Keeps (login lib now)
unfolding login
login-Keeps lib now others sooner queue s w =
    Safe-if s.user.stream_opened _ _
      (Safe-if s.user.digest_auth _ _ (login_digest-Keeps lib now others sooner queue s w)
        (login_plain-Keeps now others sooner queue s w))
      (returned w)

work_in-Keeps : (lib : Jabber) (now : ℕ) (state : UserState) → Keeps (work_in lib now state)
unfolding work_in
work_in-Keeps lib now disabled others sooner queue s w = returned w
work_in-Keeps lib now can_login others sooner queue s w =
    Safe-bind (λ _ t. WellKept others sooner queue t) _ _ _
      (Safe-choose s.user.conn _ _ (returned w) (λ c. login-Keeps lib now others sooner queue s w))
      λ _ t v. returned v
work_in-Keeps lib now is_logging others sooner queue s w =
    Safe-bind (λ _ t. WellKept others sooner queue t) _ _ _
      (Safe-choose s.user.conn _ _ (returned w)
        (λ c. check_timeouts-Keeps now c others sooner queue s w))
      λ _ t v. returned v
work_in-Keeps lib now logged_in others sooner queue s w =
    Safe-bind (λ _ t. WellKept others sooner queue t) _ _ _
      (Safe-choose s.user.conn _ _ (returned (quiet w refl refl refl refl)) (λ c. returned w))
      λ _ t v. returned v

module _ (lib : Jabber) (xh : Xhash) where
  -- If all packets are accounted for, POLLOUT is asked for exactly with something to send, and no
  -- event is to run before `sooner_activation_tm`, so it is after user_do_your_job, if that comes
  -- back: in every state of the user, whether it logs in, times out, or runs any events.
  pub user_do_your_job-Sound :
      (out : Outside) (now others : ℕ) (s : Session)
      → Sound others s
      → Safe (λ _ t. Sound others t) (user_do_your_job lib xh out now s)
  unfolding user_do_your_job
  user_do_your_job-Sound out now others s h =
      Safe-bind (λ _ t. Sound others t) _ _ _
        (Keeps-Sound others s (work_in-Keeps lib now s.user.state) h)
        λ goes_on t v.
          Safe-if goes_on _ _ (user_handle_repeater_queue-Sound lib xh out now others t v)
            (returned v)

  conn_node-Keeps : (now : ℕ) (e : StreamEvent) → Keeps (conn_node lib xh now e)
  unfolding conn_node
  conn_node-Keeps now (node x) others sooner queue s w =
      handle_user_node-Keeps lib xh x now others sooner queue s w
  conn_node-Keeps now (root x) others sooner queue s w = returned (quiet w refl refl refl refl)
  conn_node-Keeps now close others sooner queue s w = user_finish_conn-Keeps others sooner queue s w
  conn_node-Keeps now broken others sooner queue s w =
      user_finish_conn-Keeps others sooner queue s w

  conn_nodes-Keeps : (now : ℕ) (es : List StreamEvent) → Keeps (conn_nodes lib xh now es)
  unfolding conn_nodes
  conn_nodes-Keeps now [] others sooner queue s w = returned w
  conn_nodes-Keeps now (e ∷ es) others sooner queue s w =
      after_step (conn_node-Keeps now e) w λ _ t v. conn_nodes-Keeps now es others sooner queue t v

  mark_connected-Keeps : Keeps mark_connected
  unfolding mark_connected
  mark_connected-Keeps others sooner queue s w = returned (conn_changed _ (λ c. (refl, refl)) w)

  pollerr-Keeps : (e : SocketError) → Keeps (handle_pollerr e)
  unfolding handle_pollerr
  pollerr-Keeps temporary others sooner queue s w = returned w
  pollerr-Keeps fatal others sooner queue s w = Safe-choose s.user.conn _ _ faulted λ c.
      Safe-bind (λ _ t. WellKept others sooner queue t) _ _ _
        (Safe-if (is_connecting c.sstate && s.user.exit_after_login) _ _ exited (returned w))
        λ _ t v. conn_kill-Keeps others sooner queue t v

  pollout-Keeps : (sock : ℕ → Text → SockResult) → Keeps (handle_pollout sock)
  unfolding handle_pollout
  pollout-Keeps sock others sooner queue s w = Safe-choose s.user.conn _ _ faulted λ c.
      Safe-if (is_connecting c.sstate) _ _ (mark_connected-Keeps others sooner queue s w)
        (conn_flush-Keeps sock others sooner queue s w)

  pollin-Keeps :
      (now : ℕ) (read : Option (List StreamEvent)) → Keeps (handle_pollin lib xh now read)
  unfolding handle_pollin
  pollin-Keeps now read others sooner queue s w = Safe-choose s.user.conn _ _ faulted λ c.
      Safe-if (is_connecting c.sstate) _ _ (mark_connected-Keeps others sooner queue s w) (
        Safe-choose read _ _ (user_finish_conn-Keeps others sooner queue s w)
          λ events. conn_nodes-Keeps now events others sooner queue s w)

  place-Keeps :
      (now : ℕ) (r : Revents) (sock : ℕ → Text → SockResult) (read : Option (List StreamEvent))
      → Keeps (handle_place lib xh now r sock read)
  unfolding handle_place
  place-Keeps now r sock read others sooner queue s w =
      Safe-choose r.err _ _
        (Safe-if r.out _ _ (pollout-Keeps sock others sooner queue s w)
          (Safe-if r.input _ _ (pollin-Keeps now read others sooner queue s w) (returned w)))
        (λ e. pollerr-Keeps e others sooner queue s w)

  -- If all packets are accounted for, POLLOUT is asked for exactly with something to send, and no
  -- event is to run before `sooner_activation_tm`, so it is after the handling of a place by the
  -- poll loop, if that comes back: whichever flags are set, whatever the socket does, and whatever
  -- nodes come in.
  pub handle_place-Sound :
      (now : ℕ) (r : Revents) (sock : ℕ → Text → SockResult) (read : Option (List StreamEvent))
      (others : ℕ) (s : Session)
      → Sound others s
      → Safe (λ _ t. Sound others t) (handle_place lib xh now r sock read s)
  handle_place-Sound now r sock read others s h =
      Keeps-Sound others s (place-Keeps now r sock read) h
