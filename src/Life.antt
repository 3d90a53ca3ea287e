-- ===== src/Life.antt =====
-- The life of a user: user_do_your_job and user_create of jab_simul/jab_simul-user.c.
pub mod Progress
use jab_simul.Shared.{
  ℕ, List, [], ◌∷◌, Option, none, some, Bool, true, false, Text, codes, if◌then◌else◌,
}
use jab_simul.Shared.Int.{ℤ, pos, negsuc, ◌-ℤ◌, ◌*ℤ◌, leb_ℤ}
use jab_simul.Jabber.{Jabber}
use jab_simul.State.{
  User, Conn, Event, UserState, disabled, can_login, is_logging, logged_in, SockState,
  conn_in_progress,
}
use jab_simul.State.Monad.{M, ◌>>=◌, ◌>>◌, pure, skip, get, set_user, with_conn}
use jab_simul.Conn.{exit_if_flagged, user_finish_conn}
use jab_simul.Requests.{user_do_login_plain, user_do_login_digest}
use jab_simul.Roster.Load.{Xhash}
use jab_simul.Roster.Priv.{group_item_create}
use jab_simul.Events.{Outside}
use jab_simul.Repeater.{user_handle_repeater_queue, copy_repeaters}

abbrev pub is_connecting : SockState → Bool
is_connecting conn_in_progress = true
is_connecting _ = false

unfoldable pub connection_timed_out : M (Unit {0})
connection_timed_out = do
  user_finish_conn
  set_user (λ u. record u { expect_kill = true })
  exit_if_flagged 0

-- Milliseconds against microseconds.
abbrev pub is_over : ℤ → ℕ → ℕ → Bool
is_over timeout now since = leb_ℤ (timeout *ℤ pos 1000) (pos now -ℤ pos since)

unfoldable pub check_timeouts : ℕ → Conn → M (Unit {0})
unfolding connection_timed_out
check_timeouts now c = do
  s ← get
  if is_connecting c.sstate
      then (if is_over s.user.connection_timeout now c.creation_time
          then connection_timed_out
          else skip)
      else skip
  if is_over s.user.login_timeout now c.creation_time then exit_if_flagged 0 else skip

unfoldable pub login : Jabber → ℕ → M (Unit {0})
login lib now = do
  s ← get
  if s.user.stream_opened
      then (if s.user.digest_auth then user_do_login_digest lib now else user_do_login_plain now)
      else skip

-- The switch; `false` for the early return of a disabled user.
unfoldable pub work_in : Jabber → ℕ → UserState → M Bool
unfolding check_timeouts login
work_in lib now disabled = pure false
work_in lib now can_login = do with_conn skip (λ c. login lib now); pure true
work_in lib now is_logging = do with_conn skip (λ c. check_timeouts now c); pure true
work_in lib now logged_in = do
  with_conn (set_user (λ u. record u { state = can_login })) (λ c. skip)
  pure true

unfoldable pub user_do_your_job : Jabber → Xhash → Outside → ℕ → M (Unit {0})
unfolding work_in
user_do_your_job lib xh out now = do
  s ← get
  goes_on ← work_in lib now s.user.state
  if goes_on then user_handle_repeater_queue lib xh out now else skip

abbrev pub conn_timeout : ℤ
conn_timeout = pos 15000

abbrev pub default_login_timeout : ℤ
default_login_timeout = pos 400000

abbrev pub if_given : Option Text → Option Text
if_given none = none
if_given (some []) = none
if_given (some (c ∷ cs)) = some (c ∷ cs)

-- A new user does nothing: it is disabled and has no connection. The random delays of its events
-- start at the k-th random number.
unfoldable pub user_create :
    Text
    → Text
    → Text
    → Option Text
    → Option Text
    → Option Text
    → ℤ
    → List Event
    → Bool
    → (ℕ → ℕ)
    → ℕ
    → User
unfolding group_item_create copy_repeaters
user_create name server passwd resource fullname host port events ssl random k = record {
  name = name;
  server = server;
  resource = if_given resource;
  full = if_given fullname;
  passwd = passwd;
  host = elim host [ none ↦ server | some h ↦ h ];
  sid = none;
  ssl = ssl;
  connection_timeout = conn_timeout;
  login_timeout = default_login_timeout;
  port = port;
  conn = none;
  state = disabled;
  events_queue = copy_repeaters random k events;
  sooner_activation_tm = pos 0;
  exit_after_login = false;
  sniff = false;
  expect_kill = false;
  digest_auth = false;
  stream_opened = false;
  received_msgs_time_sum = pos 0;
  received_msgs_count = 0;
  received_presences_count = 0;
  sent_presences_count = pos 0;
  last_roster_count = negsuc 0;
  roster_count = pos 0;
  roster_hash = none;
  priv_rost = record {
    priv_rost_list = [];
    numextcontacts = pos 0;
    groups = [];
    gall = some (group_item_create (some (codes "Wszyscy")) true);
    loaded = false;
  };
  tmpid = 0;
  status = some (codes "Online");
  show = none;
}
