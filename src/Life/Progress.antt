-- ===== src/Life/Progress.antt =====
-- The states that a user goes through: user_do_your_job of jab_simul/jab_simul-user.c.
use jab_simul.Shared.{
  ℕ, ◌≡◌, refl, sym, subst, inl, inr, List, [], ◌∷◌, Bool-cases, Bool, true, false, ◌&&◌, arith,
  if◌then◌else◌,
}
use jab_simul.Shared.Int.{ℤ, pos, leb_ℤ, ltb_ℤ}
use jab_simul.Jabber.{Jabber}
use jab_simul.State.{Session, User, Event, UserState, disabled, can_login, is_logging, logged_in}
use jab_simul.State.Monad.{After, After-bind, skip, returns, set_user, ◌>>=◌, ◌>>◌}
use jab_simul.Conn.{conn_write_str, enqueue, exit_if_flagged, user_finish_conn}
use jab_simul.Requests.{new_id, user_store_xml_info, user_do_login_plain}
use jab_simul.Events.{Outside, is_there}
use jab_simul.Roster.Load.{Xhash}
use jab_simul.Repeater.{
  is_due, note_sooner, handle_event, handle_events, user_handle_repeater_queue, never,
}
use jab_simul.Life.{check_timeouts, connection_timed_out, login, work_in, user_do_your_job}

-- The state after a pass in which no event is due.
abbrev pub next_state : UserState → User → UserState
next_state disabled u = disabled
next_state can_login u = if is_there u.conn && u.stream_opened then is_logging else can_login
next_state is_logging u = is_logging
next_state logged_in u = if is_there u.conn then logged_in else can_login

-- A connection is neither made nor ended, and the events are left.
pub record Moved (s : Session) (t : Session) : Type 0 where
  pub state_next : t.user.state ≡ next_state s.user.state s.user
  pub conn_kept : is_there t.user.conn ≡ is_there s.user.conn
  pub events_kept : t.user.events_queue ≡ s.user.events_queue

work_in-Moved :
    (lib : Jabber) (now : ℕ) (state : UserState) (s : Session)
    → s.user.state ≡ state
    → s.user.digest_auth ≡ false
    → After (λ _ t. Moved s t) (work_in lib now state s)
unfolding work_in login check_timeouts connection_timed_out user_do_login_plain new_id
    conn_write_str enqueue user_store_xml_info exit_if_flagged user_finish_conn
work_in-Moved lib now disabled s e plain = record {
  state_next = rw e refl;
  conn_kept = refl;
  events_kept = refl;
}
work_in-Moved lib now can_login s e plain = ground (arith, e, plain)
work_in-Moved lib now is_logging s e plain = ground (arith, e, plain)
work_in-Moved lib now logged_in s e plain = ground (arith, e, plain)

-- No event of the queue is due.
abbrev pub NoneDue : ℕ → List Event → Type 0
NoneDue now [] = Unit {0}
NoneDue now (e ∷ es) = (is_due e now ≡ false) × NoneDue now es

idle_events :
    (lib : Jabber) (xh : Xhash) (out : Outside) (now : ℕ) (es : List Event) (s : Session)
    → NoneDue now es
    → (time : ℤ) × (handle_events lib xh out es now s
        ≡ returns es (record s { user = record s.user { sooner_activation_tm = time } }))
unfolding handle_events handle_event note_sooner
idle_events lib xh out now [] s none_due = (s.user.sooner_activation_tm, refl)
idle_events lib xh out now (e ∷ es) s none_due =
    let time =
      if ltb_ℤ e.activation_tm s.user.sooner_activation_tm
      then e.activation_tm
      else s.user.sooner_activation_tm in
    let (last, same) =
      idle_events lib xh out now es
        (record s { user = record s.user { sooner_activation_tm = time } }) none_due.1 in
    (last, rw (none_due.0, same) refl)

-- The search of a queue in which no event is due.
searched :
    (lib : Jabber) (xh : Xhash) (out : Outside) (now : ℕ) (s t : Session)
    → NoneDue now s.user.events_queue
    → Moved s t
    → After
        (λ _ r. Moved s r)
        ((do
          set_user (λ u. record u { sooner_activation_tm = never })
          es ← handle_events lib xh out t.user.events_queue now
          set_user (λ u. record u { events_queue = es }))
          t)
searched lib xh out now s t none_due m =
    let (time, same) =
      idle_events lib xh out now t.user.events_queue
        (record t { user = record t.user { sooner_activation_tm = never } })
        (subst (NoneDue now) (sym m.events_kept) none_due) in
    rw same
      (record { state_next = m.state_next; conn_kept = m.conn_kept; events_kept = m.events_kept })

idle_queue :
    (lib : Jabber) (xh : Xhash) (out : Outside) (now : ℕ) (s t : Session)
    → NoneDue now s.user.events_queue
    → Moved s t
    → After (λ _ r. Moved s r) (user_handle_repeater_queue lib xh out now t)
unfolding user_handle_repeater_queue
idle_queue lib xh out now s t none_due m =
    elim (Bool-cases (leb_ℤ t.user.sooner_activation_tm (pos now))) [
      | inl h ↦ rw h (searched lib xh out now s t none_due m)
      | inr h ↦ rw h m
    ]

-- When no event of the queue is due and the login is not by digest, user_do_your_job has no undefined
-- behaviour in any state, whether it searches the queue or not. If it does not end the process, the
-- user moves by its state: a disabled one stays so; one that can log in is logging in then, if its
-- stream is open; one that is logging in stays so; and one that is logged in without a connection can
-- log in again. The connection is neither made nor ended, and the events stay as they are.
pub user_do_your_job-Moved :
    (lib : Jabber) (xh : Xhash) (out : Outside) (now : ℕ) (s : Session)
    → s.user.digest_auth ≡ false
    → NoneDue now s.user.events_queue
    → After (λ _ t. Moved s t) (user_do_your_job lib xh out now s)
unfolding user_do_your_job
user_do_your_job-Moved lib xh out now s plain none_due =
    After-bind (λ _ t. Moved s t) (λ _ t. Moved s t) _ _
      (work_in-Moved lib now s.user.state s refl plain) λ goes_on t m. goes goes_on t m
  where
    goes :
        (b : Bool) (t : Session)
        → Moved s t
        → After
            (λ _ r. Moved s r)
            ((if b then user_handle_repeater_queue lib xh out now else skip) t)
    goes true t m = idle_queue lib xh out now s t none_due m
    goes false t m = m
