-- ===== src/Loop.antt =====
-- The loop of thread_main in jab_simul/thread-main.c over all users. Times are microseconds. Logging,
-- the screen and the pauses of usleep are left out.
pub mod Users
pub mod Kept
pub mod Main
pub mod Program
pub mod Enters
use jab_simul.Shared.{
  ℕ, zero, suc, ◌+◌, ◌-◌, ◌*◌, List, [], ◌∷◌, Option, none, some, Bool, true, false, ◌||◌, Text,
  length, get_elem?, set, ltb, leb, ◌==◌, if◌then◌else◌,
}
use jab_simul.Shared.Int.{ℤ, pos, ◌+ℤ◌, ◌-ℤ◌, ltb_ℤ}
use jab_simul.Jabber.{Jabber}
use jab_simul.State.{User, Session, Globals}
use jab_simul.State.Monad.{M, Outcome, returns}
use jab_simul.State.Monad
use jab_simul.Stats.{add_stat, diff_stat}
use jab_simul.Slots.{max_pfds}
use jab_simul.Conn.{SockResult}
use jab_simul.Roster.Load.{Xhash}
use jab_simul.Events.{Outside}
use jab_simul.Life.{user_do_your_job}
use jab_simul.Poll.{StreamEvent, Revents, handle_place, start_events}

-- The users in the order of alive_users_list, numbered from 0, what they share, and the variables of
-- the loop.
pub record World : Type 0 where
  pub users : List User
  pub globals : Globals
  pub info_timestamp : ℕ
  pub loginfo_timestamp : ℕ
  pub users_check_timestamp : ℕ
  pub last_diff : ℤ

-- The loop goes on, ends by `break`, or the process ends or does what C leaves undefined.
pub data Turn : Type 0 where
  goes_on : World → Turn
  breaks : World → Turn
  exits : ℕ → Turn
  faults : Turn

abbrev pub then_do : Turn → (World → Turn) → Turn
then_do (goes_on w) f = f w
then_do (breaks w) f = breaks w
then_do (exits code) f = exits code
then_do faults f = faults

-- Code on one user. A place that names no user is a dangling pointer.
abbrev pub after_user : {A : Type 0} → World → ℕ → Outcome A → Turn
after_user w n (returns a s) =
    goes_on (record w { users = set w.users n s.user; globals = s.globals })
after_user w n (Monad.exits code) = exits code
after_user w n Monad.faults = faults

unfoldable pub on_user : {A : Type 0} → ℕ → M A → World → Turn
on_user n m w = elim (get_elem? w.users n) [
  | none ↦ faults
  | some u ↦ after_user w n (m (record { number = n; user = u; globals = w.globals }))
]

-- What poll says of a place, and what the calls of its handler get.
pub record PlaceEvents : Type 0 where
  pub revents : Revents
  pub sock : ℕ → Text → SockResult
  pub read : Option (List StreamEvent)

-- poll: `ready` with the number of places that have events, EINTR, ENOMEM, or another error.
pub data PollAnswer : Type 0 where
  ready : ℕ → (ℕ → PlaceEvents) → PollAnswer
  interrupted no_memory failed : PollAnswer

abbrev pub has_error : Revents → Bool
has_error r = elim r.err [ none ↦ false | some e ↦ true ]

abbrev pub has_events : Revents → Bool
has_events r = has_error r || (r.out || r.input)

-- USERS_CHECK_EVENTS_INTERVAL, INFO_STAT_INTERVAL and LOGINFO_STAT_INTERVAL.
abbrev pub users_check_events_interval : ℕ
users_check_events_interval = 20

abbrev pub info_stat_interval : ℕ
info_stat_interval = 300

abbrev pub loginfo_stat_interval : ℕ
loginfo_stat_interval = 60000

-- `ut(curtime)-timestamp > interval*1000`.
abbrev pub is_time : ℕ → ℕ → ℕ → Bool
is_time now timestamp interval = ltb (timestamp + interval * 1000) now

-- Messages sent and forwarded against those received, without the admin's.
unfoldable pub message_diff : Globals → ℤ
message_diff g =
    pos (g.counts.ev_send_messages + g.counts.forwarded_messages)
    -ℤ (pos g.counts.received_messages -ℤ pos g.counts.received_messages_admin)

-- With ncurses the statistics are shown, and only there start_events is reached.
unfoldable pub show_info : Bool → ℕ → World → World
unfolding message_diff start_events
show_info ncurses now w =
    if is_time now w.info_timestamp info_stat_interval
    then (let diff = message_diff w.globals in
        let g = record w.globals {
          stats = add_stat w.globals.stats diff_stat (diff -ℤ w.last_diff);
        } in
        record w {
          globals = if ncurses then start_events g else g;
          last_diff = diff;
          info_timestamp = now;
        })
    else w

unfoldable pub note_log : ℕ → World → World
note_log now w =
    if is_time now w.loginfo_timestamp loginfo_stat_interval
    then record w { loginfo_timestamp = now }
    else w

module _ (lib : Jabber) (xh : Xhash) where
  unfoldable pub serve : ℕ → ℕ → PlaceEvents → World → Turn
  serve now n e = on_user n (handle_place lib xh now e.revents e.sock e.read)

  -- The places from `j` to `mpfd`, until `nready` of them were served. `rounds` places are left in
  -- `pfds`; behind them the table is left.
  unfoldable pub serve_places : ℕ → ℕ → (ℕ → PlaceEvents) → ℕ → ℕ → World → Turn
  unfolding serve
  serve_places now zero events j nready w = if leb j w.globals.slots.mpfd then faults else goes_on w
  serve_places now (suc rounds) events j nready w =
      let others = serve_places now rounds events (suc j) in
      if leb j w.globals.slots.mpfd
      then elim (w.globals.slots.conns j) [
        | none ↦ others nready w
        | some n ↦
            if has_events (events j).revents
            then then_do (serve now n (events j) w)
                (λ v. if leb nready 1 then goes_on v else others (nready - 1) v)
            else others nready w
      ]
      else goes_on w

  -- `while`'s first task; `none` is `continue`.
  unfoldable pub poll_sockets : ℕ → PollAnswer → World → Turn
  unfolding serve_places
  poll_sockets now (ready zero events) w = goes_on w
  poll_sockets now (ready (suc n) events) w = serve_places now (max_pfds - 1) events 2 (suc n) w
  poll_sockets now interrupted w = goes_on w
  poll_sockets now no_memory w = goes_on w
  poll_sockets now failed w = breaks w

  -- Every user from the n-th on does its work.
  unfoldable pub work_users : (ℕ → Outside) → ℕ → ℕ → ℕ → World → Turn
  work_users outs now zero n w = goes_on w
  work_users outs now (suc left) n w =
      then_do (on_user n (user_do_your_job lib xh (outs n) now) w)
        (work_users outs now left (suc n))

  unfoldable pub check_users : (ℕ → Outside) → ℕ → World → Turn
  unfolding work_users
  check_users outs now w =
      if is_time now w.users_check_timestamp users_check_events_interval
      then then_do (work_users outs now (length w.users) 0 w)
          (λ v. goes_on (record v { users_check_timestamp = now }))
      else goes_on w

  -- What follows the sockets; a turn that is interrupted leaves it out.
  unfoldable pub rest_of_turn : Bool → (ℕ → Outside) → ℕ → PollAnswer → World → Turn
  unfolding check_users show_info note_log
  rest_of_turn ncurses outs now (ready n events) w =
      then_do (check_users outs now w) (λ v. goes_on (note_log now (show_info ncurses now v)))
  rest_of_turn ncurses outs now _ w = goes_on w

  unfoldable pub turn : Bool → (ℕ → Outside) → ℕ → PollAnswer → World → Turn
  unfolding poll_sockets rest_of_turn
  turn ncurses outs now answer w =
      then_do (poll_sockets now answer w) (rest_of_turn ncurses outs now answer)

  -- One turn of `while (1)` for each answer of poll with its time and what the events get.
  unfoldable pub thread_loop : Bool → List (PollAnswer × ℕ × (ℕ → Outside)) → World → Turn
  unfolding turn
  thread_loop ncurses [] w = goes_on w
  thread_loop ncurses ((answer, now, outs) ∷ rest) w =
      then_do (turn ncurses outs now answer w) (thread_loop ncurses rest)
