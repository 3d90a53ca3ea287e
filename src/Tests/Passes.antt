-- ===== src/Tests/Passes.antt =====
-- The theorems on whole handlers and on passes of the main loop, each with conditions at a concrete
-- input.
use jab_simul.Shared.{
  ◌+◌, ℕ, suc, ◌≤◌, ◌≡◌, ◌==◌, refl, [], ◌∷◌, none, some, true, false, Text, arith, length,
  if◌then◌else◌,
}
use jab_simul.Shared.Int.{pos}
use jab_simul.Jabber.{Jabber, Compares}
use jab_simul.State.{Session, Conn, logged_in}
use jab_simul.State.Monad.{After, Returns, returns}
use jab_simul.Conn.{conn_flush, flush_queue}
use jab_simul.Ids.{make_jcom_id}
use jab_simul.Primes.Nth.{entries}
use jab_simul.Repeater.{is_due}
use jab_simul.Conn.{flush_conn, after_flush, flush_step}
use jab_simul.Conn.{SockResult, wrote, would_block}
use jab_simul.Conn.Drain.{Flushes, conn_flush-Flushes}
use jab_simul.Handlers.{handle_user_node, handle_message, is_error, node_id}
use jab_simul.Handlers.Login.{Asked, login_plain-answered}
use jab_simul.Handlers.Messages.{kind_of, handle_message-Counted}
use jab_simul.Handlers.Messages
use jab_simul.Requests.{user_do_login_plain}
use jab_simul.Life.Progress.{Moved, user_do_your_job-Moved}
use jab_simul.Events.Picks.{ev_del_roster-back}
use jab_simul.Events.{ev_del_roster}
use jab_simul.Life.{user_do_your_job}
use jab_simul.Poll.{Revents, handle_place, handle_pollout}
use jab_simul.Sound.Rules.{Safe}
use jab_simul.Sound.Queue.{Sound}
use jab_simul.Sound.Pass.{user_do_your_job-Sound}
use jab_simul.Sound.Runs.{rest, then_pass, polled, Runs-Sound}
use jab_simul.Tests.Fixtures.{
  full_table, lib, lib-Compares, xh, line, session, slow_socket, kick, busy_session, outside, back,
}

busy-Sound : Sound 0 busy_session
busy-Sound = record { accounted = refl; polls = refl; bounded = (ground arith, tt) }

user_do_your_job-Sound_example :
    Safe (λ _ t. Sound 0 t) (user_do_your_job lib xh outside 700 busy_session)
user_do_your_job-Sound_example = user_do_your_job-Sound lib xh outside 700 0 busy_session busy-Sound

abbrev writable : Revents
writable = record { err = none; out = true; input = false }

abbrev flushed : Session
flushed = back (handle_place lib xh 700 writable slow_socket none busy_session)

flushed_back : handle_place lib xh 700 writable slow_socket none busy_session ≡ returns tt flushed
unfolding handle_place handle_pollout conn_flush flush_conn after_flush flush_queue flush_step
flushed_back = refl

Runs-Sound_example : Sound 0 flushed
Runs-Sound_example =
    Runs-Sound lib xh outside 0 busy-Sound
      (then_pass rest (polled 700 writable slow_socket none flushed_back))

-- Any node is an answer to the request of this number.
abbrev answering : Jabber
answering = record lib {
  get_attrib = λ x name. if length name == 2 then some (make_jcom_id 0) else none;
}

not_an_error : is_error answering xh 2 ≡ false
unfolding is_error
not_an_error = refl

has_the_id : node_id answering xh 2 ≡ some (make_jcom_id 0)
unfolding node_id
has_the_id = refl

answering-Compares : Compares answering
answering-Compares = record {
  same_iff = lib-Compares.same_iff;
  same_null = lib-Compares.same_null;
  null_same = lib-Compares.null_same;
}

login_plain-answered_example :
    Returns
      (λ _ t.
        ((d : Conn) × Asked busy_session 700 line t d)
        × Returns
            (λ _ r. (f : Conn) × (r.user.conn ≡ some f) × (r.user.state ≡ logged_in))
            (handle_user_node answering xh 2 900 t))
      (user_do_login_plain 700 busy_session)
login_plain-answered_example =
    login_plain-answered answering answering-Compares xh 700 900 2 line busy_session refl refl
      has_the_id not_an_error

none_due : is_due kick 400 ≡ false
unfolding is_due
none_due = refl

user_do_your_job-Moved_example :
    After (λ _ t. Moved busy_session t) (user_do_your_job lib xh outside 400 busy_session)
user_do_your_job-Moved_example =
    user_do_your_job-Moved lib xh outside 400 busy_session refl (none_due, tt)

abbrev roster_session : Session
roster_session = record session {
  user = record session.user { roster_hash = some full_table; roster_count = pos 2 };
}

ev_del_roster-back_example :
    Returns
      (λ _ t.
        (t.globals.counts.ev_del_rosters ≤ suc roster_session.globals.counts.ev_del_rosters)
        × (length (entries full_table.zen) ≡ 0
            → t.globals.counts.ev_del_rosters ≡ roster_session.globals.counts.ev_del_rosters))
      (ev_del_roster lib xh outside 700 roster_session)
ev_del_roster-back_example =
    ev_del_roster-back lib xh outside 700 line full_table roster_session refl refl refl

handle_message-Counted_example :
    Returns
      (λ _ t. Messages.Counted (kind_of lib 2) session t)
      (handle_message lib xh 2 700 session)
handle_message-Counted_example = handle_message-Counted lib xh 2 700 session

abbrev eager_socket : ℕ → Text → SockResult
eager_socket k [] = would_block
eager_socket k (c ∷ b) = wrote (length b)

conn_flush-Flushes_example :
    Flushes line
      (session.globals.packets.sent + length line.writer)
      session
      (conn_flush eager_socket session)
conn_flush-Flushes_example =
    conn_flush-Flushes eager_socket line session (λ k c b. refl) refl refl (ground arith) tt
