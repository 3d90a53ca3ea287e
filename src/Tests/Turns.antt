-- ===== src/Tests/Turns.antt =====
-- The loop over two users, the program from its arguments on, and a read over TLS.
use jab_simul.Shared.{
  ℕ, ◌≡◌, refl, List, [], ◌∷◌, none, some, true, false, codes, text_eq, length, arith, leb, ◌&&◌,
  if◌then◌else◌,
}
use jab_simul.Shared.Int.{pos, negsuc}
use jab_simul.State.{User}
use jab_simul.Slots.{init_slots, set_place}
use jab_simul.Events.{Outside}
use jab_simul.Loop.{
  World, Turn, goes_on, breaks, exits, faults, on_user, PlaceEvents, PollAnswer, ready, interrupted,
  failed, thread_loop, poll_sockets,
}
use jab_simul.Loop.Users.{WorldSound, Holds}
use jab_simul.Loop.Kept.{thread_loop-WorldSound}
use jab_simul.Loop.Main.{start_world}
use jab_simul.Loop.Program.{main-WorldSound}
use jab_simul.Loop.Enters.{TakesFile, Enters, main-Enters}
use jab_simul.Loop.Main.{asks_info, main, start_program, run_thread}
use jab_simul.Config.Configure.{configure}
use jab_simul.Tls.{
  done, ReadAnswer, got, gone, Ssl, Answer, jab_ssl_read, read_loop, shake, read_result,
}
use jab_simul.Tls.Reads.{FitsRead, ReadEnds, jab_ssl_read-ReadEnds}
use jab_simul.Tests.Fixtures.{lib, xh, outside, anna, kick, session, slow_socket}
use jab_simul.Tests.Setups
use jab_simul.Conn.{conn_flush, flush_conn, after_flush, flush_queue, flush_step}
use jab_simul.Poll.{handle_place, handle_pollout}

-- Anna, with two packets in her queue at place 5, and a user without a connection.
abbrev waiting : User
waiting = record anna { conn = none; events_queue = kick ∷ [] }

abbrev two_users : World
two_users = record (start_world (anna ∷ waiting ∷ []) session.globals) {
  globals = record session.globals {
    slots = record init_slots { mpfd = 5; conns = set_place 5 (some 0) init_slots.conns };
  };
}

two-WorldSound : WorldSound two_users
two-WorldSound = record { accounted = refl; each = ((refl, tt), ((tt, (ground arith, tt)), tt)) }

abbrev writable : ℕ → PlaceEvents
writable j = record {
  revents = record { err = none; out = true; input = false };
  sock = slow_socket;
  read = none;
}

abbrev turns : List (PollAnswer × ℕ × (ℕ → Outside))
turns =
    (ready 1 writable, 700, (λ n. outside))
    ∷ (interrupted, 800, (λ n. outside))
    ∷ (failed, 900, (λ n. outside))
    ∷ []

abbrev sent_of : Turn → ℕ
sent_of (goes_on w) = w.globals.packets.sent
sent_of (breaks w) = w.globals.packets.sent
sent_of (exits code) = 0
sent_of faults = 0

-- At place 5 both packets go out: with the one before them three are sent.
both_sent : sent_of (poll_sockets lib xh 700 (ready 1 writable) two_users) ≡ 3
unfolding poll_sockets on_user handle_place handle_pollout conn_flush flush_conn after_flush
    flush_queue flush_step set_place init_slots
both_sent = refl

thread_loop-WorldSound_example : Holds WorldSound (thread_loop lib xh true turns two_users)
thread_loop-WorldSound_example = thread_loop-WorldSound lib xh true turns two_users two-WorldSound

main-WorldSound_example : Holds WorldSound (
    main Setups.lib xh Setups.regex Setups.draws Setups.garbage.user_names_space 0
      (λ name. some 1)
      true
      turns
      (codes "my.xml" ∷ []))
main-WorldSound_example =
    main-WorldSound Setups.lib xh Setups.regex Setups.draws Setups.garbage.user_names_space 0
      (λ name. some 1) true turns (codes "my.xml" ∷ [])

takes_my_file : TakesFile (codes "my.xml" ∷ [])
unfolding asks_info text_eq
takes_my_file = refl

main-Enters_example :
    Enters Setups.lib xh Setups.regex Setups.draws Setups.garbage.user_names_space 0
      (λ name. some 1)
      1
      true
      (codes "my.xml" ∷ [])
main-Enters_example =
    main-Enters Setups.lib xh Setups.regex Setups.draws Setups.garbage.user_names_space 0
      (λ name. some 1) 1 true (codes "my.xml" ∷ []) takes_my_file refl Setups.lib-IsFine

-- Without a configuration the program ends with 1.
no_file :
    main Setups.lib xh Setups.regex Setups.draws Setups.garbage.user_names_space 0
      (λ name. none)
      true
      turns
      []
    ≡ exits 1
unfolding main start_program run_thread configure
no_file = refl

-- Two bytes at a time, of which there are three pairs.
abbrev pairs : ℕ → ℕ → ReadAnswer
pairs k count = if leb 2 count && leb k 2 then got b'x' (codes "y") else gone (negsuc 0) true

abbrev shaken : Ssl
shaken = record { state_ok = false; connect = done; read = pairs; write = λ t. pos (length t) }

pairs-FitsRead : FitsRead pairs
pairs-FitsRead k count c cs e = ground (arith, e)

jab_ssl_read-ReadEnds_example :
    (a : Answer) × (jab_ssl_read shaken 5 ≡ some a) × ReadEnds shaken 5 a
jab_ssl_read-ReadEnds_example = jab_ssl_read-ReadEnds shaken 5 pairs-FitsRead

-- Two pairs fit into five bytes.
five_bytes :
    jab_ssl_read shaken 5 ≡ some (record { ret = pos 4; blocked = false; stored = codes "xyxy" })
unfolding jab_ssl_read read_loop shake read_result
five_bytes = refl
