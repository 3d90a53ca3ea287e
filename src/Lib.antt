-- ===== src/Lib.antt =====
-- jab_simul, a simulator of many Jabber clients that puts a load on a server
-- (jab_simul/*.c). Simulated users each keep a connection, a roster and a queue of timed events; one
-- loop polls the sockets, reads and writes them, and lets every user do its work.
--
-- How it works together. thread_main polls the places of the connections. handle_POLLIN gives bytes
-- to the stream parser, whose callback jpolld_conn_node hands each XML node to handle_user_node; that
-- finds the request that the node answers and calls its handler, or handles a presence, a message or
-- a roster push. handle_POLLOUT sends what is queued. Between polls user_do_your_job logs a user in,
-- checks its timeouts and runs its due events (user_handle_repeater_queue); the events connect, send
-- messages, change rosters and log out. All of them write with jpolld_conn_write_str or
-- jpolld_conn_write, and any of them may end the connection with user_conn_kill.
--
-- Files. Each definition has the name of the C function, or says which it is a part of.
--   State: the structures of jab_simul/jab_simul-main.h and jab_simul/jab_simul-roster.h. A
--     Session is one user with the globals. The user's connection stands in the user; the table of
--     the thread keeps for each place the number of the user that has it.
--   State.Monad: code on a Session. It returns, exits (exit_app) or faults (what C leaves undefined:
--     a NULL pointer, a table read out of bounds, a buffer overrun).
--   Jabber: the library under jabberd/lib, a parameter: string comparison, reading of XML nodes,
--     rendering, SHA. Roster.Load.Xhash is its hash table.
--   Stats: init_stat, add_stat, get_stat and get_div_stat of jab_simul/jab_simul-user.c.
--   Slots: the places of the connections: thread_init (jab_simul/thread-main.c), add_conns and the
--     end of jpolld_conn_kill (jab_simul/jab_simul-conn.c), the start of user_connect
--     (jab_simul/jab_simul-user.c).
--   Primes: jab_simul/libjabber_ext.c: fit_prime, tag iterators, xhash_get_nth.
--   Roster, Roster.Load, Roster.Priv, Roster.Save: jab_simul/jab_simul-roster.c: delete, load from
--     XML, the private part, and the XML to save it.
--   Conn: jab_simul/jab_simul-conn.c: queue, flush and kill; user_conn_kill and user_finish_conn of
--     jab_simul/jab_simul-user.c.
--   Connect: sockets and user_connect.
--   Responses, Ids, Requests, Stanzas: what a user sends and the requests that it waits for, in
--     jab_simul/jab_simul-user.c.
--   Handlers: the handlers of answers and handle_user_node, in jab_simul/jab_simul-user.c.
--   Events, Statuses, Repeater: jab_simul/jab_simul-repeater.c and user_handle_repeater_queue.
--   Pattern: jab_simul/namespace_scan.l and jab_simul/namespace_pars.y, the patterns of names and
--     passwords: the scanner (Lexer), bison's automaton (Parser), sprintf of an int (Printf). What a
--     pattern means apart from these is Meaning; Render writes it down.
--   Config: generate_user_names_space (Names) and set_users_properities (Users) of
--     jab_simul/jab_simul-main.c, and configure (Configure), which runs both. What they leave: Space,
--     Start, Origin; when they come back, and with how many users: Returns, Count, Comes.
--   Life: user_do_your_job and user_create. Poll: jab_simul/thread-main.c and jpolld_conn_node.
--   Sound: what all of it keeps. Sound.Rules has the property, of a run that comes back (one that
--     exits or faults promises nothing there), and the rules for a chain of steps. Its other modules
--     go from the writes up to any run of passes (Sound.Runs).
--   Loop: thread_main over all users, with the answers of poll as a list (jab_simul/thread-main.c).
--     Its World holds the users by their number and what they share; a step of one user is run on
--     its Session. Loop.Main is main, from the arguments on,
--     Loop.Program what it keeps, Loop.Enters when it comes to the loop.
--   Tls: jab_simul/jab_simul-ssl.c, with OpenSSL's answers as parameters.
--   Karma: jab_simul/karma.c. Timer: check_timer of jab_simul/jab_simul-main.c.
--   Tests and its children: each theorem with conditions at a concrete input.
--
-- Numbers. C integers that only count up are natural numbers and the others integers; none wraps.
-- Times are microseconds. random() is a sequence that the globals hold. Loops are structural
-- recursion: over a list of siblings, buffers, events or buckets, or on the rounds that are left.
-- Fuel is that of the printed numbers (Ids.digits_of), ten digits for an unsigned int and twenty for
-- a time, which is what such a number can have, and that of the scanner (Pattern.Lexer.scan), the
-- length of the text: every match takes a character. In patterns an int has 32 bits, and an overflow
-- is undefined.
--
-- Not modelled: the signal handlers, the administration, conversions of sprintf other than d, i and
-- u, and output: logs, the statistics screen and sniff files. The memory pools and the freeing of
-- memory are left out. An XML tree that is built is a value of Jabber.Xml, and its text is the
-- library's.
pub mod Shared
pub mod Jabber
pub mod State
pub mod Pattern
pub mod Stats
pub mod Slots
pub mod Primes
pub mod Roster
pub mod Conn
pub mod Responses
pub mod Ids
pub mod Requests
pub mod Stanzas
pub mod Handlers
pub mod Connect
pub mod Statuses
pub mod Events
pub mod Repeater
pub mod Life
pub mod Poll
pub mod Tls
pub mod Karma
pub mod Timer
pub mod Config
pub mod Sound
pub mod Loop
pub mod Tests
