-- ===== src/Sound.antt =====
-- What every step of a user keeps: the account of its packets, the flag POLLOUT, and the lower bound
-- of its activation times. The modules below follow the calls of the program, from the writes up to
-- user_do_your_job of jab_simul/jab_simul-user.c and the sockets of jab_simul/thread-main.c.
pub mod Rules
pub mod Writes
pub mod Requests
pub mod Rosters
pub mod Handlers
pub mod Events
pub mod Queue
pub mod Pass
pub mod Runs
pub mod Start
