-- ===== src/Conn/Drain.antt =====
-- A socket that takes all it is given: _jpolld_conn_write of jab_simul/jab_simul-conn.c.
use jab_simul.Shared.{
  ℕ, suc, ◌+◌, ◌<◌, ◌≡◌, refl, sym, ap, subst, List, [], ◌∷◌, Option, none, some, Bool, true, false,
  Text, length, arith, ltb,
}
use jab_simul.State.{Session, Conn}
use jab_simul.State.Monad.{Outcome, returns, exits, faults, choose, skip}
use jab_simul.Conn.{
  SockResult, wrote, Flushed, Stop, emptied, flush_step, flush_queue, flush_conn, after_flush,
  conn_flush, is_closing, conn_kill,
}
use jab_simul.Conn.Order.{bytes}
use jab_simul.Roster.{roster_hash_delete, priv_roster_delete}

-- Each write takes the whole buffer, if that has any bytes.
abbrev pub TakesAll : (ℕ → Text → SockResult) → Type 0
TakesAll sock = (k c : ℕ) (b : Text) → sock k (c ∷ b) ≡ wrote (length b)

abbrev pub NoneEmpty : List (Option Text) → Type 0
NoneEmpty [] = Unit
NoneEmpty (none ∷ bs) = ⊥
NoneEmpty (some [] ∷ bs) = ⊥
NoneEmpty (some (c ∷ b) ∷ bs) = NoneEmpty bs

-- The whole queue goes out.
pub record Drained (bs : List (Option Text)) (r : Flushed) : Type 0 where
  pub nothing_left : r.left ≡ []
  pub all_sent : r.sent ≡ length bs
  pub all_out : r.out ≡ bytes bs
  pub stops_empty : r.stop ≡ emptied

not_less : (n : ℕ) → ltb n n ≡ false
not_less n = ground arith

flush_queue-Drained :
    (sock : ℕ → Text → SockResult)
    → TakesAll sock
    → (k : ℕ) (bs : List (Option Text)) → NoneEmpty bs
    → Drained bs (flush_queue sock k bs)
unfolding flush_queue flush_step
flush_queue-Drained sock all k [] full = record {
  nothing_left = refl;
  all_sent = refl;
  all_out = refl;
  stops_empty = refl;
}
flush_queue-Drained sock all k (none ∷ bs) full = absurd full
flush_queue-Drained sock all k (some [] ∷ bs) full = absurd full
flush_queue-Drained sock all k (some (c ∷ b) ∷ bs) full =
    let rest = flush_queue-Drained sock all (suc k) bs full in
    rw (all k c b, not_less (suc (length b)))
      (record {
        nothing_left = rest.nothing_left;
        all_sent = rw rest.all_sent refl;
        all_out = rw rest.all_out refl;
        stops_empty = rest.stops_empty;
      })

-- The run comes back with so many packets sent and nothing queued, if the connection is not
-- closing. If it is, the run ends with the process or in freed memory.
abbrev pub Flushes : Conn → ℕ → Session → Outcome (Unit {0}) → Type 0
Flushes c sent s (returns a t) =
    (is_closing c.state ≡ false)
    × (t.globals.packets.sent ≡ sent)
    × (t.user.conn ≡ some (record c { writer = []; pollout = false }))
Flushes c sent s (exits code) = (is_closing c.state ≡ true) × (s.user.exit_after_login ≡ true)
Flushes c sent s faults = (is_closing c.state ≡ true) × (s.user.exit_after_login ≡ false)

finished_flush :
    (c : Conn) (stop : Stop) (b : Bool) (s : Session)
    → s.user.conn ≡ some (record c { writer = []; pollout = b })
    → stop ≡ emptied
    → b ≡ true
    → Flushes c s.globals.packets.sent s (after_flush c stop s)
unfolding after_flush conn_kill roster_hash_delete priv_roster_delete
finished_flush c stop b s there e asked = ground (arith, there, e, asked)

drained_conn :
    (sock : ℕ → Text → SockResult) (c : Conn) (bs : List (Option Text)) (s : Session)
    → TakesAll sock
    → s.user.conn ≡ some c
    → c.writer ≡ bs
    → c.pollout ≡ true
    → 0 < length bs
    → NoneEmpty bs
    → Flushes c (s.globals.packets.sent + length c.writer) s (flush_conn sock c bs s)
unfolding flush_conn
drained_conn sock c [] s all there w asked h full = absurd (omega (arith, h))
drained_conn sock c (b ∷ bs) s all there w asked h full =
    let r = flush_queue sock 0 (b ∷ bs) in
    let gone = flush_queue-Drained sock all 0 (b ∷ bs) full in
    let now : Session = record s {
      user = record s.user { conn = some (record c { writer = [] }) };
      globals = record s.globals {
        packets = record s.globals.packets { sent = s.globals.packets.sent + length (b ∷ bs) };
      };
    } in
    rw (there, gone.nothing_left, gone.all_sent)
      (subst (λ (n : ℕ). Flushes c (s.globals.packets.sent + n) s (after_flush c r.stop now))
        (ap (λ (l : List (Option Text)). length l) (sym w))
        (finished_flush c r.stop c.pollout now refl gone.stops_empty asked))

-- When the socket takes every buffer whole that has any bytes, and the connection has something to
-- send, no empty packet and no NULL among it, and asks for POLLOUT, _jpolld_conn_write sends all that
-- was queued, counts each packet, stops asking and comes back, if the connection is not closing. If it
-- is, the run does not come back: the process ends if the user is to exit after its login, and
-- otherwise the loop tests a queue in freed memory.
pub conn_flush-Flushes :
    (sock : ℕ → Text → SockResult) (c : Conn) (s : Session)
    → TakesAll sock
    → s.user.conn ≡ some c
    → c.pollout ≡ true
    → 0 < length c.writer
    → NoneEmpty c.writer
    → Flushes c (s.globals.packets.sent + length c.writer) s (conn_flush sock s)
unfolding conn_flush
conn_flush-Flushes sock c s all there asked h full =
    subst
      (λ (o : Option Conn).
        Flushes c (s.globals.packets.sent + length c.writer) s
          (choose o skip (λ d. flush_conn sock d d.writer) s))
      (sym there) (drained_conn sock c c.writer s all there refl asked h full)
