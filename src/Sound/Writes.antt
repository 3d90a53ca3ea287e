-- ===== src/Sound/Writes.antt =====
-- The writes, the end of a connection and the flush keep the account: jab_simul/jab_simul-conn.c.
use jab_simul.Shared.{ℕ, ◌≡◌, refl, List, [], ◌∷◌, Bool, Text, Option, some, none, arith}
use jab_simul.Shared.Int.{ℤ}
use jab_simul.Jabber.{Jabber, Xml}
use jab_simul.State.{Session, Conn, Event}
use jab_simul.State.Monad.{
  Outcome, returns, exits, faults, After, IfBack, After-IfBack, fault-IfBack, Returns,
  Returns-After, with_conn-cases,
}
use jab_simul.Conn.{
  conn_write_str, conn_write, conn_flush, conn_kill, user_conn_kill, enqueue, exit_if_flagged,
  user_finish_conn, SockResult, flush_conn, after_flush, Stop, emptied, waiting, broken, null_read,
  conn_write_null,
}
use jab_simul.Conn.Accounting.{
  Accounted, toggled, expected, enqueue-Accounted, user_conn_kill-Accounted, conn_kill-Accounted,
  flush-Accounted,
}
use jab_simul.Conn.Order.{PollsWell, enqueue-PollsWell, flush-PollsWell}
use jab_simul.Roster.{roster_hash_delete, priv_roster_delete}
use jab_simul.Sound.Rules.{
  Safe, returned, exited, faulted, Safe-if, WellKept, Keeps, set_conn-Keeps,
}

-- The times of the events are left alone.
abbrev Timed : ℤ → List Event → Session → Type 0
Timed sooner queue s = (s.user.sooner_activation_tm ≡ sooner) × (s.user.events_queue ≡ queue)

enqueue-Timed :
    (sooner : ℤ) (queue : List Event) (c : Conn) (buf : Option Text) (force : Bool) (s : Session)
    → Timed sooner queue s
    → IfBack (Timed sooner queue) (enqueue c buf force s)
unfolding enqueue
enqueue-Timed sooner queue c buf force s h = ground (arith, h)

put_together :
    {A : Type 0} (others : ℕ) (sooner : ℤ) (queue : List Event) (o : Outcome A)
    → IfBack (Accounted others) o
    → IfBack PollsWell o
    → IfBack (Timed sooner queue) o
    → Safe (λ _ t. WellKept others sooner queue t) o
put_together others sooner queue (returns a t) h p e =
    returned (record { accounted = h; polls = p; sooner_same = e.0; queue_same = e.1 })
put_together others sooner queue (exits code) h p e = exited
put_together others sooner queue faults h p e = faulted

user_conn_kill-Timed :
    (sooner : ℤ) (queue : List Event) (s : Session)
    → Timed sooner queue s
    → IfBack (Timed sooner queue) (user_conn_kill s)
unfolding user_conn_kill roster_hash_delete priv_roster_delete
user_conn_kill-Timed sooner queue s h = ground (arith, h)

conn_kill-Timed :
    (sooner : ℤ) (queue : List Event) (s : Session)
    → Timed sooner queue s
    → IfBack (Timed sooner queue) (conn_kill s)
unfolding conn_kill roster_hash_delete priv_roster_delete
conn_kill-Timed sooner queue s h = ground (arith, h)

-- A run that returns in any case.
enqueued :
    {A : Type 0} (others : ℕ) (sooner : ℤ) (queue : List Event) (o : Outcome A)
    → Returns (λ _ t. Accounted others t) o
    → Returns (λ _ t. PollsWell t) o
    → IfBack (Timed sooner queue) o
    → Safe (λ _ t. WellKept others sooner queue t) o
enqueued others sooner queue o h p e =
    put_together others sooner queue o
      (After-IfBack (Accounted others) o (Returns-After (λ _ t. Accounted others t) o h))
      (After-IfBack PollsWell o (Returns-After (λ _ t. PollsWell t) o p)) e

enqueue-Safe :
    (others : ℕ) (sooner : ℤ) (queue : List Event) (c : Conn) (buf : Option Text) (force : Bool)
    (s : Session)
    → s.user.conn ≡ some c
    → WellKept others sooner queue s
    → Safe (λ _ t. WellKept others sooner queue t) (enqueue c buf force s)
enqueue-Safe others sooner queue c buf force s e w =
    enqueued others sooner queue _ (enqueue-Accounted others c buf force s e w.accounted)
      (enqueue-PollsWell c buf force s e w.polls)
      (enqueue-Timed sooner queue c buf force s (w.sooner_same, w.queue_same))

pub conn_write_str-Keeps : (buf : Text) (force : Bool) → Keeps (conn_write_str buf force)
unfolding conn_write_str
conn_write_str-Keeps buf force others sooner queue s w =
    with_conn-cases (Safe (λ _ t. WellKept others sooner queue t)) _ _ s (λ e. returned w)
      λ c e. enqueue-Safe others sooner queue c (some buf) force s e w

pub conn_write_null-Keeps : (force : Bool) → Keeps (conn_write_null force)
unfolding conn_write_null
conn_write_null-Keeps force others sooner queue s w =
    with_conn-cases (Safe (λ _ t. WellKept others sooner queue t)) _ _ s (λ e. returned w)
      λ c e. enqueue-Safe others sooner queue c none force s e w

pub conn_write-Keeps : (lib : Jabber) (x : Xml) (force : Bool) → Keeps (conn_write lib x force)
unfolding conn_write conn_write_str
conn_write-Keeps lib x force others sooner queue s w =
    conn_write_str-Keeps (lib.render x) force others sooner queue s w

user_conn_kill-polls : (s : Session) → After (λ _ t. PollsWell t) (user_conn_kill s)
unfolding user_conn_kill roster_hash_delete priv_roster_delete
user_conn_kill-polls s = ground arith

conn_kill-polls : (s : Session) → After (λ _ t. PollsWell t) (conn_kill s)
unfolding conn_kill roster_hash_delete priv_roster_delete
conn_kill-polls s = ground arith

pub conn_kill-Keeps : Keeps conn_kill
conn_kill-Keeps others sooner queue s w =
    put_together others sooner queue _
      (After-IfBack (Accounted others) (conn_kill s) (conn_kill-Accounted others s w.accounted))
      (After-IfBack PollsWell (conn_kill s) (conn_kill-polls s))
      (conn_kill-Timed sooner queue s (w.sooner_same, w.queue_same))

pub user_conn_kill-Keeps : Keeps user_conn_kill
user_conn_kill-Keeps others sooner queue s w =
    put_together others sooner queue _
      (After-IfBack (Accounted others) (user_conn_kill s)
        (user_conn_kill-Accounted others s w.accounted))
      (After-IfBack PollsWell (user_conn_kill s) (user_conn_kill-polls s))
      (user_conn_kill-Timed sooner queue s (w.sooner_same, w.queue_same))

pub exit_if_flagged-Keeps : (code : ℕ) → Keeps (exit_if_flagged code)
unfolding exit_if_flagged
exit_if_flagged-Keeps code others sooner queue s w =
    Safe-if s.user.exit_after_login _ _ exited (returned w)

pub user_finish_conn-Keeps : Keeps user_finish_conn
unfolding user_finish_conn
user_finish_conn-Keeps = set_conn-Keeps _ (λ c. (refl, refl))

after_flush-Timed :
    (sooner : ℤ) (queue : List Event) (c : Conn) (why : Stop) (s : Session)
    → Timed sooner queue s
    → IfBack (Timed sooner queue) (after_flush c why s)
unfolding after_flush
after_flush-Timed sooner queue c waiting s h = h
after_flush-Timed sooner queue c null_read s h = tt
after_flush-Timed sooner queue c broken s h = conn_kill-Timed sooner queue s h
after_flush-Timed sooner queue c emptied s h =
    ground (arith, h, fault-IfBack (Timed sooner queue) (conn_kill (expected (toggled s))))

flush_conn-Timed :
    (sooner : ℤ) (queue : List Event) (sock : ℕ → Text → SockResult) (c : Conn)
    (bs : List (Option Text)) (s : Session)
    → Timed sooner queue s
    → IfBack (Timed sooner queue) (flush_conn sock c bs s)
unfolding flush_conn
flush_conn-Timed sooner queue sock c [] s h = h
flush_conn-Timed sooner queue sock c (b ∷ bs) s h = after_flush-Timed sooner queue c _ _ h

pub conn_flush-Keeps : (sock : ℕ → Text → SockResult) → Keeps (conn_flush sock)
unfolding conn_flush
conn_flush-Keeps sock others sooner queue s w =
    put_together others sooner queue (conn_flush sock s) (flush-Accounted others sock s w.accounted)
      (flush-PollsWell sock s w.polls)
      (with_conn-cases (IfBack (Timed sooner queue)) _ _ s (λ e. times)
        λ c e. flush_conn-Timed sooner queue sock c c.writer s times)
  where
    times : Timed sooner queue s
    times = (w.sooner_same, w.queue_same)
