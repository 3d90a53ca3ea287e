-- ===== src/Conn/Accounting.antt =====
-- Every packet is sent, canceled or in a queue: the counters of jab_simul/jab_simul-conn.c, which
-- stat_printf of jab_simul/thread-main.c subtracts to show the packets in queues.
use jab_simul.Shared.{
  ℕ, suc, ◌+◌, ◌≡◌, refl, List, [], ◌∷◌, none, some, Option, Bool, true, not, Text, length,
  length-append, arith,
}
use jab_simul.Jabber.{Jabber, Xml}
use jab_simul.State.{Session, User, Conn}
use jab_simul.State.Monad.{M, After, IfBack, After-IfBack, fault-IfBack, Returns, with_conn-cases}
use jab_simul.Conn.{
  conn_write_str, conn_write, conn_flush, conn_kill, user_conn_kill, enqueue, SockResult,
  flush_queue, flush_conn, after_flush, Stop, emptied, waiting, broken, null_read,
}
use jab_simul.Roster.{roster_hash_delete, priv_roster_delete}

abbrev pub queued : User → ℕ
queued u = elim u.conn [ none ↦ 0 | some c ↦ length c.writer ]

-- `others` are the packets in the queues of the other users.
abbrev pub Accounted : ℕ → Session → Type 0
Accounted others s =
    let p = s.globals.packets in p.created ≡ p.sent + p.canceled + (queued s.user + others)

abbrev pub Keeps : {A : Type 0} → (Session → Type 0) → M A → Type 0
Keeps P m = (s : Session) → P s → After (λ _ t. P t) (m s)

abbrev pub Settles : {A : Type 0} → (Session → Type 0) → M A → Type 0
Settles P m = (s : Session) → P s → Returns (λ _ t. P t) (m s)

pub enqueue-Accounted :
    (others : ℕ) (c : Conn) (buf : Option Text) (force : Bool) (s : Session)
    → s.user.conn ≡ some c
    → Accounted others s
    → Returns (λ _ t. Accounted others t) (enqueue c buf force s)
unfolding enqueue
enqueue-Accounted others c buf force s e h = ground (arith, length-append c.writer (buf ∷ []))

-- If every packet created is sent, canceled or in a queue, so it is after jpolld_conn_write_str,
-- whether the packet is queued or refused; and the function returns.
pub write_str-Accounted :
    (others : ℕ) (buf : Text) (force : Bool) → Settles (Accounted others) (conn_write_str buf force)
unfolding conn_write_str
write_str-Accounted others buf force s h =
    with_conn-cases (Returns (λ _ t. Accounted others t)) _ _ s (λ e. h)
      λ c e. enqueue-Accounted others c (some buf) force s e h

-- If every packet created is sent, canceled or in a queue, so it is after jpolld_conn_write.
pub write-Accounted :
    (others : ℕ) (lib : Jabber) (x : Xml) (force : Bool)
    → Settles (Accounted others) (conn_write lib x force)
unfolding conn_write
write-Accounted others lib x force s h =
    with_conn-cases (Returns (λ _ t. Accounted others t)) _ _ s (λ e. h)
      λ c e. enqueue-Accounted others c (some (lib.render x)) force s e h

-- If every packet created is sent, canceled or in a queue, so it is after user_conn_kill, if that
-- does not end the process: what was in the queue of the connection counts as canceled.
pub user_conn_kill-Accounted : (others : ℕ) → Keeps (Accounted others) user_conn_kill
unfolding user_conn_kill roster_hash_delete priv_roster_delete
user_conn_kill-Accounted others s h = ground arith

-- If every packet created is sent, canceled or in a queue, so it is after jpolld_conn_kill, if that
-- does not end the process.
pub conn_kill-Accounted : (others : ℕ) → Keeps (Accounted others) conn_kill
unfolding conn_kill roster_hash_delete priv_roster_delete
conn_kill-Accounted others s h = ground arith

flush_queue-counts :
    (sock : ℕ → Text → SockResult) (k : ℕ) (bs : List (Option Text))
    → (flush_queue sock k bs).sent + length (flush_queue sock k bs).left ≡ length bs
unfolding flush_queue
flush_queue-counts sock k [] = refl
flush_queue-counts sock k (none ∷ bs) = omega arith
flush_queue-counts sock k (some b ∷ bs) = ground (arith, flush_queue-counts sock (suc k) bs)

abbrev pub toggled : Session → Session
toggled s = record s {
  user = record s.user {
    conn = elim s.user.conn [ none ↦ none | some d ↦ some (record d { pollout = not d.pollout }) ];
  };
}

abbrev pub expected : Session → Session
expected s = record s { user = record s.user { expect_kill = true } }

after_flush-Accounted :
    (others : ℕ) (c : Conn) (why : Stop) (s : Session)
    → Accounted others s
    → IfBack (Accounted others) (after_flush c why s)
unfolding after_flush
after_flush-Accounted others c waiting s h = h
after_flush-Accounted others c broken s h =
    After-IfBack (Accounted others) (conn_kill s) (conn_kill-Accounted others s h)
after_flush-Accounted others c null_read s h = tt
after_flush-Accounted others c emptied s h =
    ground (arith, h, fault-IfBack (Accounted others) (conn_kill (expected (toggled s))))

flush_conn-Accounted :
    (others : ℕ) (sock : ℕ → Text → SockResult) (c : Conn) (bs : List (Option Text)) (s : Session)
    → s.user.conn ≡ some c
    → c.writer ≡ bs
    → Accounted others s
    → IfBack (Accounted others) (flush_conn sock c bs s)
unfolding flush_conn
flush_conn-Accounted others sock c [] s e w h = h
flush_conn-Accounted others sock c (b ∷ bs) s e w h =
    after_flush-Accounted others c _ _ (ground (arith, flush_queue-counts sock 0 (b ∷ bs)))

-- If every packet created is sent, canceled or in a queue, so it is after _jpolld_conn_write,
-- whatever the socket answers: those written in full count as sent, and those left in the queue of
-- a connection that breaks as canceled.
pub flush-Accounted :
    (others : ℕ) (sock : ℕ → Text → SockResult) (s : Session)
    → Accounted others s
    → IfBack (Accounted others) (conn_flush sock s)
unfolding conn_flush
flush-Accounted others sock s h =
    with_conn-cases (IfBack (Accounted others)) _ _ s (λ e. h)
      λ c e. flush_conn-Accounted others sock c c.writer s e refl h
