-- ===== src/Conn/Order.antt =====
-- The write queue keeps its order, its POLLOUT flag and its length limit:
-- jab_simul/jab_simul-conn.c.
use jab_simul.Shared.{
  ℕ, suc, ◌<◌, ◌≡◌, refl, sym, subst, ◌∙◌, List, [], ◌∷◌, ◌++◌, Option, none, some, Bool, true,
  false, not, ◌||◌, Text, length, take, drop, take-append-drop, append_assoc, arith, leb,
  if◌then◌else◌,
}
use jab_simul.State.{Session, Conn}
use jab_simul.State.Monad.{
  Outcome, returns, exits, faults, After, IfBack, fault-IfBack, Returns, with_conn-cases,
}
use jab_simul.Conn.{
  conn_write_str, conn_flush, conn_kill, enqueue, SockResult, wrote, would_block, failed,
  flush_queue, flush_step, flush_conn, after_flush, Flushed, Stop, emptied, waiting, broken,
  null_read, max_packs_buffered,
}
use jab_simul.Conn.Accounting.{toggled, expected}
use jab_simul.Roster.{roster_hash_delete, priv_roster_delete}

-- The bytes of a queue, in the order in which they go out.
abbrev pub bytes : List (Option Text) → Text
bytes [] = []
bytes (none ∷ bs) = bytes bs
bytes (some b ∷ bs) = b ++ bytes bs

-- Why the loop stops, read off the queue that it leaves.
abbrev pub StopsRightly : List (Option Text) → Stop → Type 0
StopsRightly left emptied = left ≡ []
StopsRightly left waiting = 0 < length left
StopsRightly left broken = 0 < length left
StopsRightly [] null_read = ⊥
StopsRightly (b ∷ bs) null_read = b ≡ none

flush_step-bytes :
    (r : SockResult) (b : Text) (bs : List (Option Text)) (rest : Flushed)
    → rest.out ++ bytes rest.left ≡ bytes bs
    → (flush_step r b bs rest).out ++ bytes (flush_step r b bs rest).left ≡ bytes (some b ∷ bs)
unfolding flush_step
flush_step-bytes (wrote n) b bs rest h = ground (
  arith,
  append_assoc (take (suc n) b) (drop (suc n) b) (bytes bs),
  take-append-drop (suc n) b,
  append_assoc b rest.out (bytes rest.left),
)
flush_step-bytes would_block b bs rest h = refl
flush_step-bytes failed b bs rest h = refl

flush_step-stop :
    (r : SockResult) (b : Text) (bs : List (Option Text)) (rest : Flushed)
    → StopsRightly rest.left rest.stop
    → StopsRightly (flush_step r b bs rest).left (flush_step r b bs rest).stop
unfolding flush_step
flush_step-stop (wrote n) b bs rest h = ground arith
flush_step-stop would_block b bs rest h = omega arith
flush_step-stop failed b bs rest h = omega arith

-- Whatever the socket answers, the bytes that it took, followed by those that are left in the
-- queue, are the bytes of the queue before: none is lost, repeated or moved. The loop stops with an
-- empty queue or because the socket would block, took a part or failed while some was left, or at a text of NULL.
pub flush_queue-bytes :
    (sock : ℕ → Text → SockResult) (k : ℕ) (bs : List (Option Text))
    → let r = flush_queue sock k bs in
      (r.out ++ bytes r.left ≡ bytes bs) × StopsRightly r.left r.stop
unfolding flush_queue
flush_queue-bytes sock k [] = (refl, refl)
flush_queue-bytes sock k (none ∷ bs) = (refl, refl)
flush_queue-bytes sock k (some b ∷ bs) =
    let (same, why) = flush_queue-bytes sock (suc k) bs in
    (flush_step-bytes (sock k b) b bs _ same, flush_step-stop (sock k b) b bs _ why)

abbrev pub is_empty : List (Option Text) → Bool
is_empty [] = true
is_empty (b ∷ bs) = false

-- POLLOUT is asked for exactly when there is something to send.
abbrev pub PollsWell : Session → Type 0
PollsWell s = elim s.user.conn [ none ↦ Unit {0} | some c ↦ c.pollout ≡ not (is_empty c.writer) ]

is_empty-append : (bs : List (Option Text)) (b : Option Text) → is_empty (bs ++ b ∷ []) ≡ false
is_empty-append [] b = refl
is_empty-append (x ∷ bs) b = refl

pub enqueue-PollsWell :
    (c : Conn) (buf : Option Text) (force : Bool) (s : Session)
    → s.user.conn ≡ some c
    → PollsWell s
    → Returns (λ _ t. PollsWell t) (enqueue c buf force s)
unfolding enqueue
enqueue-PollsWell c buf force s e h = ground (arith, is_empty-append c.writer buf)

-- If a connection asks for POLLOUT exactly when its queue is not empty, so it does after
-- jpolld_conn_write_str.
pub write_str-PollsWell :
    (buf : Text) (force : Bool) (s : Session)
    → PollsWell s
    → Returns (λ _ t. PollsWell t) (conn_write_str buf force s)
unfolding conn_write_str
write_str-PollsWell buf force s h =
    with_conn-cases (Returns (λ _ t. PollsWell t)) _ _ s (λ e. h)
      λ c e. enqueue-PollsWell c (some buf) force s e h

conn_kill-gone : (s : Session) → After (λ _ t. t.user.conn ≡ none) (conn_kill s)
unfolding conn_kill roster_hash_delete priv_roster_delete
conn_kill-gone s = ground arith

gone-PollsWell : (o : Outcome (Unit {0})) → After (λ _ t. t.user.conn ≡ none) o → IfBack PollsWell o
gone-PollsWell (returns a t) h = rw h tt
gone-PollsWell (exits code) h = tt
gone-PollsWell faults h = tt

after_flush-PollsWell :
    (c d : Conn) (why : Stop) (s : Session)
    → s.user.conn ≡ some d
    → StopsRightly d.writer why
    → d.pollout ≡ true
    → IfBack PollsWell (after_flush c why s)
unfolding after_flush
after_flush-PollsWell c d emptied s e r p =
    ground (arith, fault-IfBack PollsWell (conn_kill (expected (toggled s))))
after_flush-PollsWell c d waiting s e r p = ground arith
after_flush-PollsWell c d null_read s e r p = tt
after_flush-PollsWell c d broken s e r p = gone-PollsWell _ (conn_kill-gone s)

flush_conn-PollsWell :
    (sock : ℕ → Text → SockResult) (c : Conn) (bs : List (Option Text)) (s : Session)
    → s.user.conn ≡ some c
    → c.writer ≡ bs
    → PollsWell s
    → IfBack PollsWell (flush_conn sock c bs s)
unfolding flush_conn
flush_conn-PollsWell sock c [] s e w h = h
flush_conn-PollsWell sock c (b ∷ bs) s e w h =
    after_flush-PollsWell c (record c { writer = (flush_queue sock 0 (b ∷ bs)).left }) _ _
      (ground arith) (flush_queue-bytes sock 0 (b ∷ bs)).1 (ground arith)

-- If a connection asks for POLLOUT exactly when its queue is not empty, so it does after
-- _jpolld_conn_write, whatever the socket answers.
pub flush-PollsWell :
    (sock : ℕ → Text → SockResult) (s : Session)
    → PollsWell s
    → IfBack PollsWell (conn_flush sock s)
unfolding conn_flush
flush-PollsWell sock s h =
    with_conn-cases (IfBack PollsWell) _ _ s (λ e. h)
      λ c e. flush_conn-PollsWell sock c c.writer s e refl h

abbrev pub queue_of : Session → List (Option Text)
queue_of s = elim s.user.conn [ none ↦ [] | some c ↦ c.writer ]

enqueue-queue :
    (c : Conn) (buf : Option Text) (force : Bool) (s : Session)
    → s.user.conn ≡ some c
    → Returns
        (λ done t.
          (done ≡ force || leb (length c.writer) max_packs_buffered)
          × (queue_of t ≡ (if done then c.writer ++ buf ∷ [] else c.writer)))
        (enqueue c buf force s)
unfolding enqueue
enqueue-queue c buf force s e = ground arith

some_eq : (c d : Conn) → some c ≡ some d → c ≡ d
some_eq c d e = cc

abbrev Writes : Option Text → Bool → Conn → Session → Conn → Type 0
Writes buf force c s d =
    Returns
      (λ done t.
        (done ≡ force || leb (length c.writer) max_packs_buffered)
        × (queue_of t ≡ (if done then c.writer ++ buf ∷ [] else c.writer)))
      (enqueue d buf force s)

-- With a connection, a packet is refused exactly if it is not forced and more than
-- MaxPacksBuffered are queued already. If it is taken it goes to the end of the queue, and
-- otherwise the queue stays as it is.
pub write_str-queue :
    (buf : Text) (force : Bool) (c : Conn) (s : Session)
    → s.user.conn ≡ some c
    → Returns
        (λ done t.
          (done ≡ force || leb (length c.writer) max_packs_buffered)
          × (queue_of t ≡ (if done then c.writer ++ some buf ∷ [] else c.writer)))
        (conn_write_str buf force s)
unfolding conn_write_str
write_str-queue buf force c s e =
    with_conn-cases
      (Returns (λ done t.
        (done ≡ force || leb (length c.writer) max_packs_buffered)
        × (queue_of t ≡ (if done then c.writer ++ some buf ∷ [] else c.writer))))
      _ _ s (λ absent. cc)
      λ d same.
        subst (Writes (some buf) force c s) (some_eq c d (sym e ∙ same))
          (enqueue-queue c (some buf) force s e)
