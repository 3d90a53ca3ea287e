-- ===== src/Handlers/Login.antt =====
-- A login from its request to its answer: user_do_login_plain, handle_user_node and
-- handle_login_response of jab_simul/jab_simul-user.c.
use jab_simul.Shared.{
  ℕ, suc, ◌≡◌, refl, ◌∙◌, List, [], ◌∷◌, ◌++◌, some, Bool, true, false, ◌&&◌, Text, codes,
}
use jab_simul.Jabber.{Jabber, Compares, XmlNode}
use jab_simul.State.{Session, Conn, Pending, is_logging, logged_in, login_response}
use jab_simul.State.Monad.{Outcome, returns, exits, faults, Returns}
use jab_simul.Ids.{make_jcom_id, fit}
use jab_simul.Conn.{conn_write_str, enqueue, push_packet, queue_is_long, exit_if_flagged}
use jab_simul.Requests.{new_id, user_store_xml_info, user_do_login_plain, login_text, shown}
use jab_simul.Responses.{node_create}
use jab_simul.Responses.Queue.{node_get-node_create}
use jab_simul.Stanzas.{user_do_fetch_properities}
use jab_simul.Roster.Load.{Xhash}
use jab_simul.Handlers.{
  handle_user_node, node_id, handle_answer, answer_found, run_callback, handle_login_response,
  is_error, login_succeeded,
}

-- The login is on its way: its text is the last packet of the queue, and its answer is awaited
-- before all others.
pub record Asked (s : Session) (now : ℕ) (c : Conn) (t : Session) (d : Conn) : Type 0 where
  pub has_conn : t.user.conn ≡ some d
  pub state_logging : t.user.state ≡ is_logging
  pub awaited :
      d.responses ≡ node_create (make_jcom_id s.user.tmpid) (some login_response) now c.responses
  pub next_id : t.user.tmpid ≡ suc s.user.tmpid
  pub same_exit : t.user.exit_after_login ≡ s.user.exit_after_login
  pub queued_last :
      d.writer
      ≡ c.writer
        ++ some (
            fit 1000 (
              login_text
                (codes "password")
                (make_jcom_id s.user.tmpid)
                s.user.name
                s.user.passwd
                (shown s.user.resource)))
          ∷ []

and_false : (b : Bool) → b && false ≡ false
and_false true = refl
and_false false = refl

login_plain-Asked :
    (now : ℕ) (c : Conn) (s : Session)
    → s.user.conn ≡ some c
    → Returns (λ _ t. (d : Conn) × Asked s now c t d) (user_do_login_plain now s)
unfolding user_do_login_plain new_id conn_write_str enqueue user_store_xml_info push_packet
login_plain-Asked now c s e =
    rw (e, and_false (queue_is_long c.writer))
      (
        _,
        record {
          has_conn = refl;
          state_logging = refl;
          awaited = refl;
          next_id = refl;
          same_exit = refl;
          queued_last = refl;
        },
      )

fetch_properities-kept :
    (now : ℕ) (d : Conn) (s : Session)
    → s.user.conn ≡ some d
    → Returns
        (λ _ t. (r : Conn) × (t.user.conn ≡ some r) × (t.user.state ≡ s.user.state))
        (user_do_fetch_properities now s)
unfolding user_do_fetch_properities conn_write_str enqueue user_store_xml_info push_packet
fetch_properities-kept now d s e = simp (e, and_false) (_, refl, refl)

module _ (lib : Jabber) (cmp : Compares lib) (xh : Xhash) where
  succeeded :
      (later : ℕ) (d : Conn) (t : Session)
      → t.user.conn ≡ some d
      → t.user.exit_after_login ≡ false
      → Returns
          (λ _ r. (f : Conn) × (r.user.conn ≡ some f) × (r.user.state ≡ logged_in))
          (login_succeeded later t)
  unfolding login_succeeded exit_if_flagged
  succeeded later d t e stays = rw stays (
      fetch_properities-kept later d
        (record t { user = record t.user { state = logged_in; exit_after_login = false } }) e)

  called :
      (x : XmlNode) (later now : ℕ) (d : Conn) (t : Session)
      → is_error lib xh x ≡ false
      → t.user.conn ≡ some d
      → t.user.exit_after_login ≡ false
      → Returns
          (λ _ r. (f : Conn) × (r.user.conn ≡ some f) × (r.user.state ≡ logged_in))
          (run_callback lib xh login_response x now later t)
  unfolding handle_login_response run_callback
  called x later now d t good e stays = rw good (succeeded later d t e stays)

  answered :
      (x : XmlNode) (later now : ℕ) (id : Text) (rest : List Pending) (d : Conn) (t : Session)
      → node_id lib xh x ≡ some id
      → is_error lib xh x ≡ false
      → t.user.conn ≡ some d
      → d.responses ≡ node_create id (some login_response) now rest
      → t.user.exit_after_login ≡ false
      → Returns
          (λ _ r. (f : Conn) × (r.user.conn ≡ some f) × (r.user.state ≡ logged_in))
          (handle_user_node lib xh x later t)
  unfolding handle_user_node handle_answer answer_found
  answered x later now id rest d t node good e waits stays =
      rw
        (
          node,
          handle_user_node,
          e,
          waits,
          node_get-node_create lib cmp id (some login_response) now rest,
        )
        (called x later now _ _ good refl stays)

  -- A login that is answered: a user that has a connection and is not to exit after its login sends
  -- its login and then gets a node that has the identifier of the request and is no error. Both calls
  -- come back; in between the user is logging in, with the login as the last packet to send, and
  -- afterwards it still has its connection and is logged in.
  pub login_plain-answered :
      (now later : ℕ) (x : XmlNode) (c : Conn) (s : Session)
      → s.user.conn ≡ some c
      → s.user.exit_after_login ≡ false
      → node_id lib xh x ≡ some (make_jcom_id s.user.tmpid)
      → is_error lib xh x ≡ false
      → Returns
          (λ _ t.
            ((d : Conn) × Asked s now c t d)
            × Returns
                (λ _ r. (f : Conn) × (r.user.conn ≡ some f) × (r.user.state ≡ logged_in))
                (handle_user_node lib xh x later t))
          (user_do_login_plain now s)
  login_plain-answered now later x c s e stays node good =
      weaken (user_do_login_plain now s) (login_plain-Asked now c s e)
    where
      weaken :
          (o : Outcome (Unit {0}))
          → Returns (λ _ t. (d : Conn) × Asked s now c t d) o
          → Returns
              (λ _ t.
                ((d : Conn) × Asked s now c t d)
                × Returns
                    (λ _ r. (f : Conn) × (r.user.conn ≡ some f) × (r.user.state ≡ logged_in))
                    (handle_user_node lib xh x later t))
              o
      weaken (returns a t) (d, asked) = (
        (d, asked),
        answered x later now (make_jcom_id s.user.tmpid) c.responses d t node good asked.has_conn
            asked.awaited (asked.same_exit ∙ stays),
      )
      weaken (exits code) h = h
      weaken faults h = h
