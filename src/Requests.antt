-- ===== src/Requests.antt =====
-- What a user sends to the server, and the answers that it then waits for:
-- jab_simul/jab_simul-user.c. `user->conn` is read through in user_store_xml_info.
use jab_simul.Shared.{
  ℕ, suc, [], ◌∷◌, ◌++◌, Option, none, some, true, Text, codes, length, leb, if◌then◌else◌,
}
use jab_simul.Jabber.{Jabber}
use jab_simul.State.{User, ResponseHandler, login_response, is_logging}
use jab_simul.State.Monad.{M, ◌>>=◌, ◌>>◌, pure, skip, get, set_user, set_conn, with_conn, fault}
use jab_simul.Conn.{conn_write_str}
use jab_simul.Ids.{make_jcom_id, fit}
use jab_simul.Responses.{node_create}

-- printf's `%s` of a NULL, as the C library prints it.
abbrev pub shown : Option Text → Text
shown none = codes "(null)"
shown (some t) = t

-- makeJCOM_ID numbers the requests of a user.
unfoldable pub new_id : M Text
new_id = do
  s ← get
  set_user (λ u. record u { tmpid = suc u.tmpid })
  pure (make_jcom_id s.user.tmpid)

unfoldable pub user_store_xml_info : Text → Option ResponseHandler → ℕ → M (Unit {0})
user_store_xml_info id callback time =
    with_conn fault
      λ c. set_conn (λ d. record d { responses = node_create id callback time d.responses })

-- The formats login_plain and login_digest. `secret` is the element that holds the proof.
unfoldable pub login_text : Text → Text → Text → Text → Text → Text
login_text secret id name proof resource =
    codes "<iq type=\"set\" id=\""
    ++ id
    ++ (codes "\"><query xmlns=\"jabber:iq:auth\"><username>"
        ++ name
        ++ (codes "</username><"
            ++ secret
            ++ (codes ">"
                ++ proof
                ++ (codes "</"
                    ++ secret
                    ++ (codes "><resource>" ++ resource ++ codes "</resource></query></iq>")))))

unfoldable pub user_do_login_plain : ℕ → M (Unit {0})
unfolding new_id
user_do_login_plain now = do
  s ← get
  id ← new_id
  conn_write_str
        (fit 1000
          (login_text (codes "password") id s.user.name s.user.passwd (shown s.user.resource)))
        true
      >>= λ _. skip
  user_store_xml_info id (some login_response) now
  set_user (λ u. record u { state = is_logging })

abbrev pub digest_input : User → Text
digest_input u = elim u.sid [ none ↦ u.passwd | some sid ↦ sid ++ u.passwd ]

-- shahash of nothing is NULL, which sprintf prints as `(null)`.
unfoldable pub digest_of : Jabber → Text → Text
digest_of lib [] = codes "(null)"
digest_of lib (b ∷ bs) = lib.shahash (b ∷ bs)

-- sprintf does not look at the size of its buffer of 1000 bytes.
unfoldable pub send_digest : Jabber → Text → Text → ℕ → M (Unit {0})
unfolding digest_of
send_digest lib id input now = do
  s ← get
  let text =
      login_text (codes "digest") id s.user.name (digest_of lib input) (shown s.user.resource)
  if leb 1000 (length text) then fault else (do
    conn_write_str text true >>= λ _. skip
    user_store_xml_info id (some login_response) now
    set_user (λ u. record u { state = is_logging }))

unfoldable pub user_do_login_digest : Jabber → ℕ → M (Unit {0})
user_do_login_digest lib now = do s ← get; id ← new_id; send_digest lib id (digest_input s.user) now
