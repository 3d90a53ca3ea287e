-- ===== src/Sound/Requests.antt =====
-- What a user sends keeps the account: the requests and stanzas of jab_simul/jab_simul-user.c.
use jab_simul.Shared.{ℕ, refl, Option, none, some, Bool, true, false, Text, codes, leb, length}
use jab_simul.Jabber.{Jabber}
use jab_simul.State.{ResponseHandler}
use jab_simul.Requests.{
  new_id, user_store_xml_info, user_do_login_plain, send_digest, digest_of, user_do_login_digest,
  shown, login_text,
}
use jab_simul.Stanzas.{
  user_do_fetch_properities, user_do_fetch_extcontacts, user_do_presence,
  user_do_adddel_roster_item, user_do_send_message, user_do_send_raw_bytes,
}
use jab_simul.Sound.Rules.{
  returned, faulted, Keeps, after_step, after_ignored, quiet, Safe-if, Safe-choose, set_conn-Keeps,
}
use jab_simul.Sound.Writes.{conn_write_str-Keeps, conn_write_null-Keeps, conn_write-Keeps}

store-Keeps :
    (id : Text) (callback : Option ResponseHandler) (time : ℕ)
    → Keeps (user_store_xml_info id callback time)
unfolding user_store_xml_info
store-Keeps id callback time others sooner queue s w =
    Safe-choose s.user.conn _ _ faulted
      λ c. set_conn-Keeps _ (λ d. (refl, refl)) others sooner queue s w

pub login_plain-Keeps : (now : ℕ) → Keeps (user_do_login_plain now)
unfolding user_do_login_plain new_id
login_plain-Keeps now others sooner queue s w =
    after_ignored (conn_write_str-Keeps _ true) (quiet w refl refl refl refl)
      λ _ t v. after_step (store-Keeps _ _ now) v λ _ r u. returned (quiet u refl refl refl refl)

send_digest-Keeps :
    (lib : Jabber) (id input : Text) (now : ℕ) → Keeps (send_digest lib id input now)
unfolding send_digest
send_digest-Keeps lib id input now others sooner queue s w =
    Safe-if
      (leb 1000 (
        length (
          login_text (codes "digest") id s.user.name (digest_of lib input)
            (shown s.user.resource))))
      _ _ faulted
      (after_ignored (conn_write_str-Keeps _ true) w
        λ _ t v. after_step (store-Keeps _ _ now) v λ _ r u. returned (quiet u refl refl refl refl))

pub login_digest-Keeps : (lib : Jabber) (now : ℕ) → Keeps (user_do_login_digest lib now)
unfolding user_do_login_digest new_id
login_digest-Keeps lib now others sooner queue s w =
    send_digest-Keeps lib _ _ now others sooner queue _ (quiet w refl refl refl refl)

pub fetch_properities-Keeps : (now : ℕ) → Keeps (user_do_fetch_properities now)
unfolding user_do_fetch_properities
fetch_properities-Keeps now others sooner queue s w =
    after_ignored (conn_write_str-Keeps _ true) w λ _ s1 w1.
      after_step (store-Keeps _ _ now) w1 λ _ s2 w2.
        after_ignored (conn_write_str-Keeps _ true) w2 λ _ s3 w3.
          after_step (store-Keeps _ _ now) w3 λ _ s4 w4.
            after_step (store-Keeps _ _ now) w4
              λ _ s5 w5. store-Keeps _ _ now others sooner queue s5 w5

pub fetch_extcontacts-Keeps : (now : ℕ) → Keeps (user_do_fetch_extcontacts now)
unfolding user_do_fetch_extcontacts
fetch_extcontacts-Keeps now others sooner queue s w =
    after_step (conn_write_str-Keeps _ true) w λ sent t v.
      Safe-if sent _ _ (after_step (store-Keeps _ _ now) v (λ _ r u. returned u)) (returned v)

pub presence-Keeps :
    (lib : Jabber) (type jid_to status show : Option Text)
    → Keeps (user_do_presence lib type jid_to status show)
unfolding user_do_presence
presence-Keeps lib type jid_to status show others sooner queue s w =
    after_step (conn_write-Keeps lib _ false) w
      λ sent t v. Safe-if sent _ _ (returned (quiet v refl refl refl refl)) (returned v)

pub adddel-Keeps :
    (lib : Jabber) (now : ℕ) (jid name : Text) (del : Bool)
    → Keeps (user_do_adddel_roster_item lib now jid name del)
unfolding user_do_adddel_roster_item new_id
adddel-Keeps lib now jid name del others sooner queue s w =
    after_step (store-Keeps _ _ now) (quiet w refl refl refl refl)
      λ _ t v. conn_write-Keeps lib _ false others sooner queue t v

pub send_message-Keeps : (jid : Text) (msg : Option Text) → Keeps (user_do_send_message jid msg)
unfolding user_do_send_message new_id
send_message-Keeps jid none others sooner queue s w = returned w
send_message-Keeps jid (some msg) others sooner queue s w =
    conn_write_str-Keeps _ false others sooner queue _ (quiet w refl refl refl refl)

pub send_raw_bytes-Keeps : (bytes : Option Text) → Keeps (user_do_send_raw_bytes bytes)
unfolding user_do_send_raw_bytes
send_raw_bytes-Keeps none = conn_write_null-Keeps false
send_raw_bytes-Keeps (some bytes) = conn_write_str-Keeps bytes false
