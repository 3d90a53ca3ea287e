-- ===== src/Handlers/Messages.antt =====
-- What a message does: handle_message of jab_simul/jab_simul-user.c.
use jab_simul.Shared.{
  ℕ, suc, ◌≡◌, refl, Option, none, some, Bool, true, false, not, ◌&&◌, Text, codes, arith,
  if◌then◌else◌,
}
use jab_simul.Jabber.{Jabber, XmlNode}
use jab_simul.State.{Session}
use jab_simul.State.Monad.{Outcome, returns, exits, faults, Returns, set_counts, skip, ◌>>◌}
use jab_simul.Conn.{conn_write, enqueue}
use jab_simul.Roster.Load.{Xhash}
use jab_simul.Handlers.{handle_message, time_message, forward_back, note_arrival}

abbrev pub count_if : Bool → ℕ → ℕ
count_if b n = if b then suc n else n

-- Whether a message has debug info that can be read.
abbrev pub is_timed : Jabber → Option Text → Bool
is_timed lib none = false
is_timed lib (some body) = elim (lib.debug_stamp body) [ none ↦ false | some stamp ↦ true ]

-- What kind of message it is: `back` goes back to its sender, and `home` has come home.
pub record Kind : Type 0 where
  pub offline : Bool
  pub admin : Bool
  pub back : Bool
  pub home : Bool

abbrev pub kind_of : Jabber → XmlNode → Kind
kind_of lib x =
    let is_offline =
      lib.j_same (lib.get_tag_data (some x) (codes "x")) (some (codes "Offline Storage")) in
    let is_admin =
      lib.j_same (lib.get_attrib (some x) (codes "from")) (some (codes "Administrator")) in
    let forwarded = lib.j_same (lib.get_attrib (some x) (codes "forwarded")) (some (codes "yes")) in
    let fresh =
      not is_admin && (is_timed lib (lib.get_tag_data (some x) (codes "body")) && not is_offline) in
    record {
      offline = is_offline && not is_admin;
      admin = is_admin;
      back = fresh && not forwarded;
      home = fresh && forwarded;
    }

-- The counters of messages after a message of this kind.
pub record Counted (k : Kind) (s : Session) (t : Session) : Type 0 where
  pub all : t.globals.counts.received_messages ≡ suc s.globals.counts.received_messages
  pub offline :
      t.globals.counts.received_messages_offline
      ≡ count_if k.offline s.globals.counts.received_messages_offline
  pub admin :
      t.globals.counts.received_messages_admin
      ≡ count_if k.admin s.globals.counts.received_messages_admin
  pub back :
      t.globals.counts.forwarded_messages ≡ count_if k.back s.globals.counts.forwarded_messages
  pub home : t.user.received_msgs_count ≡ count_if k.home s.user.received_msgs_count

module _ (lib : Jabber) (xh : Xhash) where
  -- The counters that time_message leaves alone, and the two that it may raise.
  abbrev Timed : Bool → Bool → Session → Session → Type 0
  Timed back home s t =
      (t.globals.counts.received_messages ≡ s.globals.counts.received_messages)
      × (t.globals.counts.received_messages_offline ≡ s.globals.counts.received_messages_offline)
      × (t.globals.counts.received_messages_admin ≡ s.globals.counts.received_messages_admin)
      × (t.globals.counts.forwarded_messages ≡ count_if back s.globals.counts.forwarded_messages)
      × (t.user.received_msgs_count ≡ count_if home s.user.received_msgs_count)

  time_message-Timed :
      (x : XmlNode) (is_offline forwarded : Bool) (body : Option Text) (now : ℕ) (s : Session)
      → Returns
          (λ _ t.
            Timed
              (is_timed lib body && not is_offline && not forwarded)
              (is_timed lib body && not is_offline && forwarded)
              s
              t)
          (time_message lib xh x is_offline forwarded body now s)
  unfolding time_message forward_back note_arrival conn_write enqueue
  time_message-Timed x is_offline forwarded none now s = (refl, refl, refl, refl, refl)
  time_message-Timed x is_offline forwarded (some body) now s = ground arith

  abbrev kind_by : Bool → Bool → Bool → Bool → Kind
  kind_by is_offline is_admin forwarded timed =
      let fresh = not is_admin && (timed && not is_offline) in
      record {
        offline = is_offline && not is_admin;
        admin = is_admin;
        back = fresh && not forwarded;
        home = fresh && forwarded;
      }

  Timed-Counted :
      (is_offline is_admin forwarded timed : Bool) (s u : Session) (o : Outcome (Unit {0}))
      → is_admin ≡ false
      → u.globals.counts.received_messages ≡ suc s.globals.counts.received_messages
      → u.globals.counts.received_messages_offline
        ≡ count_if is_offline s.globals.counts.received_messages_offline
      → u.globals.counts.received_messages_admin ≡ s.globals.counts.received_messages_admin
      → u.globals.counts.forwarded_messages ≡ s.globals.counts.forwarded_messages
      → u.user.received_msgs_count ≡ s.user.received_msgs_count
      → Returns
          (λ _ t.
            Timed
              (timed && not is_offline && not forwarded)
              (timed && not is_offline && forwarded)
              u
              t)
          o
      → Returns (λ _ t. Counted (kind_by is_offline is_admin forwarded timed) s t) o
  Timed-Counted is_offline is_admin forwarded timed s u (returns a t) e h1 h2 h3 h4 h5 h = record {
    all = ground (arith, e, h, h1);
    offline = ground (arith, e, h, h2);
    admin = ground (arith, e, h, h3);
    back = ground (arith, e, h, h4);
    home = ground (arith, e, h, h5);
  }
  Timed-Counted is_offline is_admin forwarded timed s u (exits code) e h1 h2 h3 h4 h5 h = h
  Timed-Counted is_offline is_admin forwarded timed s u faults e h1 h2 h3 h4 h5 h = h

  -- The session when time_message is called.
  abbrev received : Bool → Session → Session
  received is_offline s = record s {
    globals = record s.globals {
      counts = record s.globals.counts {
        received_messages = suc s.globals.counts.received_messages;
        received_messages_offline = count_if is_offline s.globals.counts.received_messages_offline;
      };
    };
  }

  by_kind :
      (x : XmlNode) (is_offline is_admin forwarded : Bool) (body : Option Text) (now : ℕ)
      (s : Session)
      → Returns
          (λ _ t. Counted (kind_by is_offline is_admin forwarded (is_timed lib body)) s t)
          ((do
            set_counts (λ c. record c { received_messages = suc c.received_messages })
            if is_offline && not is_admin
                then set_counts
                    (λ c. record c { received_messages_offline = suc c.received_messages_offline })
                else skip
            if is_admin
                then set_counts
                    (λ c. record c { received_messages_admin = suc c.received_messages_admin })
                else time_message lib xh x is_offline forwarded body now)
            s)
  by_kind x true true forwarded body now s = record {
    all = refl;
    offline = refl;
    admin = refl;
    back = refl;
    home = refl;
  }
  by_kind x false true forwarded body now s = record {
    all = refl;
    offline = refl;
    admin = refl;
    back = refl;
    home = refl;
  }
  by_kind x true false forwarded body now s =
      Timed-Counted true false forwarded (is_timed lib body) s (received true s) _ refl refl refl
        refl refl refl (time_message-Timed x true forwarded body now (received true s))
  by_kind x false false forwarded body now s =
      Timed-Counted false false forwarded (is_timed lib body) s (received false s) _ refl refl refl
        refl refl refl (time_message-Timed x false forwarded body now (received false s))

  -- handle_message always comes back. It counts every message once; as stored offline those that are
  -- marked so and not from the administrator; as the administrator's those from it; as sent back
  -- those others with readable debug info that were neither stored nor forwarded before; and as come
  -- home those that were forwarded.
  pub handle_message-Counted :
      (x : XmlNode) (now : ℕ) (s : Session)
      → Returns (λ _ t. Counted (kind_of lib x) s t) (handle_message lib xh x now s)
  unfolding handle_message
  handle_message-Counted x now s =
      by_kind x
        (lib.j_same (lib.get_tag_data (some x) (codes "x")) (some (codes "Offline Storage")))
        (lib.j_same (lib.get_attrib (some x) (codes "from")) (some (codes "Administrator")))
        (lib.j_same (lib.get_attrib (some x) (codes "forwarded")) (some (codes "yes")))
        (lib.get_tag_data (some x) (codes "body")) now s
