-- ===== src/Connect/Opens.antt =====
-- The ways in which user_connect of jab_simul/jab_simul-user.c can end.
use jab_simul.Shared.{ℕ, suc, ◌≤◌, ◌≡◌, refl, subst, [], ◌∷◌, none, some, Bool, true, false, arith}
use jab_simul.State.{Session, Conn, SockState}
use jab_simul.State.Monad.{Outcome, returns, exits, faults, pure, choose-cases, ◌>>◌}
use jab_simul.Slots.{max_pfds, take_place}
use jab_simul.Slots.Invariant.{IsValid, TakesFree, is_used, refilled_top, take_place-TakesFree}
use jab_simul.Conn.{conn_write_str, enqueue, exit_if_flagged}
use jab_simul.Connect.{
  SocketCalls, make_clientfd, conn_create, stream_open, open_conn, user_connect,
}
use jab_simul.Ids.{fit}

-- The user has a new connection at a place that was free, with the stream header to send.
pub record Opened (top : ℕ) (s : Session) (t : Session) (fd : ℕ) (c : Conn) : Type 0 where
  pub has_conn : t.user.conn ≡ some c
  pub was_free : s.globals.slots.conns c.loc ≡ none
  pub now_held : t.globals.slots.conns c.loc ≡ some s.number
  pub places_valid : IsValid (refilled_top s.globals.slots top) t.globals.slots
  pub descriptor : c.fd ≡ fd
  pub header_queued : c.writer ≡ some (fit 300 (stream_open s.user.server)) ∷ []
  pub wants_pollout : c.pollout ≡ true
  pub one_created : t.globals.packets.created ≡ suc s.globals.packets.created
  pub one_connected : t.globals.counts.conn_create ≡ suc s.globals.counts.conn_create

-- The result 0 is a new connection, and -1 leaves the session as it is; the process ends only for a
-- user that is to exit after its login and gets no socket; a NULL is read only with a socket and no place left.
abbrev pub ConnectEnds : ℕ → SocketCalls → Session → Outcome Bool → Type 0
ConnectEnds top net s (returns true t) =
    (fd : ℕ) × (c : Conn) × ((make_clientfd net).0 ≡ some fd) × Opened top s t fd c
ConnectEnds top net s (returns false t) =
    ((make_clientfd net).0 ≡ none) × (s.user.exit_after_login ≡ false) × (t ≡ s)
ConnectEnds top net s (exits code) =
    ((make_clientfd net).0 ≡ none) × (s.user.exit_after_login ≡ true) × (code ≡ 0)
ConnectEnds top net s faults =
    (fd : ℕ) × ((make_clientfd net).0 ≡ some fd)
    × ((j : ℕ) → 2 ≤ j → j ≤ max_pfds → is_used (s.globals.slots.conns j) ≡ true)

no_socket :
    (top : ℕ) (net : SocketCalls) (s : Session)
    → (make_clientfd net).0 ≡ none
    → ConnectEnds top net s ((do exit_if_flagged 0; pure false) s)
unfolding exit_if_flagged
no_socket top net s e = ground (arith, e)

open_conn-ConnectEnds :
    (top : ℕ) (net : SocketCalls) (fd : ℕ) (sstate : SockState) (time : ℕ) (s : Session)
    → (make_clientfd net).0 ≡ some fd
    → IsValid top s.globals.slots
    → ConnectEnds top net s (open_conn net fd sstate time s)
unfolding open_conn conn_create conn_write_str enqueue
open_conn-ConnectEnds top net fd sstate time s e v =
    choose-cases (ConnectEnds top net s) _ _ s (take_place s.globals.slots s.number)
      (λ none_left. (fd, e, subst (TakesFree top s.number s.globals.slots) none_left took))
      λ taken e'.
        let free = subst (TakesFree top s.number s.globals.slots) e' took in
        (
          fd,
          _,
          e,
          record {
            has_conn = refl;
            was_free = free.0;
            now_held = free.1;
            places_valid = free.4;
            descriptor = refl;
            header_queued = refl;
            wants_pollout = refl;
            one_created = refl;
            one_connected = refl;
          },
        )
  where
    took : TakesFree top s.number s.globals.slots (take_place s.globals.slots s.number)
    took = take_place-TakesFree top s.number s.globals.slots v

-- From valid places, user_connect ends in one of four ways. With a socket and a place left it makes
-- a connection at a place that was free, in valid places, with the stream header alone in its queue.
-- Without a socket it changes nothing, unless the user is to exit after its login: that ends the
-- process. It reads through NULL only with a socket and no place left.
pub user_connect-ConnectEnds :
    (top : ℕ) (net : SocketCalls) (time : ℕ) (s : Session)
    → IsValid top s.globals.slots
    → ConnectEnds top net s (user_connect net time s)
unfolding user_connect
user_connect-ConnectEnds top net time s v =
    choose-cases (ConnectEnds top net s) _ _ s (make_clientfd net).0 (no_socket top net s)
      λ fd e. open_conn-ConnectEnds top net fd (make_clientfd net).1 time s e v
