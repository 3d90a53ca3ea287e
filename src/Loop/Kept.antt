-- ===== src/Loop/Kept.antt =====
-- What every turn of the loop keeps for all users at once, from the configuration on.
use jab_simul.Shared.{
  ℕ, zero, suc, ◌-◌, inl, inr, List, [], ◌∷◌, Option, none, some, Bool, length, leb, if◌then◌else◌,
  Bool-cases,
}
use jab_simul.Jabber.{Jabber}
use jab_simul.Slots.{max_pfds}
use jab_simul.Roster.Load.{Xhash}
use jab_simul.Events.{Outside}
use jab_simul.Sound.Pass.{user_do_your_job-Sound, handle_place-Sound}
use jab_simul.Loop.{
  World, Turn, goes_on, then_do, PlaceEvents, PollAnswer, ready, interrupted, no_memory, failed,
  has_events, serve, serve_places, poll_sockets, work_users, check_users, is_time,
  users_check_events_interval, rest_of_turn, turn, thread_loop,
}
use jab_simul.Loop.Users.{
  WorldSound, Holds, on, off, broken, Holds-then, on_user-Holds, note_log-Sound, show_info-Sound,
}

module _ (lib : Jabber) (xh : Xhash) where
  serve-Holds :
      (now n : ℕ) (e : PlaceEvents) (w : World)
      → WorldSound w
      → Holds WorldSound (serve lib xh now n e w)
  unfolding serve
  serve-Holds now n e w h =
      on_user-Holds _ n w
        (λ others s v. handle_place-Sound lib xh now e.revents e.sock e.read others s v) h

  -- One place, before the places that follow.
  place-Holds :
      (now nready : ℕ) (e : PlaceEvents) (others : ℕ → World → Turn) (o : Option ℕ) (w : World)
      → ((n : ℕ) (v : World) → WorldSound v → Holds WorldSound (others n v))
      → WorldSound w
      → Holds WorldSound (elim o as (λ _. Turn) [
        | none ↦ others nready w
        | some n ↦
            if has_events e.revents
            then then_do
                (serve lib xh now n e w)
                (λ v. if leb nready 1 then goes_on v else others (nready - 1) v)
            else others nready w
      ])
  place-Holds now nready e others none w keep h = keep nready w h
  place-Holds now nready e others (some n) w keep h = elim (Bool-cases (has_events e.revents)) [
    | inr quiet ↦ rw quiet (keep nready w h)
    | inl there ↦ rw there (
        Holds-then _ (serve-Holds now n e w h) λ v k. elim (Bool-cases (leb nready 1)) [
          | inl last ↦ rw last (on k)
          | inr more ↦ rw more (keep (nready - 1) v k)
        ])
  ]

  serve_places-Holds :
      (now rounds : ℕ) (events : ℕ → PlaceEvents) (j nready : ℕ) (w : World)
      → WorldSound w
      → Holds WorldSound (serve_places lib xh now rounds events j nready w)
  unfolding serve_places
  serve_places-Holds now zero events j nready w h = elim (Bool-cases (leb j w.globals.slots.mpfd)) [
    | inl e ↦ rw e broken
    | inr e ↦ rw e (on h)
  ]
  serve_places-Holds now (suc rounds) events j nready w h =
      elim (Bool-cases (leb j w.globals.slots.mpfd)) [
        | inr e ↦ rw e (on h)
        | inl e ↦ rw e (
            place-Holds now nready (events j) (serve_places lib xh now rounds events (suc j))
              (w.globals.slots.conns j) w (serve_places-Holds now rounds events (suc j)) h)
      ]

  poll_sockets-Holds :
      (now : ℕ) (answer : PollAnswer) (w : World)
      → WorldSound w
      → Holds WorldSound (poll_sockets lib xh now answer w)
  unfolding poll_sockets
  poll_sockets-Holds now (ready zero events) w h = on h
  poll_sockets-Holds now (ready (suc n) events) w h =
      serve_places-Holds now (max_pfds - 1) events 2 (suc n) w h
  poll_sockets-Holds now interrupted w h = on h
  poll_sockets-Holds now no_memory w h = on h
  poll_sockets-Holds now failed w h = off h

  work_users-Holds :
      (outs : ℕ → Outside) (now left n : ℕ) (w : World)
      → WorldSound w
      → Holds WorldSound (work_users lib xh outs now left n w)
  unfolding work_users
  work_users-Holds outs now zero n w h = on h
  work_users-Holds outs now (suc left) n w h =
      Holds-then _
        (on_user-Holds _ n w (λ others s v. user_do_your_job-Sound lib xh (outs n) now others s v)
          h)
        λ v k. work_users-Holds outs now left (suc n) v k

  check_users-Holds :
      (outs : ℕ → Outside) (now : ℕ) (w : World)
      → WorldSound w
      → Holds WorldSound (check_users lib xh outs now w)
  unfolding check_users
  check_users-Holds outs now w h =
      elim (Bool-cases (is_time now w.users_check_timestamp users_check_events_interval)) [
        | inr e ↦ rw e (on h)
        | inl e ↦ rw e (
            Holds-then _ (work_users-Holds outs now (length w.users) 0 w h)
              λ v k. on (record { accounted = k.accounted; each = k.each }))
      ]

  rest_of_turn-Holds :
      (ncurses : Bool) (outs : ℕ → Outside) (now : ℕ) (answer : PollAnswer) (w : World)
      → WorldSound w
      → Holds WorldSound (rest_of_turn lib xh ncurses outs now answer w)
  unfolding rest_of_turn
  rest_of_turn-Holds ncurses outs now (ready n events) w h =
      Holds-then _ (check_users-Holds outs now w h)
        λ v k. on (note_log-Sound now _ (show_info-Sound ncurses now v k))
  rest_of_turn-Holds ncurses outs now interrupted w h = on h
  rest_of_turn-Holds ncurses outs now no_memory w h = on h
  rest_of_turn-Holds ncurses outs now failed w h = on h

  -- If all users are sound and every packet created is sent, canceled or in the queue of a user, so it
  -- is after any number of turns of the loop, whatever poll answers, whichever places have events,
  -- and whatever these bring: if the program goes on or leaves the loop.
  pub thread_loop-WorldSound :
      (ncurses : Bool) (turns : List (PollAnswer × ℕ × (ℕ → Outside))) (w : World)
      → WorldSound w
      → Holds WorldSound (thread_loop lib xh ncurses turns w)
  unfolding thread_loop turn
  thread_loop-WorldSound ncurses [] w h = on h
  thread_loop-WorldSound ncurses ((answer, now, outs) ∷ rest) w h =
      Holds-then _
        (Holds-then _ (poll_sockets-Holds now answer w h)
          λ v k. rest_of_turn-Holds ncurses outs now answer v k)
        λ v k. thread_loop-WorldSound ncurses rest v k
