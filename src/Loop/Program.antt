-- ===== src/Loop/Program.antt =====
-- What the program of jab_simul/jab_simul-main.c keeps, from the reading of its configuration through the
-- turns of the loop of jab_simul/thread-main.c.
use jab_simul.Shared.{
  ℕ, ◌+◌, ◌≡◌, refl, inl, inr, Option, some, Text, Bool-cases, sym, ap, ◌∙◌, subst, List, [], ◌∷◌,
  reverse, append-nil, All, All-append, none, Bool, arith,
}
use mathlib.Core.List.{reverse-append}
use jab_simul.Jabber.{Jabber, XmlNode}
use jab_simul.State.{User, Globals}
use jab_simul.Conn.Accounting.{queued}
use jab_simul.Roster.Load.{Xhash}
use jab_simul.Events.{Outside}
use jab_simul.Config.{Setup, UserName}
use jab_simul.Config.Users.{Regex}
use jab_simul.Config.Space.{Ends, Ends-weaken}
use jab_simul.Config.Start.{IsConfigured, AllConfigured}
use jab_simul.Loop.{PollAnswer, thread_loop}
use jab_simul.Slots.{init_slots}
use jab_simul.Config.{Setting, S, bind, pure}
use jab_simul.Config.Space
use jab_simul.Config.Configure.{MainConfig, set_globals, configure}
use jab_simul.Config.Keeps.{read_config-Ends}
use jab_simul.Config.Origin.{Made, generate_user_names_space-Ready, set_users_properities-Made}
use jab_simul.Loop.Users
use jab_simul.Loop.Main.{
  start_world, static_globals, static_config, static_setup, asks_info, run_thread, start_program,
  main,
}
use jab_simul.Loop.Users.{UserSound, total, WorldSound, Holds}
use jab_simul.Loop.Kept.{thread_loop-WorldSound}

module _ (names : ℕ → UserName) (g : Globals)
    (balanced : g.packets.created ≡ g.packets.sent + g.packets.canceled) where
  starts : (u : User) → IsConfigured names u → UserSound u
  starts u c =
      let s = c.sound 0 (record { number = 0; user = u; globals = g }) (omega (arith, balanced)) in
      (s.polls, s.bounded)

  queue_empty : (u : User) → u.conn ≡ none → queued u ≡ 0
  queue_empty u e = rw e refl

  users_start : (us : List User) → All (IsConfigured names) us → All UserSound us × (total us ≡ 0)
  users_start [] c = (tt, refl)
  users_start (u ∷ us) c =
      let (each, none_left) = users_start us c.1 in
      ((starts u c.0, each), omega (arith, queue_empty u c.0.no_conn, none_left))

  All-reverse :
      (us : List User) → All (IsConfigured names) us → All (IsConfigured names) (reverse us)
  All-reverse [] c = tt
  All-reverse (u ∷ us) c =
      subst (All (IsConfigured names)) (sym (reverse-append (u ∷ []) us))
        (All-append (IsConfigured names) (reverse us) (u ∷ []) (All-reverse us c.1) (c.0, tt))

  started : (s : Setup) → AllConfigured names [] s → WorldSound (start_world s.alive_users_list g)
  started s c =
      let same : s.alive_users_list ≡ reverse s.users =
        c.newest_first ∙ append-nil (reverse s.users) in
      let (each, none_left) = users_start (reverse s.users) (All-reverse s.users c.configured) in
      record {
        accounted = omega (arith, balanced, none_left, ap total same);
        each = subst (All UserSound) (sym same) each;
      }

-- A step of configure, and what the program does with the rest of it.
run-bind :
    (lib : Jabber) (xh : Xhash) (ncurses : Bool) (turns : List (PollAnswer × ℕ × (ℕ → Outside)))
    {A : Type 0} {P : Setup → Type 0} {r : Setting A} (f : A → S (MainConfig × Globals))
    → Ends P r
    → ((a : A) (s : Setup) → P s → Holds WorldSound (run_thread lib xh ncurses turns (f a s)))
    → Holds WorldSound (run_thread lib xh ncurses turns (bind r f))
unfolding run_thread
run-bind lib xh ncurses turns f (Space.given {a} {s} h) k = k a s h
run-bind lib xh ncurses turns f Space.exited k = Users.ended
run-bind lib xh ncurses turns f Space.faulted k = Users.broken

module _ (lib : Jabber) (xh : Xhash) (regex : Regex) (random : ℕ → ℕ) (found : ℕ → UserName)
    (now : ℕ) (xmlnode_file : Text → Option XmlNode) (ncurses : Bool)
    (turns : List (PollAnswer × ℕ × (ℕ → Outside))) where
  -- The loop on the users of a configuration.
  loop_starts :
      (xcfg : XmlNode) (s : Setup)
      → Made random lib xcfg [] s
      → Holds WorldSound (
          thread_loop lib xh ncurses turns (
            start_world s.alive_users_list (record (set_globals lib xcfg (static_globals random)) {
              slots = init_slots;
              drawn = s.drawn;
            })))
  unfolding set_globals
  loop_starts xcfg s m =
      thread_loop-WorldSound lib xh ncurses turns _ (started s.user_names_space _ refl s m.0)

  pub configured_run :
      (file : Option XmlNode)
      → Holds WorldSound (
          run_thread lib xh ncurses turns (
            configure random regex lib now file static_config
              (static_globals random)
              (static_setup found)))
  unfolding configure run_thread
  configured_run none = Users.ended
  configured_run (some xcfg) =
      run-bind lib xh ncurses turns _ (read_config-Ends lib xcfg static_config (static_setup found))
        λ read r e.
          run-bind lib xh ncurses turns _
            (generate_user_names_space-Ready random regex lib now xcfg r)
            λ _ t h.
              run-bind lib xh ncurses turns
                (λ _. pure (read, set_globals lib xcfg (static_globals random)))
                (set_users_properities-Made random regex lib now xcfg r t h)
                λ _ u m. loop_starts xcfg u (
                  subst (λ l. Made random lib xcfg l u) (ap (λ (x : Setup). x.alive_users_list) e)
                    m)

  -- Whatever the arguments, the configuration, the memory that malloc leaves, the random values and
  -- the answers of poll, of the sockets and of the servers are: in every state of main before a turn
  -- of its loop and when the loop ends, each packet that was created is sent, canceled or in the queue
  -- of some user, and every user asks for POLLOUT exactly with something to send and has no event
  -- that is to run before `sooner_activation_tm`. Nothing is promised once the
  -- process has ended or has done what C leaves undefined.
  pub main-WorldSound :
      (args : List Text)
      → Holds WorldSound (main lib xh regex random found now xmlnode_file ncurses turns args)
  unfolding main start_program
  main-WorldSound [] = configured_run _
  main-WorldSound (arg ∷ args) = elim (Bool-cases (asks_info arg)) [
    | inl h ↦ rw h Users.ended
    | inr h ↦ rw h (configured_run _)
  ]
