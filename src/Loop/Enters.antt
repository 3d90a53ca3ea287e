-- ===== src/Loop/Enters.antt =====
-- When main of jab_simul/jab_simul-main.c comes to the loop of jab_simul/thread-main.c, and with whom.
use jab_simul.Shared.{
  ℕ, ◌≡◌, refl, ap, ◌∙◌, subst, List, [], ◌∷◌, reverse, Option, some, Bool, false, Text, length,
  length-append, append-nil, arith,
}
use mathlib.Core.List.{reverse-append}
use jab_simul.Jabber.{Jabber, XmlNode}
use jab_simul.State.{User, Globals}
use jab_simul.Roster.Load.{Xhash}
use jab_simul.Events.{Outside}
use jab_simul.Slots.{init_slots}
use jab_simul.Config.{Setup, Setting, UserName, gives}
use jab_simul.Config.Users.{Regex}
use jab_simul.Config.Configure.{MainConfig, configure}
use jab_simul.Config.Origin.{Made, configure-Made}
use jab_simul.Config.Comes.{IsFine, Complete, Gives-Ends, groups_of, configure-Gives}
use jab_simul.Config.Count.{chosen_by}
use jab_simul.Config.Returns.{Gives}
use jab_simul.Config.Returns
use jab_simul.Loop.{World, goes_on, PollAnswer, thread_loop}
use jab_simul.Loop.Users.{UserSound, total, WorldSound, Holds}
use jab_simul.Loop.Users
use jab_simul.Loop.Main.{
  start_world, static_globals, static_config, static_setup, asks_info, config_name, run_thread,
  start_program, main,
}
use jab_simul.Loop.Program.{configured_run}

length-reverse : (us : List User) → length (reverse us) ≡ length us
length-reverse [] = refl
length-reverse (u ∷ us) =
    ap length (reverse-append (u ∷ []) us)
    ∙ omega (arith, length-append (reverse us) (u ∷ []), length-reverse us)

-- What a run gives, and the state that it leaves.
Gives-found :
    {A : Type 0} {P : Setup → Type 0} {r : Setting A}
    → Gives P r
    → (a : A) × (s : Setup) × (r ≡ gives a s) × P s
Gives-found (Returns.gave {a} {s} h) = (a, s, refl, h)

goes_on-WorldSound : {w : World} → Holds WorldSound (goes_on w) → WorldSound w
goes_on-WorldSound (Users.on h) = h

-- The arguments ask for no information.
abbrev pub TakesFile : List Text → Type 0
TakesFile [] = Unit {0}
TakesFile (arg ∷ args) = asks_info arg ≡ false

module _ (lib : Jabber) (xh : Xhash) (regex : Regex) (random : ℕ → ℕ) (found : ℕ → UserName)
    (now : ℕ) (xmlnode_file : Text → Option XmlNode) where
  -- A start of the loop, on the users made from the names that the groups choose.
  pub record Enters (xcfg : XmlNode) (ncurses : Bool) (args : List Text) : Type 0 where
    pub after : Setup
    pub world : World
    pub made : Made random lib xcfg [] after
    pub users_same : world.users ≡ after.alive_users_list
    pub users_count :
        length world.users ≡ chosen_by random regex (groups_of lib now xcfg) after.user_names_space
    pub sound : WorldSound world
    pub runs :
        (turns : List (PollAnswer × ℕ × (ℕ → Outside)))
        → main lib xh regex random found now xmlnode_file ncurses turns args
          ≡ thread_loop lib xh ncurses turns world

  start_program-same :
      (ncurses : Bool) (turns : List (PollAnswer × ℕ × (ℕ → Outside))) (args : List Text)
      → TakesFile args
      → main lib xh regex random found now xmlnode_file ncurses turns args
        ≡ start_program lib xh regex random found now xmlnode_file ncurses turns args
  unfolding main
  start_program-same ncurses turns [] h = refl
  start_program-same ncurses turns (arg ∷ args) h = rw h refl

  count_listed :
      (xcfg : XmlNode) (t : Setup)
      → Made random lib xcfg [] t
      → Complete random regex lib now xcfg t
      → length t.alive_users_list
        ≡ chosen_by random regex (groups_of lib now xcfg) t.user_names_space
  count_listed xcfg t m done =
      ap length (m.0.newest_first ∙ append-nil (reverse t.users)) ∙ length-reverse t.users ∙ done.1

  -- The start of the loop when configure gives a value and a state.
  entered :
      (xcfg : XmlNode) (ncurses : Bool) (args : List Text) (a : MainConfig × Globals) (t : Setup)
      → TakesFile args
      → configure random regex lib now
          (xmlnode_file (config_name args))
          static_config
          (static_globals random)
          (static_setup found)
        ≡ gives a t
      → Made random lib xcfg [] t
      → Complete random regex lib now xcfg t
      → Enters xcfg ncurses args
  unfolding start_program run_thread thread_loop
  entered xcfg ncurses args (cfg, g) t takes ran m done = record {
    after = t;
    world = start_world t.alive_users_list (record g { slots = init_slots; drawn = t.drawn });
    made = m;
    users_same = refl;
    users_count = count_listed xcfg t m done;
    sound = goes_on-WorldSound (
        subst (λ r. Holds WorldSound (run_thread lib xh ncurses [] r)) ran
          (configured_run lib xh regex random found now xmlnode_file ncurses []
            (xmlnode_file (config_name args))));
    runs = λ turns.
        start_program-same ncurses turns args takes ∙ ap (run_thread lib xh ncurses turns) ran;
  }

  -- With arguments that do not ask for information and a configuration that can be read and is fine,
  -- main comes to its loop, and does nothing else than to run it. Fine means: the texts of `fullxml`
  -- fit into their buffers, all patterns print for every index of the table and leave the scanner at its start, the filters compile,
  -- the ranges lie in the table of names, and the groups choose no more names than there is room for. The users of the loop are as many as
  -- the groups of the configuration choose names from the table, each with a name of a generator;
  -- all packets are accounted for, and all users sound.
  pub main-Enters :
      (xcfg : XmlNode) (ncurses : Bool) (args : List Text)
      → TakesFile args
      → xmlnode_file (config_name args) ≡ some xcfg
      → IsFine random regex lib now xcfg (static_setup found)
      → Enters xcfg ncurses args
  main-Enters xcfg ncurses args takes file fine =
      let (a, t, ran, (done, made)) = Gives-found (
        Gives-Ends
          (configure-Gives random regex lib now xcfg static_config (static_globals random)
            (static_setup found) fine)
          (configure-Made random regex lib now xcfg static_config (static_globals random)
            (static_setup found))) in
      entered xcfg ncurses args a t takes
        (ap
            (λ x.
              configure random regex lib now x static_config (static_globals random)
                (static_setup found))
            file
          ∙ ran)
        made done
