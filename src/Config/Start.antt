-- ===== src/Config/Start.antt =====
-- The users that set_users_properities makes: where they come from, and that each starts sound.
use jab_simul.Shared.{
  ℕ, zero, suc, ◌+◌, ◌≤◌, ◌<◌, ◌≡◌, refl, sym, ap, ◌∙◌, inl, inr, List, [], ◌∷◌, ◌++◌, map, reverse,
  Option, none, some, Bool, true, Text, codes, length, length-append, All, All-append, ltb, ltb→lt,
  Bool-cases, Option-cases, arith,
}
use mathlib.Core.List.{reverse-append}
use jab_simul.Shared.Int.{pos, negsuc, ◌*ℤ◌, ◌≤ℤ◌}
use jab_simul.Jabber.{Jabber, XmlNode}
use jab_simul.State.{User, Event, Session, can_login, logged_in, EventHandler, UserState}
use jab_simul.Events.{max_users}
use jab_simul.Repeater.{create_repeater_from_xml, repeater_kind, set_kind}
use jab_simul.Life.{user_create}
use jab_simul.Sound.Queue.{Sound, NoneBefore}
use jab_simul.Sound.Start.{user_create-Sound}
use jab_simul.Pattern.Parser.{sprintf_pattern}
use jab_simul.Config.{UserName, Setup, print_name}
use jab_simul.Config.Users.{
  Regex, Group, read_events, read_group, with_properities, print_property, is_chosen, delays_of,
  add_user, create_user, try_name, try_names, compile, set_group, set_groups, set_users_properities,
}
use jab_simul.Config.Space.{Ends, exited, faulted, Ends-bind, Ends-bind-bind, Ends-weaken}
use jab_simul.Config.Space

set_kind-NoneBefore :
    (x : XmlNode) (e : Event) (k : Option (EventHandler × Bool × Option UserState))
    → pos 0 ≤ℤ e.activation_tm
    → pos 0 ≤ℤ (set_kind x e k).activation_tm
set_kind-NoneBefore x e none h = h
set_kind-NoneBefore x e (some (f, keeps, state)) h = h

created-NoneBefore :
    (lib : Jabber) (now : ℕ) (x : XmlNode)
    → pos 0 ≤ℤ (create_repeater_from_xml lib x now).activation_tm
unfolding create_repeater_from_xml
created-NoneBefore lib now x =
    set_kind-NoneBefore x
      (record {
        activation_tm = pos now;
        frequency =
            pos 1000 *ℤ lib.j_atoi (lib.get_tag_data (some x) (codes "frequency")) (negsuc 0);
        event_handler = none;
        counter = lib.j_atoi (lib.get_tag_data (some x) (codes "counter")) (negsuc 0);
        user_state = some logged_in;
        arg = none;
      })
      (elim (lib.get_tag_data (some x) (codes "name")) [
        | none ↦ none
        | some name ↦ repeater_kind name
      ])
      (omega arith)

read_events-NoneBefore :
    (lib : Jabber) (now : ℕ) (xs : List XmlNode) → NoneBefore (pos 0) (read_events lib now xs)
unfolding read_events
read_events-NoneBefore lib now [] = tt
read_events-NoneBefore lib now (x ∷ xs) =
    (created-NoneBefore lib now x, read_events-NoneBefore lib now xs)

-- In any session with its packets accounted for, the user starts sound.
abbrev pub StartsSound : User → Type 0
StartsSound u =
    (others : ℕ) (s : Session)
    → s.globals.packets.created ≡ s.globals.packets.sent + s.globals.packets.canceled + others
    → Sound others (record s { user = u })

with_properities-StartsSound :
    (g : Group) (u : User) → StartsSound u → StartsSound (with_properities g u)
unfolding with_properities
with_properities-StartsSound g u h others s a =
    let w = h others s a in record { accounted = w.accounted; polls = w.polls; bounded = w.bounded }

-- How a user of the configuration starts: it may log in, has no connection and is sound, and its
-- name is that of an entry of the table that is enabled and lies in the table.
pub record IsConfigured (names : ℕ → UserName) (u : User) : Type 0 where
  pub state_same : u.state ≡ can_login
  pub no_conn : u.conn ≡ none
  pub index : ℕ
  pub index_small : index < max_users
  pub enabled : (names index).enabled ≡ true
  pub name_same : u.name ≡ (names index).user
  pub server_same : u.server ≡ (names index).server
  pub sound : StartsSound u

-- Every user is in the list and in the table, which has room for all; the list goes from the newest
-- to the oldest, in front of what was there.
pub record AllConfigured (names : ℕ → UserName) (before : List User) (s : Setup) : Type 0 where
  pub names_same : s.user_names_space ≡ names
  pub configured : All (IsConfigured names) s.users
  pub newest_first : s.alive_users_list ≡ reverse s.users ++ before
  pub room : length s.users ≤ max_users

module _ (random : ℕ → ℕ) (regex : Regex) (names : ℕ → UserName) (before : List User) where
  abbrev Kept : Setup → Type 0
  Kept s = AllConfigured names before s

  -- Printing changes the scanner and the random values only.
  print_property-Kept :
      (j : ℕ) (pattern : Option Text) (s : Setup)
      → Kept s
      → Ends Kept (print_property random regex j pattern s)
  unfolding print_property print_name
  print_property-Kept j none s h = Space.given h
  print_property-Kept j (some pattern) s h =
      elim (Option-cases (sprintf_pattern (pos j) random 1000 s.mode s.drawn [] pattern)) [
        | inl n ↦ rw n faulted
        | inr (r, e) ↦ rw e (
            Space.given (record {
              names_same = h.names_same;
              configured = h.configured;
              newest_first = h.newest_first;
              room = h.room;
            }))
      ]

  add_user-Kept :
      (u : User) (s : Setup) → Kept s → IsConfigured names u → Ends Kept (add_user random regex u s)
  unfolding add_user
  add_user-Kept u s h c = elim (Bool-cases (ltb (length s.users) max_users)) [
    | inr e ↦ rw e faulted
    | inl e ↦ rw e (
        Space.given (record {
          names_same = h.names_same;
          configured = All-append (IsConfigured names) s.users (u ∷ []) h.configured (c, tt);
          newest_first =
              ap (◌∷◌ u) h.newest_first
              ∙ ap (λ us. us ++ before) (sym (reverse-append s.users (u ∷ [])));
          room = omega (arith, length-append s.users (u ∷ []), ltb→lt (length s.users) max_users e);
        }))
  ]

  -- A group's events run at time 0 at the earliest.
  abbrev Timely : Group → Type 0
  Timely g = NoneBefore (pos 0) g.ev_list

  made :
      (g : Group) (j : ℕ) (n : UserName) (passwd resource fullname host : Text) (k : ℕ)
      → Timely g
      → j < max_users
      → n ≡ names j
      → n.enabled ≡ true
      → IsConfigured names (
          with_properities g (
            user_create n.user n.server passwd
              (some resource)
              (some fullname)
              (elim g.host_pattern [ none ↦ none | some p ↦ some host ])
              g.port
              g.ev_list
              g.ssl
              random
              k))
  unfolding with_properities user_create
  made g j n passwd resource fullname host k timely small same on = record {
    state_same = refl;
    no_conn = refl;
    index = j;
    index_small = small;
    enabled = rw (← same) on;
    name_same = ap (λ (x : UserName). x.user) same;
    server_same = ap (λ (x : UserName). x.server) same;
    sound = with_properities-StartsSound g _ (λ others s a.
        user_create-Sound n.user n.server passwd (some resource) (some fullname)
          (elim g.host_pattern [ none ↦ none | some p ↦ some host ]) g.port g.ev_list g.ssl random k
          others s timely a);
  }

  chosen-enabled :
      (g : Group) (j : ℕ) (n : UserName) → is_chosen random regex g j n ≡ true → n.enabled ≡ true
  unfolding is_chosen
  chosen-enabled g j n h = ground (arith, h)

  try_name-Kept :
      (g : Group) (j : ℕ) (s : Setup)
      → Timely g
      → j < max_users
      → Kept s
      → Ends Kept (try_name random regex g j s)
  unfolding try_name create_user
  try_name-Kept g j s timely small h =
      elim (Bool-cases (is_chosen random regex g j (s.user_names_space j))) [
        | inr e ↦ rw e (Space.given h)
        | inl e ↦ rw e (
            Ends-bind-bind _ _ (print_property-Kept j g.passwd_pattern s h) λ passwd s1 h1.
              Ends-bind-bind _ _ (print_property-Kept j g.resource_pattern s1 h1) λ resource s2 h2.
                Ends-bind-bind _ _ (print_property-Kept j g.fullname_pattern s2 h2)
                  λ fullname s3 h3.
                    Ends-bind-bind _ _ (print_property-Kept j g.host_pattern s3 h3) λ host s4 h4.
                      add_user-Kept _ (record s4 { drawn = s4.drawn + delays_of g.ev_list })
                        (record {
                          names_same = h4.names_same;
                          configured = h4.configured;
                          newest_first = h4.newest_first;
                          room = h4.room;
                        })
                        (made g j (s.user_names_space j) passwd resource fullname host s4.drawn
                          timely small (ap (λ (f : ℕ → UserName). f j) h.names_same)
                          (chosen-enabled g j (s.user_names_space j) e)))
      ]

  try_names-Kept :
      (g : Group) (rounds j : ℕ) (s : Setup)
      → Timely g
      → rounds + j ≤ max_users
      → Kept s
      → Ends Kept (try_names random regex g rounds j s)
  unfolding try_names
  try_names-Kept g zero j s timely small h = Space.given h
  try_names-Kept g (suc rounds) j s timely small h =
      Ends-bind (try_name-Kept g j s timely (omega arith) h)
        λ _ t k. try_names-Kept g rounds (suc j) t timely (omega (arith, small)) k

  compile-Kept : (t : Text) (s : Setup) → Kept s → Ends Kept (compile random regex t s)
  unfolding compile
  compile-Kept t s h = elim (Bool-cases (regex.compiles t)) [
    | inl e ↦ rw e (Space.given h)
    | inr e ↦ rw e exited
  ]

  set_group-Kept :
      (g : Group) (s : Setup) → Timely g → Kept s → Ends Kept (set_group random regex g s)
  unfolding set_group
  set_group-Kept g s timely h = Ends-bind (compile-Kept g.filter_name_regexp s h) λ _ t k.
      Ends-bind (compile-Kept g.filter_server_regexp t k)
        λ _ u l. try_names-Kept g max_users 0 u timely (omega arith) l

  set_groups-Kept :
      (lib : Jabber) (now : ℕ) (xs : List XmlNode) (s : Setup)
      → Kept s
      → Ends Kept (set_groups random regex (map (read_group lib now) xs) s)
  unfolding set_groups read_group
  set_groups-Kept lib now [] s h = Space.given h
  set_groups-Kept lib now (x ∷ xs) s h =
      Ends-bind (set_group-Kept (read_group lib now x) s (read_events-NoneBefore lib now _) h)
        λ _ t k. set_groups-Kept lib now xs t k

-- If set_users_properities comes back, each user of the table may log in, has no connection and
-- starts sound: in a session with all packets accounted for it asks for POLLOUT exactly with
-- something to send, and none of its events is to run before `sooner_activation_tm`. Its name is that
-- of an entry of the table of names that is enabled. The table has room for all, alive_users_list
-- holds the same users, the newest first, in front of those that it held, and the table of names is
-- as before.
pub set_users_properities-AllConfigured :
    (random : ℕ → ℕ) (regex : Regex) (lib : Jabber) (now : ℕ) (xcfg : XmlNode) (s : Setup)
    → Ends
        (AllConfigured s.user_names_space s.alive_users_list)
        (set_users_properities random regex lib now xcfg s)
unfolding set_users_properities
set_users_properities-AllConfigured random regex lib now xcfg s =
    set_groups-Kept random regex s.user_names_space s.alive_users_list lib now _ _
      (record { names_same = refl; configured = tt; newest_first = refl; room = omega arith })
