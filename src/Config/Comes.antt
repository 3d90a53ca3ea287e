-- ===== src/Config/Comes.antt =====
-- When configure of jab_simul/jab_simul-main.c comes back, with how many users.
use jab_simul.Shared.{
  ℕ, ◌+◌, ◌≤◌, ◌<◌, ◌≡◌, refl, ap, ◌∙◌, sym, List, map, Option, none, some, true, Text, codes,
  length, leb, All, arith,
}
use jab_simul.Jabber.{Jabber, XmlNode}
use jab_simul.State.{Globals}
use jab_simul.Primes.{tag_iter_init, tags_named}
use jab_simul.Events.{max_users}
use jab_simul.Pattern.{initial}
use jab_simul.Config.{Setup, Setting, gives}
use jab_simul.Config.Names.{generate_user_names_space}
use jab_simul.Config.Users.{Regex, Group, read_group, set_users_properities}
use jab_simul.Config.Configure.{
  MainConfig, copy_text, read_fullxml, fullxml_of, read_admin, read_config, set_globals, configure,
}
use jab_simul.Config.Returns.{
  Gives, gave, Gives-bind, Gives-weaken, Fine, generate_user_names_space-Gives,
}
use jab_simul.Config.Space.{Ends, given}
use jab_simul.Config.Start.{set_users_properities-AllConfigured}
use jab_simul.Config.Count.{Works, chosen_by, set_users_properities-Gives}

-- A text fits into a buffer with the zero behind it.
abbrev pub Fits : ℕ → Option Text → Type 0
Fits size none = Unit {0}
Fits size (some t) = length t < size

-- The texts of `fullxml` fit into their buffers.
abbrev pub FullxmlFits : Jabber → Option XmlNode → Type 0
FullxmlFits lib none = Unit {0}
FullxmlFits lib (some scan) =
    let part = λ (name : Text). lib.get_tag_data (some scan) name in
    Fits 50 (part (codes "user"))
    × Fits 100 (part (codes "logmaster"))
    × Fits 100 (part (codes "loguser"))

abbrev pub AdminFits : Jabber → Option XmlNode → Type 0
AdminFits lib none = Unit {0}
AdminFits lib (some admin) = FullxmlFits lib (fullxml_of lib admin)

copy_text-Gives :
    (size : ℕ) (old : Text) (t : Option Text) (s : Setup)
    → Fits size t
    → Gives (λ r. r ≡ s) (copy_text size old t s)
unfolding copy_text
copy_text-Gives size old none s h = gave refl
copy_text-Gives size old (some t) s h = rw (fits h) (gave refl)
  where
    fits : length t < size → leb (length t + 1) size ≡ true
    fits h = ground (arith, h)

read_fullxml-Gives :
    (lib : Jabber) (x : Option XmlNode) (cfg : MainConfig) (s : Setup)
    → FullxmlFits lib x
    → Gives (λ r. r ≡ s) (read_fullxml lib x cfg s)
unfolding read_fullxml
read_fullxml-Gives lib none cfg s h = gave refl
read_fullxml-Gives lib (some scan) cfg s (user, master, own) =
    let part = λ (name : Text). lib.get_tag_data (some scan) name in
    Gives-bind _ (copy_text-Gives 50 cfg.fullxmlscannedloguser (part (codes "user")) s user)
      λ _ r e.
        Gives-bind _
          (copy_text-Gives 100 cfg.fullxmlmasterlogpath (part (codes "logmaster")) r master)
          λ _ t f.
            Gives-bind _ (copy_text-Gives 100 cfg.fullxmluserlogpath (part (codes "loguser")) t own)
              λ _ u g. gave (g ∙ f ∙ e)

read_admin-Gives :
    (lib : Jabber) (x : Option XmlNode) (cfg : MainConfig) (s : Setup)
    → AdminFits lib x
    → Gives (λ r. r ≡ s) (read_admin lib x cfg s)
unfolding read_admin
read_admin-Gives lib none cfg s h = gave refl
read_admin-Gives lib (some admin) cfg s h = read_fullxml-Gives lib (fullxml_of lib admin) _ s h

read_config-Gives :
    (lib : Jabber) (xcfg : XmlNode) (cfg : MainConfig) (s : Setup)
    → AdminFits lib (lib.get_tag (some xcfg) (codes "admin"))
    → Gives (λ r. r ≡ s) (read_config lib xcfg cfg s)
unfolding read_config
read_config-Gives lib xcfg cfg s h =
    read_admin-Gives lib (lib.get_tag (some xcfg) (codes "admin")) _ s h

-- The run with what it gives.
Gives-and :
    {A : Type 0} {P : Setup → Type 0} {r : Setting A}
    → Gives P r
    → Gives (λ s. P s × ((a : A) × (r ≡ gives a s))) r
Gives-and (gave {a} h) = gave (h, (a, refl))

abbrev pub groups_of : Jabber → ℕ → XmlNode → List Group
groups_of lib now xcfg =
    map (read_group lib now)
      (tags_named lib (some (codes "user_properities")) (tag_iter_init lib (some xcfg)))

pub Gives-Ends :
    {A : Type 0} {P Q : Setup → Type 0} {r : Setting A}
    → Gives P r
    → Ends Q r
    → Gives (λ s. P s × Q s) r
Gives-Ends (gave h) (given k) = gave (h, k)

module _ (random : ℕ → ℕ) (regex : Regex) (lib : Jabber) (now : ℕ) (xcfg : XmlNode) where
  -- What the configuration has to be. The table of names is the one that its generators leave.
  pub record IsFine (s : Setup) : Type 0 where
    pub admin_fits : AdminFits lib (lib.get_tag (some xcfg) (codes "admin"))
    pub names_fine :
        All
          (Fine random lib)
          (tags_named lib (some (codes "user_names_generator")) (tag_iter_init lib (some xcfg)))
    pub groups_work : All (Works random regex) (groups_of lib now xcfg)
    pub mode_initial : s.mode ≡ initial
    pub room :
        (t : Setup)
        → generate_user_names_space random lib xcfg s ≡ gives tt t
        → chosen_by random regex (groups_of lib now xcfg) t.user_names_space ≤ max_users

  -- The scanner is at its start, and there are as many users as the groups choose names.
  abbrev pub Complete : Setup → Type 0
  Complete t =
      (t.mode ≡ initial)
      × (length t.users ≡ chosen_by random regex (groups_of lib now xcfg) t.user_names_space)

  users-Complete :
      (t : Setup)
      → All (Works random regex) (groups_of lib now xcfg)
      → t.mode ≡ initial
      → chosen_by random regex (groups_of lib now xcfg) t.user_names_space ≤ max_users
      → Gives Complete (set_users_properities random regex lib now xcfg t)
  users-Complete t works start room =
      Gives-weaken
        (Gives-Ends (set_users_properities-Gives random regex lib now xcfg t works start room)
          (set_users_properities-AllConfigured random regex lib now xcfg t))
        (λ u (a, c).
          (a.0, a.1 ∙ ap (chosen_by random regex (groups_of lib now xcfg)) (sym c.names_same)))

  -- configure comes back on a configuration that is fine: its texts fit into their buffers, its patterns
  -- print for every index of the table, its filters compile, its ranges lie in the table of names, and its groups choose no more
  -- names than there is room for. The scanner is at its start again, and there are exactly as many
  -- users as the groups choose names.
  pub configure-Gives :
      (cfg : MainConfig) (g : Globals) (s : Setup)
      → IsFine s
      → Gives Complete (configure random regex lib now (some xcfg) cfg g s)
  unfolding configure
  configure-Gives cfg g s fine =
      Gives-bind _ (read_config-Gives lib xcfg cfg s fine.admin_fits) λ read r e.
        Gives-bind _
          (Gives-and (
            generate_user_names_space-Gives random lib xcfg r fine.names_fine
              (ap (λ (x : Setup). x.mode) e ∙ fine.mode_initial)))
          λ _ t (start, (a, ran)).
            Gives-bind _
              (users-Complete t fine.groups_work start
                (fine.room t (ap (generate_user_names_space random lib xcfg) (sym e) ∙ ran)))
              λ _ u done. gave {a = (read, set_globals lib xcfg g)} done
