-- ===== src/Config/Keeps.antt =====
-- What reading the block `admin` and making the table of names leave as they were, in configure of
-- jab_simul/jab_simul-main.c.
use jab_simul.Shared.{
  ℕ, zero, suc, ◌+◌, ◌≡◌, refl, ◌∙◌, inl, inr, List, [], ◌∷◌, Option, none, some, Text, codes,
  length, leb, ltb, Bool-cases, Option-cases,
}
use jab_simul.Shared.Int.{ℤ, pos, negsuc, ◌+ℤ◌, leb_ℤ}
use jab_simul.Jabber.{Jabber, XmlNode}
use jab_simul.State.{User}
use jab_simul.Events.{max_users}
use jab_simul.Pattern.Parser.{sprintf_pattern}
use jab_simul.Config.{Setup, print_name}
use jab_simul.Config.Names.{
  bound, print_server, fill_name, fill_names, rounds_of, run_generator, run_generators,
  generate_user_names_space,
}
use jab_simul.Config.Configure.{MainConfig, copy_text, read_fullxml, read_admin, read_config}
use jab_simul.Config.Space.{Ends, given, faulted, Ends-bind}

-- Reading the block `admin` leaves the tables alone.
copy_text-Ends :
    (size : ℕ) (old : Text) (t : Option Text) (s : Setup)
    → Ends (λ r. r ≡ s) (copy_text size old t s)
unfolding copy_text
copy_text-Ends size old none s = given refl
copy_text-Ends size old (some t) s = elim (Bool-cases (leb (length t + 1) size)) [
  | inl h ↦ rw h (given refl)
  | inr h ↦ rw h faulted
]

read_fullxml-Ends :
    (lib : Jabber) (x : Option XmlNode) (cfg : MainConfig) (s : Setup)
    → Ends (λ r. r ≡ s) (read_fullxml lib x cfg s)
unfolding read_fullxml
read_fullxml-Ends lib none cfg s = given refl
read_fullxml-Ends lib (some scan) cfg s =
    let part = λ (name : Text). lib.get_tag_data (some scan) name in
    Ends-bind (copy_text-Ends 50 cfg.fullxmlscannedloguser (part (codes "user")) s) λ user r e.
      Ends-bind (copy_text-Ends 100 cfg.fullxmlmasterlogpath (part (codes "logmaster")) r)
        λ logmaster t f.
          Ends-bind (copy_text-Ends 100 cfg.fullxmluserlogpath (part (codes "loguser")) t)
            λ loguser u g. given (g ∙ f ∙ e)

read_admin-Ends :
    (lib : Jabber) (x : Option XmlNode) (cfg : MainConfig) (s : Setup)
    → Ends (λ r. r ≡ s) (read_admin lib x cfg s)
unfolding read_admin
read_admin-Ends lib none cfg s = given refl
read_admin-Ends lib (some admin) cfg s = read_fullxml-Ends lib _ _ s

pub read_config-Ends :
    (lib : Jabber) (xcfg : XmlNode) (cfg : MainConfig) (s : Setup)
    → Ends (λ r. r ≡ s) (read_config lib xcfg cfg s)
unfolding read_config
read_config-Ends lib xcfg cfg s = read_admin-Ends lib (lib.get_tag (some xcfg) (codes "admin")) _ s

-- Making the table of names leaves the list of users alone.
module _ (random : ℕ → ℕ) (before : List User) where
  abbrev SameList : Setup → Type 0
  SameList s = s.alive_users_list ≡ before

  print_name-SameList :
      (i : ℤ) (size : ℕ) (old pattern : Text) (s : Setup)
      → SameList s
      → Ends SameList (print_name random i size old pattern s)
  unfolding print_name
  print_name-SameList i size old pattern s h =
      elim (Option-cases (sprintf_pattern i random size s.mode s.drawn old pattern)) [
        | inl n ↦ rw n faulted
        | inr ((t, m, d), e) ↦ rw e (given h)
      ]

  print_server-SameList :
      (i : ℤ) (old : Text) (server : Option Text) (s : Setup)
      → SameList s
      → Ends SameList (print_server random i old server s)
  unfolding print_server
  print_server-SameList i old none s h = given h
  print_server-SameList i old (some pattern) s h = print_name-SameList i 50 old pattern s h

  fill_name-SameList :
      (name : Text) (server : Option Text) (i : ℤ) (s : Setup)
      → SameList s
      → Ends SameList (fill_name random name server i s)
  unfolding fill_name
  fill_name-SameList name server (negsuc k) s h = faulted
  fill_name-SameList name server (pos k) s h = elim (Bool-cases (ltb k max_users)) [
    | inr e ↦ rw e faulted
    | inl e ↦ rw e (
        Ends-bind (print_name-SameList (pos k) 50 _ name s h) λ user t same.
          Ends-bind (print_server-SameList (pos k) _ server t same) λ host u same'. given same')
  ]

  fill_names-SameList :
      (name : Text) (server : Option Text) (rounds : ℕ) (i : ℤ) (s : Setup)
      → SameList s
      → Ends SameList (fill_names random name server rounds i s)
  unfolding fill_names
  fill_names-SameList name server zero i s h = given h
  fill_names-SameList name server (suc rounds) i s h =
      Ends-bind (fill_name-SameList name server i s h)
        λ _ t same. fill_names-SameList name server rounds (i +ℤ pos 1) t same

  run_generator-SameList :
      (lib : Jabber) (x : XmlNode) (s : Setup)
      → SameList s
      → Ends SameList (run_generator random lib x s)
  unfolding run_generator
  run_generator-SameList lib x s h =
      elim (Option-cases (lib.get_tag_data (some x) (codes "name"))) [
        | inl nothing ↦ rw (run_generator, nothing) (given h)
        | inr (name, e) ↦
            rw (run_generator, e)
              (elim (Bool-cases (leb_ℤ (pos 0) (bound lib x (codes "to") (negsuc 0)))) [
                | inl on ↦ rw on (
                    fill_names-SameList name (lib.get_tag_data (some x) (codes "server"))
                      (rounds_of (bound lib x (codes "from") (pos 0))
                        (bound lib x (codes "to") (negsuc 0)))
                      (bound lib x (codes "from") (pos 0)) s h)
                | inr off ↦ rw off (given h)
              ])
      ]

  run_generators-SameList :
      (lib : Jabber) (xs : List XmlNode) (s : Setup)
      → SameList s
      → Ends SameList (run_generators random lib xs s)
  unfolding run_generators
  run_generators-SameList lib [] s h = given h
  run_generators-SameList lib (x ∷ xs) s h =
      Ends-bind (run_generator-SameList lib x s h) λ _ t same. run_generators-SameList lib xs t same

  pub generate_user_names_space-SameList :
      (lib : Jabber) (xcfg : XmlNode) (s : Setup)
      → SameList s
      → Ends SameList (generate_user_names_space random lib xcfg s)
  unfolding generate_user_names_space
  generate_user_names_space-SameList lib xcfg s h = run_generators-SameList lib _ _ h
