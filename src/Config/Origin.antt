-- ===== src/Config/Origin.antt =====
-- Where the users that configure makes come from: the generators of the same configuration.
use jab_simul.Shared.{
  ℕ, ◌<◌, ◌≡◌, refl, sym, ap, subst, inl, inr, List, [], ◌∷◌, some, Bool, true, codes, All,
  Bool-cases,
}
use jab_simul.Jabber.{Jabber, XmlNode}
use jab_simul.State.{User, Globals}
use jab_simul.Primes.{tag_iter_init, tags_named}
use jab_simul.Events.{max_users}
use jab_simul.Config.{Setup, Setting, UserName}
use jab_simul.Config.Names.{cleared, generate_user_names_space}
use jab_simul.Config.Users.{Regex, set_users_properities}
use jab_simul.Config.Configure.{MainConfig, set_globals, configure}
use jab_simul.Config.Space.{
  Ends, given, exited, faulted, Ends-bind, Ends-weaken, covered, Generated,
  generate_user_names_space-Generated,
}
use jab_simul.Config.Start.{IsConfigured, AllConfigured, set_users_properities-AllConfigured}
use jab_simul.Config.Keeps.{read_config-Ends, generate_user_names_space-SameList}

-- The user has the name of an index that lies in the table and in the range of some generator.
pub record IsGenerated (test : ℕ → Bool) (names : ℕ → UserName) (u : User) : Type 0 where
  pub index : ℕ
  pub index_small : index < max_users
  pub covered : test index ≡ true
  pub name_same : u.name ≡ (names index).user
  pub server_same : u.server ≡ (names index).server

-- What is enabled in a generated table comes from a generator.
from_generator :
    (random : ℕ → ℕ) (test : ℕ → Bool) (names : ℕ → UserName) (s t : Setup) (u : User)
    → Generated random test s t
    → names ≡ t.user_names_space
    → IsConfigured names u
    → IsGenerated test names u
unfolding cleared
from_generator random test names s t u g same c = record {
  index = c.index;
  index_small = c.index_small;
  covered = elim (Bool-cases (test c.index)) [
    | inl h ↦ h
    | inr h ↦ absurd (
        cc (
          c.enabled,
          ap (λ (f : ℕ → UserName). (f c.index).enabled) same,
          ap (λ (n : UserName). n.enabled) ((g c.index).1 h c.index_small),
        ))
  ];
  name_same = c.name_same;
  server_same = c.server_same;
}

-- The indices of the generators of a configuration.
abbrev pub generated_by : (ℕ → ℕ) → Jabber → XmlNode → ℕ → Bool
generated_by random lib xcfg =
    covered random lib
      (tags_named lib (some (codes "user_names_generator")) (tag_iter_init lib (some xcfg)))

-- What configure leaves: every user is configured and has a generator.
abbrev pub Made : (ℕ → ℕ) → Jabber → XmlNode → List User → Setup → Type 0
Made random lib xcfg before s =
    AllConfigured s.user_names_space before s
    × All (IsGenerated (generated_by random lib xcfg) s.user_names_space) s.users

All-weaken : {P Q : User → Type 0} (us : List User) → ((u : User) → P u → Q u) → All P us → All Q us
All-weaken [] k h = tt
All-weaken (u ∷ us) k h = (k u h.0, All-weaken us k h.1)

Ends-both :
    {A : Type 0} {P Q : Setup → Type 0} {r : Setting A}
    → Ends P r
    → Ends Q r
    → Ends (λ s. P s × Q s) r
Ends-both (given h) (given k) = given (h, k)
Ends-both exited k = exited
Ends-both faulted k = faulted

module _ (random : ℕ → ℕ) (regex : Regex) (lib : Jabber) (now : ℕ) (xcfg : XmlNode) where
  -- What the table of names has to be for the users that are made from it.
  abbrev pub Ready : Setup → Setup → Type 0
  Ready s t =
      Generated random (generated_by random lib xcfg) s t
      × (t.alive_users_list ≡ s.alive_users_list)

  pub generate_user_names_space-Ready :
      (s : Setup) → Ends (Ready s) (generate_user_names_space random lib xcfg s)
  generate_user_names_space-Ready s =
      Ends-both (generate_user_names_space-Generated random lib xcfg s)
        (generate_user_names_space-SameList random s.alive_users_list lib xcfg s refl)

  pub set_users_properities-Made :
      (s t : Setup)
      → Ready s t
      → Ends
          (Made random lib xcfg s.alive_users_list)
          (set_users_properities random regex lib now xcfg t)
  set_users_properities-Made s t (g, same) =
      Ends-weaken (set_users_properities-AllConfigured random regex lib now xcfg t) λ u c.
        let kept =
          subst (λ names. AllConfigured names s.alive_users_list u) (sym c.names_same)
            (subst (λ before. AllConfigured t.user_names_space before u) same c) in
        (
          kept,
          All-weaken u.users (λ x. from_generator random _ _ s t x g c.names_same) kept.configured,
        )

  -- If configure comes back, every user in the table may log in, has no connection and starts sound,
  -- and has the name of an entry of the table of names whose index lies in the table and in the
  -- range of a generator of the same configuration; the list of users holds the same users, the
  -- newest first, in front of those that it held.
  pub configure-Made :
      (cfg : MainConfig) (g : Globals) (s : Setup)
      → Ends
          (Made random lib xcfg s.alive_users_list)
          (configure random regex lib now (some xcfg) cfg g s)
  unfolding configure
  configure-Made cfg g s = Ends-bind (read_config-Ends lib xcfg cfg s) λ read r e.
      Ends-bind (generate_user_names_space-Ready r) λ _ t h.
        Ends-bind (set_users_properities-Made r t h) λ _ u m.
          given {a = (read, set_globals lib xcfg g)}
            (subst (λ l. Made random lib xcfg l u) (ap (λ (x : Setup). x.alive_users_list) e) m)
