-- ===== src/Config/Space.antt =====
-- Which entries of the table of names generate_user_names_space enables.
use jab_simul.Shared.{
  ℕ, zero, suc, ◌+◌, ◌<◌, ◌≡◌, refl, sym, ap, subst, ◌∙◌, inl, inr, List, [], ◌∷◌, Option, none,
  some, Bool, true, false, ◌&&◌, ◌||◌, Text, codes, ltb, ◌==◌, if◌then◌else◌, Bool-cases,
  Option-cases, arith, ==_iff, leb, ltb→lt, lt→ltb,
}
use jab_simul.Shared.Int.{ℤ, pos, negsuc, ◌+ℤ◌, ◌-ℤ◌, leb_ℤ}
use jab_simul.Jabber.{Jabber, XmlNode}
use jab_simul.Pattern.Parser.{sprintf_pattern}
use jab_simul.Primes.{tag_iter_init, tags_named}
use jab_simul.Events.{max_users}
use jab_simul.Config.{UserName, Setup, Setting, gives, exits, faults, S, bind, pure, print_name}
use jab_simul.Config.Users.{is_there}
use jab_simul.Config.Names.{
  cleared, set_name, bound, print_server, fill_name, fill_names, rounds_of, run_generator,
  run_generators, generate_user_names_space,
}

-- The run comes back only in a state where P holds.
pub data Ends {A : Type 0} (P : Setup → Type 0) : Setting A → Type 0 where
  given : {a : A} {s : Setup} → P s → Ends P (gives a s)
  exited : {code : ℕ} → Ends P (exits code)
  faulted : Ends P faults

pub Ends-bind :
    {A B : Type 0} {P Q : Setup → Type 0} {r : Setting A} {f : A → S B}
    → Ends P r
    → ((a : A) (s : Setup) → P s → Ends Q (f a s))
    → Ends Q (bind r f)
Ends-bind (given {a} {s} h) k = k a s h
Ends-bind exited k = exited
Ends-bind faulted k = faulted

-- The same for a chain inside of a step.
pub Ends-bind-bind :
    {A B C : Type 0} {P Q : Setup → Type 0} {r : Setting A} (f : A → S B) (g : B → S C)
    → Ends P r
    → ((a : A) (s : Setup) → P s → Ends Q (bind (f a s) g))
    → Ends Q (bind (bind r f) g)
Ends-bind-bind f g (given {a} {s} h) k = k a s h
Ends-bind-bind f g exited k = exited
Ends-bind-bind f g faulted k = faulted

pub Ends-weaken :
    {A : Type 0} {P Q : Setup → Type 0} {r : Setting A}
    → Ends P r
    → ((s : Setup) → P s → Q s)
    → Ends Q r
Ends-weaken (given {s = s} h) k = given (k s h)
Ends-weaken exited k = exited
Ends-weaken faulted k = faulted

abbrev pub is_enabled : Setup → ℕ → Bool
is_enabled s n = (s.user_names_space n).enabled

module _ (random : ℕ → ℕ) where
  print_name-keeps :
      (i : ℤ) (size : ℕ) (old pattern : Text) (s : Setup)
      → Ends (λ t. t.user_names_space ≡ s.user_names_space) (print_name random i size old pattern s)
  unfolding print_name
  print_name-keeps i size old pattern s =
      elim (Option-cases (sprintf_pattern i random size s.mode s.drawn old pattern)) [
        | inl n ↦ rw n faulted
        | inr ((t, m, d), e) ↦ rw e (given refl)
      ]

  print_server-keeps :
      (i : ℤ) (old : Text) (server : Option Text) (s : Setup)
      → Ends (λ t. t.user_names_space ≡ s.user_names_space) (print_server random i old server s)
  unfolding print_server
  print_server-keeps i old none s = given refl
  print_server-keeps i old (some pattern) s = print_name-keeps i 50 old pattern s

  -- The indices from `k` on, so many of them.
  abbrev pub within : ℕ → ℕ → ℕ → Bool
  within k rounds n = leb k n && ltb n (k + rounds)

  -- The entries of a stretch are enabled and lie in the table, the others are as before.
  abbrev Filled : ℕ → ℕ → Setup → Setup → Type 0
  Filled k rounds s t =
      (n : ℕ)
      → (within k rounds n ≡ true → (is_enabled t n ≡ true) × (n < max_users))
        × (within k rounds n ≡ false → t.user_names_space n ≡ s.user_names_space n)

  set_name-Filled :
      (k : ℕ) (n : UserName) (s t : Setup) (names : ℕ → UserName)
      → n.enabled ≡ true
      → k < max_users
      → names ≡ s.user_names_space
      → Filled k 1 s (record t { user_names_space = set_name k n names })
  set_name-Filled k n s t names on small same j = (
    λ h.
        let e : j ≡ k = ground (arith, h) in
        (rw (is_enabled, (==_iff j k).1 e) on, ground (arith, h, small)),
    λ h. rw (not_same h) (ap (λ (f : ℕ → UserName). f j) same),
  )
    where
      not_same : within k 1 j ≡ false → (j == k) ≡ false
      not_same h = ground (arith, h)

  fill_name-Filled :
      (name : Text) (server : Option Text) (k : ℕ) (s : Setup)
      → Ends (Filled k 1 s) (fill_name random name server (pos k) s)
  unfolding fill_name
  fill_name-Filled name server k s = elim (Bool-cases (ltb k max_users)) [
    | inr h ↦ rw h faulted
    | inl h ↦ rw h (
        Ends-bind (print_name-keeps (pos k) 50 (s.user_names_space k).user name s) λ user t same.
          Ends-bind (print_server-keeps (pos k) (s.user_names_space k).server server t)
            λ host u same'.
              given (set_name-Filled k _ s u u.user_names_space refl (ltb→lt _ _ h) (same' ∙ same)))
  ]

  Filled-step :
      (k rounds : ℕ) (s t u : Setup)
      → Filled k 1 s t
      → Filled (suc k) rounds t u
      → Filled k (suc rounds) s u
  Filled-step k rounds s t u one more n = elim (Bool-cases (within (suc k) rounds n)) [
    | inl h ↦ (λ _. (more n).0 h, λ e. absurd (ground (arith, h, e)))
    | inr h ↦ (
      λ e.
          let here = (one n).0 (ground (arith, h, e)) in
          (ap (λ (x : UserName). x.enabled) ((more n).1 h) ∙ here.0, here.1),
      λ e. (more n).1 h ∙ (one n).1 (ground (arith, h, e)),
    )
  ]

  pub next_index : (k : ℕ) → pos k +ℤ pos 1 ≡ pos (suc k)
  unfolding ◌+ℤ◌
  next_index k = ground arith

  fill_names-Filled :
      (name : Text) (server : Option Text) (rounds k : ℕ) (s : Setup)
      → Ends (Filled k rounds s) (fill_names random name server rounds (pos k) s)
  unfolding fill_names
  fill_names-Filled name server zero k s = given (λ n. (λ h. absurd (ground (arith, h)), λ _. refl))
  fill_names-Filled name server (suc rounds) k s =
      Ends-bind (fill_name-Filled name server k s) λ _ t one.
        subst (λ i. Ends (Filled k (suc rounds) s) (fill_names random name server rounds i t))
          (sym (next_index k))
          (Ends-weaken (fill_names-Filled name server rounds (suc k) t)
            (λ u more. Filled-step k rounds s t u one more))

  abbrev pub in_bounds : ℤ → ℤ → ℕ → Bool
  in_bounds from to n = leb_ℤ (pos 0) to && (leb_ℤ from (pos n) && leb_ℤ (pos n) to)

  -- A generator has a name and a range that ends at 0 or later, and the index lies in that range.
  abbrev pub covers : Jabber → XmlNode → ℕ → Bool
  covers lib x n =
      is_there (lib.get_tag_data (some x) (codes "name"))
      && in_bounds (bound lib x (codes "from") (pos 0)) (bound lib x (codes "to") (negsuc 0)) n

  abbrev pub covered : Jabber → List XmlNode → ℕ → Bool
  covered lib [] n = false
  covered lib (x ∷ xs) n = covers lib x n || covered lib xs n

  -- The entries for which a test holds are enabled and lie in the table, the others are as before.
  abbrev Fills : (ℕ → Bool) → Setup → Setup → Type 0
  Fills test s t =
      (n : ℕ)
      → (test n ≡ true → (is_enabled t n ≡ true) × (n < max_users))
        × (test n ≡ false → t.user_names_space n ≡ s.user_names_space n)

  pub rounds_within :
      (k m n : ℕ)
      → within k (rounds_of (pos k) (pos m)) n ≡ (leb_ℤ (pos k) (pos n) && leb_ℤ (pos n) (pos m))
  unfolding rounds_of ◌-ℤ◌
  rounds_within k m n = ground arith

  rounds_below : (k m : ℕ) → rounds_of (negsuc k) (pos m) ≡ suc (m + suc k)
  unfolding rounds_of ◌-ℤ◌
  rounds_below k m = ground arith

  run_range :
      (name : Text) (server : Option Text) (from to : ℤ) (s : Setup)
      → leb_ℤ (pos 0) to ≡ true
      → Ends
          (Fills (λ n. leb_ℤ from (pos n) && leb_ℤ (pos n) to) s)
          (fill_names random name server (rounds_of from to) from s)
  unfolding fill_names
  run_range name server (pos k) (pos m) s h =
      Ends-weaken (fill_names-Filled name server (rounds_of (pos k) (pos m)) k s)
        (λ t f n. (λ e. (f n).0 (rounds_within k m n ∙ e), λ e. (f n).1 (rounds_within k m n ∙ e)))
  run_range name server (negsuc k) (pos m) s h = rw (rounds_below k m) faulted
  run_range name server from (negsuc m) s h = absurd (ground (arith, h))

  and_true : (a b : Bool) → a ≡ true → b ≡ (a && b)
  and_true true b h = refl
  and_true false b h = cc

  run_bounds :
      (name : Text) (server : Option Text) (from to : ℤ) (s : Setup)
      → Ends (Fills (in_bounds from to) s) (
          (if leb_ℤ (pos 0) to
              then fill_names random name server (rounds_of from to) from
              else pure tt)
            s)
  run_bounds name server from to s = elim (Bool-cases (leb_ℤ (pos 0) to)) [
    | inl h ↦ rw h (
        Ends-weaken (run_range name server from to s h)
          (λ t f n. (λ e. (f n).0 (and_true _ _ h ∙ e), λ e. (f n).1 (and_true _ _ h ∙ e))))
    | inr h ↦ rw h (given (λ n. (λ e. absurd (cc), λ _. refl)))
  ]

  run_generator-Fills :
      (lib : Jabber) (x : XmlNode) (s : Setup)
      → Ends (Fills (covers lib x) s) (run_generator random lib x s)
  unfolding run_generator
  run_generator-Fills lib x s = elim (Option-cases (lib.get_tag_data (some x) (codes "name"))) [
    | inl nothing ↦ rw (run_generator, nothing) (given (λ n. (λ e. absurd (cc), λ _. refl)))
    | inr (name, e) ↦
        let there : is_there (lib.get_tag_data (some x) (codes "name")) ≡ true = ap is_there e in
        rw (run_generator, e)
          (Ends-weaken
            (run_bounds name (lib.get_tag_data (some x) (codes "server"))
              (bound lib x (codes "from") (pos 0)) (bound lib x (codes "to") (negsuc 0)) s)
            (λ t f n.
              (λ h. (f n).0 (and_true _ _ there ∙ h), λ h. (f n).1 (and_true _ _ there ∙ h))))
  ]

  run_generators-Fills :
      (lib : Jabber) (xs : List XmlNode) (s : Setup)
      → Ends (Fills (covered lib xs) s) (run_generators random lib xs s)
  unfolding run_generators
  run_generators-Fills lib [] s = given (λ n. (λ e. absurd (cc), λ _. refl))
  run_generators-Fills lib (x ∷ xs) s =
      Ends-bind (run_generator-Fills lib x s)
        λ _ t one. Ends-weaken (run_generators-Fills lib xs t) (λ u more. both t u one more)
    where
      both :
          (t u : Setup)
          → Fills (covers lib x) s t
          → Fills (covered lib xs) t u
          → Fills (λ n. covers lib x n || covered lib xs n) s u
      both t u one more n = elim (Bool-cases (covered lib xs n)) [
        | inl h ↦ (λ _. (more n).0 h, λ e. absurd (ground (arith, h, e)))
        | inr h ↦ (
          λ e.
              let here = (one n).0 (ground (arith, h, e)) in
              (ap (λ (x : UserName). x.enabled) ((more n).1 h) ∙ here.0, here.1),
          λ e. (more n).1 h ∙ (one n).1 (ground (arith, h, e)),
        )
      ]

  -- What the table is to be: an index of a generator is enabled and lies in the table; any other is
  -- reset.
  abbrev pub Generated : (ℕ → Bool) → Setup → Setup → Type 0
  Generated test s t =
      (n : ℕ)
      → (test n ≡ true → (is_enabled t n ≡ true) × (n < max_users))
        × (test n ≡ false → n < max_users → t.user_names_space n ≡ cleared (s.user_names_space n))

  -- If generate_user_names_space comes back, the entries of the table of names that are enabled are
  -- exactly the indices in the range of some generator with a name, all of these lie in the table,
  -- and every other entry is reset, whatever the table held before.
  pub generate_user_names_space-Generated :
      (lib : Jabber) (xcfg : XmlNode) (s : Setup)
      → Ends
          (Generated
            (covered lib (
              tags_named lib (some (codes "user_names_generator")) (tag_iter_init lib (some xcfg))))
            s)
          (generate_user_names_space random lib xcfg s)
  unfolding generate_user_names_space
  generate_user_names_space-Generated lib xcfg s =
      Ends-weaken (run_generators-Fills lib _ _)
        (λ t f n. ((f n).0, λ e below. (f n).1 e ∙ rw (lt→ltb _ _ below) refl))
