-- ===== src/Slots/Invariant.antt =====
-- The places of connections: which are free, which are used, and when they run out.
use jab_simul.Shared.{
  ℕ, zero, suc, ◌+◌, ◌≤◌, ◌<◌, ◌≡◌, refl, ◌≢◌, ◌⊎◌, inl, inr, List, [], ◌∷◌, Option, none, some,
  Bool, true, false, ◌||◌, ◌&&◌, arith, ◌==◌, ltb, leb, ap, sym, subst, ◌∙◌, ==_iff, if◌then◌else◌,
  Bool-cases,
}
use jab_simul.State.{Slots}
use jab_simul.Slots.{
  max_pfds, batch, push_places, add_conns, set_place, init_slots, refill, take_from, take_place,
  free_place,
}

abbrev pub has : ℕ → List ℕ → Bool
has j [] = false
has j (x ∷ xs) = x == j || has j xs

abbrev pub is_used : Option ℕ → Bool
is_used none = false
is_used (some u) = true

abbrev pub Distinct : List ℕ → Type 0
Distinct [] = Unit
Distinct (x ∷ xs) = (has x xs ≡ false) × Distinct xs

-- `top` is the highest place that was ever handed to the free list. No place is both free and used,
-- none is twice in the free list, none up to `top` is lost, and `mpfd` is no lower than a used one.
pub record IsValid (top : ℕ) (t : Slots) : Type 0 where
  pub distinct : Distinct t.npfd
  pub free_unused : (j : ℕ) → has j t.npfd ≡ true → t.conns j ≡ none
  pub free_range : (j : ℕ) → has j t.npfd ≡ true → (2 ≤ j) × (j ≤ top)
  pub used_range : (j : ℕ) → is_used (t.conns j) ≡ true → (2 ≤ j) × (j ≤ t.mpfd)
  pub covered : (j : ℕ) → 2 ≤ j → j ≤ top → (has j t.npfd ≡ true) ⊎ (is_used (t.conns j) ≡ true)
  pub bounds : (1 ≤ t.mpfd) × (t.mpfd ≤ top) × (top ≤ max_pfds)

has-push_places :
    (j more mpfd : ℕ) (free : List ℕ)
    → has j (push_places more mpfd free) ≡ ((ltb mpfd j && leb j (mpfd + more)) || has j free)
unfolding push_places
has-push_places j zero mpfd free = ground arith
has-push_places j (suc more) mpfd free =
    ground (arith, has-push_places j more mpfd ((mpfd + suc more) ∷ free))

Distinct-push_places :
    (more mpfd : ℕ) (free : List ℕ)
    → ((j : ℕ) → mpfd < j → j ≤ mpfd + more → has j free ≡ false)
    → Distinct free
    → Distinct (push_places more mpfd free)
unfolding push_places
Distinct-push_places zero mpfd free h d = d
Distinct-push_places (suc more) mpfd free h d =
    Distinct-push_places more mpfd ((mpfd + suc more) ∷ free)
      (λ j lo hi. ground (arith, h j (omega arith) (omega arith)))
      (h (mpfd + suc more) (omega arith) (omega arith), d)

-- With the free list empty every place up to `top` is used, so `mpfd` is `top`.
top-le : (top : ℕ) (t : Slots) → IsValid top t → t.npfd ≡ [] → top ≤ t.mpfd
top-le top t v e = elim (Bool-cases (leb 2 top)) [
  | inr low ↦ ground (arith, v.bounds)
  | inl high ↦ ground (arith, v.covered top (ground arith) (omega arith), v.used_range top)
]

not_used : (o : Option ℕ) → is_used o ≢ true → o ≡ none
not_used none h = refl
not_used (some u) h = absurd (h refl)

add_conns-IsValid :
    (top : ℕ) (t : Slots)
    → IsValid top t
    → t.npfd ≡ []
    → IsValid (t.mpfd + batch t.mpfd) (add_conns t)
unfolding add_conns
add_conns-IsValid top t v e =
    let le = top-le top t v e in
    let read = λ (j : ℕ). has-push_places j (batch t.mpfd) t.mpfd t.npfd in
    record {
      distinct = Distinct-push_places (batch t.mpfd) t.mpfd t.npfd (λ j lo hi. rw e refl) (rw e tt);
      free_unused = λ j f. not_used (t.conns j) (λ u. ground (arith, read j, v.used_range j u));
      free_range = λ j f. ground (arith, read j, v.bounds);
      used_range = v.used_range;
      covered = λ j lo hi. ground (arith, read j, v.covered j, v.used_range j);
      bounds = ground (arith, v.bounds);
    }

pub refilled_top : Slots → ℕ → ℕ
refilled_top t top = elim t.npfd [ [] ↦ t.mpfd + batch t.mpfd | loc ∷ rest ↦ top ]

refill-IsValid : (top : ℕ) (t : Slots) → IsValid top t → IsValid (refilled_top t top) (refill t)
unfolding refill refilled_top
refill-IsValid top t v = go t.npfd refl
  where
    go :
        (l : List ℕ)
        → t.npfd ≡ l
        → IsValid
            (elim l [ [] ↦ t.mpfd + batch t.mpfd | loc ∷ rest ↦ top ])
            (elim l [ [] ↦ add_conns t | loc ∷ rest ↦ t ])
    go [] e = add_conns-IsValid top t v e
    go (loc ∷ rest) e = v

Distinct-head : (x : ℕ) (xs l : List ℕ) → l ≡ x ∷ xs → Distinct l → has x xs ≡ false
Distinct-head x xs l e d = (rw e at d).0

-- The place at the front goes to a user.
front-IsValid :
    (top loc u : ℕ) (rest : List ℕ) (t : Slots)
    → IsValid top t
    → t.npfd ≡ loc ∷ rest
    → IsValid top (record {
      npfd = rest;
      mpfd = if ltb t.mpfd loc then loc else t.mpfd;
      conns = set_place loc (some u) t.conns;
    })
unfolding set_place
front-IsValid top loc u rest t v e =
    let once = Distinct-head loc rest t.npfd e v.distinct in
    record {
      distinct = ground (arith, v.distinct);
      free_unused = λ j f. elim (Bool-cases (j == loc)) [
        | inl same ↦ cc (ap (λ (x : ℕ). has x rest) ((==_iff j loc).0 same), once, f)
        | inr other ↦ ground (arith, v.free_unused j)
      ];
      free_range = λ j f. ground (arith, v.free_range j);
      used_range = λ j f. ground (arith, v.used_range j, v.free_range loc);
      covered = λ j lo hi. ground (arith, v.covered j lo hi);
      bounds = ground (arith, v.bounds, v.free_range loc);
    }

free_place-IsValid :
    (top loc u : ℕ) (t : Slots)
    → IsValid top t
    → t.conns loc ≡ some u
    → IsValid top (free_place t loc)
unfolding free_place set_place
free_place-IsValid top loc u t v e = record {
  distinct = ground (arith, v.distinct, v.free_unused loc);
  free_unused = λ j f. ground (arith, v.free_unused j);
  free_range = λ j f. ground (arith, v.free_range j, v.used_range loc);
  used_range = λ j f. ground (arith, v.used_range j);
  covered = λ j lo hi. ground (arith, v.covered j lo hi);
  bounds = ground (arith, v.bounds, v.used_range loc);
}

-- What user_connect gets: a place that was free, now held by `u`, and the places stay valid; or no
-- place, and every place from 2 to MAX_PFDS has a connection.
abbrev pub TakesFree : ℕ → ℕ → Slots → Option (ℕ × Slots) → Type 0
TakesFree top u t none = (j : ℕ) → 2 ≤ j → j ≤ max_pfds → is_used (t.conns j) ≡ true
TakesFree top u t (some (loc, t')) =
    (t.conns loc ≡ none)
    × (t'.conns loc ≡ some u)
    × (2 ≤ loc)
    × (loc ≤ max_pfds)
    × IsValid (refilled_top t top) t'

refill-conns : (t : Slots) → (refill t).conns ≡ t.conns
unfolding refill add_conns
refill-conns t = ground arith

add_conns-empty : (t : Slots) → (add_conns t).npfd ≡ [] → max_pfds ≤ t.mpfd
unfolding add_conns
add_conns-empty t e =
    ground
      (arith, has-push_places (t.mpfd + 1) (batch t.mpfd) t.mpfd t.npfd, ap (has (t.mpfd + 1)) e)

refill-empty : (t : Slots) → (refill t).npfd ≡ [] → max_pfds ≤ (refill t).mpfd
unfolding refill
refill-empty t = go t.npfd refl
  where
    go :
        (l : List ℕ)
        → t.npfd ≡ l
        → let r = elim l as (λ _. Slots) [ [] ↦ add_conns t | loc ∷ rest ↦ t ] in
          r.npfd ≡ [] → max_pfds ≤ r.mpfd
    go [] e h = unfold add_conns in add_conns-empty t h
    go (loc ∷ rest) e h = cc

take_place-from : (t : Slots) (u : ℕ) → take_from (refill t).npfd u (refill t) ≡ take_place t u
unfolding take_place
take_place-from t u = refl

take_from-TakesFree :
    (top u : ℕ) (t r : Slots) (l : List ℕ)
    → (r.npfd ≡ [] → max_pfds ≤ r.mpfd)
    → r.conns ≡ t.conns
    → IsValid (refilled_top t top) r
    → r.npfd ≡ l
    → TakesFree top u t (take_from l u r)
unfolding take_from
take_from-TakesFree top u t r [] full same w e = λ j lo hi. ground (
  arith,
  ap (has j) e,
  w.covered j lo (omega (arith, full e, w.bounds)),
  ap (λ (f : ℕ → Option ℕ). f j) same,
)
take_from-TakesFree top u t r (loc ∷ rest) full same w e =
    let front : has loc r.npfd ≡ true = rw e (ground arith) in
    (
      ap (λ (f : ℕ → Option ℕ). f loc) (sym same) ∙ w.free_unused loc front,
      unfold set_place in ground arith,
      (w.free_range loc front).0,
      omega (arith, w.free_range loc front, w.bounds),
      front-IsValid _ loc u rest r w e,
    )

-- From valid places, user_connect takes one that was free and within 2 to MAX_PFDS, and the places
-- stay valid; the read of `t->npfd->pos` goes through NULL only if every place from 2 to MAX_PFDS
-- has a connection.
pub take_place-TakesFree :
    (top u : ℕ) (t : Slots) → IsValid top t → TakesFree top u t (take_place t u)
take_place-TakesFree top u t v = subst (TakesFree top u t) (take_place-from t u) (
    take_from-TakesFree top u t (refill t) _ (refill-empty t) (refill-conns t)
      (refill-IsValid top t v) refl)

pub init-IsValid : IsValid 11 init_slots
unfolding init_slots push_places
init-IsValid = record {
  distinct = ground arith;
  free_unused = λ j f. refl;
  free_range = λ j f. ground arith;
  used_range = λ j f. ground arith;
  covered = λ j lo hi. ground arith;
  bounds = ground arith;
}

-- One change of the places: a connection is made for a user, or a connection ends.
pub data PlaceStep (t : Slots) (t' : Slots) : Type 0 where
  take : (u loc : ℕ) → take_place t u ≡ some (loc, t') → PlaceStep t t'
  free : (u loc : ℕ) → t.conns loc ≡ some u → t' ≡ free_place t loc → PlaceStep t t'

-- The places after any sequence of such changes since thread_init.
pub data Reached : Slots → Type 0 where
  start : Reached init_slots
  then_step : {t t' : Slots} → Reached t → PlaceStep t t' → Reached t'

took-IsValid :
    (top u loc : ℕ) (t t' : Slots)
    → IsValid top t
    → take_place t u ≡ some (loc, t')
    → IsValid (refilled_top t top) t'
took-IsValid top u loc t t' v e = (subst (TakesFree top u t) e (take_place-TakesFree top u t v)).4

-- After any sequence of connections made and ended since the start, the places are valid: none is
-- both free and used or twice in the free list, used ones lie from 2 to `mpfd`, and every place up
-- to the highest one handed out is free or used.
pub Reached-IsValid : {t : Slots} → Reached t → (top : ℕ) × IsValid top t
Reached-IsValid start = (11, init-IsValid)
Reached-IsValid (then_step {t} {t'} r (take u loc e)) =
    let (top, v) = Reached-IsValid r in (refilled_top t top, took-IsValid top u loc t t' v e)
Reached-IsValid (then_step {t} {t'} r (free u loc held e)) =
    let (top, v) = Reached-IsValid r in (top, rw e (free_place-IsValid top loc u t v held))
