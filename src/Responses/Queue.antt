-- ===== src/Responses/Queue.antt =====
-- Which answer a node of the server is taken for.
use jab_simul.Shared.{
  ℕ, ◌≡◌, refl, ◌≢◌, List, [], ◌∷◌, ◌++◌, Option, none, some, Text, arith, inl, inr, Bool-cases,
}
use jab_simul.Jabber.{Jabber, Compares}
use jab_simul.State.{Pending, ResponseHandler}
use jab_simul.Responses.{node_create, node_get, keep_before}

-- No entry waits for `id`.
abbrev pub NoneWaits : Text → List Pending → Type 0
NoneWaits id [] = Unit
NoneWaits id (p ∷ queue) = (p.id ≢ id) × NoneWaits id queue

-- The entry that was added last for `id`, and the queue without it; or the queue as it was.
abbrev pub TakesNewest : Text → List Pending → Option Pending × List Pending → Type 0
TakesNewest id queue (none, rest) = NoneWaits id queue × (rest ≡ queue)
TakesNewest id queue (some p, rest) =
    (before : List Pending) × (after : List Pending) × (queue ≡ before ++ p ∷ after)
    × (rest ≡ before ++ after)
    × (p.id ≡ id)
    × NoneWaits id before

keep_before-TakesNewest :
    (id : Text) (p : Pending) (queue : List Pending) (r : Option Pending × List Pending)
    → p.id ≢ id
    → TakesNewest id queue r
    → TakesNewest id (p ∷ queue) (keep_before p r)
keep_before-TakesNewest id p queue (none, rest) h (n, e) = ((h, n), rw e refl)
keep_before-TakesNewest id p queue (some q, rest) h (before, after, e, f, same, n) =
    (p ∷ before, after, rw e refl, rw f refl, same, (h, n))

-- node_get finds the newest entry with the id and takes out that one alone, or it finds none, and
-- then no entry has the id and the queue is left as it was.
pub node_get-TakesNewest :
    (lib : Jabber)
    → Compares lib
    → (id : Text) (queue : List Pending) → TakesNewest id queue (node_get lib id queue)
unfolding node_get
node_get-TakesNewest lib cmp id [] = (tt, refl)
node_get-TakesNewest lib cmp id (p ∷ queue) = elim (Bool-cases (lib.j_same (some p.id) (some id))) [
  | inl hit ↦ rw hit ([], queue, refl, refl, (cmp.same_iff p.id id).0 hit, tt)
  | inr miss ↦ rw miss (
      keep_before-TakesNewest id p queue _ (λ e. ground (arith, (cmp.same_iff p.id id).1 e))
        (node_get-TakesNewest lib cmp id queue))
]

-- An answer that comes while its request is the newest is given to that request, and the queue is
-- again what it was before the request.
pub node_get-node_create :
    (lib : Jabber)
    → Compares lib
    → (id : Text) (callback : Option ResponseHandler) (time : ℕ) (queue : List Pending)
    → node_get lib id (node_create id callback time queue)
      ≡ (some (record { id = id; send_time = time; callback = callback }), queue)
unfolding node_get node_create
node_get-node_create lib cmp id callback time queue = rw ((cmp.same_iff id id).1 refl)
