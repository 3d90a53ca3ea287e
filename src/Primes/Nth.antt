-- ===== src/Primes/Nth.antt =====
-- The n-th entry of a hash table: xhash_get_nth of jab_simul/libjabber_ext.c.
use jab_simul.Shared.{
  ℕ, zero, suc, ◌≡◌, refl, ◌∙◌, List, [], ◌∷◌, ◌++◌, Option, none, some, Text, get_elem?,
}
use jab_simul.State.{Xht, RosterItem}
use jab_simul.Primes.{Search, found, missing, search_bucket, search_buckets, xhash_get_nth}

-- The entries that were not removed, bucket by bucket.
abbrev pub live : List (Option (Text × RosterItem)) → List RosterItem
live [] = []
live (none ∷ es) = live es
live (some (k, v) ∷ es) = v ∷ live es

abbrev pub entries : List (List (Option (Text × RosterItem))) → List RosterItem
entries [] = []
entries (b ∷ bs) = live b ++ entries bs

abbrev continue_in : List RosterItem → Search → Option RosterItem
continue_in later (found v) = some v
continue_in later (missing rest) = get_elem? later rest

search_bucket-get_elem :
    (b : List (Option (Text × RosterItem))) (later : List RosterItem) (num : ℕ)
    → continue_in later (search_bucket b num) ≡ get_elem? (live b ++ later) num
unfolding search_bucket
search_bucket-get_elem [] later num = refl
search_bucket-get_elem (none ∷ es) later num = search_bucket-get_elem es later num
search_bucket-get_elem (some (k, v) ∷ es) later zero = refl
search_bucket-get_elem (some (k, v) ∷ es) later (suc num) = search_bucket-get_elem es later num

continue_in-later :
    (bs : List (List (Option (Text × RosterItem)))) (r : Search)
    → ((rest : ℕ) → search_buckets bs rest ≡ get_elem? (entries bs) rest)
    → elim r as (λ _. Option RosterItem) [
      | found v ↦ some v
      | missing rest ↦ search_buckets bs rest
    ]
      ≡ continue_in (entries bs) r
continue_in-later bs (found v) h = refl
continue_in-later bs (missing rest) h = h rest

search_buckets-get_elem :
    (bs : List (List (Option (Text × RosterItem)))) (num : ℕ)
    → search_buckets bs num ≡ get_elem? (entries bs) num
unfolding search_buckets
search_buckets-get_elem [] num = refl
search_buckets-get_elem (b ∷ bs) num =
    continue_in-later bs (search_bucket b num) (search_buckets-get_elem bs)
    ∙ search_bucket-get_elem b (entries bs) num

-- In a table, the entry that is found by a number is the one at that position among the entries
-- that were not removed, bucket by bucket; beyond their number there is none.
pub xhash_get_nth-entries :
    (h : Xht) (num : ℕ) → xhash_get_nth (some h) num ≡ get_elem? (entries h.zen) num
unfolding xhash_get_nth
xhash_get_nth-entries h num = search_buckets-get_elem h.zen num
