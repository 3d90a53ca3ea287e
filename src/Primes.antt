-- ===== src/Primes.antt =====
-- Extensions of the library: jab_simul/libjabber_ext.c.
pub mod Fit
pub mod Iteration
pub mod Nth
use jab_simul.Shared.{
  ℕ, zero, suc, List, [], ◌∷◌, Option, none, some, Bool, true, ◌&&◌, ltb, Text, if◌then◌else◌,
}
use jab_simul.Jabber.{Jabber, XmlNode}
use jab_simul.State.{Xht, RosterItem}

abbrev pub prime_numbers : List ℕ
prime_numbers =
    5 ∷ 11 ∷ 19 ∷ 53 ∷ 107 ∷ 223 ∷ 463 ∷ 983 ∷ 1979 ∷ 3907 ∷ 7963 ∷ 16229 ∷ 32531 ∷ 65407 ∷ 130987
    ∷ 262237 ∷ 524521 ∷ 1048793 ∷ 2097397 ∷ 4194103 ∷ 8388857 ∷ 16777447 ∷ 33554201 ∷ 67108961
    ∷ 134217487 ∷ 268435697 ∷ 536870683 ∷ 1073741621 ∷ 2147483399 ∷ []

-- The loop from the entry at hand on. With no entry left the read after the loop is out of bounds.
unfoldable pub first_fitting : List ℕ → ℕ → Option ℕ
first_fitting [] size = none
first_fitting (p ∷ ps) size = if ltb p size then first_fitting ps size else some p

-- For a `size` that is not negative; the comparison is between unsigned numbers.
unfoldable pub fit_prime : ℕ → Option ℕ
unfolding first_fitting
fit_prime size = first_fitting prime_numbers size

abbrev pub fits_name : Jabber → Option Text → XmlNode → Bool
fits_name lib none n = true
fits_name lib (some name) n = lib.j_same (lib.get_name (some n)) (some name)

abbrev pub is_wanted : Jabber → Option Text → XmlNode → Bool
is_wanted lib name n = lib.is_tag n && fits_name lib name n

-- An iterator is the rest of the siblings, with the tag's name beside it.
unfoldable pub tag_iter_init : Jabber → Option XmlNode → List XmlNode
tag_iter_init lib x = lib.children x

unfoldable pub tag_iter_get_next :
    Jabber → Option Text → List XmlNode → Option XmlNode × List XmlNode
tag_iter_get_next lib name [] = (none, [])
tag_iter_get_next lib name (n ∷ ns) =
    if is_wanted lib name n then (some n, ns) else tag_iter_get_next lib name ns

-- What `while ((cur = tag_iter_get_next(&iter)))` goes through.
unfoldable pub tags_named : Jabber → Option Text → List XmlNode → List XmlNode
tags_named lib name [] = []
tags_named lib name (n ∷ ns) =
    if is_wanted lib name n then n ∷ tags_named lib name ns else tags_named lib name ns

-- The walk through the buckets: what is found, or how many entries are still to be passed over.
pub data Search : Type 0 where
  found : RosterItem → Search
  missing : ℕ → Search

unfoldable pub search_bucket : List (Option (Text × RosterItem)) → ℕ → Search
search_bucket [] num = missing num
search_bucket (none ∷ ns) num = search_bucket ns num
search_bucket (some (k, v) ∷ ns) zero = found v
search_bucket (some (k, v) ∷ ns) (suc num) = search_bucket ns num

unfoldable pub search_buckets : List (List (Option (Text × RosterItem))) → ℕ → Option RosterItem
unfolding search_bucket
search_buckets [] num = none
search_buckets (b ∷ bs) num = elim (search_bucket b num) [
  | found v ↦ some v
  | missing rest ↦ search_buckets bs rest
]

unfoldable pub xhash_get_nth : Option Xht → ℕ → Option RosterItem
unfolding search_buckets
xhash_get_nth none num = none
xhash_get_nth (some h) num = search_buckets h.zen num
