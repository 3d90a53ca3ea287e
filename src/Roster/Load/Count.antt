-- ===== src/Roster/Load/Count.antt =====
-- The roster counters of jab_simul/jab_simul-roster.c agree with the hash table.
use jab_simul.Shared.{
  ℕ, suc, ◌≡◌, ◌≢◌, inl, inr, List, [], ◌∷◌, Option, none, some, Bool, true, false, Text, arith,
  if◌then◌else◌, Option-cases,
}
use jab_simul.Shared.Int.{ℤ, pos, ◌+ℤ◌, ◌-ℤ◌}
use jab_simul.Jabber.{Jabber, XmlNode}
use jab_simul.State.{Xht, RosterItem, Session}
use jab_simul.State.Monad.{Returns, Returns-bind, choose-cases, fault, skip}
use jab_simul.Primes.{fit_prime}
use jab_simul.Roster.{roster_hash_delete}
use jab_simul.Roster.Load.{
  Xhash, count_tags, roster_item_from_xml, drop_old, put_new, load_item, load_items, ensure_hash,
  roster_hash_from_xml,
}

-- What xhash.c promises: how its operations change `size`, the number of entries.
pub record XhashLaws (xh : Xhash) (size : Xht → ℕ) : Type 0 where
  pub size_new : (n : ℕ) → size (xh.xhash_new n) ≡ 0
  pub size_put :
      (h : Xht) (k : Text) (v : RosterItem)
      → xh.xhash_get h k ≡ none
      → size (xh.xhash_put h k v) ≡ suc (size h)
  pub size_zap :
      (h : Xht) (k : Text) (v : RosterItem)
      → xh.xhash_get h k ≡ some v
      → size h ≡ suc (size (xh.xhash_zap h k))
  pub get_zap : (h : Xht) (k : Text) → xh.xhash_get (xh.xhash_zap h k) k ≡ none

-- The user's counter is the size of its table, 0 without a table, and `others` is what the global
-- counter holds for the other users.
abbrev pub table_size : (Xht → ℕ) → Option Xht → ℕ
table_size size none = 0
table_size size (some h) = size h

abbrev pub Counted : (Xht → ℕ) → ℤ → Session → Type 0
Counted size others s =
    (s.user.roster_count ≡ pos (table_size size s.user.roster_hash))
    × (s.globals.counts.glob_roster_count ≡ others +ℤ s.user.roster_count)

-- The same with the table at hand.
abbrev CountedAt : (Xht → ℕ) → ℤ → Xht → Session → Type 0
CountedAt size others h s = (s.user.roster_hash ≡ some h) × Counted size others s

roster_hash_delete-Counted :
    (size : Xht → ℕ) (others : ℤ) (s : Session)
    → Counted size others s
    → Returns (λ _ t. Counted size others t × (t.user.roster_hash ≡ none)) (roster_hash_delete s)
unfolding roster_hash_delete ◌-ℤ◌ ◌+ℤ◌
roster_hash_delete-Counted size others s h = ground arith

module _ (lib : Jabber) (xh : Xhash) (size : Xht → ℕ) (laws : XhashLaws xh size) (others : ℤ) where
  drop_old-Counted :
      (h : Xht) (k : Text) (s : Session)
      → CountedAt size others h s
      → Returns
          (λ h' t. CountedAt size others h' t × (xh.xhash_get h' k ≡ none))
          (drop_old lib xh h k s)
  unfolding drop_old ◌-ℤ◌ ◌+ℤ◌
  drop_old-Counted h k s c = elim (Option-cases (xh.xhash_get h k)) [
    | inl e ↦ rw (e, drop_old) (c, e)
    | inr (old, e) ↦ rw (e, drop_old) (ground (arith, laws.size_zap h k old e, laws.get_zap h k))
  ]

  put_new-Counted :
      (h : Xht) (item : RosterItem) (s : Session)
      → CountedAt size others h s
      → xh.xhash_get h item.jid ≡ none
      → Returns
          (λ _ t. Counted size others t × (t.user.roster_hash ≢ none))
          (put_new lib xh h item s)
  unfolding put_new ◌+ℤ◌
  put_new-Counted h item s c free = ground (arith, laws.size_put h item.jid item free)

  load_item-Counted :
      (h : Xht) (cur : XmlNode) (s : Session)
      → CountedAt size others h s
      → Returns
          (λ _ t. Counted size others t × (t.user.roster_hash ≢ none))
          (load_item lib xh h cur s)
  unfolding load_item
  load_item-Counted h cur s c =
      let item = roster_item_from_xml lib s.user cur in
      Returns-bind (λ h' t. CountedAt size others h' t × (xh.xhash_get h' item.jid ≡ none)) _
        (drop_old lib xh h item.jid s) _ (drop_old-Counted h item.jid s c)
        λ h' t kept. ground (arith, put_new-Counted h' item t kept.0 kept.1)

  load_items-Counted :
      (nodes : List XmlNode) (s : Session)
      → Counted size others s
      → s.user.roster_hash ≢ none
      → Returns
          (λ _ t. Counted size others t × (t.user.roster_hash ≢ none))
          (load_items lib xh nodes s)
  unfolding load_items
  load_items-Counted [] s c table = (c, table)
  load_items-Counted (cur ∷ rest) s c table =
      Returns-bind (λ _ t. Counted size others t × (t.user.roster_hash ≢ none)) _ _ _
        (choose-cases (Returns (λ _ t. Counted size others t × (t.user.roster_hash ≢ none))) fault
          (λ h. load_item lib xh h cur) s s.user.roster_hash (λ e. absurd (table e))
          λ h e. load_item-Counted h cur s (e, c))
        λ _ t kept. load_items-Counted rest t kept.0 kept.1

  ensure_hash-Counted :
      (count prime : ℕ) (s : Session)
      → fit_prime count ≡ some prime
      → Counted size others s
      → Returns
          (λ _ t. Counted size others t × (t.user.roster_hash ≢ none))
          (ensure_hash lib xh count s)
  unfolding ensure_hash
  ensure_hash-Counted count prime s fits c = ground (arith, laws.size_new prime)

  -- When the table size that is asked for is one of those that fit_prime has, and the hash table
  -- counts as it should, loading a roster leaves the user's counter equal to the number of entries
  -- and the global counter its sum with what the other users have: both for a whole roster that
  -- replaces the old one and for changes to the roster that is there.
  pub roster_hash_from_xml-Counted :
      (x : Option XmlNode) (delete : Bool) (prime : ℕ) (s : Session)
      → fit_prime (count_tags lib (lib.children x)) ≡ some prime
      → Counted size others s
      → Returns
          (λ _ t. Counted size others t × (t.user.roster_hash ≢ none))
          (roster_hash_from_xml lib xh x delete s)
  unfolding roster_hash_from_xml
  roster_hash_from_xml-Counted x delete prime s fits c =
      Returns-bind (λ _ t. Counted size others t) _ _ _ (cleared delete)
        λ _ t d.
          Returns-bind (λ _ t. Counted size others t × (t.user.roster_hash ≢ none)) _ _ _
            (ensure_hash-Counted _ prime t fits d) λ _ r kept. load_items-Counted _ r kept.0 kept.1
    where
      cleared :
          (b : Bool)
          → Returns (λ _ t. Counted size others t) ((if b then roster_hash_delete else skip) s)
      cleared true = ground (arith, roster_hash_delete-Counted size others s c)
      cleared false = c
