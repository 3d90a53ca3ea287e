-- ===== src/Primes/Iteration.antt =====
-- The loops over the tags of a node: jab_simul/libjabber_ext.c.
use jab_simul.Shared.{◌≡◌, refl, List, [], ◌∷◌, Option, none, some, Text, Bool-cases, inl, inr}
use jab_simul.Jabber.{Jabber, XmlNode}
use jab_simul.Primes.{is_wanted, tag_iter_get_next, tags_named}

-- The loop `while ((cur = tag_iter_get_next(&iter)))` from an iterator on, with the nodes that it
-- goes through.
pub data Loops (lib : Jabber) (name : Option Text) : List XmlNode → List XmlNode → Type 0 where
  ends : {it : List XmlNode} → (tag_iter_get_next lib name it).0 ≡ none → Loops lib name it []
  goes_on :
      {it rest : List XmlNode} {n : XmlNode} {ns : List XmlNode}
      → tag_iter_get_next lib name it ≡ (some n, rest)
      → Loops lib name rest ns
      → Loops lib name it (n ∷ ns)

skip_node :
    (lib : Jabber) (name : Option Text) (n : XmlNode) (it ns : List XmlNode)
    → tag_iter_get_next lib name (n ∷ it) ≡ tag_iter_get_next lib name it
    → Loops lib name it ns
    → Loops lib name (n ∷ it) ns
skip_node lib name n it [] e (ends h) = ends (rw e h)
skip_node lib name n it (m ∷ ns) e (goes_on h l) = goes_on (rw e h) l

-- The loop ends, and it goes through the nodes that are tags with the wanted name, or through all
-- tags if no name is given, each once and in their order.
pub tag_iter-tags_named :
    (lib : Jabber) (name : Option Text) (nodes : List XmlNode)
    → Loops lib name nodes (tags_named lib name nodes)
unfolding tag_iter_get_next tags_named
tag_iter-tags_named lib name [] = ends refl
tag_iter-tags_named lib name (n ∷ nodes) = elim (Bool-cases (is_wanted lib name n)) [
  | inl wanted ↦ rw wanted (goes_on (rw wanted refl) (tag_iter-tags_named lib name nodes))
  | inr other ↦
      rw other (skip_node lib name n nodes _ (rw other refl) (tag_iter-tags_named lib name nodes))
]
