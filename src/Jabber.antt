-- ===== src/Jabber.antt =====
-- What the program uses of the jabberd library (jabberd/lib): opaque XML nodes that it reads, the
-- trees that it asks the library to build, string helpers and hash tables. All of it is a parameter.
use jab_simul.Shared.{ℕ, ◌≡◌, ◌↔◌, Bool, true, false, Option, none, some, List, Text}
use jab_simul.Shared.Int.{ℤ}

-- A pointer to an xmlnode of the library. NULL is `none`.
abbrev pub XmlNode : Type 0
XmlNode = ℕ

-- What a run of xmlnode_new_tag, xmlnode_put_attrib, xmlnode_insert_tag and xmlnode_insert_cdata
-- builds.
mutual
  pub data Xml : Type 0 where
    tag : Text → List (Text × Text) → Body → Xml

  pub data Body : Type 0 where
    empty : Body
    cdata : Text → Body → Body
    child : Xml → Body → Body

-- The functions of xmlnode.c, str.c and sha.c that are called. `j_same a b` is
-- `j_strcmp(a, b) == 0` and `j_same_nocase a b` is `j_strcasecmp(a, b) == 0`; a NULL argument makes
-- them differ. `children x` are the nodes from xmlnode_get_firstchild(x) along
-- xmlnode_get_nextsibling, and `is_tag n` is `xmlnode_get_type(n) == NTYPE_TAG`. `reply x` is
-- xmlnode_dup, jutil_tofrom and the attribute forwarded="yes" on `x`. `debug_stamp body` is what
-- regexec and sscanf read of a message's debug info: the time stamp, if the pattern matches.
pub record Jabber : Type 0 where
  pub j_same : Option Text → Option Text → Bool
  pub j_same_nocase : Option Text → Option Text → Bool
  pub j_atoi : Option Text → ℤ → ℤ
  pub get_attrib : Option XmlNode → Text → Option Text
  pub get_tag : Option XmlNode → Text → Option XmlNode
  pub get_tag_data : Option XmlNode → Text → Option Text
  pub get_data : Option XmlNode → Option Text
  pub get_name : Option XmlNode → Option Text
  pub children : Option XmlNode → List XmlNode
  pub is_tag : XmlNode → Bool
  pub render : Xml → Text
  pub shahash : Text → Text
  pub reply : XmlNode → Xml
  pub debug_stamp : Text → Option ℤ

-- j_strcmp compares two texts, and a NULL equals nothing.
pub record Compares (lib : Jabber) : Type 0 where
  pub same_iff : (s t : Text) → (lib.j_same (some s) (some t) ≡ true) ↔ (s ≡ t)
  pub same_null : (t : Option Text) → lib.j_same none t ≡ false
  pub null_same : (t : Option Text) → lib.j_same t none ≡ false
