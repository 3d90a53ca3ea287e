-- ===== src/Responses.antt =====
-- The answers that a connection waits for: xml_need_response_node_create and
-- xml_need_response_node_get of jab_simul/jab_simul-user.c.
pub mod Queue
use jab_simul.Shared.{ℕ, List, [], ◌∷◌, Option, none, some, Text, if◌then◌else◌}
use jab_simul.Jabber.{Jabber}
use jab_simul.State.{Pending, ResponseHandler}

unfoldable pub node_create : Text → Option ResponseHandler → ℕ → List Pending → List Pending
node_create id callback time queue =
    record { id = id; send_time = time; callback = callback } ∷ queue

abbrev pub keep_before : Pending → Option Pending × List Pending → Option Pending × List Pending
keep_before p (found, rest) = (found, p ∷ rest)

-- The first entry with this id, if there is one, is taken out of the queue.
unfoldable pub node_get : Jabber → Text → List Pending → Option Pending × List Pending
node_get lib id [] = (none, [])
node_get lib id (p ∷ queue) =
    if lib.j_same (some p.id) (some id)
    then (some p, queue)
    else keep_before p (node_get lib id queue)
