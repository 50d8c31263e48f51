-- ===== src/Workflow/Graph.antt =====
-- The search of `validateWorkflow` in src/workflow.mjs for the roles that the start can reach.
pub mod Ends
pub mod Transitions
pub mod Reached
use bimo.Base.{
  ℕ, zero, suc, ◌+◌, String, Bool, true, false, not, List, [], ◌∷◌, ◌++◌, length, any, keep,
  text_eq, Option, none, some, ◌||◌,
}
use bimo.Js.{Value, str, obj, Fields, end, field, get, find_field, is_text, to_text, keys}
use bimo.Workflow.Fields.{entries_of}

-- A member of the set `reachable`: a text, or another value, which the source looks up by its text.
-- Other values of one text lead to the same role.
pub data Node : Type 0 where
  named : String → Node
  other_value : String → Node

unfoldable pub node_of : Value → Node
node_of (str s) = named s
node_of v = other_value (to_text v)

abbrev pub key_of : Node → String
key_of (named s) = s
key_of (other_value s) = s

abbrev pub same_node : Node → Node → Bool
same_node (named s) (named t) = text_eq s t
same_node (other_value s) (other_value t) = text_eq s t
same_node _ _ = false

abbrev pub seen : Node → List Node → Bool
seen n = any (same_node n)

abbrev pub seconds : List (String × Value) → List Value
seconds [] = []
seconds ((k, v) ∷ rest) = v ∷ seconds rest

-- `Object.values(workflow.roles[roleName].on)`, of a role whose `on` is an object: the search follows
-- the checks on the roles, which see to this for each role that it visits
unfoldable pub targets : Fields → Node → List Value
targets roles n = seconds (entries_of (get (find_field (key_of n) roles) "on"))

abbrev pub is_done : Value → Bool
is_done v = is_text v "done"

-- the targets that are put in the queue
unfoldable pub queued : List Value → List Node
queued [] = []
queued (v ∷ vs) =
    let rest = queued vs in elim (is_done v) [ true ↦ rest | false ↦ node_of v ∷ rest ]

-- the loop over the queue: the set, and `reachesDone`; `none` means that the fuel ran out
unfoldable pub search : Fields → ℕ → List Node → Bool → List Node → Option (List Node × Bool)
search roles fuel reachable done [] = some (reachable, done)
search roles zero reachable done (n ∷ queue) = none
search roles (suc fuel) reachable done (n ∷ queue) = elim (seen n reachable) [
  | true ↦ search roles fuel reachable done queue
  | false ↦
      search roles fuel (n ∷ reachable) (done || any is_done (targets roles n))
        (queue ++ queued (targets roles n))
]

-- the nodes of the names of roles
abbrev pub nodes_of : List String → List Node
nodes_of [] = []
nodes_of (k ∷ ks) = named k ∷ other_value k ∷ nodes_of ks

-- the transitions that leave the nodes not reached yet
abbrev pub left : Fields → List Node → List Node → ℕ
left roles reachable [] = 0
left roles reachable (n ∷ ns) = elim (seen n reachable) [
  | true ↦ left roles reachable ns
  | false ↦ length (queued (targets roles n)) + left roles reachable ns
]

-- fuel for the search: a round for the start and for each transition
abbrev pub enough : Fields → ℕ
enough roles = suc (left roles [] (nodes_of (keys roles)))

unfoldable pub reach_from : Fields → Value → Option (List Node × Bool)
reach_from roles start = search roles (enough roles) [] false (node_of start ∷ [])
