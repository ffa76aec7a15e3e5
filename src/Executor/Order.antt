-- ===== src/Executor/Order.antt =====
-- executor.go, `orderedNodes`: a breadth-first walk of the graph from its trigger node. The maps
-- `byID` and `outgoing` are read as functions of the lists that they are built from, `visited` is
-- the list of the ids set in it, and the loop takes fuel: `none` means that it ran out.
pub mod Fuel
pub mod Reach
use ocis_workflows.Base.{
  ℕ, zero, suc, Text, text, teq, is_empty, Bool, true, false, ◌||◌, Option, none, some, List, [],
  ◌∷◌, ◌++◌, length, if◌then◌else◌,
}
use ocis_workflows.Model.{WorkflowNode, WorkflowEdge, WorkflowGraph}

pub contains : List Text → Text → Bool
contains [] a = false
contains (x ∷ xs) a = teq x a || contains xs a

-- `byID[id]`: a later node of the same id has overwritten an earlier one.
pub by_id : List WorkflowNode → Text → Option WorkflowNode
by_id [] id = none
by_id (n ∷ ns) id = elim (by_id ns id) [
  | some m ↦ some m
  | none ↦ if teq n.id id then some n else none
]

-- `outgoing[id]`
pub outgoing : List WorkflowEdge → Text → List Text
outgoing [] id = []
outgoing (e ∷ es) id =
    let rest = outgoing es id in if teq e.source id then e.target ∷ rest else rest

abbrev pub trigger_type : Text
trigger_type = text "trigger"

-- `start`: the id of the first trigger node, or the empty string.
unfoldable pub start_id : List WorkflowNode → Text
start_id [] = []
start_id (n ∷ ns) = if teq n.node_type trigger_type then n.id else start_id ns

abbrev pub push_found : Option WorkflowNode → List WorkflowNode → List WorkflowNode
push_found none ordered = ordered
push_found (some n) ordered = ordered ++ n ∷ []

pub walk :
    WorkflowGraph → ℕ → List Text → List Text → List WorkflowNode → Option (List WorkflowNode)
walk g zero queue visited ordered = none
walk g (suc fuel) [] visited ordered = some ordered
walk g (suc fuel) (id ∷ queue) visited ordered =
    let skip = walk g fuel queue visited ordered in
    let expand =
      walk g fuel (queue ++ outgoing g.edges id) (id ∷ visited)
        (push_found (by_id g.nodes id) ordered) in
    if contains visited id then skip else expand

abbrev pub or_nil : Option (List WorkflowNode) → List WorkflowNode
or_nil none = []
or_nil (some ns) = ns

-- Each round takes one id off the queue, and each edge puts at most one id on it.
abbrev pub enough : WorkflowGraph → ℕ
enough g = suc (suc (length g.edges))

unfoldable pub ordered_nodes : WorkflowGraph → List WorkflowNode
unfolding walk by_id outgoing start_id contains
ordered_nodes g =
    let start = start_id g.nodes in
    if is_empty start then [] else or_nil (walk g (enough g) (start ∷ []) [] [])
