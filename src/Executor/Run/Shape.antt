-- ===== src/Executor/Run/Shape.antt =====
-- The results that a run records, against the nodes that the walk orders.
use ocis_workflows.Base.{Text, teq, Bool, true, false, List, [], ◌∷◌, ◌++◌, select, not, ◌≡◌}
use ocis_workflows.Model.{WorkflowNode, NodeResult}
use ocis_workflows.Executor.Order.{trigger_type}
use ocis_workflows.Executor.Clients.{Clients}
use ocis_workflows.Executor.Run.{Outcome, succeeded, failed}

-- The nodes that the loop runs: all but triggers.
abbrev pub steps : List WorkflowNode → List WorkflowNode
steps = select (λ n. not (teq n.node_type trigger_type))

-- One result for each node in order, up to the first node that fails.
pub data Shape : List WorkflowNode → List NodeResult → Bool → Type 0 where
  done : Shape [] [] false
  stop :
      (node : WorkflowNode) (rest : List WorkflowNode) (message : Text)
      → Shape (node ∷ rest) (failed node message ∷ []) true
  go :
      (node : WorkflowNode) (output : Text) {rest : List WorkflowNode} {rs : List NodeResult}
      {b : Bool}
      → Shape rest rs b
      → Shape (node ∷ rest) (succeeded node output ∷ rs) b

record Adds {W : Type 0} (nodes : List WorkflowNode) (before : List NodeResult) (out : Outcome W)
    : Type 0 where
  added : List NodeResult
  results : out.results ≡ before ++ added
  shape : Shape (steps nodes) added out.has_failed
