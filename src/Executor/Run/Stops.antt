-- ===== src/Executor/Run/Stops.antt =====
-- executor.go, `Run`: the loop on a list of nodes in two parts.
use ocis_workflows.Base.{
  Text, teq, true, List, [], ◌∷◌, ◌++◌, Result, ok, err, Bool-cases, inl, inr, ◌≡◌, refl,
  if◌then◌else◌,
}
use ocis_workflows.Model.{WorkflowNode, NodeResult}
use ocis_workflows.Executor.Order.{trigger_type}
use ocis_workflows.Executor.Clients.{Clients, Frame}
use ocis_workflows.Executor.Run.{Outcome, succeeded, failed, run_node, run_nodes}

module _ {W : Type 0} (c : Clients W) (auth : Text) where
  -- Running a list of nodes is running its first part, and, only if no node of that has failed, the
  -- second part from the results, variables, path and world that the first part left. So nothing
  -- that stands after a failed node changes the results or the outside world.
  pub run_nodes-append :
      (xs ys : List WorkflowNode) (before : List NodeResult) (f : Frame W)
      → run_nodes c auth (xs ++ ys) before f ≡ (
          let out = run_nodes c auth xs before f in
          if out.has_failed then out else run_nodes c auth ys out.results out.frame)
  unfolding run_nodes
  run_nodes-append [] ys before f = refl
  run_nodes-append (node ∷ xs) ys before f = elim (Bool-cases (teq node.node_type trigger_type)) [
    | inl skips ↦ rw skips (run_nodes-append xs ys before f)
    | inr runs ↦ rw runs (
        by_result (run_node c auth node f).0 (run_node c auth node f).1
          (λ output f'. run_nodes-append xs ys (before ++ succeeded node output ∷ []) f'))
  ]
    where
      after_node : Result Text → Frame W → List WorkflowNode → Outcome W
      after_node r f' rest = elim r [
        | ok output ↦ run_nodes c auth rest (before ++ succeeded node output ∷ []) f'
        | err message ↦ record {
          results = before ++ failed node message ∷ [];
          has_failed = true;
          frame = f';
        }
      ]

      by_result :
          (r : Result Text) (f' : Frame W)
          → ((output : Text) (f' : Frame W)
              → run_nodes c auth (xs ++ ys) (before ++ succeeded node output ∷ []) f' ≡ (
                  let out = run_nodes c auth xs (before ++ succeeded node output ∷ []) f' in
                  if out.has_failed then out else run_nodes c auth ys out.results out.frame))
          → after_node r f' (xs ++ ys) ≡ (
              let out = after_node r f' xs in
              if out.has_failed then out else run_nodes c auth ys out.results out.frame)
      by_result (ok output) f' ih = ih output f'
      by_result (err message) f' ih = refl
