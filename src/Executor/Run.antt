-- ===== src/Executor/Run.antt =====
-- executor.go, `Run`: the loop over the ordered nodes, and the execution record.
pub mod Shape
pub mod Stops
use ocis_workflows.Base.{
  ℕ, Text, text, teq, is_empty, Bool, true, false, Option, none, some, List, [], ◌∷◌, ◌++◌, Result,
  ok, err, if◌then◌else◌,
}
use ocis_workflows.Model.{
  WorkflowNode, WorkflowDefinition, NodeResult, ErrorDetail, ExecutionRecord,
}
use ocis_workflows.Executor.Order.{ordered_nodes, trigger_type}
use ocis_workflows.Executor.Template.{Vars, set_var}
use ocis_workflows.Base.Actions.{fail}
use ocis_workflows.Executor.Clients.{Clients, Frame, Exec}
use ocis_workflows.Executor.Nodes.{run_llm, run_extract_text, run_action}

abbrev pub succeeded : WorkflowNode → Text → NodeResult
succeeded node output = record {
  node_id = node.id;
  status = text "succeeded";
  output = some output;
  error = none;
}

abbrev pub failed : WorkflowNode → Text → NodeResult
failed node message = record {
  node_id = node.id;
  status = text "failed";
  output = none;
  error = some (record { code = text "nodeFailed"; message = message });
}

abbrev pub status_of : Bool → Text
status_of true = text "failed"
status_of false = text "succeeded"

abbrev pub error_of : Bool → Option ErrorDetail
error_of true =
    some (record { code = text "executionFailed"; message = text "one or more nodes failed" })
error_of false = none

-- What the loop leaves: the results, whether a node failed, and the frame.
pub record Outcome (W : Type 0) : Type 0 where
  pub results : List NodeResult
  pub has_failed : Bool
  pub frame : Frame W

module _ {W : Type 0} (c : Clients W) (auth : Text) where
  -- `switch node.Type`
  pub run_node : WorkflowNode → Exec W Text
  unfolding run_action
  run_node node =
      if teq node.node_type (text "llm")
      then run_llm c node
      else if teq node.node_type (text "extractText")
      then run_extract_text c node
      else if teq node.node_type (text "action")
      then run_action c auth node
      else fail (text "unknown node type " ++ c.quote node.node_type)

  pub run_nodes : List WorkflowNode → List NodeResult → Frame W → Outcome W
  unfolding run_node
  run_nodes [] results f = record { results = results; has_failed = false; frame = f }
  run_nodes (node ∷ rest) results f =
      let skip = run_nodes rest results f in
      let (r, f') = run_node node f in
      let go : Outcome W = elim r [
        | ok output ↦ run_nodes rest (results ++ succeeded node output ∷ []) f'
        | err message ↦ record {
          results = results ++ failed node message ∷ [];
          has_failed = true;
          frame = f';
        }
      ] in
      if teq node.node_type trigger_type then skip else go

  -- The variables before the first node: the file's name and content, if it can be read.
  pub load_file : Text → W → Vars × W
  load_file path w =
      let (r, w') = c.get_content auth path w in
      let loaded : Vars × W = elim r [
        | ok (content, name) ↦
            (set_var (text "file.content") content (set_var (text "file.name") name []), w')
        | err e ↦ ([], w')
      ] in
      if is_empty path then ([], w) else loaded

  unfoldable pub run : WorkflowDefinition → Text → Text → W → ExecutionRecord × W
  unfolding run_nodes load_file ordered_nodes
  run wf triggered_by resource_path w0 =
      let (id, w1) = c.new_id w0 in
      let (started, w2) = c.timestamp w1 in
      let (vars, w3) = load_file resource_path w2 in
      let start : Frame W = record { vars = vars; path = resource_path; world = w3 } in
      let out = run_nodes (ordered_nodes wf.graph) [] start in
      let (completed, w4) = c.timestamp out.frame.world in
      (
        record {
          id = id;
          workflow_id = wf.id;
          triggered_by = triggered_by;
          status = status_of out.has_failed;
          started_date_time = started;
          completed_date_time = completed;
          node_results = out.results;
          error = error_of out.has_failed;
        },
        w4,
      )
