-- ===== src/Model.antt =====
-- backend/pkg/model/workflow.go: the resources of the REST API. A `string` field is a `Text`, a
-- pointer or an `omitempty` struct an `Option`; the node's canvas position is never read.
use ocis_workflows.Base.{Text, Bool, Option, List, none, some, if◌then◌else◌}
use ocis_workflows.Base.{teq}

-- `any`, as encoding/json decodes it. A number keeps the literal that it was written with.
mutual
  pub data Value : Type 0 where
    null : Value
    boolean : Bool → Value
    number : Text → Value
    string : Text → Value
    array : Items → Value
    object : Fields → Value

  pub data Items : Type 0 where
    nil : Items
    cons : Value → Items → Items

  -- `map[string]any`
  pub data Fields : Type 0 where
    end : Fields
    field : Text → Value → Fields → Fields

-- `m[key]`
unfoldable pub get_field : Text → Fields → Option Value
get_field key end = none
get_field key (field k v rest) = if teq k key then some v else get_field key rest

pub record EventFilters : Type 0 where
  pub path_prefix : Text
  pub extension : Text
  pub space_id : Text

pub record EventTrigger : Type 0 where
  pub event_type : Text
  pub filters : Option EventFilters

pub record WorkflowTrigger : Type 0 where
  pub trigger_type : Text
  pub schedule : Text
  pub event : Option EventTrigger

pub record WorkflowNode : Type 0 where
  pub id : Text
  pub node_type : Text
  pub fields : Fields

pub record WorkflowEdge : Type 0 where
  pub id : Text
  pub source : Text
  pub target : Text
  pub condition : Option Text

pub record WorkflowGraph : Type 0 where
  pub nodes : List WorkflowNode
  pub edges : List WorkflowEdge

pub record WorkflowDefinition : Type 0 where
  pub id : Text
  pub name : Text
  pub description : Text
  pub enabled : Bool
  pub trigger : WorkflowTrigger
  pub graph : WorkflowGraph
  pub created_date_time : Text
  pub last_modified_date_time : Text

pub record WorkflowPatch : Type 0 where
  pub name : Option Text
  pub description : Option Text
  pub enabled : Option Bool
  pub trigger : Option WorkflowTrigger
  pub graph : Option WorkflowGraph

pub record ErrorDetail : Type 0 where
  pub code : Text
  pub message : Text

pub record NodeResult : Type 0 where
  pub node_id : Text
  pub status : Text
  pub output : Option Text
  pub error : Option ErrorDetail

pub record ExecutionRecord : Type 0 where
  pub id : Text
  pub workflow_id : Text
  pub triggered_by : Text
  pub status : Text
  pub started_date_time : Text
  pub completed_date_time : Text
  pub node_results : List NodeResult
  pub error : Option ErrorDetail

pub record AutomationStatus : Type 0 where
  pub connected : Bool
  pub expiration_date_time : Text
  pub reliability : Text

pub record Space : Type 0 where
  pub id : Text
  pub name : Text
