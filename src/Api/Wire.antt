-- ===== src/Api/Wire.antt =====
-- workflows.go: what the handlers read and answer, and what they call.
use ocis_workflows.Base.{ℕ, Text, text, Option, List, [], Result}
use ocis_workflows.Model.{
  WorkflowDefinition, WorkflowPatch, ExecutionRecord, AutomationStatus, Space,
}
use ocis_workflows.LocalDb.{Db, Lookup}

-- The store, the executor, `UserResolver`, `ReconcileKicker` (`none` is nil), the clock and the ids.
pub record Backend (W : Type 0) : Type 0 where
  pub list : Text → W → Result (List WorkflowDefinition) × W
  pub get : Text → Text → W → Lookup WorkflowDefinition × W
  pub put : Text → WorkflowDefinition → W → Option Text × W
  pub delete : Text → Text → W → Lookup (Unit {0}) × W
  pub put_execution : Text → ExecutionRecord → W → Option Text × W
  pub list_executions : Text → Text → W → Result (List ExecutionRecord) × W
  pub get_execution : Text → Text → Text → W → Lookup ExecutionRecord × W
  pub execute : Text → WorkflowDefinition → Text → Text → W → ExecutionRecord × W
  pub me : Text → W → Result Text × W
  pub kick : Option (W → W)
  pub now : W → Text × W
  pub new_id : W → Text × W

pub record Request : Type 0 where
  pub token : Option Text
  pub id : Text
  pub exec_id : Text
  pub patch : Result WorkflowPatch  -- the body of POST and PATCH
  pub run_body : Option (Result Text)  -- that of a run, if it is not empty: its resource path

pub data Body : Type 0 where
  nothing : Body
  workflows : List WorkflowDefinition → Body
  workflow : WorkflowDefinition → Body
  executions : List ExecutionRecord → Body
  execution : ExecutionRecord → Body
  automation : AutomationStatus → Body
  spaces : List Space → Body
  problem : Text → Text → Body

pub record Response : Type 0 where
  pub status : ℕ
  pub body : Body
  pub location : Text

abbrev pub answer : ℕ → Body → Response
answer status body = record { status = status; body = body; location = [] }

-- `writeError`
abbrev pub refuse : ℕ → Text → Text → Response
refuse status code message = answer status (Body.problem code message)

abbrev pub unauthenticated : Response
unauthenticated = refuse 401 (text "unauthenticated") (text "missing bearer token")

abbrev pub unavailable : Text → Response
unavailable message = refuse 502 (text "storeUnavailable") message

abbrev pub no_workflow : Response
no_workflow = refuse 404 (text "workflowNotFound") (text "the requested workflow was not found")

abbrev pub invalid_json : Response
invalid_json = refuse 400 (text "invalidRequest") (text "request body is not valid JSON")

pub record State (W : Type 0) : Type 0 where
  pub world : W
  pub db : Db
