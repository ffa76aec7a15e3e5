-- ===== src/Tests/Data.antt =====
-- Inputs that the tests share.
use ocis_workflows.Base.{ℕ, suc, Text, text, none, List, [], ◌∷◌, ◌++◌, ok, true, refl}
use ocis_workflows.Model.{
  Value, Fields, WorkflowNode, WorkflowEdge, WorkflowGraph, WorkflowDefinition, ExecutionRecord,
}
use ocis_workflows.Secretbox.{Cipher, IsCipher}
use ocis_workflows.LocalDb.{Automation, TriggerIndexEntry, EventCursor, Db, AutomationRow, Lookup}
use ocis_workflows.Services.{Services}
use ocis_workflows.Executor.Clients.{Clients, Frame}

abbrev pub node : Text → Text → Fields → WorkflowNode
node id kind fields = record { id = id; node_type = kind; fields = fields }

abbrev pub edge : Text → Text → WorkflowEdge
edge source target = record {
  id = source ++ target;
  source = source;
  target = target;
  condition = none;
}

-- A trigger, a node of an unknown type and a move, in a circle.
abbrev pub circle : WorkflowGraph
circle = record {
  nodes =
      node (text "t") (text "trigger") Fields.end
      ∷ node (text "a") (text "draw") Fields.end
      ∷ node (text "b") (text "action") Fields.end
      ∷ [];
  edges = edge (text "t") (text "b") ∷ edge (text "b") (text "a") ∷ edge (text "a") (text "t") ∷ [];
}

abbrev pub workflow : WorkflowDefinition
workflow = record {
  id = text "w";
  name = text "Sort";
  description = text "";
  enabled = true;
  trigger = record { trigger_type = text "manual"; schedule = text ""; event = none };
  graph = circle;
  created_date_time = text "";
  last_modified_date_time = text "";
}

abbrev pub empty_record : ExecutionRecord
empty_record = record {
  id = text "x";
  workflow_id = text "w";
  triggered_by = text "event";
  status = text "succeeded";
  started_date_time = text "";
  completed_date_time = text "";
  node_results = [];
  error = none;
}

-- Clients that always answer and count the files that they move.
abbrev pub clients : Clients ℕ
clients = record {
  complete = λ prompt model w. (ok prompt, w);
  get_content = λ auth path w. (ok (text "content", text "a.txt"), w);
  move = λ auth from to w. (none, suc w);
  copy = λ auth from to w. (none, w);
  comment = λ auth path body w. (none, w);
  resolve_item_id = λ auth path w. (ok path, w);
  assign_tag = λ auth item tag w. (none, w);
  notify = λ target title body w. (none, w);
  extract = λ name content. ok content;
  iterate = λ vars w. (vars, w);
  new_id = λ w. (text "x", w);
  timestamp = λ w. (text "2026-01-01T00:00:00Z", w);
  quote = λ t. t;
  decimal = λ n. [];
}

abbrev pub frame : Frame ℕ
frame = record { vars = []; path = text "/in/a.txt"; world = 0 }

abbrev pub move_params : Fields
move_params = Fields.field (text "destination") (Value.string (text "/out")) Fields.end

-- A cipher and an encoding that change nothing.
abbrev pub box : Cipher
box = record {
  nonce_size = 1;
  encrypt = λ nonce plain. plain;
  decrypt = λ nonce sealed. ok sealed;
  encode = λ t. t;
  decode = λ t. ok t;
}

abbrev pub box-IsCipher : IsCipher box
box-IsCipher = record { decrypt-encrypt = λ nonce plain. refl; decode-encode = λ t. refl }

abbrev pub alice : Text
alice = text "alice"

abbrev pub credential : Automation
credential = record {
  user_id = alice;
  username = text "Alice";
  app_password = text "pw";
  expires_at = 5000000000;
  connected_at = 1000000000;
}

abbrev pub row : AutomationRow
row = record {
  user_id = alice;
  username = text "Alice";
  encrypted_app_password = text "npw";
  expires_at = 5;
  connected_at = 1;
}

abbrev pub cursor : EventCursor
cursor = record {
  user_id = alice;
  drive_id = text "d";
  last_checked = 7;
  last_status = text "sse-only";
}

abbrev pub entry : TriggerIndexEntry
entry = record {
  workflow_id = text "w";
  user_id = alice;
  trigger_type = text "event";
  schedule = text "@daily";
  event_type = text "upload";
  path_prefix = text "/Docs";
  extension = text ".txt";
  space_id = text "d";
}

abbrev pub db : Db
db = record {
  box = box;
  automations = row ∷ [];
  trigger_index = entry ∷ [];
  event_cursors = cursor ∷ [];
  faults = [];
}

-- Services whose world is the list of the paths that workflows were executed on.
abbrev pub services : Services (List Text)
services = record {
  get = λ auth id w. (ok workflow, w);
  put_execution = λ auth rec w. (none, w);
  execute = λ auth wf triggered_by path w. (empty_record, path ∷ w);
  item_path = λ auth space item w. (ok (text "/Docs/a.txt"), w);
  list_event_triggers = λ w. (ok (entry ∷ []), w);
  list_schedule_triggers = λ w. (ok (entry ∷ []), w);
  get_automation = λ user_id w. (Lookup.found credential, w);
  base64 = λ t. t;
}
