-- ===== src/Tests/Serving.antt =====
-- The API on concrete inputs.
use ocis_workflows.Base.{ℕ, suc, text, none, some, [], ◌≡◌, ◌⊎◌, arith, ok}
use ocis_workflows.Model.{WorkflowPatch}
use ocis_workflows.LocalDb.{Lookup}
use ocis_workflows.Api.Router.{Page, Server, ServerState, handle}
use ocis_workflows.Api.Guarded.{IsTurnedAway, IsServed, handle-Guards}
use ocis_workflows.Tests.Storing.{closed}
use ocis_workflows.Api.Wire.{Backend, Request, State}
use ocis_workflows.Api.Handlers.{Route, serve, create}
use ocis_workflows.Api.Answers.{serve-error}
use ocis_workflows.Tests.Data.{workflow, empty_record, alice, db}

-- A backend that counts the workflows that are put.
abbrev backend : Backend ℕ
backend = record {
  list = λ auth w. (ok [], w);
  get = λ auth id w. (Lookup.found workflow, w);
  put = λ auth wf w. (none, suc w);
  delete = λ auth id w. (Lookup.not_found, w);
  put_execution = λ auth rec w. (none, w);
  list_executions = λ auth id w. (ok [], w);
  get_execution = λ auth id exec_id w. (Lookup.not_found, w);
  execute = λ auth wf triggered_by path w. (empty_record, w);
  me = λ auth w. (ok alice, w);
  kick = none;
  now = λ w. ([], w);
  new_id = λ w. (text "n", w);
}

abbrev nameless : WorkflowPatch
nameless = record {
  name = some [];
  description = none;
  enabled = none;
  trigger = none;
  graph = none;
}

abbrev pub request : Request
request = record {
  token = some (text "t");
  id = text "w";
  exec_id = text "x";
  patch = ok nameless;
  run_body = none;
}

abbrev state : State ℕ
state = record { world = 0; db = db }

serve-error_example : (serve backend Route.create_route request state).1.db ≡ state.db
unfolding serve create
serve-error_example = serve-error backend Route.create_route request state (omega arith)

-- An instance that takes every token and counts the calls.
abbrev pub server : Server ℕ
server = record {
  validator = record {
    ocis_url = text "https://cloud";
    allowed_origin = text "https://web";
    http = record {
      send =
          λ req w. (ok (record { status = 200; body = ok (text "https://idp/userinfo") }), suc w);
      decimal = λ n. [];
      quote = λ t. t;
    };
    decode_discovery = λ t. ok t;
    parse_url = λ t. ok (record { scheme = t; host = t });
  };
  backend = backend;
  account = record { outside = closed; list_drives = λ auth w. (ok [], w) };
}

abbrev started : ServerState ℕ
started = record { state = state; userinfo_endpoint = [] }

handle-Guards_example :
    IsTurnedAway server Page.spaces request []
      (text "Bearer t")
      (handle server Page.spaces request [] (text "Bearer t") started)
      started.state.db
    ⊎ IsServed server Page.spaces request []
        (text "Bearer t")
        (handle server Page.spaces request [] (text "Bearer t") started)
        started.state.db
handle-Guards_example = handle-Guards server Page.spaces request [] (text "Bearer t") started
