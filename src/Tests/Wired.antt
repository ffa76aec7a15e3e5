-- ===== src/Tests/Wired.antt =====
-- The program's parts together on a concrete server.
use ocis_workflows.Base.{
  ◌++◌, drop, Text, false, text, teq, none, some, [], true, ok, err, ◌≡◌, refl, if◌then◌else◌,
}
use ocis_workflows.Model.{WorkflowPatch, WorkflowDefinition}
use ocis_workflows.Llm.{new, tokens}
use ocis_workflows.WebdavStore.Store.{dav_base}
use ocis_workflows.WebdavStore.Refines.Files.{definitions}
use ocis_workflows.Dav.Folders.{IsReady}
use ocis_workflows.Api.Wire.{Request, State, Body, answer}
use ocis_workflows.Api.Entries.{new_workflow}
use ocis_workflows.Api.Handlers.{create, get, patch}
use ocis_workflows.LocalDb.Triggers.{entry_for}
use ocis_workflows.Dav.Folders.{file_url}
use ocis_workflows.Wiring.Patched.{patched, patch-get}
use ocis_workflows.Wiring.{Parts, backend_of}
use ocis_workflows.Wiring.Saved.{create-get}
use ocis_workflows.Tests.Data.{db, alice}
use ocis_workflows.Tests.Spaces.{
  Space, view, http, home, store, space-IsServer, alice-IsKnown, plain_name,
}
use ocis_workflows.Tests.Comments.{file_client}
use ocis_workflows.Tests.Calls.{readers}

abbrev pub named : WorkflowPatch
named = record {
  name = some (text "Sort");
  description = none;
  enabled = some true;
  trigger = none;
  graph = none;
}

abbrev created : WorkflowDefinition
created = new_workflow named (text "Sort") (text "w") []

abbrev pub parts : Parts Space
parts = record {
  store = record store {
    definition_json = record {
      encode = λ wf. ok (text "one");
      decode = λ t. if teq t (text "one") then ok created else err [];
    };
  };
  files = file_client;
  provider = record { http = http; encode_chat = λ r. err []; decode_chat = λ t. err [] };
  llm = new [] [] [] (tokens 0);
  network = record {
    parse_url = λ t. err [];
    to_lower = λ t. t;
    lookup = λ host w. (err [], w);
    add = λ t. err [];
    deliver = λ target title body w. (err [], w);
    quote = λ t. t;
  };
  readers = readers;
  iterate = λ vars w. (vars, w);
  new_id = λ w. (text "w", w);
  timestamp = λ w. ([], w);
  quote = λ t. t;
  decimal = λ n. [];
  kick = none;
  clock = λ w. (0, w);
  random = λ w. (err [], w);
  base64 = λ t. t;
  format = λ n. [];
  validator = record {
    ocis_url = [];
    allowed_origin = [];
    http = http;
    decode_discovery = λ t. err [];
    parse_url = λ t. err [];
  };
}

abbrev pub request : Request
request = record { token = none; id = []; exec_id = []; patch = ok named; run_body = none }

abbrev pub state : State Space
state = record { world = home; db = db }

pub home-IsReady : IsReady (definitions parts.store alice) view home
unfolding dav_base teq
home-IsReady = record { home = refl; no_folder = λ key. refl; outer_free = refl; inner_free = refl }

create-get_example :
    let (a, s') = create (backend_of parts) (text "auth") request state in
    (a ≡ answer 201 (Body.workflow created))
    × ((get (backend_of parts) (text "auth") (record request { id = text "w" }) s').0
        ≡ answer 200 (Body.workflow created))
unfolding teq
create-get_example =
    create-get parts view (text "auth") alice (space-IsServer (text "auth")) alice-IsKnown
      (λ w. ((λ u. refl), λ u. refl)) request named (text "Sort") (text "one") state refl refl refl
      (λ w. ((λ u. refl), λ u. refl)) (λ w. ((λ u. refl), λ u. refl)) plain_name refl refl
      home-IsReady

-- A patch that turns the workflow off, which is stored as "one" and then as "2" with the time.
abbrev off : WorkflowPatch
off = record { name = none; description = none; enabled = some false; trigger = none; graph = none }

abbrev patching : Parts Space
patching = record parts {
  store = record store {
    definition_json = record {
      encode = λ wf. ok (text "2" ++ wf.last_modified_date_time);
      decode = λ t. if teq t (text "one") then ok created else ok (patched off (drop 1 t) created);
    };
  };
}

abbrev kept_one : State Space
kept_one = record {
  world = record home {
    file = λ u.
        if teq (file_url (definitions store alice) (text "w")) u then some (text "one") else none;
  };
  db = db;
}

kept_one-IsReady : IsReady (definitions patching.store alice) view kept_one.world
unfolding dav_base teq
kept_one-IsReady = record {
  home = refl;
  no_folder = λ key. refl;
  outer_free = refl;
  inner_free = refl;
}

patch-get_example :
    let r = record request { id = text "w"; patch = ok off } in
    let (a, s') = patch (backend_of patching) (text "auth") r kept_one in
    (now : Text) × (a ≡ answer 200 (Body.workflow (patched off now created)))
    × ((get (backend_of patching) (text "auth") r s').0
        ≡ answer 200 (Body.workflow (patched off now created)))
    × (entry_for (text "w") s'.db ≡ none)
unfolding teq new_workflow dav_base
patch-get_example =
    patch-get patching view (text "auth") alice (space-IsServer (text "auth")) alice-IsKnown
      (λ w. ((λ u. refl), λ u. refl)) (record request { id = text "w"; patch = ok off }) off created
      (text "one") (λ now. text "2" ++ now) kept_one refl refl refl (λ w. ((λ u. refl), λ u. refl))
      kept_one-IsReady refl plain_name (λ now. (refl, refl))
