-- ===== src/Tests/Upkeep.antt =====
-- From the upkeep of the trigger index to an event and to a tick, on concrete inputs.
use ocis_workflows.Times.{get_time}
use ocis_workflows.Scheduler.{tick}
use ocis_workflows.Wiring.Rows.{started_for}
use ocis_workflows.Wiring.Posted.{create-starts}
use ocis_workflows.Api.Wire.{Body, answer}
use ocis_workflows.Api.Handlers.{create}
use ocis_workflows.Tests.Background.{every_ten}
use ocis_workflows.Base.{
  inl, inr, arith, trim_right, text, teq, true, none, some, [], ◌≡◌, refl, ok, has_suffix,
}
use ocis_workflows.Model.{WorkflowDefinition, WorkflowPatch, EventTrigger}
use ocis_workflows.LocalDb.{matches_filters}
use ocis_workflows.Api.Entries.{sync_trigger_index, entry_of, new_workflow}
use ocis_workflows.Sse.Events.{handle_event, trigger_type, EventPayload, resolve}
use ocis_workflows.WebdavStore.Internal.{is_internal_path}
use ocis_workflows.Wiring.Indexed.{has_started, handle_event-sync_trigger_index}
use ocis_workflows.Wiring.{backend_of, Parts}
use ocis_workflows.Wiring.Background.{services_of}
use ocis_workflows.Ocis.{me, item_path}
use ocis_workflows.Tests.Wired.{parts, state, named, request, home-IsReady}
use ocis_workflows.Tests.Spaces.{
  home, store, ocis, Space, view, space-IsServer, alice-IsKnown, plain_name,
}
use ocis_workflows.Tests.Data.{workflow, alice}

-- What asks for the uploads of text files.
abbrev asked : EventTrigger
asked = record {
  event_type = text "upload";
  filters = some (record { path_prefix = []; extension = text ".txt"; space_id = [] });
}

abbrev on_upload : WorkflowDefinition
on_upload = record workflow {
  id = text "v";
  trigger = record { trigger_type = text "event"; schedule = []; event = some asked };
}

-- Graph says of every item that it is /Docs/a.txt.
abbrev wired : Parts Space
wired = record parts {
  store = record store {
    ocis = record ocis {
      decode_item = λ t. ok (record { name = text "a.txt"; parent_path = text "/Docs" });
    };
  };
}

abbrev uploaded : EventPayload
uploaded = record { item_id = text "i"; space_id = text "d" }

handle_event-sync_trigger_index_example :
    let s' = sync_trigger_index (backend_of wired) (text "auth") on_upload state in
    has_started
      (text "v")
      (resolve (services_of wired) (text "basic") uploaded none s').0
      (handle_event
        (services_of wired)
        (text "basic")
        (λ t. ok uploaded)
        alice
        (text "postprocessing-finished")
        (text "{}")
        s').0
    ≡ true
unfolding teq entry_of is_internal_path resolve matches_filters has_suffix trigger_type me item_path
    trim_right services_of
handle_event-sync_trigger_index_example =
    handle_event-sync_trigger_index wired (text "auth") alice (text "basic")
      (text "postprocessing-finished") (text "{}") (text "upload") on_upload state home
      (λ t. ok uploaded) uploaded asked refl refl refl refl refl refl refl refl refl
      (inl refl, inr refl, inl refl)

abbrev timed : WorkflowPatch
timed = record named {
  trigger =
      some (record { trigger_type = text "schedule"; schedule = text "* * * * *"; event = none });
}

create-starts_example :
    let wf = new_workflow timed (text "Sort") (text "w") [] in
    let (a, s') =
      create (backend_of parts) (text "auth") (record request { patch = ok timed }) state in
    let (started, m', s'') = tick (services_of parts) (λ t. some every_ten) 3 [] s' in
    (a ≡ answer 201 (Body.workflow wf))
    × (started_for (text "w") (tick (services_of parts) (λ t. some every_ten) 14 m' s'').0
        ≡ some (entry_of alice wf))
unfolding teq get_time new_workflow
create-starts_example =
    create-starts parts view (text "auth") alice (space-IsServer (text "auth")) alice-IsKnown
      (record request { patch = ok timed }) timed (text "Sort") (text "one") state
      (λ t. some every_ten) every_ten 3 14 [] refl refl refl (λ w. ((λ u. refl), λ u. refl))
      (λ w. ((λ u. refl), λ u. refl)) plain_name refl home-IsReady refl refl refl refl refl
      (omega arith) (omega arith)
