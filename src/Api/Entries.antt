-- ===== src/Api/Entries.antt =====
-- workflows.go, `syncTriggerIndex` and the definitions that `Create` and `Patch` make.
use ocis_workflows.Base.{
  Text, text, teq, Bool, false, ◌&&◌, ◌||◌, Option, none, some, [], Result, ok, err, if◌then◌else◌,
}
use ocis_workflows.Model.{WorkflowDefinition, WorkflowPatch, EventTrigger, EventFilters}
use ocis_workflows.LocalDb.{
  TriggerIndexEntry, upsert_trigger_index_entry, delete_trigger_index_entry,
}
use ocis_workflows.Api.Wire.{Backend, State}

-- The entry that a workflow of the user has in the index, if it is indexed.
abbrev pub with_filters : TriggerIndexEntry → Option EventFilters → TriggerIndexEntry
with_filters e none = e
with_filters e (some f) = record e {
  path_prefix = f.path_prefix;
  extension = f.extension;
  space_id = f.space_id;
}

abbrev pub with_event : TriggerIndexEntry → Option EventTrigger → TriggerIndexEntry
with_event e none = e
with_event e (some t) = with_filters (record e { event_type = t.event_type }) t.filters

abbrev pub indexed : WorkflowDefinition → Bool
indexed wf =
    wf.enabled
    && (teq wf.trigger.trigger_type (text "schedule") || teq wf.trigger.trigger_type (text "event"))

abbrev pub bare_entry : Text → WorkflowDefinition → TriggerIndexEntry
bare_entry user_id wf = record {
  workflow_id = wf.id;
  user_id = user_id;
  trigger_type = wf.trigger.trigger_type;
  schedule = [];
  event_type = [];
  path_prefix = [];
  extension = [];
  space_id = [];
}

unfoldable pub entry_of : Text → WorkflowDefinition → TriggerIndexEntry
entry_of user_id wf =
    if teq wf.trigger.trigger_type (text "schedule")
    then record (bare_entry user_id wf) { schedule = wf.trigger.schedule }
    else if teq wf.trigger.trigger_type (text "event")
    then with_event (bare_entry user_id wf) wf.trigger.event
    else bare_entry user_id wf

abbrev pub or_else : {A : Type 0} → Option A → A → A
or_else none old = old
or_else (some new) old = new

-- What `Patch` makes of the stored workflow.
unfoldable pub apply_patch : WorkflowPatch → Text → WorkflowDefinition → WorkflowDefinition
apply_patch p now wf = record wf {
  name = or_else p.name wf.name;
  description = or_else p.description wf.description;
  enabled = or_else p.enabled wf.enabled;
  trigger = or_else p.trigger wf.trigger;
  graph = or_else p.graph wf.graph;
  last_modified_date_time = now;
}

-- What `Create` makes of the request; the fields that it leaves out are Go's zero values.
unfoldable pub new_workflow : WorkflowPatch → Text → Text → Text → WorkflowDefinition
new_workflow p name id now = record {
  id = id;
  name = name;
  description = or_else p.description [];
  enabled = or_else p.enabled false;
  trigger =
      or_else p.trigger (record { trigger_type = text "manual"; schedule = []; event = none });
  graph = or_else p.graph (record { nodes = []; edges = [] });
  created_date_time = now;
  last_modified_date_time = now;
}

module _ {W : Type 0} (b : Backend W) where
  abbrev pub kicked : Option (W → W) → W → W
  kicked none w = w
  kicked (some kick) w = kick w

  -- From the answer of `Me` on.
  unfoldable pub after_me : WorkflowDefinition → Result Text → State W → State W
  after_me wf (err e) s = s
  after_me wf (ok user_id) s =
      let (e, db) = upsert_trigger_index_entry (entry_of user_id wf) s.db in
      elim e [
        | some x ↦ record s { db = db }
        | none ↦ record {
          world =
              (if teq wf.trigger.trigger_type (text "event")
                then kicked b.kick s.world
                else s.world);
          db = db;
        }
      ]

  unfoldable pub sync_trigger_index : Text → WorkflowDefinition → State W → State W
  unfolding after_me entry_of
  sync_trigger_index auth wf s =
      let (r, w) = b.me auth s.world in
      if indexed wf
      then after_me wf r (record s { world = w })
      else record s { db = (delete_trigger_index_entry wf.id s.db).1 }
