-- ===== src/LocalDb/Triggers.antt =====
-- The trigger index: what a write leaves.
use ocis_workflows.Base.{
  Text, text, select, ok, teq, teq_iff, none, [], arith, ◌≡◌, upsert_row, delete_row, Option, refl,
  find_row, find_row-upsert_row, find_row-delete_row, if◌then◌else◌, some,
}
use ocis_workflows.LocalDb.{
  TriggerIndexEntry, Db, upsert_trigger_index_entry, delete_trigger_index_entry,
  list_event_triggers, list_schedule_triggers,
}

-- The entry of a workflow.
abbrev pub entry_for : Text → Db → Option TriggerIndexEntry
entry_for id db = find_row teq (λ e. e.workflow_id) id db.trigger_index

pub upsert_trigger-quiet :
    (e : TriggerIndexEntry) (db : Db)
    → db.faults ≡ []
    → upsert_trigger_index_entry e db
      ≡ (none, record db { trigger_index = upsert_row teq (λ r. r.workflow_id) e db.trigger_index })
unfolding upsert_trigger_index_entry
upsert_trigger-quiet e db quiet = ground arith

delete_trigger-quiet :
    (workflow_id : Text) (db : Db)
    → db.faults ≡ []
    → delete_trigger_index_entry workflow_id db ≡ (
      none,
      record db {
        trigger_index = delete_row teq (λ r. r.workflow_id) workflow_id db.trigger_index;
      },
    )
unfolding delete_trigger_index_entry
delete_trigger-quiet workflow_id db quiet = ground arith

pub entry_for-upsert_trigger :
    (e : TriggerIndexEntry) (id : Text) (db : Db)
    → db.faults ≡ []
    → ((upsert_trigger_index_entry e db).0 ≡ none)
      × (entry_for id (upsert_trigger_index_entry e db).1
          ≡ (if teq e.workflow_id id then some e else entry_for id db))
entry_for-upsert_trigger e id db quiet = rw (upsert_trigger-quiet e db quiet) (
  refl,
  find_row-upsert_row teq teq_iff (λ (r : TriggerIndexEntry). r.workflow_id) id e db.trigger_index,
)

pub entry_for-delete_trigger :
    (workflow_id id : Text) (db : Db)
    → db.faults ≡ []
    → entry_for id (delete_trigger_index_entry workflow_id db).1
      ≡ (if teq workflow_id id then none else entry_for id db)
entry_for-delete_trigger workflow_id id db quiet = rw (delete_trigger-quiet workflow_id db quiet) (
    find_row-delete_row teq teq_iff (λ (r : TriggerIndexEntry). r.workflow_id) id workflow_id
      db.trigger_index)

pub list_event_triggers-quiet :
    (db : Db)
    → db.faults ≡ []
    → list_event_triggers db
      ≡ (ok (select (λ e. teq e.trigger_type (text "event")) db.trigger_index), db)
unfolding list_event_triggers
list_event_triggers-quiet db quiet = ground arith

pub list_schedule_triggers-quiet :
    (db : Db)
    → db.faults ≡ []
    → list_schedule_triggers db
      ≡ (ok (select (λ e. teq e.trigger_type (text "schedule")) db.trigger_index), db)
unfolding list_schedule_triggers
list_schedule_triggers-quiet db quiet = ground arith
