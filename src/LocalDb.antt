-- ===== src/LocalDb.antt =====
-- backend/pkg/localdb/localdb.go: the sidecar's own tables and the operations on them. A statement
-- has the meaning that SQL gives it; whether the driver runs it is the next entry of `faults`, where
-- `some e` is a failure. A time is a number of nanoseconds since the zero time of package time; a
-- column holds it as RFC 3339, that is, as its whole seconds.
pub mod Filters
pub mod Automations
pub mod Cursors
pub mod Triggers
pub mod Stored
pub mod Listed
pub mod Schema
use ocis_workflows.Base.{
  ℕ, ◌*◌, ◌/◌, ◌^◌, Text, text, teq, is_empty, Bool, true, false, ◌&&◌, not, Option, none, some,
  List, [], ◌∷◌, ◌++◌, Result, ok, err, has_prefix, has_suffix, select, find_row, upsert_row,
  delete_row, if◌then◌else◌,
}
use ocis_workflows.Secretbox.{Cipher, seal, open_sealed}

abbrev pub second : ℕ
second = 1000000000

-- `t.UTC().Format(time.RFC3339)`, and `time.Parse` of that
abbrev pub to_column : ℕ → ℕ
to_column t = t / second

abbrev pub from_column : ℕ → ℕ
from_column s = s * second

pub record Automation : Type 0 where
  pub user_id : Text
  pub username : Text
  pub app_password : Text
  pub expires_at : ℕ
  pub connected_at : ℕ

pub record TriggerIndexEntry : Type 0 where
  pub workflow_id : Text
  pub user_id : Text
  pub trigger_type : Text
  pub schedule : Text
  pub event_type : Text
  pub path_prefix : Text
  pub extension : Text
  pub space_id : Text

unfoldable pub matches_filters : TriggerIndexEntry → Text → Text → Bool
matches_filters e path space_id =
    if not (is_empty e.path_prefix) && not (has_prefix path e.path_prefix)
    then false
    else if not (is_empty e.extension) && not (has_suffix path e.extension)
    then false
    else if not (is_empty e.space_id) && not (teq e.space_id space_id)
    then false
    else true

pub record EventCursor : Type 0 where
  pub user_id : Text
  pub drive_id : Text
  pub last_checked : ℕ
  pub last_status : Text

abbrev pub full : Text
full = text "full"

abbrev pub sse_only : Text
sse_only = text "sse-only"

-- A row of the table automations.
pub record AutomationRow : Type 0 where
  pub user_id : Text
  pub username : Text
  pub encrypted_app_password : Text
  pub expires_at : ℕ
  pub connected_at : ℕ

-- The three tables that `migrate` creates. A row of event_cursors has its time in seconds.
pub record Db : Type 0 where
  pub box : Cipher
  pub automations : List AutomationRow
  pub trigger_index : List TriggerIndexEntry
  pub event_cursors : List EventCursor
  pub faults : List (Option Text)

-- `user_id`, `workflow_id` and `(user_id, drive_id)` are the primary keys.
abbrev pub CursorKey : Type 0
CursorKey = Text × Text

unfoldable pub same_cursor : CursorKey → CursorKey → Bool
same_cursor (u, d) (v, e) = teq u v && teq d e

abbrev pub cursor_key : EventCursor → CursorKey
cursor_key c = (c.user_id, c.drive_id)

-- What a read gives: a value, `ErrNotFound`, or another error.
pub data Lookup (A : Type 0) : Type 0 where
  found : A → Lookup A
  not_found : Lookup A
  failed : Text → Lookup A

pub statement : Db → Option Text × Db
statement db = elim db.faults [
  | [] ↦ (none, db)
  | fault ∷ rest ↦ (fault, record db { faults = rest })
]

-- A statement that fails changes no row.
pub write : (Db → Db) → Db → Option Text × Db
unfolding statement
write change db =
    let (fault, db') = statement db in (fault, elim fault [ none ↦ change db' | some e ↦ db' ])

pub read : {A : Type 0} → (Text → A) → (Db → A) → Db → A × Db
unfolding statement
read failure answer db =
    let (fault, db') = statement db in (elim fault [ none ↦ answer db' | some e ↦ failure e ], db')

abbrev pub on_automations : (List AutomationRow → List AutomationRow) → Db → Db
on_automations f d = record d { automations = f d.automations }

abbrev pub on_trigger_index : (List TriggerIndexEntry → List TriggerIndexEntry) → Db → Db
on_trigger_index f d = record d { trigger_index = f d.trigger_index }

abbrev pub on_event_cursors : (List EventCursor → List EventCursor) → Db → Db
on_event_cursors f d = record d { event_cursors = f d.event_cursors }

abbrev pub automation_row : Automation → Text → AutomationRow
automation_row a encrypted = record {
  user_id = a.user_id;
  username = a.username;
  encrypted_app_password = encrypted;
  expires_at = to_column a.expires_at;
  connected_at = to_column a.connected_at;
}

abbrev pub opened : AutomationRow → Text → Automation
opened row plaintext = record {
  user_id = row.user_id;
  username = row.username;
  app_password = plaintext;
  expires_at = from_column row.expires_at;
  connected_at = from_column row.connected_at;
}

-- `random` is the nonce that the box draws.
unfoldable pub upsert_automation : Result Text → Automation → Db → Option Text × Db
unfolding write upsert_row
upsert_automation random a db = elim (seal db.box random a.app_password) [
  | err e ↦ (some (text "encrypt app password: " ++ e), db)
  | ok encrypted ↦
      write (on_automations (upsert_row teq (λ r. r.user_id) (automation_row a encrypted))) db
]

unfoldable pub scan_automation : Cipher → Option AutomationRow → Lookup Automation
scan_automation box none = not_found
scan_automation box (some row) = elim (open_sealed box row.encrypted_app_password) [
  | err e ↦ failed (text "decrypt app password: " ++ e)
  | ok plaintext ↦ found (opened row plaintext)
]

unfoldable pub get_automation : Text → Db → Lookup Automation × Db
unfolding read scan_automation find_row
get_automation user_id =
    read failed (λ d. scan_automation d.box (find_row teq (λ r. r.user_id) user_id d.automations))

unfoldable pub delete_automation : Text → Db → Option Text × Db
unfolding write delete_row
delete_automation user_id = write (on_automations (delete_row teq (λ r. r.user_id) user_id))

unfoldable pub scan_automations : Cipher → List AutomationRow → Result (List Automation)
scan_automations box [] = ok []
scan_automations box (row ∷ rows) =
    let rest = scan_automations box rows in
    elim (open_sealed box row.encrypted_app_password) [
      | err e ↦ err (text "decrypt app password for user " ++ (row.user_id ++ (text ": " ++ e)))
      | ok plaintext ↦ elim rest [ err e ↦ err e | ok others ↦ ok (opened row plaintext ∷ others) ]
    ]

unfoldable pub list_automations : Db → Result (List Automation) × Db
unfolding read scan_automations
list_automations = read err (λ d. scan_automations d.box d.automations)

unfoldable pub upsert_trigger_index_entry : TriggerIndexEntry → Db → Option Text × Db
unfolding write upsert_row
upsert_trigger_index_entry e = write (on_trigger_index (upsert_row teq (λ r. r.workflow_id) e))

unfoldable pub delete_trigger_index_entry : Text → Db → Option Text × Db
unfolding write delete_row
delete_trigger_index_entry workflow_id =
    write (on_trigger_index (delete_row teq (λ r. r.workflow_id) workflow_id))

unfoldable pub list_triggers : Text → Db → Result (List TriggerIndexEntry) × Db
unfolding read select
list_triggers kind = read err (λ d. ok (select (λ e. teq e.trigger_type kind) d.trigger_index))

unfoldable pub list_schedule_triggers : Db → Result (List TriggerIndexEntry) × Db
unfolding list_triggers
list_schedule_triggers = list_triggers (text "schedule")

unfoldable pub list_event_triggers : Db → Result (List TriggerIndexEntry) × Db
unfolding list_triggers
list_event_triggers = list_triggers (text "event")

pub scan_cursor : Option EventCursor → Lookup EventCursor
scan_cursor none = not_found
scan_cursor (some row) = found (record row { last_checked = from_column row.last_checked })

unfoldable pub get_event_cursor : Text → Text → Db → Lookup EventCursor × Db
unfolding read scan_cursor find_row
get_event_cursor user_id drive_id =
    read failed
      (λ d. scan_cursor (find_row same_cursor cursor_key (user_id, drive_id) d.event_cursors))

unfoldable pub upsert_event_cursor : EventCursor → Db → Option Text × Db
unfolding write upsert_row
upsert_event_cursor c = write (
    on_event_cursors
      (upsert_row same_cursor cursor_key (record c { last_checked = to_column c.last_checked })))

unfoldable pub delete_event_cursors : Text → Db → Option Text × Db
unfolding write select
delete_event_cursors user_id = write (on_event_cursors (select (λ c. not (teq c.user_id user_id))))

pub any_degraded : Text → List EventCursor → Bool
any_degraded user_id [] = false
any_degraded user_id (c ∷ rest) =
    if teq c.user_id user_id && teq c.last_status sse_only then true else any_degraded user_id rest

unfoldable pub get_reliability : Text → Db → Result Text × Db
unfolding read any_degraded
get_reliability user_id =
    read err (λ d. ok (if any_degraded user_id d.event_cursors then sse_only else full))
