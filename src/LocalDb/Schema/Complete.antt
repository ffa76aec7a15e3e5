-- ===== src/LocalDb/Schema/Complete.antt =====
-- What a migration that succeeds leaves: the columns that the statements of localdb.go name.
use ocis_workflows.Base.{Text, text, teq, true, false, List, [], ◌∷◌, All, All-append, ◌≡◌, refl}
use ocis_workflows.Base.Actions.{Act}
use ocis_workflows.Base.Ensures.{After, After-continue, After-ok, After-map}
use ocis_workflows.LocalDb.Schema.{
  Table, Schema, has_column, create_table, add_columns, automations_columns, trigger_index_columns,
  event_cursors_columns, later_columns, migrate,
}
use ocis_workflows.LocalDb.Schema.Migrated.{Holds, create_table-Kept, add_columns-Kept}
use ocis_workflows.LocalDb.Schema.Columns.{
  Has, HasTable, IsOlder, HasTable-Kept, After-both, create_table-HasTable, create_table-IsOlder,
  add_columns-HasTable,
}

-- A file of this or an older version, which may lack a table and the later columns.
pub record IsOldFile (tables : List Table) : Type 0 where
  pub automations : IsOlder (text "automations") automations_columns tables
  pub trigger_index : IsOlder (text "trigger_index") trigger_index_columns tables
  pub event_cursors : IsOlder (text "event_cursors") event_cursors_columns tables

-- The columns that `migrate` itself names are there.
pub record IsMigrated (tables : List Table) : Type 0 where
  pub automations : HasTable (text "automations") automations_columns tables
  pub trigger_index : HasTable (text "trigger_index") trigger_index_columns tables
  pub later : HasTable (text "trigger_index") later_columns tables
  pub event_cursors : HasTable (text "event_cursors") event_cursors_columns tables

self_columns :
    All (λ c. has_column c automations_columns ≡ true) automations_columns
    × All (λ c. has_column c trigger_index_columns ≡ true) trigger_index_columns
    × All (λ c. has_column c event_cursors_columns ≡ true) event_cursors_columns
unfolding has_column teq
self_columns = (
  (refl, (refl, (refl, (refl, (refl, tt))))),
  (refl, (refl, (refl, (refl, (refl, tt))))),
  (refl, (refl, (refl, (refl, tt)))),
)

differ :
    (teq (text "automations") (text "trigger_index") ≡ false)
    × (teq (text "automations") (text "event_cursors") ≡ false)
    × (teq (text "trigger_index") (text "event_cursors") ≡ false)
unfolding teq
differ = (refl, refl, refl)

make_a : Act Schema (Unit {0})
make_a = create_table (text "automations") automations_columns

make_t : Act Schema (Unit {0})
make_t = create_table (text "trigger_index") trigger_index_columns

make_e : Act Schema (Unit {0})
make_e = create_table (text "event_cursors") event_cursors_columns

-- Statements keep the columns that a table has.
create_table-HasTable_kept :
    (table other : Text) (columns cs : List Text) (db : Schema)
    → HasTable other cs db.tables
    → HasTable other cs (create_table table columns db).1.tables
create_table-HasTable_kept table other columns cs =
    HasTable-Kept (create_table table columns)
      (λ name P k. create_table-Kept name P k table columns) other cs

later-HasTable :
    (other : Text) (cs : List Text) (db : Schema)
    → HasTable other cs db.tables
    → HasTable other cs (add_columns later_columns db).1.tables
later-HasTable =
    HasTable-Kept (add_columns later_columns) (λ name P k. add_columns-Kept name P k later_columns)

-- From the last columns on, with the three tables.
add_columns-IsMigrated :
    (db : Schema)
    → HasTable (text "automations") automations_columns db.tables
    → HasTable (text "trigger_index") trigger_index_columns db.tables
    → HasTable (text "event_cursors") event_cursors_columns db.tables
    → After (λ a s. IsMigrated s.tables) (add_columns later_columns db)
add_columns-IsMigrated db ha ht he =
    After-map _ _ (add_columns later_columns db)
      (λ x s h. record {
        automations = h.1.0;
        trigger_index = h.1.1;
        later = h.0;
        event_cursors = h.1.2;
      })
      (After-both (λ s. HasTable (text "trigger_index") later_columns s.tables)
        (λ s.
          HasTable (text "automations") automations_columns s.tables
          × HasTable (text "trigger_index") trigger_index_columns s.tables
          × HasTable (text "event_cursors") event_cursors_columns s.tables)
        (add_columns later_columns db) (add_columns-HasTable later_columns db)
        (
          later-HasTable (text "automations") automations_columns db ha,
          later-HasTable (text "trigger_index") trigger_index_columns db ht,
          later-HasTable (text "event_cursors") event_cursors_columns db he,
        ))

pub migrate-IsMigrated :
    (db : Schema) → IsOldFile db.tables → After (λ a s. IsMigrated s.tables) (migrate db)
unfolding migrate make_a make_t make_e
migrate-IsMigrated db old =
    let Q : Unit {0} → Schema → Type 0 = λ a s. IsMigrated s.tables in
    let (self_a, self_t, self_e) = self_columns in
    let (a_t, a_e, t_e) = differ in
    let db1 : Schema = (make_a db).1 in
    let db2 : Schema = (make_t db1).1 in
    let db3 : Schema = (make_e db2).1 in
    After-continue Q (make_a db).0 _ db1 λ x ex. After-continue Q (make_t db1).0 _ db2 λ y ey.
      After-continue Q (make_e db2).0 _ db3 λ z ez.
        let ha : HasTable (text "automations") automations_columns db1.tables =
          After-ok _ (make_a db)
            (create_table-HasTable (text "automations") automations_columns db self_a
              old.automations)
            x ex in
        let ht : HasTable (text "trigger_index") trigger_index_columns db2.tables =
          After-ok _ (make_t db1)
            (create_table-HasTable (text "trigger_index") trigger_index_columns db1 self_t (
              create_table-IsOlder (text "automations") automations_columns (text "trigger_index")
                trigger_index_columns db a_t old.trigger_index))
            y ey in
        let he : HasTable (text "event_cursors") event_cursors_columns db3.tables =
          After-ok _ (make_e db2)
            (create_table-HasTable (text "event_cursors") event_cursors_columns db2 self_e (
              create_table-IsOlder (text "trigger_index") trigger_index_columns
                (text "event_cursors") event_cursors_columns db1 t_e
                (create_table-IsOlder (text "automations") automations_columns
                  (text "event_cursors") event_cursors_columns db a_e old.event_cursors)))
            z ez in
        add_columns-IsMigrated db3
          (create_table-HasTable_kept (text "event_cursors") (text "automations")
            event_cursors_columns automations_columns db2
            (create_table-HasTable_kept (text "trigger_index") (text "automations")
              trigger_index_columns automations_columns db1 ha))
          (create_table-HasTable_kept (text "event_cursors") (text "trigger_index")
            event_cursors_columns trigger_index_columns db2 ht)
          he

-- The columns that the other statements of localdb.go name: those on the stored credentials, on the
-- trigger index, and on the cursors.
abbrev pub named_automations : List Text
named_automations =
    text "user_id"
    ∷ text "username"
    ∷ text "encrypted_app_password"
    ∷ text "expires_at"
    ∷ text "connected_at"
    ∷ []

abbrev pub named_trigger_index : List Text
named_trigger_index =
    text "workflow_id"
    ∷ text "user_id"
    ∷ text "trigger_type"
    ∷ text "schedule"
    ∷ text "event_type"
    ∷ text "path_prefix"
    ∷ text "extension"
    ∷ text "space_id"
    ∷ []

abbrev pub named_event_cursors : List Text
named_event_cursors =
    text "user_id" ∷ text "drive_id" ∷ text "last_checked" ∷ text "last_status" ∷ []

-- The three tables have the columns that those statements name.
pub record IsComplete (tables : List Table) : Type 0 where
  pub automations : HasTable (text "automations") named_automations tables
  pub trigger_index : HasTable (text "trigger_index") named_trigger_index tables
  pub event_cursors : HasTable (text "event_cursors") named_event_cursors tables

pub IsMigrated-IsComplete : (tables : List Table) → IsMigrated tables → IsComplete tables
IsMigrated-IsComplete tables done = record {
  automations = done.automations;
  trigger_index =
      All-append (λ c. Holds (text "trigger_index") (Has c) tables) trigger_index_columns
        later_columns done.trigger_index done.later;
  event_cursors = done.event_cursors;
}
