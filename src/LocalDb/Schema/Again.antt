-- ===== src/LocalDb/Schema/Again.antt =====
-- A migration with a driver that does not fail: it succeeds, and a second one changes nothing.
use ocis_workflows.Base.{
  Text, text, teq, teq_iff, teq_refl, true, Bool-cases, some, Option-cases, List, [], ◌∷◌, All, ok,
  arith, ◌≡◌, ◌∙◌, refl, subst, inl, inr, if◌then◌else◌,
}
use ocis_workflows.Base.Ensures.{After-ok}
use ocis_workflows.LocalDb.Schema.{
  Table, Schema, find_table, put_table, has_column, step, created, create_table, widened,
  add_column, if_named, among, add_unless, add_column_if_missing, add_columns, automations_columns,
  trigger_index_columns, event_cursors_columns, later_columns, migrate,
}
use ocis_workflows.LocalDb.Schema.Migrated.{
  Holds, created-Holds, find_table-put_table, name-find_table,
}
use ocis_workflows.LocalDb.Schema.Columns.{Has, HasTable}
use ocis_workflows.LocalDb.Schema.Complete.{
  IsOldFile, IsMigrated, migrate-IsMigrated, IsComplete, IsMigrated-IsComplete,
}

step-quiet : (db : Schema) → db.faults ≡ [] → step db ≡ (ok tt, db)
unfolding step
step-quiet db quiet = ground arith

create_table-quiet :
    (table : Text) (columns : List Text) (db : Schema)
    → db.faults ≡ []
    → create_table table columns db
      ≡ (ok tt, record db { tables = created table columns db.tables })
unfolding create_table
create_table-quiet table columns db quiet = rw (step-quiet db quiet) refl

among-quiet :
    (column : Text) (cs : List Text) (db : Schema)
    → db.faults ≡ []
    → among column cs db ≡ (ok (has_column column cs), db)
unfolding among has_column
among-quiet column [] db quiet = rw (step-quiet db quiet) refl
among-quiet column (c ∷ cs) db quiet = rw (step-quiet db quiet) (elim (Bool-cases (teq c column)) [
  | inl same ↦ rw (same, if_named) refl
  | inr other ↦ rw (other, if_named) (among-quiet column cs db quiet)
])

abbrev widened_to : Text → Table → Table
widened_to column t = if has_column column t.columns then t else widened column t

add_column_if_missing-quiet :
    (table column : Text) (t : Table) (db : Schema)
    → db.faults ≡ []
    → find_table table db.tables ≡ some t
    → add_column_if_missing table column db ≡ (
      ok tt,
      if has_column column t.columns
          then db
          else record db { tables = put_table (widened column t) db.tables },
    )
unfolding add_column_if_missing add_column
add_column_if_missing-quiet table column t db quiet found =
    rw (step-quiet db quiet, found, among-quiet column t.columns db quiet)
      (elim (Bool-cases (has_column column t.columns)) [
        | inl there ↦ rw (there, add_unless) refl
        | inr missing ↦ rw (missing, add_unless, step-quiet db quiet, found) refl
      ])

add_columns-quiet :
    (columns : List Text) (t : Table) (db : Schema)
    → db.faults ≡ []
    → find_table (text "trigger_index") db.tables ≡ some t
    → ((add_columns columns db).0 ≡ ok tt) × ((add_columns columns db).1.faults ≡ [])
unfolding add_columns
add_columns-quiet [] t db quiet found = (refl, quiet)
add_columns-quiet (c ∷ cs) t db quiet found =
    rw (add_column_if_missing-quiet (text "trigger_index") c t db quiet found)
      (elim (Bool-cases (has_column c t.columns)) [
        | inl there ↦ rw there (add_columns-quiet cs t db quiet found)
        | inr missing ↦ rw missing (
            add_columns-quiet cs (widened c t)
              (record db { tables = put_table (widened c t) db.tables }) quiet
              (find_table-put_table (text "trigger_index") (widened c t) db.tables
                ∙ rw
                    ((teq_iff t.name (text "trigger_index")).1
                      (name-find_table (text "trigger_index") t db.tables found))
                    refl))
      ])

add_columns-same :
    (columns : List Text) (t : Table) (db : Schema)
    → db.faults ≡ []
    → find_table (text "trigger_index") db.tables ≡ some t
    → All (λ c. has_column c t.columns ≡ true) columns
    → add_columns columns db ≡ (ok tt, db)
unfolding add_columns
add_columns-same [] t db quiet found has = refl
add_columns-same (c ∷ cs) t db quiet found (h, hs) =
    rw (add_column_if_missing-quiet (text "trigger_index") c t db quiet found, h)
      (add_columns-same cs t db quiet found hs)

columns-HasTable :
    (name : Text) (columns : List Text) (t : Table) (tables : List Table)
    → find_table name tables ≡ some t
    → HasTable name columns tables
    → All (λ c. has_column c t.columns ≡ true) columns
columns-HasTable name [] t tables found h = tt
columns-HasTable name (c ∷ cs) t tables found ((u, found', has), hs) = (
  subst (Has c) {x = u} {y = t} (cc (found, found')) has,
  columns-HasTable name cs t tables found hs,
)

create_table-same :
    (table : Text) (columns : List Text) (t : Table) (db : Schema)
    → db.faults ≡ []
    → find_table table db.tables ≡ some t
    → create_table table columns db ≡ (ok tt, db)
create_table-same table columns t db quiet found =
    create_table-quiet table columns db quiet ∙ rw (found, created) refl

-- A migration of a file that was migrated changes nothing.
pub migrate-same : (db : Schema) → db.faults ≡ [] → IsMigrated db.tables → migrate db ≡ (ok tt, db)
unfolding migrate
migrate-same db quiet done =
    let (a, found_a, has_a) = done.automations.0 in
    let (t, found_t, has_t) = done.trigger_index.0 in
    let (e, found_e, has_e) = done.event_cursors.0 in
    rw
      (
        create_table-same (text "automations") automations_columns a db quiet found_a,
        create_table-same (text "trigger_index") trigger_index_columns t db quiet found_t,
        create_table-same (text "event_cursors") event_cursors_columns e db quiet found_e,
      )
      (add_columns-same later_columns t db quiet found_t
        (columns-HasTable (text "trigger_index") later_columns t db.tables found_t done.later))

created-found :
    (table : Text) (columns : List Text) (tables : List Table)
    → Holds table (λ t. Unit {0}) (created table columns tables)
created-found table columns tables = elim (Option-cases (find_table table tables)) [
  | inr (t, there) ↦ rw (there, created) (t, there, tt)
  | inl missing ↦
      let t : Table = record { name = table; columns = columns; rows = [] } in
      rw (missing, created) (t, find_table-put_table table t tables ∙ rw (teq_refl table) refl, tt)
]

migrate-quiet :
    (db : Schema) → db.faults ≡ [] → ((migrate db).0 ≡ ok tt) × ((migrate db).1.faults ≡ [])
unfolding migrate
migrate-quiet db quiet =
    let db1 : Schema = record db {
      tables = created (text "automations") automations_columns db.tables;
    } in
    let db2 : Schema = record db1 {
      tables = created (text "trigger_index") trigger_index_columns db1.tables;
    } in
    let db3 : Schema = record db2 {
      tables = created (text "event_cursors") event_cursors_columns db2.tables;
    } in
    let (t, found, known) =
      created-Holds (text "trigger_index") (λ u. Unit {0}) (text "event_cursors")
        event_cursors_columns db2.tables
        (created-found (text "trigger_index") trigger_index_columns db1.tables) in
    rw
      (
        create_table-quiet (text "automations") automations_columns db quiet,
        create_table-quiet (text "trigger_index") trigger_index_columns db1 quiet,
        create_table-quiet (text "event_cursors") event_cursors_columns db2 quiet,
      )
      (add_columns-quiet later_columns t db3 quiet found)

-- On a file of this or an older version, with a driver that does not fail, a migration succeeds,
-- the three tables then have every column that the program's statements on them name, and a second migration
-- succeeds and changes nothing.
pub migrate-again :
    (db : Schema)
    → IsOldFile db.tables
    → db.faults ≡ []
    → let (r, s) = migrate db in (r ≡ ok tt) × IsComplete s.tables × (migrate s ≡ (ok tt, s))
migrate-again db old quiet =
    let (r, still) = migrate-quiet db quiet in
    let done : IsMigrated (migrate db).1.tables =
      After-ok _ (migrate db) (migrate-IsMigrated db old) tt r in
    (r, IsMigrated-IsComplete _ done, migrate-same (migrate db).1 still done)
