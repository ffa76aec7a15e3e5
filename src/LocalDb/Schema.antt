-- ===== src/LocalDb/Schema.antt =====
-- backend/pkg/localdb/localdb.go, `Open` and `migrate`: the tables of the database file, with the
-- columns that older versions of the program left out. A table is its columns and its rows of cells;
-- whether the driver runs a statement, or reads a further row of one, is the next entry of `faults`.
pub mod Migrated
pub mod Columns
pub mod Complete
pub mod Again
use ocis_workflows.Base.{
  ℕ, Text, text, teq, is_empty, Bool, true, false, ◌||◌, Option, none, some, List, [], ◌∷◌, ◌++◌,
  map, Result, ok, err, find_row, upsert_row,
}
use ocis_workflows.Base.Actions.{Act, pure, fail, given, wrap, continue, ◌>>=◌, ◌>>◌}
use ocis_workflows.Secretbox.{Cipher}
use ocis_workflows.Secretbox

pub record Table : Type 0 where
  pub name : Text
  pub columns : List Text
  pub rows : List (List Text)

pub record Schema : Type 0 where
  pub tables : List Table
  pub faults : List (Option Text)

unfoldable pub find_table : Text → List Table → Option Table
unfolding find_row
find_table name tables = find_row teq (λ t. t.name) name tables

-- A catalogue in which the table's name stands once.
unfoldable pub put_table : Table → List Table → List Table
unfolding upsert_row
put_table t tables = upsert_row teq (λ u. u.name) t tables

unfoldable pub has_column : Text → List Text → Bool
has_column column [] = false
has_column column (c ∷ cs) = teq c column || has_column column cs

-- The next entry of the driver's faults.
pub step : Act Schema (Unit {0})
step db = elim db.faults [
  | [] ↦ (ok tt, db)
  | fault ∷ rest ↦
      let db' : Schema = record db { faults = rest } in
      elim fault [ none ↦ (ok tt, db') | some e ↦ (err e, db') ]
]

-- CREATE TABLE IF NOT EXISTS
abbrev pub created : Text → List Text → List Table → List Table
created name columns tables = elim (find_table name tables) [
  | some t ↦ tables
  | none ↦ put_table (record { name = name; columns = columns; rows = [] }) tables
]

pub create_table : Text → List Text → Act Schema (Unit {0})
unfolding step find_table put_table
create_table name columns = do
  step
  λ db. (ok tt, record db { tables = created name columns db.tables })

-- ALTER TABLE … ADD COLUMN … TEXT NOT NULL DEFAULT ''
abbrev pub widened : Text → Table → Table
widened column t = record t {
  columns = t.columns ++ column ∷ [];
  rows = map (λ r. r ++ [] ∷ []) t.rows;
}

abbrev pub altered : Text → Option Table → Schema → Result (Unit {0}) × Schema
altered column none db = (err (text "no such table"), db)
altered column (some t) db = (ok tt, record db { tables = put_table (widened column t) db.tables })

pub add_column : Text → Text → Act Schema (Unit {0})
unfolding step find_table put_table
add_column table column = do step; λ db. altered column (find_table table db.tables) db

-- PRAGMA table_info: the names of the columns, none for a table that is not there.
abbrev pub columns_of : Option Table → List Text
columns_of none = []
columns_of (some t) = t.columns

abbrev pub if_named : Bool → Act Schema Bool → Act Schema Bool
if_named true rest = pure true
if_named false rest = rest

-- The loop `for rows.Next()`: whether the column is among the rows, or what `rows.Err` says where
-- the rows end early.
pub among : Text → List Text → Act Schema Bool
unfolding step
among column [] = do step; pure false
among column (c ∷ cs) = do step; if_named (teq c column) (among column cs)

-- The rest of `addColumnIfMissing`.
abbrev pub add_unless : Text → Text → Bool → Act Schema (Unit {0})
add_unless table column true = pure tt
add_unless table column false = add_column table column

pub add_column_if_missing : Text → Text → Act Schema (Unit {0})
unfolding among add_column step
add_column_if_missing table column = do
  step
  there ← (λ db. among column (columns_of (find_table table db.tables)) db)
  add_unless table column there

abbrev pub automations_columns : List Text
automations_columns =
    text "user_id"
    ∷ text "username"
    ∷ text "encrypted_app_password"
    ∷ text "expires_at"
    ∷ text "connected_at"
    ∷ []

abbrev pub trigger_index_columns : List Text
trigger_index_columns =
    text "workflow_id"
    ∷ text "user_id"
    ∷ text "trigger_type"
    ∷ text "schedule"
    ∷ text "event_type"
    ∷ []

abbrev pub event_cursors_columns : List Text
event_cursors_columns =
    text "user_id" ∷ text "drive_id" ∷ text "last_checked" ∷ text "last_status" ∷ []

-- The loop over the three columns that were added later.
pub add_columns : List Text → Act Schema (Unit {0})
unfolding add_column_if_missing
add_columns [] = pure tt
add_columns (column ∷ rest) = do
  add_column_if_missing (text "trigger_index") column
  add_columns rest

abbrev pub later_columns : List Text
later_columns = text "path_prefix" ∷ text "extension" ∷ text "space_id" ∷ []

unfoldable pub migrate : Act Schema (Unit {0})
unfolding create_table add_columns
migrate = do
  create_table (text "automations") automations_columns
  create_table (text "trigger_index") trigger_index_columns
  create_table (text "event_cursors") event_cursors_columns
  add_columns later_columns

-- `Open`: the box for the key, the file, and the migration. `open_file` is sql.Open.
unfoldable pub open_db :
    (Text → Result Cipher) → (ℕ → Text) → Text → Text → Result (Unit {0}) → Act Schema Cipher
unfolding migrate Secretbox.new
open_db cipher decimal path key opened = do
  box ← wrap (text "init secretbox") (given (Secretbox.new cipher decimal key))
  given opened
  migrate
  pure box
