-- ===== src/Tests/Opening.antt =====
-- The migration of an old database file.
use ocis_workflows.Base.{text, teq, none, some, [], ◌∷◌, ◌≡◌, refl, ok, inl, inr}
use ocis_workflows.LocalDb.Schema.{
  Table, Schema, find_table, has_column, migrate, trigger_index_columns,
}
use ocis_workflows.LocalDb.Schema.Migrated.{Wider, migrate-Wider}
use ocis_workflows.LocalDb.Schema.Complete.{IsOldFile, IsComplete}
use ocis_workflows.LocalDb.Schema.Again.{migrate-again}

-- A file with the trigger index alone, without the columns that came later.
abbrev index_table : Table
index_table = record {
  name = text "trigger_index";
  columns = trigger_index_columns;
  rows = (text "w" ∷ text "alice" ∷ text "event" ∷ [] ∷ text "upload" ∷ []) ∷ [];
}

abbrev file : Schema
file = record { tables = index_table ∷ []; faults = [] }

-- The fifth statement fails.
abbrev failing : Schema
failing = record file { faults = none ∷ none ∷ none ∷ none ∷ some (text "disk full") ∷ [] }

migrate-Wider_example :
    (u : Table) × (find_table (text "trigger_index") (migrate failing).1.tables ≡ some u)
    × Wider index_table u
unfolding find_table teq
migrate-Wider_example = migrate-Wider failing (text "trigger_index") index_table refl

file-IsOldFile : IsOldFile file.tables
unfolding find_table teq has_column
file-IsOldFile = record {
  automations = inl refl;
  trigger_index = inr (
    (index_table, refl, refl),
    (
      (index_table, refl, refl),
      ((index_table, refl, refl), ((index_table, refl, refl), ((index_table, refl, refl), tt))),
    ),
  );
  event_cursors = inl refl;
}

migrate-again_example :
    let (r, s) = migrate file in (r ≡ ok tt) × IsComplete s.tables × (migrate s ≡ (ok tt, s))
migrate-again_example = migrate-again file file-IsOldFile refl
