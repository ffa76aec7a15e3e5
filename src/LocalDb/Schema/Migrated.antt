-- ===== src/LocalDb/Schema/Migrated.antt =====
-- What a migration leaves: every table that was there, wider, and the columns that the statements
-- of localdb.go name.
use ocis_workflows.Base.{
  Text, text, teq, teq_iff, Bool, true, false, Bool-cases, some, Option-cases, List, [], ◌∷◌, arith,
  ◌≡◌, ◌∙◌, subst, inl, inr, find_row, find_row-upsert_row, if◌then◌else◌,
}
use ocis_workflows.Base.Actions.{Act, ◌>>=◌}
use ocis_workflows.Base.Ensures.{Leaves-continue}
use ocis_workflows.LocalDb.Schema.{
  Table, Schema, find_table, put_table, step, created, create_table, widened, altered, add_column,
  columns_of, if_named, among, add_unless, add_column_if_missing, add_columns, automations_columns,
  trigger_index_columns, event_cursors_columns, later_columns, migrate,
}

-- The table of the name is there, and has the property.
abbrev pub Holds : Text → (Table → Type 0) → List Table → Type 0
Holds name P tables = (t : Table) × (find_table name tables ≡ some t) × P t

-- A property that a further column leaves.
abbrev pub IsKept : (Table → Type 0) → Type 0
IsKept P = (t : Table) (column : Text) → P t → P (widened column t)

pub find_table-put_table :
    (name : Text) (t : Table) (tables : List Table)
    → find_table name (put_table t tables)
      ≡ (if teq t.name name then some t else find_table name tables)
unfolding find_table put_table
find_table-put_table name t tables =
    find_row-upsert_row teq teq_iff (λ (u : Table). u.name) name t tables

pub name-find_table :
    (name : Text) (t : Table) (tables : List Table)
    → find_table name tables ≡ some t
    → t.name ≡ name
unfolding find_table find_row
name-find_table name t [] found = cc
name-find_table name t (u ∷ us) found =
    ground (arith, name-find_table name t us, teq_iff u.name name)

module _ (name : Text) (P : Table → Type 0) where
  pub put_table-Holds :
      (t : Table) (tables : List Table)
      → (t.name ≡ name → P t)
      → Holds name P tables
      → Holds name P (put_table t tables)
  put_table-Holds t tables keeps (u, found, has) = elim (Bool-cases (teq t.name name)) [
    | inl same ↦
        (t, find_table-put_table name t tables ∙ rw same, keeps ((teq_iff t.name name).0 same))
    | inr other ↦ (u, find_table-put_table name t tables ∙ rw other found, has)
  ]

  pub created-Holds :
      (table : Text) (columns : List Text) (tables : List Table)
      → Holds name P tables
      → Holds name P (created table columns tables)
  created-Holds table columns tables (u, found, has) =
      elim (Option-cases (find_table table tables)) [
        | inr (t, there) ↦ rw (there, created) (u, found, has)
        | inl missing ↦
            rw (missing, created)
              (put_table-Holds (record { name = table; columns = columns; rows = [] }) tables
                (λ same. cc (missing, same, found)) (u, found, has))
      ]

  altered-Holds :
      (table column : Text) (db : Schema)
      → IsKept P
      → Holds name P db.tables
      → Holds name P (altered column (find_table table db.tables) db).1.tables
  altered-Holds table column db kept (u, found, has) =
      elim (Option-cases (find_table table db.tables)) [
        | inl missing ↦ rw (missing, altered) (u, found, has)
        | inr (t, there) ↦
            rw (there, altered)
              (put_table-Holds (widened column t) db.tables
                (λ same.
                  kept t column (
                    subst P (cc (same, there, found, name-find_table table t db.tables there)) has))
                (u, found, has))
      ]

-- A statement keeps the tables, whether it fails or not.
pub step-tables : (db : Schema) → (step db).1.tables ≡ db.tables
unfolding step
step-tables db = ground arith

pub among-tables :
    (column : Text) (cs : List Text) (db : Schema) → (among column cs db).1.tables ≡ db.tables
unfolding among
among-tables column [] db =
    Leaves-continue (λ s. s.tables ≡ db.tables) (step db).0 _ (step db).1 (step-tables db)
      (λ a e. step-tables db)
among-tables column (c ∷ cs) db =
    Leaves-continue (λ s. s.tables ≡ db.tables) (step db).0 _ (step db).1 (step-tables db)
      (λ a e. elim (Bool-cases (teq c column)) [
        | inl same ↦ rw (same, if_named) (step-tables db)
        | inr other ↦ rw (other, if_named) (among-tables column cs (step db).1 ∙ step-tables db)
      ])

module _ (name : Text) (P : Table → Type 0) (kept : IsKept P) where
  abbrev pub Kept : {A : Type 0} → Act Schema A → Type 0
  Kept m = (db : Schema) → Holds name P db.tables → Holds name P (m db).1.tables

  pub create_table-Kept : (table : Text) (columns : List Text) → Kept (create_table table columns)
  unfolding create_table
  create_table-Kept table columns db h =
      let h1 : Holds name P (step db).1.tables = rw (step-tables db) h in
      Leaves-continue (λ s. Holds name P s.tables) (step db).0 _ (step db).1 h1
        (λ a e. created-Holds name P table columns (step db).1.tables h1)

  pub add_column-Kept : (table column : Text) → Kept (add_column table column)
  unfolding add_column
  add_column-Kept table column db h =
      let h1 : Holds name P (step db).1.tables = rw (step-tables db) h in
      Leaves-continue (λ s. Holds name P s.tables) (step db).0 _ (step db).1 h1
        (λ a e. altered-Holds name P table column (step db).1 kept h1)

  add_unless-Kept : (table column : Text) (there : Bool) → Kept (add_unless table column there)
  add_unless-Kept table column true db h = h
  add_unless-Kept table column false db h = add_column-Kept table column db h

  pub add_column_if_missing-Kept : (table column : Text) → Kept (add_column_if_missing table column)
  unfolding add_column_if_missing
  add_column_if_missing-Kept table column db h =
      let P' : Schema → Type 0 = λ s. Holds name P s.tables in
      let h1 : Holds name P (step db).1.tables = rw (step-tables db) h in
      let cs : List Text = columns_of (find_table table (step db).1.tables) in
      let h2 : Holds name P (among column cs (step db).1).1.tables =
        rw (among-tables column cs (step db).1) h1 in
      Leaves-continue P' (step db).0 _ (step db).1 h1 (λ a e.
        Leaves-continue P' (among column cs (step db).1).0 _ (among column cs (step db).1).1 h2
          (λ there q. add_unless-Kept table column there (among column cs (step db).1).1 h2))

  pub add_columns-Kept : (columns : List Text) → Kept (add_columns columns)
  unfolding add_columns
  add_columns-Kept [] db h = h
  add_columns-Kept (c ∷ cs) db h =
      let h1 : Holds name P (add_column_if_missing (text "trigger_index") c db).1.tables =
        add_column_if_missing-Kept (text "trigger_index") c db h in
      Leaves-continue (λ (s : Schema). Holds name P s.tables)
        (add_column_if_missing (text "trigger_index") c db).0 _ _ h1
        (λ a e. add_columns-Kept cs _ h1)

  >>=-Kept :
      {A B : Type 0} (m : Act Schema A) (k : A → Act Schema B)
      → Kept m
      → ((a : A) → Kept (k a))
      → Kept (m >>= k)
  >>=-Kept m k hm hk db h =
      Leaves-continue (λ (s : Schema). Holds name P s.tables) (m db).0 k (m db).1 (hm db h)
        (λ a e. hk a (m db).1 (hm db h))

  -- A migration, whether it fails or not.
  pub migrate-Kept : Kept migrate
  unfolding migrate
  migrate-Kept =
      >>=-Kept (create_table (text "automations") automations_columns) _
        (create_table-Kept (text "automations") automations_columns)
        λ a.
          >>=-Kept (create_table (text "trigger_index") trigger_index_columns) _
            (create_table-Kept (text "trigger_index") trigger_index_columns)
            λ b.
              >>=-Kept (create_table (text "event_cursors") event_cursors_columns) _
                (create_table-Kept (text "event_cursors") event_cursors_columns)
                λ c. add_columns-Kept later_columns

-- The table with further columns, in which the rows have empty cells.
pub data Wider (t : Table) : Table → Type 0 where
  same : Wider t t
  wider : (column : Text) {u : Table} → Wider t u → Wider t (widened column u)

-- A migration, whether or not a statement fails, keeps every table of the file with its columns and
-- rows, and may only widen it by columns in which every row has an empty cell.
pub migrate-Wider :
    (db : Schema) (name : Text) (t : Table)
    → find_table name db.tables ≡ some t
    → (u : Table) × (find_table name (migrate db).1.tables ≡ some u) × Wider t u
migrate-Wider db name t found =
    migrate-Kept name (Wider t) (λ u column h. wider column h) db (t, found, same)
