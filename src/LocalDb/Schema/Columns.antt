-- ===== src/LocalDb/Schema/Columns.antt =====
-- The columns that a table has after the statements of a migration that succeed.
use ocis_workflows.Base.{
  Text, text, teq, teq_iff, teq_refl, Bool, true, false, ◌||◌, Bool-cases, Option, none, some,
  Option-cases, List, [], ◌∷◌, ◌++◌, All, Result, ok, err, arith, ◌≡◌, ◌⊎◌, ◌∙◌, refl, inl, inr,
}
use ocis_workflows.Base.Actions.{Act}
use ocis_workflows.Base.Ensures.{After, After-continue, After-ok, After-map, Leaves-continue}
use ocis_workflows.LocalDb.Schema.{
  Table, Schema, find_table, has_column, step, created, create_table, widened, altered, add_column,
  columns_of, if_named, among, add_unless, add_column_if_missing, add_columns,
}
use ocis_workflows.LocalDb.Schema.Migrated.{
  Holds, IsKept, Kept, name-find_table, find_table-put_table, step-tables, among-tables,
  create_table-Kept, add_columns-Kept,
}

abbrev pub Has : Text → Table → Type 0
Has column t = has_column column t.columns ≡ true

-- The table is there with these columns.
abbrev pub HasTable : Text → List Text → List Table → Type 0
HasTable name columns tables = All (λ c. Holds name (Has c) tables) columns

-- The table is not there yet, or has these columns.
abbrev pub IsOlder : Text → List Text → List Table → Type 0
IsOlder name columns tables = (find_table name tables ≡ none) ⊎ HasTable name columns tables

has_column-append :
    (c : Text) (cs ds : List Text) → has_column c (cs ++ ds) ≡ (has_column c cs || has_column c ds)
unfolding has_column
has_column-append c [] ds = refl
has_column-append c (d ∷ cs) ds = ground (arith, has_column-append c cs ds)

pub Has-IsKept : (c : Text) → IsKept (Has c)
Has-IsKept c t column h = rw (has_column-append c t.columns (column ∷ []), h) refl

module _ {A : Type 0} (m : Act Schema A)
    (kept : (name : Text) (P : Table → Type 0) (k : IsKept P) → Kept name P k m) where
  pub HasTable-Kept :
      (name : Text) (columns : List Text) (db : Schema)
      → HasTable name columns db.tables
      → HasTable name columns (m db).1.tables
  HasTable-Kept name [] db h = tt
  HasTable-Kept name (c ∷ cs) db (h, hs) =
      (kept name (Has c) (Has-IsKept c) db h, HasTable-Kept name cs db hs)

pub After-both :
    {S A : Type 0} (P Q : S → Type 0) (p : Result A × S)
    → After (λ a. P) p
    → Q p.1
    → After (λ a s. P s × Q s) p
After-both P Q (ok a, s) h k = (h, k)
After-both P Q (err e, s) h k = tt

After-kept : {S A : Type 0} (P : S → Type 0) (p : Result A × S) → P p.1 → After (λ a. P) p
After-kept P (ok a, s) h = h
After-kept P (err e, s) h = tt

fresh-HasTable :
    (name : Text) (columns all : List Text) (tables : List Table)
    → find_table name tables ≡ some (record { name = name; columns = all; rows = [] })
    → All (λ c. has_column c all ≡ true) columns
    → HasTable name columns tables
fresh-HasTable name [] all tables found h = tt
fresh-HasTable name (c ∷ cs) all tables found (h, hs) =
    ((_, found, h), fresh-HasTable name cs all tables found hs)

module _ (table : Text) (columns : List Text) where
  pub create_table-HasTable :
      (db : Schema)
      → All (λ c. has_column c columns ≡ true) columns
      → IsOlder table columns db.tables
      → After (λ a s. HasTable table columns s.tables) (create_table table columns db)
  unfolding create_table
  create_table-HasTable db self (inr older) =
      After-kept (λ s. HasTable table columns s.tables) (create_table table columns db)
        (HasTable-Kept (create_table table columns)
          (λ name P k. create_table-Kept name P k table columns) table columns db older)
  create_table-HasTable db self (inl missing) =
      After-continue (λ a s. HasTable table columns s.tables) (step db).0 _ (step db).1
        λ a e.
          let missing' : find_table table (step db).1.tables ≡ none = rw (step-tables db) missing in
          rw (missing', created)
            (fresh-HasTable table columns columns _
              (find_table-put_table table (record { name = table; columns = columns; rows = [] })
                  (step db).1.tables
                ∙ rw (teq_refl table) refl)
              self)

  created-missing :
      (other : Text) (tables : List Table)
      → teq table other ≡ false
      → find_table other tables ≡ none
      → find_table other (created table columns tables) ≡ none
  created-missing other tables differ missing = elim (Option-cases (find_table table tables)) [
    | inr (t, there) ↦ rw (there, created) missing
    | inl free ↦
        let t : Table = record { name = table; columns = columns; rows = [] } in
        rw (free, created) (find_table-put_table other t tables ∙ rw differ missing)
  ]

  create_table-missing :
      (other : Text) (db : Schema)
      → teq table other ≡ false
      → find_table other db.tables ≡ none
      → find_table other (create_table table columns db).1.tables ≡ none
  unfolding create_table
  create_table-missing other db differ missing =
      let missing' : find_table other (step db).1.tables ≡ none = rw (step-tables db) missing in
      Leaves-continue (λ (s : Schema). find_table other s.tables ≡ none) (step db).0 _ (step db).1
        missing' (λ a e. created-missing other (step db).1.tables differ missing')

  pub create_table-IsOlder :
      (other : Text) (cs : List Text) (db : Schema)
      → teq table other ≡ false
      → IsOlder other cs db.tables
      → IsOlder other cs (create_table table columns db).1.tables
  create_table-IsOlder other cs db differ (inr older) = inr (
      HasTable-Kept (create_table table columns)
        (λ name P k. create_table-Kept name P k table columns) other cs db older)
  create_table-IsOlder other cs db differ (inl missing) =
      inl (create_table-missing other db differ missing)

among-Has :
    (column : Text) (cs : List Text) (db : Schema)
    → After (λ there s. there ≡ true → has_column column cs ≡ true) (among column cs db)
unfolding among has_column
among-Has column [] db =
    After-continue (λ there s. there ≡ true → has_column column [] ≡ true) (step db).0 _ (step db).1
      (λ a e no_row. no_row)
among-Has column (c ∷ cs) db =
    After-continue (λ there s. there ≡ true → has_column column (c ∷ cs) ≡ true) (step db).0 _
      (step db).1
      λ a e. elim (Bool-cases (teq c column)) [
        | inl same ↦ rw (same, if_named) (λ h. refl)
        | inr other ↦ rw (other, if_named) (among-Has column cs (step db).1)
      ]

module _ (table column : Text) where
  added-Has : (t : Table) → Has column (widened column t)
  unfolding has_column
  added-Has t = ground (arith, has_column-append column t.columns (column ∷ []), teq_refl column)

  add_column-Has :
      (db : Schema) → After (λ a s. Holds table (Has column) s.tables) (add_column table column db)
  unfolding add_column
  add_column-Has db =
      After-continue (λ a s. Holds table (Has column) s.tables) (step db).0 _ (step db).1
        λ a e. elim (Option-cases (find_table table (step db).1.tables)) [
          | inl missing ↦ rw (missing, altered) tt
          | inr (t, there) ↦
              rw (there, altered)
                (
                  widened column t,
                  find_table-put_table table (widened column t) (step db).1.tables
                      ∙ rw
                          ((teq_iff t.name table).1
                            (name-find_table table t (step db).1.tables there))
                          refl,
                  added-Has t,
                )
        ]

  found-Has :
      (tables : List Table) (o : Option Table)
      → find_table table tables ≡ o
      → has_column column (columns_of o) ≡ true
      → Holds table (Has column) tables
  unfolding has_column
  found-Has tables none e h = cc
  found-Has tables (some t) e h = (t, e, h)

  add_unless-Has :
      (there : Bool) (db : Schema)
      → (there ≡ true → Holds table (Has column) db.tables)
      → After (λ a s. Holds table (Has column) s.tables) (add_unless table column there db)
  add_unless-Has true db h = h refl
  add_unless-Has false db h = add_column-Has db

  add_column_if_missing-Has :
      (db : Schema)
      → After (λ a s. Holds table (Has column) s.tables) (add_column_if_missing table column db)
  unfolding add_column_if_missing
  add_column_if_missing-Has db =
      let Q : Unit {0} → Schema → Type 0 = λ a s. Holds table (Has column) s.tables in
      let db1 : Schema = (step db).1 in
      let o : Option Table = find_table table db1.tables in
      After-continue Q (step db).0 _ db1 λ a e.
        After-continue Q (among column (columns_of o) db1).0 _ (among column (columns_of o) db1).1
          λ there found. add_unless-Has there (among column (columns_of o) db1).1 (λ yes_there.
            rw (among-tables column (columns_of o) db1) (
              found-Has db1.tables o refl (
                After-ok _ (among column (columns_of o) db1) (among-Has column (columns_of o) db1)
                  there found yes_there)))

pub add_columns-HasTable :
    (columns : List Text) (db : Schema)
    → After (λ a s. HasTable (text "trigger_index") columns s.tables) (add_columns columns db)
unfolding add_columns
add_columns-HasTable [] db = tt
add_columns-HasTable (c ∷ cs) db =
    let first : Result (Unit {0}) × Schema = add_column_if_missing (text "trigger_index") c db in
    After-continue (λ a s. HasTable (text "trigger_index") (c ∷ cs) s.tables) first.0 _ first.1
      λ a e.
        let h : Holds (text "trigger_index") (Has c) first.1.tables =
          After-ok _ first (add_column_if_missing-Has (text "trigger_index") c db) a e in
        After-map _ _ (add_columns cs first.1) (λ b s q. (q.1, q.0))
          (After-both (λ s. HasTable (text "trigger_index") cs s.tables)
            (λ s. Holds (text "trigger_index") (Has c) s.tables) (add_columns cs first.1)
            (add_columns-HasTable cs first.1)
            (add_columns-Kept (text "trigger_index") (Has c) (Has-IsKept c) cs first.1 h))
