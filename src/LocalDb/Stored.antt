-- ===== src/LocalDb/Stored.antt =====
-- The row of an event cursor, and what the operations make of it, a failing driver included.
use ocis_workflows.Base.{
  Text, Option, none, some, List, arith, ◌≡◌, ◌⊎◌, inl, inr, refl, ap, ◌∙◌, find_row, upsert_row,
  find_row-upsert_row, Option-cases, if◌then◌else◌,
}
use ocis_workflows.LocalDb.{
  Db, EventCursor, CursorKey, Lookup, scan_cursor, from_column, same_cursor, cursor_key,
  get_event_cursor, upsert_event_cursor, to_column, statement, read, write, list_event_triggers,
}
use ocis_workflows.LocalDb.Cursors.{same_cursor_iff}

abbrev pub read_of : Option EventCursor → Lookup EventCursor
read_of none = Lookup.not_found
read_of (some c) = Lookup.found c

-- A cursor as a column gives it back.
abbrev pub cut : EventCursor → EventCursor
cut c = record c { last_checked = from_column (to_column c.last_checked) }

abbrev scanned : Option EventCursor → Option EventCursor
scanned none = none
scanned (some row) = some (record row { last_checked = from_column row.last_checked })

-- The cursor of a key in a table.
abbrev pub row_of : CursorKey → List EventCursor → Option EventCursor
row_of key cursors = scanned (find_row same_cursor cursor_key key cursors)

scan-read_of : (o : Option EventCursor) → scan_cursor o ≡ read_of (scanned o)
unfolding scan_cursor
scan-read_of none = refl
scan-read_of (some row) = refl

statement-cursors : (db : Db) → (statement db).1.event_cursors ≡ db.event_cursors
unfolding statement
statement-cursors db = ground arith

pub get_event_cursor-reads :
    (user_id drive_id : Text) (db : Db)
    → let (r, db') = get_event_cursor user_id drive_id db in
      ((r ≡ read_of (row_of (user_id, drive_id) db.event_cursors))
        ⊎ ((e : Text) × (r ≡ Lookup.failed e)))
      × (db'.event_cursors ≡ db.event_cursors)
unfolding get_event_cursor
get_event_cursor-reads user_id drive_id db = elim (Option-cases (statement db).0) [
  | inl fine ↦
      rw (fine, get_event_cursor, read)
        (
          inl (
              ap (λ cs. scan_cursor (find_row same_cursor cursor_key (user_id, drive_id) cs))
                (statement-cursors db)
              ∙ scan-read_of _),
          statement-cursors db,
        )
  | inr (e, fault) ↦ rw (fault, get_event_cursor, read) (inr (e, refl), statement-cursors db)
]

row_of-upsert :
    (key : CursorKey) (c : EventCursor) (cursors : List EventCursor)
    → row_of key (
        upsert_row same_cursor cursor_key
          (record c { last_checked = to_column c.last_checked })
          cursors)
      ≡ (if same_cursor (cursor_key c) key then some (cut c) else row_of key cursors)
row_of-upsert key c cursors =
    let row : EventCursor = record c { last_checked = to_column c.last_checked } in
    ap scanned (find_row-upsert_row same_cursor same_cursor_iff cursor_key key row cursors)
    ∙ ground arith

pub upsert_event_cursor-writes :
    (key : CursorKey) (c : EventCursor) (db : Db)
    → let db' = (upsert_event_cursor c db).1 in
      (row_of key db'.event_cursors ≡ row_of key db.event_cursors)
      ⊎ (row_of key db'.event_cursors
          ≡ (if same_cursor (cursor_key c) key then some (cut c) else row_of key db.event_cursors))
unfolding upsert_event_cursor
upsert_event_cursor-writes key c db = elim (Option-cases (statement db).0) [
  | inl fine ↦
      rw (fine, upsert_event_cursor, write)
        (inr (
          ap
            (λ cs. row_of key (
              upsert_row same_cursor cursor_key
                (record c { last_checked = to_column c.last_checked }) cs))
            (statement-cursors db)
          ∙ row_of-upsert key c db.event_cursors))
  | inr (e, fault) ↦
      rw (fault, upsert_event_cursor, write) (inl (ap (row_of key) (statement-cursors db)))
]

pub list_event_triggers-cursors :
    (db : Db) → (list_event_triggers db).1.event_cursors ≡ db.event_cursors
unfolding list_event_triggers
list_event_triggers-cursors db = statement-cursors db
