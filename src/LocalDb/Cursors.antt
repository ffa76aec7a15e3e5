-- ===== src/LocalDb/Cursors.antt =====
-- The event cursors: what a read gives after a write, and the reliability that they report.
use ocis_workflows.Base.{
  Text, teq, teq_iff, true, false, not, none, List, [], ◌∷◌, arith, ok, ◌≡◌, ◌∙◌, ◌↔◌, refl,
  if◌then◌else◌, find_row, upsert_row, find_row-upsert_row, select,
}
use ocis_workflows.LocalDb.{
  EventCursor, Db, CursorKey, found, to_column, from_column, same_cursor, cursor_key, full,
  get_event_cursor, upsert_event_cursor, delete_event_cursors, get_reliability, any_degraded,
  scan_cursor,
}

pub same_cursor_iff : (j k : CursorKey) → (same_cursor j k ≡ true) ↔ (j ≡ k)
unfolding same_cursor
same_cursor_iff (u, d) (v, e) = ground (arith, teq_iff u v, teq_iff d e)

get_event_cursor-quiet :
    (user_id drive_id : Text) (db : Db)
    → db.faults ≡ []
    → (get_event_cursor user_id drive_id db).0
      ≡ scan_cursor (find_row same_cursor cursor_key (user_id, drive_id) db.event_cursors)
unfolding get_event_cursor
get_event_cursor-quiet user_id drive_id db quiet = rw (quiet, get_event_cursor)

upsert_event_cursor-quiet :
    (c : EventCursor) (db : Db)
    → db.faults ≡ []
    → upsert_event_cursor c db ≡ (
      none,
      record db {
        event_cursors =
            upsert_row same_cursor cursor_key
              (record c { last_checked = to_column c.last_checked })
              db.event_cursors;
      },
    )
unfolding upsert_event_cursor
upsert_event_cursor-quiet c db quiet = ground arith

-- With a driver that does not fail, `UpsertEventCursor` returns no error, and then
-- `GetEventCursor` gives for its pair of user and drive the cursor, with its time cut to seconds,
-- and for any other pair what it gave before.
pub get_event_cursor-upsert_event_cursor :
    (db : Db) (c : EventCursor) (user_id drive_id : Text)
    → db.faults ≡ []
    → let (e, db') = upsert_event_cursor c db in
      (e ≡ none)
      × ((get_event_cursor user_id drive_id db').0 ≡ (
          if same_cursor (cursor_key c) (user_id, drive_id)
          then found (record c { last_checked = from_column (to_column c.last_checked) })
          else (get_event_cursor user_id drive_id db).0))
unfolding scan_cursor
get_event_cursor-upsert_event_cursor db c user_id drive_id quiet =
    let row : EventCursor = record c { last_checked = to_column c.last_checked } in
    let db1 : Db = record db {
      event_cursors = upsert_row same_cursor cursor_key row db.event_cursors;
    } in
    rw (upsert_event_cursor-quiet c db quiet) (
      refl,
      get_event_cursor-quiet user_id drive_id db1 quiet
          ∙ ground (
            arith,
            get_event_cursor-quiet user_id drive_id db quiet,
            find_row-upsert_row same_cursor same_cursor_iff cursor_key (user_id, drive_id) row
                db.event_cursors,
          ),
    )

pub delete_event_cursors-quiet :
    (user_id : Text) (db : Db)
    → db.faults ≡ []
    → delete_event_cursors user_id db ≡ (
      none,
      record db { event_cursors = select (λ c. not (teq c.user_id user_id)) db.event_cursors },
    )
unfolding delete_event_cursors
delete_event_cursors-quiet user_id db quiet = ground arith

pub any_degraded-select :
    (user_id other : Text) (cs : List EventCursor)
    → any_degraded other (select (λ c. not (teq c.user_id user_id)) cs)
      ≡ (if teq user_id other then false else any_degraded other cs)
unfolding any_degraded select
any_degraded-select user_id other [] = ground arith
any_degraded-select user_id other (c ∷ cs) = ground (
  arith,
  any_degraded-select user_id other cs,
  teq_iff c.user_id user_id,
  teq_iff c.user_id other,
  teq_iff user_id other,
)

-- Disconnecting clears it: with a driver that does not fail, `DeleteEventCursors` returns no error,
-- and then the user's reliability is "full", and that of any other user what it was.
pub get_reliability-delete_event_cursors :
    (db : Db) (user_id other : Text)
    → db.faults ≡ []
    → let (e, db') = delete_event_cursors user_id db in
      (e ≡ none)
      × ((get_reliability other db').0
          ≡ (if teq user_id other then ok full else (get_reliability other db).0))
unfolding get_reliability delete_event_cursors
get_reliability-delete_event_cursors db user_id other quiet =
    ground (arith, any_degraded-select user_id other db.event_cursors)
