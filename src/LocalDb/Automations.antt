-- ===== src/LocalDb/Automations.antt =====
-- The stored credentials: what a read gives after a write.
use ocis_workflows.Base.{
  Text, teq, teq_iff, none, some, List, [], arith, Result, ok, ◌≡◌, ◌∙◌, refl, if◌then◌else◌,
  length, find_row, upsert_row, find_row-upsert_row, find_row-delete_row, Result-cases, inl, inr,
  delete_row,
}
use ocis_workflows.Secretbox.{Cipher, IsCipher, seal, open_sealed, open_sealed-seal}
use ocis_workflows.LocalDb.{
  Automation, AutomationRow, Db, found, not_found, to_column, from_column, automation_row,
  statement, write, on_automations, upsert_automation, get_automation, delete_automation,
  scan_automation,
}

-- What the columns keep of a credential: its times lose their fraction of a second.
abbrev pub kept : Automation → Automation
kept a = record a {
  expires_at = from_column (to_column a.expires_at);
  connected_at = from_column (to_column a.connected_at);
}

pub get_automation-quiet :
    (user_id : Text) (db : Db)
    → db.faults ≡ []
    → (get_automation user_id db).0
      ≡ scan_automation db.box (find_row teq (λ r. r.user_id) user_id db.automations)
unfolding get_automation
get_automation-quiet user_id db quiet = rw (quiet, get_automation)

pub get_automation-same :
    (user_id : Text) (db : Db) → db.faults ≡ [] → (get_automation user_id db).1 ≡ db
unfolding get_automation
get_automation-same user_id db quiet = rw (quiet, get_automation) refl

pub upsert_automation-quiet :
    (random : Result Text) (a : Automation) (db : Db) (sealed : Text)
    → db.faults ≡ []
    → seal db.box random a.app_password ≡ ok sealed
    → upsert_automation random a db ≡ (
      none,
      record db {
        automations = upsert_row teq (λ r. r.user_id) (automation_row a sealed) db.automations;
      },
    )
unfolding upsert_automation
upsert_automation-quiet random a db sealed quiet e = rw (e, upsert_automation) (ground arith)

scan_automation-row :
    (box : Cipher) (a : Automation) (sealed : Text)
    → open_sealed box sealed ≡ ok a.app_password
    → scan_automation box (some (automation_row a sealed)) ≡ found (kept a)
unfolding scan_automation
scan_automation-row box a sealed e = rw (e, scan_automation)

-- With a cipher that keeps its round trips, a nonce of its size and a driver that does not fail,
-- `UpsertAutomation` returns no error, and then `GetAutomation` of its user gives the credential
-- with its times cut to seconds, and of any other user what it gave before.
pub get_automation-upsert_automation :
    (db : Db) (nonce : Text) (a : Automation) (user_id : Text)
    → IsCipher db.box
    → length nonce ≡ db.box.nonce_size
    → db.faults ≡ []
    → let (e, db') = upsert_automation (ok nonce) a db in
      (e ≡ none)
      × ((get_automation user_id db').0
          ≡ (if teq a.user_id user_id then found (kept a) else (get_automation user_id db).0))
get_automation-upsert_automation db nonce a user_id laws fits quiet =
    let (sealed, e, o) = open_sealed-seal db.box laws nonce a.app_password fits in
    let row : AutomationRow = automation_row a sealed in
    let db1 : Db = record db { automations = upsert_row teq (λ r. r.user_id) row db.automations } in
    rw (upsert_automation-quiet (ok nonce) a db sealed quiet e) (
      refl,
      get_automation-quiet user_id db1 quiet
          ∙ ground (
            arith,
            get_automation-quiet user_id db quiet,
            scan_automation-row db.box a sealed o,
            find_row-upsert_row teq teq_iff (λ (r : AutomationRow). r.user_id) user_id row
                db.automations,
          ),
    )

pub delete_automation-quiet :
    (user_id : Text) (db : Db)
    → db.faults ≡ []
    → delete_automation user_id db
      ≡ (none, record db { automations = delete_row teq (λ r. r.user_id) user_id db.automations })
unfolding delete_automation
delete_automation-quiet user_id db quiet = ground arith

-- With a driver that does not fail, `DeleteAutomation` returns no error, and then `GetAutomation`
-- finds nothing for its user, and for any other user what it found before.
pub get_automation-delete_automation :
    (db : Db) (user_id other : Text)
    → db.faults ≡ []
    → let (e, db') = delete_automation user_id db in
      (e ≡ none)
      × ((get_automation other db').0
          ≡ (if teq user_id other then not_found else (get_automation other db).0))
unfolding scan_automation
get_automation-delete_automation db user_id other quiet =
    let rows : List AutomationRow = delete_row teq (λ r. r.user_id) user_id db.automations in
    let db1 : Db = record db { automations = rows } in
    rw (delete_automation-quiet user_id db quiet) (
      refl,
      get_automation-quiet other db1 quiet
          ∙ ground (
            arith,
            get_automation-quiet other db quiet,
            find_row-delete_row teq teq_iff (λ (r : AutomationRow). r.user_id) other user_id
                db.automations,
          ),
    )

write-err :
    (f : List AutomationRow → List AutomationRow) (db : Db) (e : Text)
    → (write (on_automations f) db).0 ≡ some e
    → (write (on_automations f) db).1.automations ≡ db.automations
unfolding write statement
write-err f db e h = ground arith

-- An `UpsertAutomation` that fails changes no row.
pub upsert_automation-err :
    (random : Result Text) (a : Automation) (db : Db) (e : Text)
    → (upsert_automation random a db).0 ≡ some e
    → (upsert_automation random a db).1.automations ≡ db.automations
unfolding upsert_automation
upsert_automation-err random a db e = elim (Result-cases (seal db.box random a.app_password)) [
  | inl (sealed, q) ↦
      rw (q, upsert_automation)
        (write-err (upsert_row teq (λ r. r.user_id) (automation_row a sealed)) db e)
  | inr (x, q) ↦ rw (q, upsert_automation) (λ h. refl)
]
