-- ===== src/LocalDb/Listed.antt =====
-- The stored credentials as a list: each is what a read of its user gives.
use ocis_workflows.Base.{
  Text, teq, teq_iff, teq_refl, Bool-cases, Option, none, List, [], ◌∷◌, All, arith, Result-cases,
  ok, ◌≡◌, ◌∙◌, refl, sym, ap, subst, find_row, IsKeyed, inl, inr,
}
use ocis_workflows.Secretbox.{Cipher, open_sealed}
use ocis_workflows.LocalDb.{
  Automation, AutomationRow, Db, found, opened, scan_automation, scan_automations, list_automations,
  get_automation,
}
use ocis_workflows.LocalDb.Automations.{get_automation-quiet}

abbrev Reads : Cipher → List AutomationRow → Automation → Type 0
Reads box rows a = scan_automation box (find_row teq (λ r. r.user_id) a.user_id rows) ≡ found a

missing-reads :
    (box : Cipher) {a : Automation} {o : Option AutomationRow}
    → o ≡ none
    → scan_automation box o ≡ found a
    → ⊥
unfolding scan_automation
missing-reads box missing reads = absurd (ground (arith, missing, reads))

Reads-cons :
    (box : Cipher) (row : AutomationRow) (rows : List AutomationRow) (a : Automation)
    → find_row teq (λ r. r.user_id) row.user_id rows ≡ none
    → Reads box rows a
    → Reads box (row ∷ rows) a
unfolding find_row scan_automation
Reads-cons box row rows a alone reads = elim (Bool-cases (teq row.user_id a.user_id)) [
  | inl same ↦
      absurd (missing-reads box (rw ((teq_iff row.user_id a.user_id).0 same) at alone) reads)
  | inr other ↦ rw other reads
]

All-Reads-cons :
    (box : Cipher) (row : AutomationRow) (rows : List AutomationRow) (held : List Automation)
    → find_row teq (λ r. r.user_id) row.user_id rows ≡ none
    → All (Reads box rows) held
    → All (Reads box (row ∷ rows)) held
All-Reads-cons box row rows [] alone h = tt
All-Reads-cons box row rows (a ∷ held) alone (h, hs) =
    (Reads-cons box row rows a alone h, All-Reads-cons box row rows held alone hs)

Reads-head :
    (box : Cipher) (row : AutomationRow) (rows : List AutomationRow) (plaintext : Text)
    → open_sealed box row.encrypted_app_password ≡ ok plaintext
    → Reads box (row ∷ rows) (opened row plaintext)
unfolding find_row scan_automation
Reads-head box row rows plaintext opens = rw (teq_refl row.user_id, opens, scan_automation) refl

All-gets :
    (db : Db) (held : List Automation)
    → db.faults ≡ []
    → All (Reads db.box db.automations) held
    → All (λ a. (get_automation a.user_id db).0 ≡ found a) held
All-gets db [] quiet h = tt
All-gets db (a ∷ held) quiet (h, hs) =
    (get_automation-quiet a.user_id db quiet ∙ h, All-gets db held quiet hs)

scan_automations-Reads :
    (box : Cipher) (rows : List AutomationRow) (held : List Automation)
    → IsKeyed teq (λ r. r.user_id) rows
    → scan_automations box rows ≡ ok held
    → All (Reads box rows) held
unfolding scan_automations
scan_automations-Reads box [] [] keyed h = tt
scan_automations-Reads box [] (a ∷ held) keyed h = cc
scan_automations-Reads box (row ∷ rows) held (alone, keyed) h =
    elim (Result-cases (open_sealed box row.encrypted_app_password)) [
      | inr (e, closed) ↦ absurd (ground (arith, h, closed))
      | inl (plaintext, opens) ↦ elim (Result-cases (scan_automations box rows)) [
        | inr (e, rest) ↦ absurd (ground (arith, h, opens, rest))
        | inl (others, rest) ↦
            subst (All (Reads box (row ∷ rows))) {x = opened row plaintext ∷ others} {y = held}
              (ground (arith, h, opens, rest))
              (
                Reads-head box row rows plaintext opens,
                All-Reads-cons box row rows others alone
                    (scan_automations-Reads box rows others keyed rest),
              )
      ]
    ]

pub list_automations-quiet :
    (db : Db) → db.faults ≡ [] → list_automations db ≡ (scan_automations db.box db.automations, db)
unfolding list_automations
list_automations-quiet db quiet = ground arith

-- What a list of the credentials gives, with a driver that does not fail: each is what a read of its
-- user gives.
pub list_automations-reads :
    (db : Db) (held : List Automation)
    → db.faults ≡ []
    → IsKeyed teq (λ r. r.user_id) db.automations
    → (list_automations db).0 ≡ ok held
    → All (λ a. (get_automation a.user_id db).0 ≡ found a) held
unfolding list_automations
list_automations-reads db held quiet keyed h = All-gets db held quiet (
    scan_automations-Reads db.box db.automations held keyed
      (sym (ap (λ r. r.0) (list_automations-quiet db quiet)) ∙ h))
