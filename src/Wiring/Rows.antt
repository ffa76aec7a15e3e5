-- ===== src/Wiring/Rows.antt =====
-- A tick over the rows of the trigger index: the entry of one workflow.
use ocis_workflows.Base.{
  ℕ, ◌≤◌, ◌<◌, none, Text, text, teq, teq_iff, Bool-cases, true, false, some, List, [], ◌∷◌, select,
  find_row, ◌≡◌, refl, ◌∙◌, sym, ap, inl, inr, arith, Option,
}
use ocis_workflows.LocalDb.{TriggerIndexEntry}
use ocis_workflows.Times.{get_time, get_time-set_time}
use ocis_workflows.Scheduler.{Schedule, LastRun, check, tick_entries}
use ocis_workflows.Scheduler.Ticks.{get_time-check, check-stored, check-new}

-- The entry of the workflow among those that a tick starts.
abbrev pub started_for : Text → List TriggerIndexEntry → Option TriggerIndexEntry
started_for id started = find_row teq (λ r. r.workflow_id) id started

abbrev pub schedule_rows : List TriggerIndexEntry → List TriggerIndexEntry
schedule_rows rows = select (λ r. teq r.trigger_type (text "schedule")) rows

module _ (parse : Text → Option Schedule) (now last : ℕ) (schedule : Schedule) (id : Text)
    (e : TriggerIndexEntry) (valid : parse e.schedule ≡ some schedule)
    (due : schedule.next last ≤ now) where
  check-other :
      (r : TriggerIndexEntry) (rows : List TriggerIndexEntry) (m : LastRun)
      → teq r.workflow_id id ≡ false
      → started_for id (tick_entries parse now (r ∷ rows) m).0
        ≡ started_for id (tick_entries parse now rows (check parse now r m).1).0
  unfolding tick_entries find_row
  check-other r rows m other = ground (arith, other)

  pub found-due :
      (rows : List TriggerIndexEntry) (m : LastRun)
      → find_row teq (λ r. r.workflow_id) id rows ≡ some e
      → teq e.trigger_type (text "schedule") ≡ true
      → get_time id m ≡ some last
      → started_for id (tick_entries parse now (schedule_rows rows) m).0 ≡ some e
  unfolding find_row select tick_entries
  found-due [] m found kind stored = absurd (grind (arith, found))
  found-due (r ∷ rows) m found kind stored = elim (Bool-cases (teq r.workflow_id id)) [
    | inl mine ↦
        let same : r ≡ e = grind (arith, found, mine) in
        let mine_e : teq e.workflow_id id ≡ true = rw (← same) mine in
        let at : e.workflow_id ≡ id = (teq_iff e.workflow_id id).0 mine_e in
        let hit : (check parse now e m).0 ≡ true =
          (check-stored parse schedule e valid now last m (ap (λ t. get_time t m) at ∙ stored)).0
          ∙ ground (arith, due) in
        rw (same, kind, hit, mine_e) refl
    | inr other ↦
        let found' : find_row teq (λ x. x.workflow_id) id rows ≡ some e =
          ground (arith, found, other) in
        elim (Bool-cases (teq r.trigger_type (text "schedule"))) [
          | inl kept ↦ rw kept (
              check-other r (schedule_rows rows) m other
              ∙ found-due rows (check parse now r m).1 found' kind
                  (get_time-check parse now r m id other ∙ stored))
          | inr dropped ↦ rw dropped (found-due rows m found' kind stored)
        ]
  ]

-- The first tick that sees an entry notes its time.
module _ (parse : Text → Option Schedule) (now : ℕ) (schedule : Schedule) (id : Text)
    (e : TriggerIndexEntry) (valid : parse e.schedule ≡ some schedule)
    (later : now < schedule.next now) where
  check-noted :
      (r : TriggerIndexEntry) (m : LastRun)
      → get_time id m ≡ some now
      → get_time id (check parse now r m).1 ≡ some now
  unfolding check
  check-noted r m noted = elim (Bool-cases (teq r.workflow_id id)) [
    | inr other ↦ get_time-check parse now r m id other ∙ noted
    | inl mine ↦
        let at : r.workflow_id ≡ id = (teq_iff r.workflow_id id).0 mine in
        let own : get_time r.workflow_id m ≡ some now = ap (λ t. get_time t m) at ∙ noted in
        ground (arith, noted, own, mine, get_time-set_time r.workflow_id id now m)
  ]

  entries-noted :
      (rows : List TriggerIndexEntry) (m : LastRun)
      → get_time id m ≡ some now
      → get_time id (tick_entries parse now rows m).1 ≡ some now
  unfolding tick_entries
  entries-noted [] m noted = noted
  entries-noted (r ∷ rows) m noted =
      entries-noted rows (check parse now r m).1 (check-noted r m noted)

  pub found-noted :
      (rows : List TriggerIndexEntry) (m : LastRun)
      → find_row teq (λ r. r.workflow_id) id rows ≡ some e
      → teq e.trigger_type (text "schedule") ≡ true
      → get_time id m ≡ none
      → get_time id (tick_entries parse now (schedule_rows rows) m).1 ≡ some now
  unfolding find_row select tick_entries
  found-noted [] m found kind new = absurd (grind (arith, found))
  found-noted (r ∷ rows) m found kind new = elim (Bool-cases (teq r.workflow_id id)) [
    | inl mine ↦
        let same : r ≡ e = grind (arith, found, mine) in
        let mine_e : teq e.workflow_id id ≡ true = rw (← same) mine in
        let at : e.workflow_id ≡ id = (teq_iff e.workflow_id id).0 mine_e in
        let noted : get_time id (check parse now e m).1 ≡ some now =
          sym (ap (λ t. get_time t (check parse now e m).1) at)
          ∙ (check-new parse schedule e valid now m later (ap (λ t. get_time t m) at ∙ new)).1 in
        rw (same, kind) (entries-noted (schedule_rows rows) (check parse now e m).1 noted)
    | inr other ↦
        let found' : find_row teq (λ x. x.workflow_id) id rows ≡ some e =
          ground (arith, found, other) in
        elim (Bool-cases (teq r.trigger_type (text "schedule"))) [
          | inl kept ↦ rw kept (
              found-noted rows (check parse now r m).1 found' kind
                (get_time-check parse now r m id other ∙ new))
          | inr dropped ↦ rw dropped (found-noted rows m found' kind new)
        ]
  ]
