-- ===== src/Wiring/Scheduled.antt =====
-- From the handlers' upkeep of the trigger index to the workflows that a tick of the scheduler starts.
use ocis_workflows.Base.{
  ℕ, ◌≤◌, ◌<◌, none, Text, text, teq, teq_refl, true, some, List, [], ok, ◌≡◌, refl, ◌∙◌, ap, arith,
  Option,
}
use ocis_workflows.Model.{WorkflowDefinition}
use ocis_workflows.LocalDb.{TriggerIndexEntry}
use ocis_workflows.LocalDb.Triggers.{entry_for, list_schedule_triggers-quiet}
use ocis_workflows.Ocis
use ocis_workflows.Services.{Services}
use ocis_workflows.Times.{get_time}
use ocis_workflows.Scheduler.{Schedule, LastRun, tick_entries, tick}
use ocis_workflows.Wiring.{Parts, backend_of}
use ocis_workflows.Wiring.Background.{services_of}
use ocis_workflows.Api.Wire.{State}
use ocis_workflows.Api.Entries.{sync_trigger_index, entry_of, indexed}
use ocis_workflows.Api.Index.{
  sync_trigger_index-exact, trigger_type-entry_of, faults-sync_trigger_index,
}
use ocis_workflows.Wiring.Rows.{started_for, schedule_rows, found-due, found-noted}

schedule-entry_of :
    (user_id : Text) (wf : WorkflowDefinition)
    → teq wf.trigger.trigger_type (text "schedule") ≡ true
    → (entry_of user_id wf).schedule ≡ wf.trigger.schedule
unfolding entry_of
schedule-entry_of user_id wf kind = rw kind refl

tick-listed :
    {W : Type 0} (s : Services W) (parse : Text → Option Schedule) (now : ℕ) (m : LastRun)
    (w w' : W) (es : List TriggerIndexEntry)
    → s.list_schedule_triggers w ≡ (ok es, w')
    → tick s parse now m w ≡ ((tick_entries parse now es m).0, (tick_entries parse now es m).1, w')
unfolding tick
tick-listed s parse now m w w' es listed =
    rw (listed, tick)
      (ap (λ x. ((tick_entries parse now es m).0, (tick_entries parse now es m).1, x))
        (ap (λ r. r.1) listed))

module _ {W : Type 0} (p : Parts W) where
  -- What the scheduler reads after the upkeep of the index for an enabled workflow on a schedule.
  synced-listed :
      (auth user_id : Text) (wf : WorkflowDefinition) (s : State W) (w : W)
      → Ocis.me p.store.ocis auth s.world ≡ (ok user_id, w)
      → s.db.faults ≡ []
      → wf.enabled ≡ true
      → teq wf.trigger.trigger_type (text "schedule") ≡ true
      → let s' = sync_trigger_index (backend_of p) auth wf s in
        (entry_for wf.id s'.db ≡ some (entry_of user_id wf))
        × (teq (entry_of user_id wf).trigger_type (text "schedule") ≡ true)
        × ((services_of p).list_schedule_triggers s' ≡ (ok (schedule_rows s'.db.trigger_index), s'))
  unfolding backend_of services_of
  synced-listed auth user_id wf s w me quiet on kind =
      let s' : State W = sync_trigger_index (backend_of p) auth wf s in
      let kept : indexed wf ≡ true = ground (arith, on, kind) in
      let still : s'.db.faults ≡ [] =
        faults-sync_trigger_index (backend_of p) auth user_id wf s w me quiet kept in
      (
        sync_trigger_index-exact (backend_of p) auth user_id wf.id wf s w me quiet
            ∙ (simp (teq_refl wf.id, kept) refl),
        rw (trigger_type-entry_of user_id wf) kind,
        ap (λ r. (r.0, record s' { db = r.1 })) (list_schedule_triggers-quiet s'.db still),
      )

  -- With a driver that does not fail and a user that is known: once the upkeep of the index has seen
  -- an enabled workflow with a schedule trigger that can be parsed, a tick at or after the schedule's
  -- next activation after the time that the scheduler has noted for the workflow starts it, as the
  -- user's and whatever else is in the index.
  pub tick-sync_trigger_index :
      (auth user_id : Text) (wf : WorkflowDefinition) (s : State W) (w : W)
      (parse : Text → Option Schedule) (schedule : Schedule) (now last : ℕ) (m : LastRun)
      → Ocis.me p.store.ocis auth s.world ≡ (ok user_id, w)
      → s.db.faults ≡ []
      → wf.enabled ≡ true
      → teq wf.trigger.trigger_type (text "schedule") ≡ true
      → parse wf.trigger.schedule ≡ some schedule
      → get_time wf.id m ≡ some last
      → schedule.next last ≤ now
      → started_for wf.id
          (tick (services_of p) parse now m (sync_trigger_index (backend_of p) auth wf s)).0
        ≡ some (entry_of user_id wf)
  tick-sync_trigger_index auth user_id wf s w parse schedule now last m me quiet on kind valid
        stored due =
      let s' : State W = sync_trigger_index (backend_of p) auth wf s in
      let (found, kind', listed) = synced-listed auth user_id wf s w me quiet on kind in
      let valid' : parse (entry_of user_id wf).schedule ≡ some schedule =
        ap parse (schedule-entry_of user_id wf kind) ∙ valid in
      ap (λ r. started_for wf.id r.0)
        (tick-listed (services_of p) parse now m s' s' (schedule_rows s'.db.trigger_index) listed)
      ∙ found-due parse now last schedule wf.id (entry_of user_id wf) valid' due s'.db.trigger_index
          m found kind' stored

  -- Two ticks after the upkeep, of which the first sees the workflow for the first time.
  pub ticks-sync_trigger_index :
      (auth user_id : Text) (wf : WorkflowDefinition) (s : State W) (w : W)
      (parse : Text → Option Schedule) (schedule : Schedule) (first now : ℕ) (m : LastRun)
      → Ocis.me p.store.ocis auth s.world ≡ (ok user_id, w)
      → s.db.faults ≡ []
      → wf.enabled ≡ true
      → teq wf.trigger.trigger_type (text "schedule") ≡ true
      → parse wf.trigger.schedule ≡ some schedule
      → get_time wf.id m ≡ none
      → first < schedule.next first
      → schedule.next first ≤ now
      → let s' = sync_trigger_index (backend_of p) auth wf s in
        let (started, m', s'') = tick (services_of p) parse first m s' in
        started_for wf.id (tick (services_of p) parse now m' s'').0 ≡ some (entry_of user_id wf)
  ticks-sync_trigger_index auth user_id wf s w parse schedule first now m me quiet on kind valid new
        later due =
      let s' : State W = sync_trigger_index (backend_of p) auth wf s in
      let rows = schedule_rows s'.db.trigger_index in
      let (found, kind', listed) = synced-listed auth user_id wf s w me quiet on kind in
      let valid' : parse (entry_of user_id wf).schedule ≡ some schedule =
        ap parse (schedule-entry_of user_id wf kind) ∙ valid in
      let m' : LastRun = (tick_entries parse first rows m).1 in
      ap (λ r. started_for wf.id (tick (services_of p) parse now r.1 r.2).0)
        (tick-listed (services_of p) parse first m s' s' rows listed)
      ∙ ap (λ r. started_for wf.id r.0) (tick-listed (services_of p) parse now m' s' s' rows listed)
      ∙ found-due parse now first schedule wf.id (entry_of user_id wf) valid' due
          s'.db.trigger_index m' found kind'
          (found-noted parse first schedule wf.id (entry_of user_id wf) valid' later
            s'.db.trigger_index m found kind' new)
