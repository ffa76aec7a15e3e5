-- ===== src/Wiring/Posted.antt =====
-- From a POST of a workflow to the tick of the scheduler that starts it.
use ocis_workflows.Base.{
  ℕ, ◌≤◌, ◌<◌, none, Text, text, is_empty, teq, true, false, some, ok, ◌≡◌, refl, [], ◌++◌, Option,
}
use ocis_workflows.Model.{WorkflowDefinition, WorkflowPatch}
use ocis_workflows.WebdavStore.Store.{json_suffix}
use ocis_workflows.WebdavStore.Refines.Files.{definitions, put-stored}
use ocis_workflows.Dav.{View, Same, Same-trans, IsSegment, IsServer, IsKnown, me-known}
use ocis_workflows.Dav.Folders.{IsReady, IsReady-Same}
use ocis_workflows.Times.{get_time}
use ocis_workflows.Scheduler.{Schedule, LastRun, tick}
use ocis_workflows.Wiring.{Parts, backend_of}
use ocis_workflows.Wiring.Background.{services_of}
use ocis_workflows.Wiring.Rows.{started_for}
use ocis_workflows.Wiring.Scheduled.{ticks-sync_trigger_index}
use ocis_workflows.Api.Wire.{State, Request, Backend, Body, answer}
use ocis_workflows.Api.Entries.{sync_trigger_index, entry_of, new_workflow}
use ocis_workflows.Api.Handlers.{create, create_named, save, after_put}

module _ {W : Type 0} (p : Parts W) (v : View W) (auth user_id : Text)
    (server : IsServer p.store.http v auth) (known : IsKnown p.store.ocis v auth user_id) where
  abbrev b : Backend W
  b = backend_of p

  -- What is saved is answered, and the index is brought up to date.
  pub save-synced :
      (wf : WorkflowDefinition) (content message : Text) (status : ℕ) (s : State W)
      → IsSegment (wf.id ++ json_suffix)
      → p.store.definition_json.encode wf ≡ ok content
      → IsReady (definitions p.store user_id) v s.world
      → (w' : W) × (save b auth wf status message s ≡ (
        answer status (Body.workflow wf),
        sync_trigger_index b auth wf (record s { world = w' }),
      ))
  unfolding save after_put backend_of
  save-synced wf content message status s segment encoded ready =
      let (w', put, files, ready') =
        put-stored p.store v auth user_id server known s.world wf content segment encoded ready in
      (w', rw put refl)

  save-starts :
      (wf : WorkflowDefinition) (content message : Text) (status : ℕ) (s : State W)
      (parse : Text → Option Schedule) (schedule : Schedule) (first time : ℕ) (m : LastRun)
      → IsSegment (wf.id ++ json_suffix)
      → p.store.definition_json.encode wf ≡ ok content
      → IsReady (definitions p.store user_id) v s.world
      → s.db.faults ≡ []
      → wf.enabled ≡ true
      → teq wf.trigger.trigger_type (text "schedule") ≡ true
      → parse wf.trigger.schedule ≡ some schedule
      → get_time wf.id m ≡ none
      → first < schedule.next first
      → schedule.next first ≤ time
      → let (a, s') = save b auth wf status message s in
        let (started, m', s'') = tick (services_of p) parse first m s' in
        (a ≡ answer status (Body.workflow wf))
        × (started_for wf.id (tick (services_of p) parse time m' s'').0
            ≡ some (entry_of user_id wf))
  save-starts wf content message status s parse schedule first time m segment encoded ready quiet on
        kind valid new later due =
      let (w', saved) = save-synced wf content message status s segment encoded ready in
      let (w'', me, same) = me-known v p.store.ocis auth user_id known w' in
      rw saved (
        refl,
        ticks-sync_trigger_index p auth user_id wf (record s { world = w' }) w'' parse schedule
            first time m me quiet on kind valid new later due,
      )

  -- With a WebDAV server, a Graph endpoint and a driver that keep their documented behaviour and do
  -- not fail, in a user's home where no file or folder stands in the way, and where the clock and the
  -- ids write nothing to the user's space: POST of an enabled workflow with a name and with a schedule
  -- that can be parsed, whose definition can be encoded and whose new id fits in a file's name,
  -- answers 201 with the definition; and of two ticks of the scheduler in the state after it, of which
  -- the first is the first that sees the workflow and the second comes at or after the schedule's next
  -- activation after the first, strictly later, the second starts it for the user.
  pub create-starts :
      (r : Request) (patch : WorkflowPatch) (name content : Text) (s : State W)
      (parse : Text → Option Schedule) (schedule : Schedule) (first time : ℕ) (m : LastRun)
      → r.patch ≡ ok patch
      → patch.name ≡ some name
      → is_empty name ≡ false
      → ((w : W) → Same v w (p.timestamp w).1)
      → ((w : W) → Same v w (p.new_id w).1)
      → let (now, w₁) = p.timestamp s.world in
        let (id, w₂) = p.new_id w₁ in
        let wf = new_workflow patch name id now in
        IsSegment (id ++ json_suffix)
        → p.store.definition_json.encode wf ≡ ok content
        → IsReady (definitions p.store user_id) v s.world
        → s.db.faults ≡ []
        → wf.enabled ≡ true
        → teq wf.trigger.trigger_type (text "schedule") ≡ true
        → parse wf.trigger.schedule ≡ some schedule
        → get_time id m ≡ none
        → first < schedule.next first
        → schedule.next first ≤ time
        → let (a, s') = create b auth r s in
          let (started, m', s'') = tick (services_of p) parse first m s' in
          (a ≡ answer 201 (Body.workflow wf))
          × (started_for id (tick (services_of p) parse time m' s'').0 ≡ some (entry_of user_id wf))
  unfolding create create_named backend_of new_workflow
  create-starts r patch name content s parse schedule first time m read named there clock ids
        segment encoded ready quiet on kind valid new later due =
      let (now, w₁) = p.timestamp s.world in
      let (id, w₂) = p.new_id w₁ in
      let written = Same-trans v (clock s.world) (ids w₁) in
      rw (read, named, there)
        (save-starts (new_workflow patch name id now) content (text "could not create workflow") 201
          (record s { world = w₂ }) parse schedule first time m segment encoded
          (IsReady-Same (definitions p.store user_id) v written ready) quiet on kind valid new later
          due)
