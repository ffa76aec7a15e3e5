-- ===== src/Api/Index.antt =====
-- The trigger index after a write of a workflow.
use ocis_workflows.Base.{
  Text, teq, Option, none, some, [], arith, ok, ◌≡◌, ◌∙◌, ap, refl, if◌then◌else◌, Bool-cases,
  Option-cases, inl, inr, true,
}
use ocis_workflows.Model.{WorkflowDefinition, WorkflowPatch, EventTrigger}
use ocis_workflows.LocalDb.{Lookup, TriggerIndexEntry, upsert_trigger_index_entry}
use ocis_workflows.LocalDb.Triggers.{
  entry_for, entry_for-upsert_trigger, entry_for-delete_trigger, upsert_trigger-quiet,
}
use ocis_workflows.Api.Wire.{Backend, State, Request, Body, answer}
use ocis_workflows.Api.Entries.{
  indexed, entry_of, sync_trigger_index, after_me, apply_patch, bare_entry, with_event,
}
use ocis_workflows.Api.Handlers.{patch}

workflow_id-with_event :
    (e : TriggerIndexEntry) (t : Option EventTrigger) → (with_event e t).workflow_id ≡ e.workflow_id
workflow_id-with_event e none = refl
workflow_id-with_event e (some t) = elim (Option-cases t.filters) [
  | inl a ↦ rw (a, with_event) refl
  | inr (f, a) ↦ rw (a, with_event) refl
]

trigger_type-with_event :
    (e : TriggerIndexEntry) (t : Option EventTrigger)
    → (with_event e t).trigger_type ≡ e.trigger_type
trigger_type-with_event e none = refl
trigger_type-with_event e (some t) = elim (Option-cases t.filters) [
  | inl a ↦ rw (a, with_event) refl
  | inr (f, a) ↦ rw (a, with_event) refl
]

pub trigger_type-entry_of :
    (user_id : Text) (wf : WorkflowDefinition)
    → (entry_of user_id wf).trigger_type ≡ wf.trigger.trigger_type
unfolding entry_of
trigger_type-entry_of user_id wf =
    ground (arith, trigger_type-with_event (bare_entry user_id wf) wf.trigger.event)

workflow_id-entry_of :
    (user_id : Text) (wf : WorkflowDefinition) → (entry_of user_id wf).workflow_id ≡ wf.id
unfolding entry_of
workflow_id-entry_of user_id wf =
    ground (arith, workflow_id-with_event (bare_entry user_id wf) wf.trigger.event)

module _ {W : Type 0} (b : Backend W) where
  after_me-db :
      (user_id : Text) (wf : WorkflowDefinition) (s : State W)
      → (after_me b wf (ok user_id) s).db
        ≡ (upsert_trigger_index_entry (entry_of user_id wf) s.db).1
  unfolding after_me
  after_me-db user_id wf s =
      elim (Option-cases (upsert_trigger_index_entry (entry_of user_id wf) s.db).0) [
        | inl e ↦ rw (e, after_me) refl
        | inr (x, e) ↦ rw (e, after_me) refl
      ]

  pub faults-sync_trigger_index :
      (auth user_id : Text) (wf : WorkflowDefinition) (s : State W) (w : W)
      → b.me auth s.world ≡ (ok user_id, w)
      → s.db.faults ≡ []
      → indexed wf ≡ true
      → (sync_trigger_index b auth wf s).db.faults ≡ []
  unfolding sync_trigger_index
  faults-sync_trigger_index auth user_id wf s w me quiet on =
      rw (me, on)
        (ap (λ d. d.faults)
            (after_me-db user_id wf (record { world = w; db = s.db })
              ∙ ap (λ r. r.1) (upsert_trigger-quiet (entry_of user_id wf) s.db quiet))
          ∙ quiet)

  pub sync_trigger_index-exact :
      (auth user_id id : Text) (wf : WorkflowDefinition) (s : State W) (w : W)
      → b.me auth s.world ≡ (ok user_id, w)
      → s.db.faults ≡ []
      → entry_for id (sync_trigger_index b auth wf s).db ≡ (
          if teq wf.id id
          then (if indexed wf then some (entry_of user_id wf) else none)
          else entry_for id s.db)
  unfolding sync_trigger_index
  sync_trigger_index-exact auth user_id id wf s w me quiet = elim (Bool-cases (indexed wf)) [
    | inl on ↦
        let (sent, e) = entry_for-upsert_trigger (entry_of user_id wf) id s.db quiet in
        rw (me, on)
          (ap (entry_for id) (after_me-db user_id wf (record { world = w; db = s.db }))
            ∙ e
            ∙ ap (λ x. if teq x id then some (entry_of user_id wf) else entry_for id s.db)
                (workflow_id-entry_of user_id wf))
    | inr off ↦ rw off (entry_for-delete_trigger wf.id id s.db quiet)
  ]

  -- Where the workflow is found, the body is valid, the definition is stored, the user is known and
  -- the driver does not fail, a PATCH answers 200 with the patched workflow, and the index then
  -- holds for it exactly what the patched workflow asks for: the entries of others stay.
  pub patch-index :
      (auth user_id id now : Text) (r : Request) (p : WorkflowPatch) (wf : WorkflowDefinition)
      (s : State W) (w1 w2 w3 w4 : W)
      → r.patch ≡ ok p
      → b.get auth r.id s.world ≡ (Lookup.found wf, w1)
      → b.now w1 ≡ (now, w2)
      → b.put auth (apply_patch p now wf) w2 ≡ (none, w3)
      → b.me auth w3 ≡ (ok user_id, w4)
      → s.db.faults ≡ []
      → let (a, s') = patch b auth r s in
        let new : WorkflowDefinition = apply_patch p now wf in
        (a ≡ answer 200 (Body.workflow new))
        × (entry_for id s'.db ≡ (
            if teq wf.id id
            then (if indexed new then some (entry_of user_id new) else none)
            else entry_for id s.db))
  unfolding patch apply_patch
  patch-index auth user_id id now r p wf s w1 w2 w3 w4 body load clock put me quiet =
      rw (load, body, clock, put)
        (
          refl,
          sync_trigger_index-exact auth user_id id (apply_patch p now wf)
              (record { world = w3; db = s.db }) w4 me quiet,
        )
