-- ===== src/Services.antt =====
-- What scheduler.go, manager.go and reconciler.go call in common: the interfaces `WorkflowStore`,
-- `Executor` and `PathResolver` and the reads of `TriggerStore`, over a world `W` that the calls
-- pass along. `base64` is base64.StdEncoding.EncodeToString.
use ocis_workflows.Base.{
  Text, text, Option, List, ◌++◌, ◌≡◌, refl, Bool, true, false, Result, ok, err, if◌then◌else◌,
  Result-cases, inl, inr,
}
use ocis_workflows.Model.{WorkflowDefinition, ExecutionRecord}
use ocis_workflows.LocalDb.{Automation, TriggerIndexEntry, Lookup}

pub record Services (W : Type 0) : Type 0 where
  pub get : Text → Text → W → Result WorkflowDefinition × W  -- auth, workflow id
  pub put_execution : Text → ExecutionRecord → W → Option Text × W
  pub execute : Text → WorkflowDefinition → Text → Text → W → ExecutionRecord × W
  pub item_path : Text → Text → Text → W → Result Text × W  -- auth, space, item
  pub list_event_triggers : W → Result (List TriggerIndexEntry) × W
  pub list_schedule_triggers : W → Result (List TriggerIndexEntry) × W
  pub get_automation : Text → W → Lookup Automation × W
  pub base64 : Text → Text

-- `"Basic " + base64(username:password)`
abbrev pub basic_auth : {W : Type 0} → Services W → Automation → Text
basic_auth s a = text "Basic " ++ s.base64 (a.username ++ (text ":" ++ a.app_password))

-- A call that keeps a property of the world. It says of an action which calls it may make: an
-- action that keeps every property kept by the calls of a list makes no other call.
abbrev pub Keeps : {W A : Type 0} → (W → Type 0) → (W → A × W) → Type 0
Keeps {W} P m = (w : W) → P w → P (m w).1

pub Keeps-if :
    {W A : Type 0} (P : W → Type 0) (b : Bool) (x y : A × W)
    → (b ≡ true → P x.1)
    → P y.1
    → P (if b then x else y).1
Keeps-if P true x y hx hy = hx refl
Keeps-if P false x y hx hy = hy

module _ {W : Type 0} (s : Services W) (auth : Text) where
  -- The end of `runOne` and of both functions `runWorkflow`, from the answer of `store.Get` on.
  unfoldable pub after_load : Text → Text → Result WorkflowDefinition → W → Unit {0} × W
  after_load triggered_by path (err e) w = (tt, w)
  after_load triggered_by path (ok wf) w =
      let (rec, w') = s.execute auth wf triggered_by path w in
      let (stored, w'') = s.put_execution auth rec w' in if wf.enabled then (tt, w'') else (tt, w)

  unfoldable pub load_and_run : Text → Text → Text → W → Unit {0} × W
  unfolding after_load
  load_and_run triggered_by workflow_id path w =
      let (r, w') = s.get auth workflow_id w in after_load triggered_by path r w'

  module _ (P : W → Type 0) (triggered_by path : Text)
      (run : (wf : WorkflowDefinition)
        → wf.enabled ≡ true
        → Keeps P (s.execute auth wf triggered_by path))
      (store : (rec : ExecutionRecord) → Keeps P (s.put_execution auth rec)) where
    pub after_load-Keeps :
        (r : Result WorkflowDefinition) → Keeps P (after_load triggered_by path r)
    unfolding after_load
    after_load-Keeps (err e) w h = h
    after_load-Keeps (ok wf) w h = Keeps-if P wf.enabled _ _ (λ on. store _ _ (run wf on w h)) h

    pub load_and_run-Keeps :
        (workflow_id : Text)
        → Keeps P (s.get auth workflow_id)
        → Keeps P (load_and_run triggered_by workflow_id path)
    unfolding load_and_run
    load_and_run-Keeps workflow_id load w h =
        after_load-Keeps (s.get auth workflow_id w).0 _ (load w h)

  -- The same, with the calls that follow on the workflow that was loaded.
  pub load_and_run-Loaded :
      (P : W → Type 0) (triggered_by path workflow_id : Text)
      → Keeps P (s.get auth workflow_id)
      → ((w : W) (wf : WorkflowDefinition)
          → (s.get auth workflow_id w).0 ≡ ok wf
          → wf.enabled ≡ true
          → Keeps P (s.execute auth wf triggered_by path))
      → ((rec : ExecutionRecord) → Keeps P (s.put_execution auth rec))
      → Keeps P (load_and_run triggered_by workflow_id path)
  unfolding load_and_run after_load
  load_and_run-Loaded P triggered_by path workflow_id load run store w h =
      elim (Result-cases (s.get auth workflow_id w).0) [
        | inl (wf, e) ↦
            rw (e, after_load)
              (Keeps-if P wf.enabled _ _ (λ on. store _ _ (run w wf e on _ (load w h))) (load w h))
        | inr (x, e) ↦ rw (e, after_load) (load w h)
      ]
