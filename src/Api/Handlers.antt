-- ===== src/Api/Handlers.antt =====
-- workflows.go: the handlers.
use ocis_workflows.Base.{
  ℕ, Text, text, is_empty, Option, none, some, [], ◌++◌, Result, ok, err, if◌then◌else◌,
}
use ocis_workflows.Model.{WorkflowDefinition, WorkflowPatch}
use ocis_workflows.LocalDb.{Lookup, found, not_found, failed, delete_trigger_index_entry}
use ocis_workflows.Api.Wire.{
  Backend, Request, Body, Response, State, answer, refuse, unauthenticated, unavailable,
  no_workflow, invalid_json,
}
use ocis_workflows.Api.Entries.{sync_trigger_index, apply_patch, new_workflow}

module _ {W : Type 0} (b : Backend W) where
  -- The end of `Create` and of `Patch`, from the answer of `Put` on.
  unfoldable pub after_put :
      Text → WorkflowDefinition → ℕ → Text → Option Text → State W → Response × State W
  unfolding sync_trigger_index
  after_put auth wf status message (some e) s = (unavailable message, s)
  after_put auth wf status message none s =
      (answer status (Body.workflow wf), sync_trigger_index b auth wf s)

  unfoldable pub save : Text → WorkflowDefinition → ℕ → Text → State W → Response × State W
  unfolding after_put
  save auth wf status message s =
      let (e, w) = b.put auth wf s.world in
      after_put auth wf status message e (record s { world = w })

  abbrev name_required : Response
  name_required = refuse 400 (text "invalidRequest") (text "name is required")

  unfoldable pub create_named : Text → WorkflowPatch → Option Text → State W → Response × State W
  unfolding save new_workflow
  create_named auth p none s = (name_required, s)
  create_named auth p (some name) s =
      let (now, w1) = b.now s.world in
      let (id, w2) = b.new_id w1 in
      if is_empty name
      then (name_required, s)
      else save auth (new_workflow p name id now) 201 (text "could not create workflow")
          (record s { world = w2 })

  unfoldable pub create : Text → Request → State W → Response × State W
  unfolding create_named
  create auth r s = elim r.patch [ err e ↦ (invalid_json, s) | ok p ↦ create_named auth p p.name s ]

  unfoldable pub patch_found :
      Text → Result WorkflowPatch → WorkflowDefinition → State W → Response × State W
  unfolding save apply_patch
  patch_found auth (err e) existing s = (invalid_json, s)
  patch_found auth (ok p) existing s =
      let (now, w) = b.now s.world in
      save auth (apply_patch p now existing) 200 (text "could not update workflow")
        (record s { world = w })

  -- `store.Get` with its two errors: what is done with the workflow that it finds.
  unfoldable pub after_get :
      (WorkflowDefinition → State W → Response × State W)
      → Lookup WorkflowDefinition
      → State W
      → Response × State W
  after_get k (found wf) s = k wf s
  after_get k not_found s = (no_workflow, s)
  after_get k (failed e) s = (unavailable (text "could not read workflow"), s)

  unfoldable pub with_workflow :
      Text
      → Text
      → (WorkflowDefinition → State W → Response × State W)
      → State W
      → Response × State W
  unfolding after_get
  with_workflow auth id k s =
      let (r, w) = b.get auth id s.world in after_get k r (record s { world = w })

  unfoldable pub patch : Text → Request → State W → Response × State W
  unfolding with_workflow patch_found
  patch auth r = with_workflow auth r.id (patch_found auth r.patch)

  unfoldable pub get : Text → Request → State W → Response × State W
  unfolding with_workflow
  get auth r = with_workflow auth r.id (λ wf s. (answer 200 (Body.workflow wf), s))

  unfoldable pub delete : Text → Request → State W → Response × State W
  delete auth r s =
      let (d, w) = b.delete auth r.id s.world in
      elim d [
        | found x ↦ (
          answer 204 Body.nothing,
          record { world = w; db = (delete_trigger_index_entry r.id s.db).1 },
        )
        | not_found ↦ (no_workflow, record s { world = w })
        | failed e ↦ (unavailable (text "could not delete workflow"), record s { world = w })
      ]

  pub run_on : Text → Text → WorkflowDefinition → Text → State W → Response × State W
  run_on auth id wf path s =
      let (rec, w1) = b.execute auth wf (text "manual") path s.world in
      let (e, w2) = b.put_execution auth rec w1 in
      elim e [
        | some x ↦ (
          unavailable (text "workflow ran but the execution record could not be saved"),
          record s { world = w2 },
        )
        | none ↦ (
          record {
            status = 202;
            body = Body.nothing;
            location = text "/me/workflows/" ++ (id ++ (text "/executions/" ++ rec.id));
          },
          record s { world = w2 },
        )
      ]

  pub run_found :
      Text → Text → Option (Result Text) → WorkflowDefinition → State W → Response × State W
  unfolding run_on
  run_found auth id none wf s = run_on auth id wf [] s
  run_found auth id (some (err e)) wf s = (invalid_json, s)
  run_found auth id (some (ok path)) wf s = run_on auth id wf path s

  unfoldable pub run : Text → Request → State W → Response × State W
  unfolding with_workflow run_found
  run auth r = with_workflow auth r.id (run_found auth r.id r.run_body)

  unfoldable pub list : Text → Request → State W → Response × State W
  list auth r s =
      let (all, w) = b.list auth s.world in
      (
        elim all [
          | ok wfs ↦ answer 200 (Body.workflows wfs)
          | err e ↦ unavailable (text "could not list workflows")
        ],
        record s { world = w },
      )

  unfoldable pub list_executions : Text → Request → State W → Response × State W
  list_executions auth r s =
      let (all, w) = b.list_executions auth r.id s.world in
      (
        elim all [
          | ok recs ↦ answer 200 (Body.executions recs)
          | err e ↦ unavailable (text "could not list executions")
        ],
        record s { world = w },
      )

  unfoldable pub get_execution : Text → Request → State W → Response × State W
  get_execution auth r s =
      let (x, w) = b.get_execution auth r.id r.exec_id s.world in
      (
        elim x [
          | found rec ↦ answer 200 (Body.execution rec)
          | not_found ↦
              refuse 404 (text "executionNotFound") (text "the requested execution was not found")
          | failed e ↦ unavailable (text "could not read execution")
        ],
        record s { world = w },
      )

  -- What every handler does first.
  unfoldable pub with_token :
      (Text → Request → State W → Response × State W) → Request → State W → Response × State W
  with_token handler r s = elim r.token [
    | none ↦ (unauthenticated, s)
    | some token ↦ handler (text "Bearer " ++ token) r s
  ]

-- The routes.
pub data Route : Type 0 where
  list_route : Route
  create_route : Route
  get_route : Route
  patch_route : Route
  delete_route : Route
  run_route : Route
  list_executions_route : Route
  get_execution_route : Route

unfoldable pub serve : {W : Type 0} → Backend W → Route → Request → State W → Response × State W
unfolding with_token
serve b list_route = with_token b (list b)
serve b create_route = with_token b (create b)
serve b get_route = with_token b (get b)
serve b patch_route = with_token b (patch b)
serve b delete_route = with_token b (delete b)
serve b run_route = with_token b (run b)
serve b list_executions_route = with_token b (list_executions b)
serve b get_execution_route = with_token b (get_execution b)
