-- ===== src/Api/Answers.antt =====
-- What an answer tells of the database.
use ocis_workflows.Base.{
  ℕ, ◌≤◌, ◌<◌, Text, text, Option, none, some, ◌++◌, arith, Result, ok, err, ◌≡◌, refl, is_empty,
  Bool-cases, Option-cases, Result-cases, inl, inr,
}
use ocis_workflows.Model.{WorkflowDefinition, WorkflowPatch}
use ocis_workflows.LocalDb.{Lookup}
use ocis_workflows.Api.Wire.{Backend, Request, Response, State, unauthenticated}
use ocis_workflows.Api.Handlers.{
  Route, serve, with_token, list, create, get, patch, delete, run, list_executions, get_execution,
  after_put, save, create_named, patch_found, after_get,
}

module _ {W : Type 0} (b : Backend W) where
  -- A request without a token is answered 401 on every route, and changes nothing.
  pub serve-unauthenticated :
      (route : Route) (r : Request) (s : State W)
      → r.token ≡ none
      → serve b route r s ≡ (unauthenticated, s)
  unfolding serve
  serve-unauthenticated Route.list_route r s h = rw h refl
  serve-unauthenticated Route.create_route r s h = rw h refl
  serve-unauthenticated Route.get_route r s h = rw h refl
  serve-unauthenticated Route.patch_route r s h = rw h refl
  serve-unauthenticated Route.delete_route r s h = rw h refl
  serve-unauthenticated Route.run_route r s h = rw h refl
  serve-unauthenticated Route.list_executions_route r s h = rw h refl
  serve-unauthenticated Route.get_execution_route r s h = rw h refl

  save-error :
      (auth : Text) (wf : WorkflowDefinition) (status : ℕ) (message : Text) (s : State W)
      → status < 400
      → 400 ≤ (save b auth wf status message s).0.status
      → (save b auth wf status message s).1.db ≡ s.db
  unfolding save after_put
  save-error auth wf status message s good = elim (Option-cases (b.put auth wf s.world).0) [
    | inl e ↦ rw (e, save) (λ h. absurd (omega (arith, h, good)))
    | inr (x, e) ↦ rw (e, save) (λ h. refl)
  ]

  create_named-error :
      (auth : Text) (p : WorkflowPatch) (name : Option Text) (s : State W)
      → 400 ≤ (create_named b auth p name s).0.status
      → (create_named b auth p name s).1.db ≡ s.db
  unfolding create_named
  create_named-error auth p none s = λ h. refl
  create_named-error auth p (some name) s = elim (Bool-cases (is_empty name)) [
    | inl e ↦ rw e (λ h. refl)
    | inr e ↦ rw e (save-error auth _ 201 (text "could not create workflow") _ (omega arith))
  ]

  create-error :
      (auth : Text) (r : Request) (s : State W)
      → 400 ≤ (create b auth r s).0.status
      → (create b auth r s).1.db ≡ s.db
  unfolding create
  create-error auth r s = elim (Result-cases r.patch) [
    | inr (x, e) ↦ rw (e, create) (λ h. refl)
    | inl (p, e) ↦ rw (e, create) (create_named-error auth p p.name s)
  ]

  patch_found-error :
      (auth : Text) (r : Result WorkflowPatch) (wf : WorkflowDefinition) (s : State W)
      → 400 ≤ (patch_found b auth r wf s).0.status
      → (patch_found b auth r wf s).1.db ≡ s.db
  unfolding patch_found
  patch_found-error auth (err e) wf s = λ h. refl
  patch_found-error auth (ok p) wf s =
      save-error auth _ 200 (text "could not update workflow") _ (omega arith)

  after_get-error :
      (k : WorkflowDefinition → State W → Response × State W) (x : Lookup WorkflowDefinition)
      (s : State W)
      → ((wf : WorkflowDefinition) → 400 ≤ (k wf s).0.status → (k wf s).1.db ≡ s.db)
      → 400 ≤ (after_get b k x s).0.status
      → (after_get b k x s).1.db ≡ s.db
  unfolding after_get
  after_get-error k (Lookup.found wf) s safe h = safe wf h
  after_get-error k Lookup.not_found s safe h = refl
  after_get-error k (Lookup.failed e) s safe h = refl

  patch-error :
      (auth : Text) (r : Request) (s : State W)
      → 400 ≤ (patch b auth r s).0.status
      → (patch b auth r s).1.db ≡ s.db
  unfolding patch
  patch-error auth r s =
      after_get-error (patch_found b auth r.patch) (b.get auth r.id s.world).0 _
        (λ wf. patch_found-error auth r.patch wf _)

  with_token-error :
      (handler : Text → Request → State W → Response × State W) (r : Request) (s : State W)
      → ((auth : Text) → 400 ≤ (handler auth r s).0.status → (handler auth r s).1.db ≡ s.db)
      → 400 ≤ (with_token b handler r s).0.status
      → (with_token b handler r s).1.db ≡ s.db
  unfolding with_token
  with_token-error handler r s safe = elim (Option-cases r.token) [
    | inl e ↦ rw (e, with_token) (λ h. refl)
    | inr (token, e) ↦ rw (e, with_token) (safe (text "Bearer " ++ token))
  ]

  -- An answer of 400 or more on any of the eight routes of workflows and their executions comes with
  -- the database as it was.
  pub serve-error :
      (route : Route) (r : Request) (s : State W)
      → 400 ≤ (serve b route r s).0.status
      → (serve b route r s).1.db ≡ s.db
  unfolding serve create patch get delete run list list_executions get_execution
  serve-error Route.list_route r s = λ h. ground arith
  serve-error Route.create_route r s =
      with_token-error (create b) r s (λ auth. create-error auth r s)
  serve-error Route.get_route r s = λ h. ground arith
  serve-error Route.patch_route r s = with_token-error (patch b) r s (λ auth. patch-error auth r s)
  serve-error Route.delete_route r s = λ h. ground arith
  serve-error Route.run_route r s = λ h. ground arith
  serve-error Route.list_executions_route r s = λ h. ground arith
  serve-error Route.get_execution_route r s = λ h. ground arith
