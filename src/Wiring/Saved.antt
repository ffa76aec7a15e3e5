-- ===== src/Wiring/Saved.antt =====
-- What the handlers save and find in a user's space.
use ocis_workflows.Base.{
  ℕ, Text, text, teq, is_empty, Bool-cases, false, some, ◌++◌, ok, ◌≡◌, refl, ◌∙◌, inl, inr,
  Option-cases, teq_refl,
}
use ocis_workflows.Model.{WorkflowDefinition, WorkflowPatch}
use ocis_workflows.LocalDb.{upsert_trigger_index_entry}
use ocis_workflows.Dav.{View, Same, Same-trans, IsSegment, IsServer, IsKnown, me-known}
use ocis_workflows.Dav.Folders.{IsReady, IsReady-Same}
use ocis_workflows.WebdavStore.Store.{json_suffix}
use ocis_workflows.WebdavStore.Refines.Files.{definitions, stored, put-stored, get-found}
use ocis_workflows.Api.Wire.{Backend, Request, State, Body, answer}
use ocis_workflows.Api.Entries.{
  sync_trigger_index, after_me, entry_of, indexed, kicked, new_workflow,
}
use ocis_workflows.Api.Handlers.{
  save, after_put, create, create_named, get, with_workflow, after_get,
}
use ocis_workflows.Wiring.{Parts, backend_of}

module _ {W : Type 0} (p : Parts W) (v : View W) (auth user_id : Text)
    (server : IsServer p.store.http v auth) (known : IsKnown p.store.ocis v auth user_id)
    (kick_writes_nothing : (w : W) → Same v w (kicked (backend_of p) p.kick w)) where
  abbrev b : Backend W
  b = backend_of p

  same : (w : W) → Same v w w
  same w = (λ u. refl, λ u. refl)

  after_me-Same :
      (wf : WorkflowDefinition) (s : State W) → Same v s.world (after_me b wf (ok user_id) s).world
  unfolding after_me backend_of
  after_me-Same wf s =
      elim (Option-cases (upsert_trigger_index_entry (entry_of user_id wf) s.db).0) [
        | inr (x, e) ↦ rw (e, after_me) (same s.world)
        | inl e ↦ elim (Bool-cases (teq wf.trigger.trigger_type (text "event"))) [
          | inl event ↦ rw (e, event, after_me) (kick_writes_nothing s.world)
          | inr other ↦ rw (e, other, after_me) (same s.world)
        ]
      ]

  -- The upkeep of the index writes nothing to the space.
  sync-Same :
      (wf : WorkflowDefinition) (s : State W)
      → Same v s.world (sync_trigger_index b auth wf s).world
  unfolding sync_trigger_index backend_of
  sync-Same wf s = elim (Bool-cases (indexed wf)) [
    | inr plain ↦ rw plain (same s.world)
    | inl wanted ↦
        let (w', me, same₁) = me-known v p.store.ocis auth user_id known s.world in
        rw (wanted, me) (Same-trans v same₁ (after_me-Same wf (record s { world = w' })))
  ]

  -- What a handler has saved, the next request for it finds.
  pub save-get :
      (wf : WorkflowDefinition) (content message : Text) (status : ℕ) (r : Request) (s : State W)
      → IsSegment (wf.id ++ json_suffix)
      → p.store.definition_json.encode wf ≡ ok content
      → p.store.definition_json.decode content ≡ ok wf
      → IsReady (definitions p.store user_id) v s.world
      → let (a, s') = save b auth wf status message s in
        (a ≡ answer status (Body.workflow wf))
        × ((get b auth (record r { id = wf.id }) s').0 ≡ answer 200 (Body.workflow wf))
  unfolding save after_put get with_workflow after_get backend_of
  save-get wf content message status r s segment encoded decoded ready =
      let (w', put, files, ready') =
        put-stored p.store v auth user_id server known s.world wf content segment encoded ready in
      let s₁ : State W = record s { world = w' } in
      let synced = sync-Same wf s₁ in
      let there : stored p.store v auth user_id server known w' wf.id ≡ some content =
        rw (files wf.id, teq_refl wf.id) refl in
      let (w'', got, same₂) =
        get-found p.store v auth user_id server known (sync_trigger_index b auth wf s₁).world wf.id
          content wf (synced.0 _ ∙ there) decoded in
      (rw put refl, rw (put, got) refl)

  -- With a WebDAV server and a Graph endpoint that keep their documented behaviour, in a user's home
  -- where no file or folder stands in the way, and where the clock, the ids and a kick write nothing
  -- to the user's space: POST with a name that is not empty,
  -- of a definition that reads back as it is encoded and whose new id fits in a file's name, answers
  -- 201 with the definition, whatever the trigger index does; and GET of its id in the state after it
  -- answers 200 with that same definition.
  pub create-get :
      (r : Request) (patch : WorkflowPatch) (name content : Text) (s : State W)
      → r.patch ≡ ok patch
      → patch.name ≡ some name
      → is_empty name ≡ false
      → ((w : W) → Same v w (p.timestamp w).1)
      → ((w : W) → Same v w (p.new_id w).1)
      → let (now, w₁) = p.timestamp s.world in
        let (id, w₂) = p.new_id w₁ in
        let wf = new_workflow patch name id now in
        IsSegment (id ++ json_suffix)
        → p.store.definition_json.encode wf ≡ ok content
        → p.store.definition_json.decode content ≡ ok wf
        → IsReady (definitions p.store user_id) v s.world
        → let (a, s') = create b auth r s in
          (a ≡ answer 201 (Body.workflow wf))
          × ((get b auth (record r { id = id }) s').0 ≡ answer 200 (Body.workflow wf))
  unfolding create create_named backend_of new_workflow get
  create-get r patch name content s read named there clock ids segment encoded decoded ready =
      let (now, w₁) = p.timestamp s.world in
      let (id, w₂) = p.new_id w₁ in
      let written = Same-trans v (clock s.world) (ids w₁) in
      rw (read, named, there)
        (save-get (new_workflow patch name id now) content (text "could not create workflow") 201 r
          (record s { world = w₂ }) segment encoded decoded
          (IsReady-Same (definitions p.store user_id) v written ready))
