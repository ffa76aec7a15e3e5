-- ===== src/Wiring/Patched.antt =====
-- A PATCH of a stored workflow: what is stored, found and indexed after it.
use ocis_workflows.Base.{
  Text, text, teq_refl, some, none, Option, ok, ◌≡◌, ◌∙◌, refl, ◌++◌, ap, ℕ, [], subst, sym,
  if◌then◌else◌,
}
use ocis_workflows.Model.{WorkflowDefinition, WorkflowPatch}
use ocis_workflows.LocalDb.Triggers.{entry_for}
use ocis_workflows.WebdavStore.Store.{json_suffix}
use ocis_workflows.WebdavStore.Refines.Files.{definitions, stored, get-found}
use ocis_workflows.Dav.{View, Same, Same-trans, IsSegment, IsServer, IsKnown, me-known}
use ocis_workflows.Dav.Folders.{IsReady, IsReady-Same}
use ocis_workflows.Ocis.{me}
use ocis_workflows.Wiring.{Parts, backend_of}
use ocis_workflows.Wiring.Saved.{save-get}
use ocis_workflows.Wiring.Posted.{save-synced}
use ocis_workflows.Api.Wire.{State, Request, Response, Backend, Body, answer}
use ocis_workflows.Api.Entries.{entry_of, indexed, apply_patch, kicked, or_else}
use ocis_workflows.Api.Index.{sync_trigger_index-exact}
use ocis_workflows.Api.Handlers.{save, patch, patch_found, with_workflow, after_get, get}

-- What a field of the patch gives, or else the stored one.
abbrev pub given_or : {A : Type 0} → Option A → A → A
given_or (some new) old = new
given_or none old = old

-- The stored definition with the fields that the patch gives, modified at `now`.
abbrev pub patched : WorkflowPatch → Text → WorkflowDefinition → WorkflowDefinition
patched p now wf = record {
  id = wf.id;
  name = given_or p.name wf.name;
  description = given_or p.description wf.description;
  enabled = given_or p.enabled wf.enabled;
  trigger = given_or p.trigger wf.trigger;
  graph = given_or p.graph wf.graph;
  created_date_time = wf.created_date_time;
  last_modified_date_time = now;
}

or_else-given_or : {A : Type 0} (o : Option A) (old : A) → or_else o old ≡ given_or o old
or_else-given_or none old = refl
or_else-given_or (some new) old = refl

apply_patch-patched :
    (p : WorkflowPatch) (now : Text) (wf : WorkflowDefinition)
    → apply_patch p now wf ≡ patched p now wf
unfolding apply_patch
apply_patch-patched p now wf =
    rw
      (
        or_else-given_or p.name wf.name,
        or_else-given_or p.description wf.description,
        or_else-given_or p.enabled wf.enabled,
        or_else-given_or p.trigger wf.trigger,
        or_else-given_or p.graph wf.graph,
      )
      refl

module _ {W : Type 0} (p : Parts W) (v : View W) (auth user_id : Text)
    (server : IsServer p.store.http v auth) (known : IsKnown p.store.ocis v auth user_id)
    (kick_writes_nothing : (w : W) → Same v w (kicked (backend_of p) p.kick w)) where
  abbrev b : Backend W
  b = backend_of p

  -- What is saved is answered, found by the next request for it, and indexed.
  save-all :
      (wf : WorkflowDefinition) (content message : Text) (status : ℕ) (r : Request) (s : State W)
      → IsSegment (wf.id ++ json_suffix)
      → p.store.definition_json.encode wf ≡ ok content
      → p.store.definition_json.decode content ≡ ok wf
      → IsReady (definitions p.store user_id) v s.world
      → s.db.faults ≡ []
      → let (a, s') = save b auth wf status message s in
        (a ≡ answer status (Body.workflow wf))
        × ((get b auth (record r { id = wf.id }) s').0 ≡ answer 200 (Body.workflow wf))
        × (entry_for wf.id s'.db ≡ (if indexed wf then some (entry_of user_id wf) else none))
  unfolding backend_of me
  save-all wf content message status r s segment encoded decoded ready quiet =
      let (answered, found) =
        save-get p v auth user_id server known kick_writes_nothing wf content message status r s
          segment encoded decoded ready in
      let (w', saved) =
        save-synced p v auth user_id server known wf content message status s segment encoded
          ready in
      let (w'', me, same) = me-known v p.store.ocis auth user_id known w' in
      (
        answered,
        found,
        ap (λ r. entry_for wf.id r.1.db) saved
            ∙ sync_trigger_index-exact b auth user_id wf.id wf (record s { world = w' }) w'' me
                quiet
            ∙ rw (teq_refl wf.id) refl,
      )

  -- With a WebDAV server and a Graph endpoint that keep their documented behaviour and a driver that
  -- does not fail, in a user's home where no file or folder stands in the way, and where the clock and
  -- a kick write nothing to the user's space: PATCH of a stored workflow answers 200 with the stored
  -- definition in which the fields that the body gives are replaced and the others kept, where that
  -- definition, at any time, reads back as it is encoded and its id fits in a file's name; GET of it then answers 200
  -- with the same; and the index has the entry of the user for it if it is enabled with a schedule or
  -- an event as its trigger, and none otherwise.
  pub patch-get :
      (r : Request) (body : WorkflowPatch) (wf : WorkflowDefinition) (old : Text)
      (content : Text → Text) (s : State W)
      → r.patch ≡ ok body
      → stored p.store v auth user_id server known s.world r.id ≡ some old
      → p.store.definition_json.decode old ≡ ok wf
      → ((w : W) → Same v w (p.timestamp w).1)
      → IsReady (definitions p.store user_id) v s.world
      → s.db.faults ≡ []
      → IsSegment (wf.id ++ json_suffix)
      → ((now : Text)
          → (p.store.definition_json.encode (patched body now wf) ≡ ok (content now))
            × (p.store.definition_json.decode (content now) ≡ ok (patched body now wf)))
      → let (a, s') = patch b auth r s in
        (now : Text) × (a ≡ answer 200 (Body.workflow (patched body now wf)))
        × ((get b auth (record r { id = wf.id }) s').0
            ≡ answer 200 (Body.workflow (patched body now wf)))
        × (entry_for wf.id s'.db ≡ (
            if indexed (patched body now wf)
            then some (entry_of user_id (patched body now wf))
            else none))
  unfolding patch with_workflow after_get patch_found backend_of
  patch-get r body wf old content s read there opens clock ready quiet segment codec =
      let (w₁, got, same₁) =
        get-found p.store v auth user_id server known s.world r.id old wf there opens in
      let (now, w₂) = p.timestamp w₁ in
      let new : WorkflowDefinition = patched body now wf in
      let s₂ : State W = record s { world = w₂ } in
      let saves : patch b auth r s ≡ save b auth new 200 (text "could not update workflow") s₂ =
        rw (got, read, apply_patch-patched body now wf) refl in
      let (answered, found, kept) =
        save-all new (content now) (text "could not update workflow") 200 r s₂ segment (codec now).0
          (codec now).1
          (IsReady-Same (definitions p.store user_id) v (Same-trans v same₁ (clock w₁)) ready)
          quiet in
      (
        now,
        rw saves answered,
        subst
            (λ (r' : Response × State W).
              (get b auth (record r { id = wf.id }) r'.1).0 ≡ answer 200 (Body.workflow new))
            (sym saves) found,
        subst
            (λ (r' : Response × State W).
              entry_for wf.id r'.1.db ≡ (if indexed new then some (entry_of user_id new) else none))
            (sym saves) kept,
      )
