-- ===== src/Reconcile/Dispatch/Calls.antt =====
-- The calls that dispatching activities may make.
use ocis_workflows.Base.{
  Text, text, teq, teq_iff, is_empty, true, false, ◌&&◌, Option, none, some, List, [], ◌∷◌, arith,
  ◌≡◌, ok, Bool-cases, inl, inr, All, ap, sym, ◌∙◌, Result-cases, Option-cases,
}
use ocis_workflows.Model.{WorkflowDefinition, ExecutionRecord}
use ocis_workflows.LocalDb.{TriggerIndexEntry, matches_filters}
use ocis_workflows.Services.{Services, Keeps, Keeps-if, load_and_run-Loaded}
use ocis_workflows.WebdavStore.Internal.{is_internal_path}
use ocis_workflows.Ocis.{Activity}
use ocis_workflows.Reconcile.{
  has_text, trigger_type, split_resource_id, run_matching, after_path, resolve_and_run, after_kind,
  dispatch, dispatch_all,
}

-- The calls that dispatching to a user's workflows may make.
pub record Allows {W : Type 0} (s : Services W) (P : W → Type 0) (user_id auth : Text)
    : Type 0 where
  pub resolve : (space item : Text) → Keeps P (s.item_path auth space item)
  pub load : (e : TriggerIndexEntry) → e.user_id ≡ user_id → Keeps P (s.get auth e.workflow_id)
  pub run :
      (wf : WorkflowDefinition) (path : Text)
      → wf.enabled ≡ true
      → is_internal_path path ≡ false
      → Keeps P (s.execute auth wf (text "event") path)
  pub store : (rec : ExecutionRecord) → Keeps P (s.put_execution auth rec)

-- What makes an entry of the index concern a path on a drive: it is the user's, some message has its
-- type, the path is what an item of the drive resolves to, it lies outside the sidecar's own folder,
-- and the entry's filters admit it.
pub record Concerns {W : Type 0} (s : Services W) (user_id auth drive_id : Text)
    (e : TriggerIndexEntry) (path : Text) : Type 0 where
  pub own : e.user_id ≡ user_id
  pub message : Text
  pub typed : trigger_type message ≡ some e.event_type
  pub item : Text
  pub before : W
  pub resolved : (s.item_path auth drive_id item before).0 ≡ ok path
  pub outside : is_internal_path path ≡ false
  pub admitted : matches_filters e path drive_id ≡ true

-- The calls for one entry: its workflow is loaded, and what was loaded is executed if it is enabled.
pub record MayRun {W : Type 0} (s : Services W) (P : W → Type 0) (user_id auth drive_id : Text)
    (e : TriggerIndexEntry) : Type 0 where
  pub load :
      (path : Text) → Concerns s user_id auth drive_id e path → Keeps P (s.get auth e.workflow_id)
  pub run :
      (path : Text)
      → Concerns s user_id auth drive_id e path
      → (w : W) (wf : WorkflowDefinition) → (s.get auth e.workflow_id w).0 ≡ ok wf
      → wf.enabled ≡ true
      → Keeps P (s.execute auth wf (text "event") path)

-- The calls that dispatching an activity of the drive to the entries of the index may make.
pub record Dispatches {W : Type 0} (s : Services W) (P : W → Type 0) (es : List TriggerIndexEntry)
    (user_id auth drive_id : Text) : Type 0 where
  pub resolve : (item : Text) → Keeps P (s.item_path auth drive_id item)
  pub entries : All (MayRun s P user_id auth drive_id) es
  pub store : (rec : ExecutionRecord) → Keeps P (s.put_execution auth rec)

module _ {W : Type 0} (s : Services W) (P : W → Type 0) (user_id auth drive_id : Text)
    (store : (rec : ExecutionRecord) → Keeps P (s.put_execution auth rec)) where
  run_matching-Keeps :
      (es : List TriggerIndexEntry) (message kind item path : Text) (before : W)
      → trigger_type message ≡ some kind
      → (s.item_path auth drive_id item before).0 ≡ ok path
      → is_internal_path path ≡ false
      → All (MayRun s P user_id auth drive_id) es
      → Keeps P (run_matching s es user_id auth drive_id kind path)
  unfolding run_matching
  run_matching-Keeps [] message kind item path before typed resolved outside may w h = h
  run_matching-Keeps (e ∷ es) message kind item path before typed resolved outside (may, rest) w h =
      run_matching-Keeps es message kind item path before typed resolved outside rest _ (
        Keeps-if P
          (teq e.user_id user_id && (teq e.event_type kind && matches_filters e path drive_id)) _ _
          (λ hit.
            let kind_of : e.event_type ≡ kind = ground (arith, hit, teq_iff e.event_type kind) in
            let cause : Concerns s user_id auth drive_id e path = record {
              own = ground (arith, hit, teq_iff e.user_id user_id);
              message = message;
              typed = typed ∙ ap some (sym kind_of);
              item = item;
              before = before;
              resolved = resolved;
              outside = outside;
              admitted = ground (arith, hit);
            } in
            load_and_run-Loaded s auth P (text "event") path e.workflow_id (may.load path cause)
              (may.run path cause) store w h)
          h)

module _ {W : Type 0} (s : Services W) (P : W → Type 0) (es : List TriggerIndexEntry)
    (user_id auth drive_id : Text) (calls : Dispatches s P es user_id auth drive_id) where
  after_path-Keeps :
      (message kind item : Text) (before : W)
      → trigger_type message ≡ some kind
      → Keeps P
          (after_path s es user_id auth drive_id kind (s.item_path auth drive_id item before).0)
  unfolding after_path
  after_path-Keeps message kind item before typed w h =
      elim (Result-cases (s.item_path auth drive_id item before).0) [
        | inr (x, e) ↦ rw (e, after_path) h
        | inl (path, e) ↦ elim (Bool-cases (is_internal_path path)) [
          | inl inside ↦ rw (e, after_path, inside) h
          | inr outside ↦
              rw (e, after_path, outside)
                (run_matching-Keeps s P user_id auth drive_id calls.store es message kind item path
                  before typed e outside calls.entries w h)
        ]
      ]

  resolve_and_run-Keeps :
      (message kind : Text) (o : Option (Text × Text))
      → trigger_type message ≡ some kind
      → Keeps P (resolve_and_run s es user_id auth drive_id kind o)
  unfolding resolve_and_run
  resolve_and_run-Keeps message kind none typed w h = h
  resolve_and_run-Keeps message kind (some (space, item)) typed w h =
      after_path-Keeps message kind item w typed _ (calls.resolve item w h)

  after_kind-Keeps :
      (message resource_id : Text)
      → Keeps P (after_kind s es user_id auth drive_id resource_id (trigger_type message))
  unfolding after_kind
  after_kind-Keeps message resource_id w h = elim (Option-cases (trigger_type message)) [
    | inl e ↦ rw (e, after_kind) h
    | inr (kind, e) ↦
        rw (e, after_kind)
          (Keeps-if P (is_empty resource_id) _ _ (λ _. h)
            (resolve_and_run-Keeps message kind (split_resource_id resource_id) e w h))
  ]

  dispatch-Keeps : (a : Activity) → Keeps P (dispatch s es user_id auth drive_id a)
  unfolding dispatch
  dispatch-Keeps a = after_kind-Keeps a.message a.resource_id

  pub dispatch_all-Dispatches :
      (seen : List Text) (activities : List Activity)
      → Keeps P (dispatch_all s es user_id auth drive_id seen activities)
  unfolding dispatch_all
  dispatch_all-Dispatches seen [] w h = h
  dispatch_all-Dispatches seen (a ∷ rest) w h =
      Keeps-if P (has_text seen a.id) _ _ (λ _. dispatch_all-Dispatches seen rest w h)
        (dispatch_all-Dispatches (a.id ∷ seen) rest _ (dispatch-Keeps a w h))

-- Who may load and run whatever a user's entries name may do so for the entries of an index.
module _ {W : Type 0} (s : Services W) (P : W → Type 0) (user_id auth : Text)
    (allows : Allows s P user_id auth) where
  all-MayRun :
      (es : List TriggerIndexEntry) (drive_id : Text) → All (MayRun s P user_id auth drive_id) es
  all-MayRun [] drive_id = tt
  all-MayRun (e ∷ es) drive_id = (
    record {
      load = λ path cause. allows.load e cause.own;
      run = λ path cause w wf loaded on. allows.run wf path on cause.outside;
    },
    all-MayRun es drive_id,
  )

  pub Allows-Dispatches :
      (es : List TriggerIndexEntry) (drive_id : Text) → Dispatches s P es user_id auth drive_id
  Allows-Dispatches es drive_id = record {
    resolve = allows.resolve drive_id;
    entries = all-MayRun es drive_id;
    store = allows.store;
  }

  pub dispatch_all-Keeps :
      (es : List TriggerIndexEntry) (drive_id : Text) (seen : List Text)
      (activities : List Activity)
      → Keeps P (dispatch_all s es user_id auth drive_id seen activities)
  dispatch_all-Keeps es drive_id seen activities =
      dispatch_all-Dispatches s P es user_id auth drive_id (Allows-Dispatches es drive_id) seen
        activities
