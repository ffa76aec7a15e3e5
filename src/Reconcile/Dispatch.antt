-- ===== src/Reconcile/Dispatch.antt =====
-- reconciler.go: how often a pass dispatches an activity; `Calls` is about what it may do then.
pub mod Calls
use ocis_workflows.Base.{
  Text, text, teq, teq_iff, is_empty, true, false, ◌&&◌, not, Option, none, some, List, [], ◌∷◌,
  map, arith, ◌≡◌, refl, Result, ok, err, if◌then◌else◌, Bool-cases, inl, inr, All, ap, sym, ◌∙◌,
  Result-cases, Option-cases, Sublist,
}
use ocis_workflows.Model.{WorkflowDefinition, ExecutionRecord}
use ocis_workflows.LocalDb.{TriggerIndexEntry, matches_filters}
use ocis_workflows.Services.{Services, Keeps, Keeps-if, load_and_run-Loaded}
use ocis_workflows.WebdavStore.Internal.{is_internal_path}
use ocis_workflows.Ocis.{Activity}
use ocis_workflows.Reconcile.{
  has_text, trigger_type, split_resource_id, run_matching, after_path, resolve_and_run, after_kind,
  dispatch, dispatch_all,
}
use ocis_workflows.Reconcile.Scope.{NoRepeat}

-- The activities that are dispatched, in order.
fresh : List Text → List Activity → List Activity
fresh seen [] = []
fresh seen (a ∷ rest) =
    let skip = fresh seen rest in
    let go = a ∷ fresh (a.id ∷ seen) rest in if has_text seen a.id then skip else go

abbrev pub activity_ids : List Activity → List Text
activity_ids = map (λ a. a.id)

has_text-fresh :
    (seen : List Text) (activities : List Activity) (id : Text)
    → has_text (activity_ids (fresh seen activities)) id
      ≡ (not (has_text seen id) && has_text (activity_ids activities) id)
unfolding fresh has_text
has_text-fresh seen [] id = ground arith
has_text-fresh seen (a ∷ rest) id =
    ground
      (arith, has_text-fresh seen rest id, has_text-fresh (a.id ∷ seen) rest id, teq_iff a.id id)

fresh-Sublist :
    (seen : List Text) (activities : List Activity) → Sublist (fresh seen activities) activities
unfolding fresh
fresh-Sublist seen [] = Sublist.nothing
fresh-Sublist seen (a ∷ rest) = elim (Bool-cases (has_text seen a.id)) [
  | inl old ↦ rw old (Sublist.left_out (fresh-Sublist seen rest))
  | inr new ↦ rw new (Sublist.kept (fresh-Sublist (a.id ∷ seen) rest))
]

fresh-NoRepeat :
    (seen : List Text) (activities : List Activity)
    → NoRepeat (activity_ids (fresh seen activities))
unfolding fresh has_text
fresh-NoRepeat seen [] = tt
fresh-NoRepeat seen (a ∷ rest) = elim (Bool-cases (has_text seen a.id)) [
  | inl old ↦ rw old (fresh-NoRepeat seen rest)
  | inr new ↦ rw new (
    ground (arith, has_text-fresh (a.id ∷ seen) rest a.id, teq_iff a.id a.id),
    fresh-NoRepeat (a.id ∷ seen) rest,
  )
]

module _ {W : Type 0} (s : Services W) (es : List TriggerIndexEntry)
    (user_id auth drive_id : Text) where
  -- One dispatch after another.
  pub dispatch_each : List Activity → W → Unit {0} × W
  dispatch_each [] w = (tt, w)
  dispatch_each (a ∷ rest) w = dispatch_each rest (dispatch s es user_id auth drive_id a w).1

  dispatch_all-fresh :
      (seen : List Text) (activities : List Activity) (w : W)
      → dispatch_all s es user_id auth drive_id seen activities w
        ≡ dispatch_each (fresh seen activities) w
  unfolding dispatch_all dispatch_each fresh
  dispatch_all-fresh seen [] w = refl
  dispatch_all-fresh seen (a ∷ rest) w = elim (Bool-cases (has_text seen a.id)) [
    | inl old ↦ rw old (dispatch_all-fresh seen rest w)
    | inr new ↦
        rw new (dispatch_all-fresh (a.id ∷ seen) rest (dispatch s es user_id auth drive_id a w).1)
  ]

  -- What is dispatched of the activities that a query returns are some of them, in their order: for
  -- each id that occurs among them one activity that has it, and no two of one id.
  pub dispatch_all_once :
      (activities : List Activity) (w : W)
      → (chosen : List Activity) × (dispatch_all s es user_id auth drive_id [] activities w
          ≡ dispatch_each chosen w)
        × Sublist chosen activities
        × NoRepeat (activity_ids chosen)
        × ((id : Text) → has_text (activity_ids chosen) id ≡ has_text (activity_ids activities) id)
  unfolding has_text
  dispatch_all_once activities w = (
    fresh [] activities,
    dispatch_all-fresh [] activities w,
    fresh-Sublist [] activities,
    fresh-NoRepeat [] activities,
    has_text-fresh [] activities,
  )
