-- ===== src/Reconcile.antt =====
-- backend/pkg/reconcile: mapping.go and reconciler.go. A time is a number of nanoseconds since the
-- zero time, and so is a duration; the times of the program lie far from the zero time, and one
-- that would fall before it is taken to be it. `now.Sub(t) < d` is read as `now < t + d`.
pub mod Pass
pub mod Window
pub mod Scope
pub mod Dispatch
pub mod Slots
use ocis_workflows.Base.{
  ℕ, ◌+◌, ◌-◌, Text, text, teq, is_empty, last_index, take, Bool, true, false, ◌&&◌, ◌||◌, not,
  Option, none, some, List, [], ◌∷◌, ◌++◌, ltb, select, Result, ok, err, if◌then◌else◌,
}
use ocis_workflows.Ocis.{Drive, Activity}
use ocis_workflows.LocalDb.{TriggerIndexEntry, EventCursor, Lookup, matches_filters, full, sse_only}
use ocis_workflows.Services.{Services, load_and_run}
use ocis_workflows.WebdavStore.Internal.{is_internal_path}
use ocis_workflows.Times.{Times, get_time, set_time}

-- `messageToTriggerType` and `TriggerType`.
unfoldable pub trigger_type : Text → Option Text
trigger_type message =
    if teq message (text "{user} added {resource} to {folder}")
    then some (text "upload")
    else if teq message (text "{user} moved {resource} to {folder}")
    then some (text "move")
    else if teq message (text "{user} renamed {oldResource} to {resource}")
    then some (text "move")
    else none

-- `DriveLister`, `ActivityLister`, the cursors of `TriggerStore`, the clock, whether the context is
-- cancelled, and the order in which `range` yields a set.
pub record Sources (W : Type 0) : Type 0 where
  pub list_drives : Text → W → Result (List Drive) × W
  pub list_activities : Text → Text → ℕ → W → Result (List Activity) × W  -- auth, drive, since
  pub get_event_cursor : Text → Text → W → Lookup EventCursor × W
  pub upsert_event_cursor : EventCursor → W → Option Text × W
  pub clock : W → ℕ × W
  pub cancelled : W → Bool
  pub iterate : List Text → W → List Text × W

-- The durations of `Reconciler`.
pub record Config : Type 0 where
  pub grace_period : ℕ
  pub overlap : ℕ
  pub first_connect_lookback : ℕ

-- Whether a pass may start at `now`, and `lastPassStart` after it.
unfoldable pub should_start_pass : Config → Text → ℕ → Times → Bool × Times
unfolding get_time set_time
should_start_pass cfg user_id now m = elim (get_time user_id m) [
  | none ↦ (true, set_time user_id now m)
  | some last ↦
      if ltb now (last + cfg.grace_period) then (false, m) else (true, set_time user_id now m)
]

unfoldable pub has_text : List Text → Text → Bool
has_text [] a = false
has_text (x ∷ xs) a = teq x a || has_text xs a

-- The set `scoped`, in the order in which the entries first name its members.
unfoldable pub scoped_spaces : Text → List TriggerIndexEntry → List Text → List Text
unfolding has_text
scoped_spaces user_id [] scoped = scoped
scoped_spaces user_id (e ∷ es) scoped = scoped_spaces user_id es (
    if teq e.user_id user_id && (not (is_empty e.space_id) && not (has_text scoped e.space_id))
    then scoped ++ e.space_id ∷ []
    else scoped)

unfoldable pub needs_all : Text → List TriggerIndexEntry → Bool
needs_all user_id [] = false
needs_all user_id (e ∷ es) = (teq e.user_id user_id && is_empty e.space_id) || needs_all user_id es

abbrev pub real_drives : List Drive → List Text
real_drives [] = []
real_drives (d ∷ ds) =
    let rest = real_drives ds in if teq d.drive_type (text "virtual") then rest else d.id ∷ rest

-- `splitResourceID`
unfoldable pub split_resource_id : Text → Option (Text × Text)
unfolding last_index take
split_resource_id id = elim (last_index b'!' id) [ none ↦ none | some i ↦ some (take i id, id) ]

-- The lower end of the window that is queried.
unfoldable pub query_since : Config → ℕ → ℕ → ℕ
query_since cfg now last_checked =
    let since = last_checked - cfg.overlap in
    let floor = now - cfg.first_connect_lookback in if ltb since floor then floor else since

module _ {W : Type 0} (src : Sources W) where
  unfoldable pub drives_for_user : List TriggerIndexEntry → Text → Text → W → Result (List Text) × W
  unfolding scoped_spaces needs_all
  drives_for_user entries auth user_id w =
      let (drives, w') = src.iterate (scoped_spaces user_id entries []) w in
      let (r, w'') = src.list_drives auth w in
      if needs_all user_id entries
      then (elim r [ err e ↦ err e | ok all ↦ ok (real_drives all) ], w'')
      else (ok drives, w')

module _ {W : Type 0} (s : Services W) where
  abbrev run_workflow : Text → Text → Text → W → Unit {0} × W
  run_workflow auth workflow_id path = load_and_run s auth (text "event") workflow_id path

  -- The loop over the entries in `dispatch`.
  unfoldable pub run_matching :
      List TriggerIndexEntry → Text → Text → Text → Text → Text → W → Unit {0} × W
  unfolding load_and_run matches_filters
  run_matching [] user_id auth drive_id kind path w = (tt, w)
  run_matching (e ∷ es) user_id auth drive_id kind path w =
      let (done, w') =
        if teq e.user_id user_id && (teq e.event_type kind && matches_filters e path drive_id)
        then run_workflow auth e.workflow_id path w
        else (tt, w) in
      run_matching es user_id auth drive_id kind path w'

  unfoldable pub after_path :
      List TriggerIndexEntry → Text → Text → Text → Text → Result Text → W → Unit {0} × W
  after_path entries user_id auth drive_id kind (err e) w = (tt, w)
  after_path entries user_id auth drive_id kind (ok path) w =
      if is_internal_path path
      then (tt, w)
      else run_matching entries user_id auth drive_id kind path w

  resolve_and_run :
      List TriggerIndexEntry → Text → Text → Text → Text → Option (Text × Text) → W → Unit {0} × W
  unfolding after_path
  resolve_and_run entries user_id auth drive_id kind none w = (tt, w)
  resolve_and_run entries user_id auth drive_id kind (some (space, item)) w =
      let (r, w') = s.item_path auth drive_id item w in
      after_path entries user_id auth drive_id kind r w'

  pub after_kind :
      List TriggerIndexEntry → Text → Text → Text → Text → Option Text → W → Unit {0} × W
  unfolding resolve_and_run
  after_kind entries user_id auth drive_id resource_id none w = (tt, w)
  after_kind entries user_id auth drive_id resource_id (some kind) w =
      if is_empty resource_id
      then (tt, w)
      else resolve_and_run entries user_id auth drive_id kind (split_resource_id resource_id) w

  unfoldable pub dispatch :
      List TriggerIndexEntry → Text → Text → Text → Activity → W → Unit {0} × W
  unfolding after_kind
  dispatch entries user_id auth drive_id a =
      after_kind entries user_id auth drive_id a.resource_id (trigger_type a.message)

  -- The loop over the activities, with the ids in `seen`.
  unfoldable pub dispatch_all :
      List TriggerIndexEntry → Text → Text → Text → List Text → List Activity → W → Unit {0} × W
  unfolding dispatch has_text
  dispatch_all entries user_id auth drive_id seen [] w = (tt, w)
  dispatch_all entries user_id auth drive_id seen (a ∷ rest) w =
      let skip = dispatch_all entries user_id auth drive_id seen rest w in
      let go =
        dispatch_all entries user_id auth drive_id (a.id ∷ seen) rest
          (dispatch entries user_id auth drive_id a w).1 in
      if has_text seen a.id then skip else go
