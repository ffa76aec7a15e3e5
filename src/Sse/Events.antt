-- ===== src/Sse/Events.antt =====
-- manager.go, `handleEvent` and `runWorkflow`. `decode` is json.Unmarshal into `eventPayload`.
use ocis_workflows.Base.{
  Text, text, teq, is_empty, Bool, true, false, ◌&&◌, not, Option, none, some, List, [], ◌∷◌, map,
  select, Result, ok, err, ◌≡◌, refl, if◌then◌else◌, Bool-cases, inl, inr, ◌||◌,
}
use ocis_workflows.LocalDb.{TriggerIndexEntry, matches_filters}
use ocis_workflows.Services.{Services, load_and_run}
use ocis_workflows.WebdavStore.Internal.{is_internal_path}

-- `eventTypeMap`
unfoldable pub trigger_type : Text → Option Text
trigger_type sse_event =
    if teq sse_event (text "postprocessing-finished")
    then some (text "upload")
    else if teq sse_event (text "item-renamed")
    then some (text "move")
    else if teq sse_event (text "share-created")
    then some (text "share")
    else if teq sse_event (text "link-created")
    then some (text "share")
    else if teq sse_event (text "file-locked")
    then some (text "lock")
    else none

pub record EventPayload : Type 0 where
  pub item_id : Text
  pub space_id : Text

-- A goroutine that runs a workflow on a path.
pub record Started : Type 0 where
  pub workflow_id : Text
  pub path : Text

abbrev pub or_empty : Result Text → Text
or_empty (ok path) = path
or_empty (err e) = text ""

abbrev pub concerns : Text → Text → TriggerIndexEntry → Bool
concerns user_id kind e = teq e.user_id user_id && teq e.event_type kind

-- Which entries an event on the path starts.
abbrev pub hits : Text → Text → EventPayload → Text → TriggerIndexEntry → Bool
hits user_id kind p path e =
    concerns user_id kind e && (not (is_internal_path path) && matches_filters e path p.space_id)

abbrev pub start_on : Text → TriggerIndexEntry → Started
start_on path e = record { workflow_id = e.workflow_id; path = path }

unfoldable pub any_concerned : Text → Text → List TriggerIndexEntry → Bool
any_concerned user_id kind [] = false
any_concerned user_id kind (e ∷ es) = concerns user_id kind e || any_concerned user_id kind es

module _ {W : Type 0} (s : Services W) (auth : Text) where
  -- `resolvedPath`, and whether it is resolved yet.
  unfoldable pub resolve : EventPayload → Option Text → W → Text × W
  resolve p (some path) w = (path, w)
  resolve p none w =
      let (r, w') = s.item_path auth p.space_id p.item_id w in
      if not (is_empty p.space_id) && not (is_empty p.item_id)
      then (or_empty r, w')
      else (text "", w)

  -- The loop over the entries: the goroutines that it starts, in order.
  unfoldable pub handle_entries :
      Text → Text → EventPayload → List TriggerIndexEntry → Option Text → W → List Started × W
  unfolding resolve
  handle_entries user_id kind p [] resolved w = ([], w)
  handle_entries user_id kind p (e ∷ es) resolved w =
      let skip = handle_entries user_id kind p es resolved w in
      let (path, w') = resolve p resolved w in
      let (later, w'') = handle_entries user_id kind p es (some path) w' in
      let go : List Started × W = (
        if is_internal_path path
            then later
            else if matches_filters e path p.space_id
            then record { workflow_id = e.workflow_id; path = path } ∷ later
            else later,
        w'',
      ) in
      if concerns user_id kind e then go else skip

  after_entries :
      Text → Text → EventPayload → Result (List TriggerIndexEntry) → W → List Started × W
  unfolding handle_entries
  after_entries user_id kind p (err e) w = ([], w)
  after_entries user_id kind p (ok es) w = handle_entries user_id kind p es none w

  after_decode : Text → Text → Result EventPayload → W → List Started × W
  unfolding after_entries
  after_decode user_id kind (err e) w = ([], w)
  after_decode user_id kind (ok p) w =
      let (r, w') = s.list_event_triggers w in after_entries user_id kind p r w'

  after_type : (Text → Result EventPayload) → Text → Text → Option Text → W → List Started × W
  unfolding after_decode
  after_type decode user_id payload none w = ([], w)
  after_type decode user_id payload (some kind) w = after_decode user_id kind (decode payload) w

  unfoldable pub handle_event :
      (Text → Result EventPayload) → Text → Text → Text → W → List Started × W
  unfolding after_type
  handle_event decode user_id sse_event payload =
      after_type decode user_id payload (trigger_type sse_event)

  pub handle_event-entries :
      (decode : Text → Result EventPayload) (user_id sse_event payload kind : Text)
      (p : EventPayload) (es : List TriggerIndexEntry) (w w' : W)
      → trigger_type sse_event ≡ some kind
      → decode payload ≡ ok p
      → s.list_event_triggers w ≡ (ok es, w')
      → handle_event decode user_id sse_event payload w ≡ handle_entries user_id kind p es none w'
  unfolding handle_event
  handle_event-entries decode user_id sse_event payload kind p es w w' typed decoded listed =
      rw (typed, after_type, decoded, after_decode, listed, after_entries) refl

  unfoldable pub run_workflow : Started → W → Unit {0} × W
  unfolding load_and_run
  run_workflow r = load_and_run s auth (text "event") r.workflow_id r.path

  one_entry :
      (user_id kind : Text) (p : EventPayload) (path : Text) (e : TriggerIndexEntry)
      (es : List TriggerIndexEntry) (inside matches : Bool) (w : W)
      → (let later = map (start_on path) (select (hits user_id kind p path) es) in
          ◌≡◌ {A = List Started × W}
            (if inside then later else if matches then start_on path e ∷ later else later, w)
            (
              map (start_on path) (
                  if not inside && matches
                  then e ∷ select (hits user_id kind p path) es
                  else select (hits user_id kind p path) es),
              w,
            ))
  one_entry user_id kind p path e es true matches w = refl
  one_entry user_id kind p path e es false true w = refl
  one_entry user_id kind p path e es false false w = refl

  pub resolved_entries :
      (user_id kind : Text) (p : EventPayload) (es : List TriggerIndexEntry) (path : Text) (w : W)
      → handle_entries user_id kind p es (some path) w
        ≡ (map (start_on path) (select (hits user_id kind p path) es), w)
  unfolding handle_entries select
  resolved_entries user_id kind p [] path w = refl
  resolved_entries user_id kind p (e ∷ es) path w = elim (Bool-cases (concerns user_id kind e)) [
    | inr n ↦ rw n (resolved_entries user_id kind p es path w)
    | inl y ↦
        rw (y, resolved_entries user_id kind p es path w)
          (one_entry user_id kind p path e es (is_internal_path path)
            (matches_filters e path p.space_id) w)
  ]

  -- An event resolves the item's path once if some entry of the user has its type, and not at all
  -- otherwise; then it starts, in the order of the index, exactly the entries of that user and type
  -- whose filters match the resolved path and the event's space, or none if the path is internal.
  -- Where the path cannot be resolved, it is the empty text.
  pub handle_entries-select :
      (user_id kind : Text) (p : EventPayload) (es : List TriggerIndexEntry) (w : W)
      → handle_entries user_id kind p es none w ≡ (
          let (path, w') = resolve p none w in
          if any_concerned user_id kind es
          then (map (start_on path) (select (hits user_id kind p path) es), w')
          else ([], w))
  unfolding handle_entries any_concerned select
  handle_entries-select user_id kind p [] w = refl
  handle_entries-select user_id kind p (e ∷ es) w = elim (Bool-cases (concerns user_id kind e)) [
    | inr n ↦ rw n (handle_entries-select user_id kind p es w)
    | inl y ↦
        rw (y, resolved_entries user_id kind p es (resolve p none w).0 (resolve p none w).1)
          (one_entry user_id kind p (resolve p none w).0 e es
            (is_internal_path (resolve p none w).0)
            (matches_filters e (resolve p none w).0 p.space_id) (resolve p none w).1)
  ]
