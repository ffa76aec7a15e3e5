-- ===== src/Reconcile/Pass.antt =====
-- reconciler.go, `reconcileDrive` and `Reconcile`.
pub mod Calls
pub mod Safety
pub mod Gaps
use ocis_workflows.Base.{
  ℕ, ◌+◌, ◌-◌, Text, text, Bool, true, false, ◌&&◌, not, Option, none, some, List, [], ◌∷◌, ltb,
  Result, ok, err, if◌then◌else◌,
}
use ocis_workflows.LocalDb.{TriggerIndexEntry, EventCursor, Lookup, full, sse_only}
use ocis_workflows.Services.{Services}
use ocis_workflows.Times.{Times}
use ocis_workflows.Ocis.{Activity}
use ocis_workflows.Reconcile.{
  Config, Sources, query_since, dispatch_all, drives_for_user, should_start_pass,
}

abbrev pub cursor : Text → Text → ℕ → Text → EventCursor
cursor user_id drive_id last_checked status = record {
  user_id = user_id;
  drive_id = drive_id;
  last_checked = last_checked;
  last_status = status;
}

module _ {W : Type 0} (s : Services W) (src : Sources W) (cfg : Config) where
  module _ (entries : List TriggerIndexEntry) (user_id auth drive_id : Text) where
    -- From the answer of `ListActivities` on.
    pub after_query : ℕ → ℕ → Result (List Activity) → W → Unit {0} × W
    after_query now last_checked (err e) w =
        let (stored, w') =
          src.upsert_event_cursor (cursor user_id drive_id last_checked sse_only) w in
        if src.cancelled w then (tt, w) else (tt, w')
    after_query now last_checked (ok activities) w =
        let (done, w1) = dispatch_all s entries user_id auth drive_id [] activities w in
        let (stored, w2) = src.upsert_event_cursor (cursor user_id drive_id now full) w1 in (tt, w2)

    -- From the debounce on.
    pub query : ℕ → Bool → ℕ → W → Unit {0} × W
    unfolding after_query
    query now first_ever last_checked w =
        let (r, w') = src.list_activities auth drive_id (query_since cfg now last_checked) w in
        if not first_ever && ltb now (last_checked + cfg.grace_period)
        then (tt, w)
        else after_query now last_checked r w'

    pub from_cursor : ℕ → Lookup EventCursor → W → Unit {0} × W
    unfolding query
    from_cursor now (Lookup.failed e) w = (tt, w)
    from_cursor now Lookup.not_found w = query now true (now - cfg.first_connect_lookback) w
    from_cursor now (Lookup.found c) w = query now false c.last_checked w

    unfoldable pub reconcile_drive : W → Unit {0} × W
    unfolding from_cursor
    reconcile_drive w =
        let (now, w1) = src.clock w in
        let (c, w2) = src.get_event_cursor user_id drive_id w1 in from_cursor now c w2

  -- `for _, driveID := range drives`
  unfoldable pub reconcile_drives :
      List TriggerIndexEntry → Text → Text → List Text → W → Unit {0} × W
  unfolding reconcile_drive
  reconcile_drives entries user_id auth [] w = (tt, w)
  reconcile_drives entries user_id auth (drive_id ∷ drives) w =
      let (done, w') = reconcile_drive entries user_id auth drive_id w in
      reconcile_drives entries user_id auth drives w'

  pub after_drives : List TriggerIndexEntry → Text → Text → Result (List Text) → W → Unit {0} × W
  unfolding reconcile_drives
  after_drives entries user_id auth (err e) w = (tt, w)
  after_drives entries user_id auth (ok drives) w = reconcile_drives entries user_id auth drives w

  pub after_entries : Text → Text → Result (List TriggerIndexEntry) → W → Unit {0} × W
  unfolding after_drives
  after_entries user_id auth (err e) w = (tt, w)
  after_entries user_id auth (ok entries) w =
      let (r, w') = drives_for_user src entries auth user_id w in
      after_drives entries user_id auth r w'

  -- `slot` tells whether the pass got a slot of the semaphore before its context was cancelled.
  unfoldable pub reconcile : Bool → Text → Text → Times → W → Times × W
  unfolding after_entries
  reconcile slot user_id auth passes w =
      let (now, w1) = src.clock w in
      let (start, passes') = should_start_pass cfg user_id now passes in
      let (r, w2) = s.list_event_triggers w1 in
      let (done, w3) = after_entries user_id auth r w2 in
      if start && slot then (passes', w3) else (passes', w1)
