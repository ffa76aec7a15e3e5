-- ===== src/Reconcile/Pass/Calls.antt =====
-- The calls that a reconciliation pass over one drive may make.
use ocis_workflows.Base.{
  ℕ, ◌+◌, ◌-◌, Text, List, [], ltb, Result, ok, err, ◌≡◌, ◌≤◌, ◌⊎◌, inl, inr, refl, arith, subst,
  Bool-cases,
}
use ocis_workflows.LocalDb.{TriggerIndexEntry, EventCursor, Lookup, full, sse_only}
use ocis_workflows.Services.{Services, Keeps, Keeps-if}
use ocis_workflows.Ocis.{Activity}
use ocis_workflows.Reconcile.{Config, Sources, query_since}
use ocis_workflows.Reconcile.Pass.{after_query, query, from_cursor, reconcile_drive, cursor}
use ocis_workflows.Reconcile.Dispatch.Calls.{
  Allows, Dispatches, Allows-Dispatches, dispatch_all-Dispatches,
}

-- Beside the calls of dispatching, a pass over a drive reads the clock and the cursor, queries from
-- a window that a cursor gives, and writes the drive's cursor of the user.
pub record AllowsDrive {W : Type 0} (s : Services W) (src : Sources W) (cfg : Config)
    (P : W → Type 0) (user_id auth drive_id : Text) : Type 0 where
  pub dispatching : Allows s P user_id auth
  pub clock : Keeps P src.clock
  pub read_cursor : Keeps P (src.get_event_cursor user_id drive_id)
  pub activities :
      (now last_checked : ℕ)
      → Keeps P (src.list_activities auth drive_id (query_since cfg now last_checked))
  pub write_cursor :
      (last_checked : ℕ) (status : Text)
      → Keeps P (src.upsert_event_cursor (cursor user_id drive_id last_checked status))

-- Where a pass over a drive stands: the clock gave `now`, and the cursor was read, of which the grace
-- period is over at `now`, or there was none, and then the window begins the lookback before `now`.
abbrev pub IsAt : {W : Type 0} → Sources W → Config → Text → Text → ℕ → ℕ → Type 0
IsAt {W} src cfg user_id drive_id now last_checked =
    ((w : W) × ((src.clock w).0 ≡ now))
    × (((w : W) × (c : EventCursor) × ((src.get_event_cursor user_id drive_id w).0 ≡ Lookup.found c)
          × (last_checked ≡ c.last_checked)
          × (last_checked + cfg.grace_period ≤ now))
        ⊎ ((w : W) × ((src.get_event_cursor user_id drive_id w).0 ≡ Lookup.not_found)
            × (last_checked ≡ now - cfg.first_connect_lookback)))

-- The later of two times.
abbrev pub IsLater : ℕ → ℕ → ℕ → Type 0
IsLater a b since = (a ≤ since) × (b ≤ since) × ((since ≡ a) ⊎ (since ≡ b))

-- The calls of a pass over a drive with these entries: it reads the clock and the cursor, queries
-- from the later of the cursor, less the overlap, and the lookback, dispatches, and writes the cursor
-- at the clock's time, or where it was with the other status.
pub record DriveCalls {W : Type 0} (s : Services W) (src : Sources W) (cfg : Config)
    (P : W → Type 0) (es : List TriggerIndexEntry) (user_id auth drive_id : Text) : Type 0 where
  pub dispatching : Dispatches s P es user_id auth drive_id
  pub clock : Keeps P src.clock
  pub read_cursor : Keeps P (src.get_event_cursor user_id drive_id)
  pub activities :
      (now last_checked since : ℕ)
      → IsAt src cfg user_id drive_id now last_checked
      → IsLater (last_checked - cfg.overlap) (now - cfg.first_connect_lookback) since
      → Keeps P (src.list_activities auth drive_id since)
  pub write_full :
      (now last_checked : ℕ)
      → IsAt src cfg user_id drive_id now last_checked
      → Keeps P (src.upsert_event_cursor (cursor user_id drive_id now full))
  pub write_failed :
      (now last_checked : ℕ)
      → IsAt src cfg user_id drive_id now last_checked
      → Keeps P (src.upsert_event_cursor (cursor user_id drive_id last_checked sse_only))

query_since-IsLater :
    (cfg : Config) (now last_checked : ℕ)
    → IsLater
        (last_checked - cfg.overlap)
        (now - cfg.first_connect_lookback)
        (query_since cfg now last_checked)
unfolding query_since
query_since-IsLater cfg now last_checked =
    elim (Bool-cases (ltb (last_checked - cfg.overlap) (now - cfg.first_connect_lookback))) [
      | inl e ↦ rw e (ground (arith, e), omega arith, inr refl)
      | inr e ↦ rw e (omega arith, ground (arith, e), inl refl)
    ]

IsLater-unique :
    (cfg : Config) (now last_checked since : ℕ)
    → IsLater (last_checked - cfg.overlap) (now - cfg.first_connect_lookback) since
    → query_since cfg now last_checked ≡ since
IsLater-unique cfg now last_checked since later =
    omega (arith, later, query_since-IsLater cfg now last_checked)

module _ {W : Type 0} (s : Services W) (src : Sources W) (cfg : Config) (P : W → Type 0)
    (es : List TriggerIndexEntry) (user_id auth drive_id : Text)
    (calls : DriveCalls s src cfg P es user_id auth drive_id) where
  after_query-Keeps :
      (now last_checked : ℕ) (r : Result (List Activity))
      → IsAt src cfg user_id drive_id now last_checked
      → Keeps P (after_query s src cfg es user_id auth drive_id now last_checked r)
  unfolding after_query
  after_query-Keeps now last_checked (err e) at w h =
      Keeps-if P (src.cancelled w) _ _ (λ _. h) (calls.write_failed now last_checked at w h)
  after_query-Keeps now last_checked (ok activities) at w h =
      calls.write_full now last_checked at _
        (dispatch_all-Dispatches s P es user_id auth drive_id calls.dispatching [] activities w h)

  queried-Keeps :
      (now last_checked : ℕ)
      → IsAt src cfg user_id drive_id now last_checked
      → (w : W) → P w
      → let (r, w') = src.list_activities auth drive_id (query_since cfg now last_checked) w in
        P (after_query s src cfg es user_id auth drive_id now last_checked r w').1
  queried-Keeps now last_checked at w h =
      after_query-Keeps now last_checked _ at _
        (calls.activities now last_checked _ at (query_since-IsLater cfg now last_checked) w h)

  from_cursor-Keeps :
      (now : ℕ) (w0 w1 : W) (c : Lookup EventCursor)
      → (src.clock w0).0 ≡ now
      → (src.get_event_cursor user_id drive_id w1).0 ≡ c
      → Keeps P (from_cursor s src cfg es user_id auth drive_id now c)
  unfolding from_cursor query
  from_cursor-Keeps now w0 w1 (Lookup.failed e) clocked was w h = h
  from_cursor-Keeps now w0 w1 Lookup.not_found clocked was w h =
      queried-Keeps now (now - cfg.first_connect_lookback) ((w0, clocked), inr (w1, was, refl)) w h
  from_cursor-Keeps now w0 w1 (Lookup.found c) clocked was w h =
      elim (Bool-cases (ltb now (c.last_checked + cfg.grace_period))) [
        | inl early ↦ rw early h
        | inr over ↦ rw over (
            queried-Keeps now c.last_checked
              ((w0, clocked), inl (w1, c, was, refl, ground (arith, over))) w h)
      ]

  pub drive-Keeps : Keeps P (reconcile_drive s src cfg es user_id auth drive_id)
  unfolding reconcile_drive
  drive-Keeps w h =
      let w1 : W = (src.clock w).1 in
      from_cursor-Keeps (src.clock w).0 w w1 (src.get_event_cursor user_id drive_id w1).0 refl refl
        _ (calls.read_cursor w1 (calls.clock w h))

module _ {W : Type 0} (s : Services W) (src : Sources W) (cfg : Config) (P : W → Type 0)
    (user_id auth drive_id : Text) (allows : AllowsDrive s src cfg P user_id auth drive_id)
    (es : List TriggerIndexEntry) where
  pub reconcile_drive-Keeps : Keeps P (reconcile_drive s src cfg es user_id auth drive_id)
  reconcile_drive-Keeps = drive-Keeps s src cfg P es user_id auth drive_id (record {
    dispatching = Allows-Dispatches s P user_id auth allows.dispatching es drive_id;
    clock = allows.clock;
    read_cursor = allows.read_cursor;
    activities = λ now last_checked since at later.
        subst (λ t. Keeps P (src.list_activities auth drive_id t))
          (IsLater-unique cfg now last_checked since later) (allows.activities now last_checked);
    write_full = λ now last_checked at. allows.write_cursor now full;
    write_failed = λ now last_checked at. allows.write_cursor last_checked sse_only;
  })
