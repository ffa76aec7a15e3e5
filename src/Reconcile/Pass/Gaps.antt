-- ===== src/Reconcile/Pass/Gaps.antt =====
-- reconciler.go, `reconcileDrive` and `Reconcile`: which stretches of time the queries of a drive
-- leave out. The windows that were answered are a trace of the world, newest first.
pub mod Drive
pub mod Passes
use ocis_workflows.Base.{
  ℕ, ◌+◌, ◌-◌, ◌≤◌, ◌<◌, Text, teq, Bool, true, false, Bool-cases, Option, none, some, List, [],
  ◌∷◌, ltb, ◌&&◌, not, arith, ◌≡◌, ◌⊎◌, inl, inr, refl, ok, err, Result, ◌∙◌, if◌then◌else◌,
}
use ocis_workflows.LocalDb.{
  TriggerIndexEntry, EventCursor, Lookup, to_column, from_column, full, sse_only,
}
use ocis_workflows.Ocis.{Activity}
use ocis_workflows.Services.{Services}
use ocis_workflows.Reconcile.{Config, Sources, query_since, dispatch_all}
use ocis_workflows.Reconcile.Dispatch.Calls.{Allows, dispatch_all-Keeps}
use ocis_workflows.LocalDb.Stored.{read_of, cut}
use ocis_workflows.Reconcile.Pass.{cursor, after_query, query, from_cursor, reconcile_drive}

pub record Window : Type 0 where
  pub since : ℕ
  pub until : ℕ

-- What is seen of the world: the stored cursor of one user and drive, the windows of the drive that
-- were answered, and the latest reading of the clock.
pub record Trace (W : Type 0) : Type 0 where
  pub stored : W → Option EventCursor
  pub answered : W → List Window
  pub time : W → ℕ

-- A time between two windows lies further back than the lookback when the second one ends.
abbrev pub NoGap : ℕ → Window → Window → Type 0
NoGap lookback newer older =
    (t : ℕ) → older.until < t → t < newer.since → t + lookback < newer.until

abbrev pub Gapless : ℕ → List Window → Type 0
Gapless lookback [] = Unit
Gapless lookback (w ∷ []) = Unit
Gapless lookback (w ∷ v ∷ ws) = NoGap lookback w v × Gapless lookback (v ∷ ws)

-- The cursor lies in or before the last window, or further back than the lookback.
abbrev pub Behind : ℕ → Option EventCursor → List Window → ℕ → Type 0
Behind lookback none ws time = Unit
Behind lookback (some c) [] time = Unit
Behind lookback (some c) (v ∷ ws) time =
    (c.last_checked ≤ v.until) ⊎ (c.last_checked + lookback ≤ time)

abbrev pub IsGapless : {W : Type 0} → Trace W → Config → W → Type 0
IsGapless tr cfg w =
    Gapless cfg.first_connect_lookback (tr.answered w)
    × Behind cfg.first_connect_lookback (tr.stored w) (tr.answered w) (tr.time w)

-- A world that differs at most by a later time.
abbrev pub Same : {W : Type 0} → Trace W → W → W → Type 0
Same tr w w' =
    (tr.stored w' ≡ tr.stored w) × (tr.answered w' ≡ tr.answered w) × (tr.time w ≤ tr.time w')

-- The windows after a query from `since` at `time` that gave `r`.
abbrev pub logged : Result (List Activity) → ℕ → ℕ → List Window → List Window
logged (err e) since time ws = ws
logged (ok activities) since time ws = record { since = since; until = time } ∷ ws

-- The trace records what the calls do: the clock does not go back; the driver stores and reads
-- cursors by their key or fails; a query is answered or not; nothing else touches the trace.
pub record IsTrace {W : Type 0} (s : Services W) (src : Sources W) (tr : Trace W)
    (user_id auth drive_id : Text) : Type 0 where
  pub dispatching : (w : W) → Allows s (Same tr w) user_id auth
  pub clock : (w : W) → Same tr w (src.clock w).1 × ((src.clock w).0 ≡ tr.time (src.clock w).1)
  pub read :
      (w : W)
      → let (r, w') = src.get_event_cursor user_id drive_id w in
        ((r ≡ read_of (tr.stored w)) ⊎ ((e : Text) × (r ≡ Lookup.failed e)))
        × Same tr w w'
        × (tr.time w' ≡ tr.time w)
  pub write :
      (last_checked : ℕ) (status : Text) (w : W)
      → let c = cursor user_id drive_id last_checked status in
        let w' = (src.upsert_event_cursor c w).1 in
        ((tr.stored w' ≡ some (cut c)) ⊎ (tr.stored w' ≡ tr.stored w))
        × (tr.answered w' ≡ tr.answered w)
        × (tr.time w ≤ tr.time w')
  pub query :
      (since : ℕ) (w : W)
      → let (r, w') = src.list_activities auth drive_id since w in
        (tr.stored w' ≡ tr.stored w)
        × (tr.answered w' ≡ logged r since (tr.time w) (tr.answered w))
        × (tr.time w ≤ tr.time w')

pub cut-le : (t : ℕ) → from_column (to_column t) ≤ t
cut-le t = omega arith

-- The time that a pass looks back from.
abbrev pub start_of : Config → ℕ → Option EventCursor → ℕ
start_of cfg now none = now - cfg.first_connect_lookback
start_of cfg now (some c) = c.last_checked

module _ (cfg : Config) (now time : ℕ) (later : time ≤ now) where
  -- A window that starts where the code has it leaves no gap.
  pub Gapless-cons :
      (c : Option EventCursor) (ws : List Window)
      → Gapless cfg.first_connect_lookback ws
      → Behind cfg.first_connect_lookback c ws time
      → Gapless cfg.first_connect_lookback
          (record { since = query_since cfg now (start_of cfg now c); until = now } ∷ ws)
  unfolding query_since
  Gapless-cons c [] g b = tt
  Gapless-cons none (v ∷ ws) g b = (λ t after before. ground arith, g)
  Gapless-cons (some c) (v ∷ ws) g b = (λ t after before. ground arith, g)

  -- A cursor that is set to the time that the pass looks back from stays behind.
  pub Behind-degraded :
      (user_id drive_id : Text) (c : Option EventCursor) (ws : List Window) (time' : ℕ)
      → now ≤ time'
      → Behind cfg.first_connect_lookback c ws time
      → Behind cfg.first_connect_lookback
          (some (cut (cursor user_id drive_id (start_of cfg now c) sse_only)))
          ws
          time'
  Behind-degraded user_id drive_id c [] time' l b = tt
  Behind-degraded user_id drive_id none (v ∷ ws) time' l b =
      elim (Bool-cases (ltb now cfg.first_connect_lookback)) [
        | inl early ↦ inl (ground arith)
        | inr far ↦ inr (ground (arith, cut-le (now - cfg.first_connect_lookback)))
      ]
  Behind-degraded user_id drive_id (some c) (v ∷ ws) time' l b = elim b [
    | inl within ↦ inl (omega (arith, cut-le c.last_checked))
    | inr old ↦ inr (omega (arith, cut-le c.last_checked))
  ]

pub Behind-later :
    (lookback : ℕ) (c : Option EventCursor) (ws : List Window) (time time' : ℕ)
    → time ≤ time'
    → Behind lookback c ws time
    → Behind lookback c ws time'
Behind-later lookback none ws time time' l b = tt
Behind-later lookback (some c) [] time time' l b = tt
Behind-later lookback (some c) (v ∷ ws) time time' l b = ground arith

-- The cursor does not lie after the pass's start.
abbrev pub Past : ℕ → Option EventCursor → Type 0
Past now none = Unit
Past now (some c) = c.last_checked ≤ now

abbrev pub is_none : Option EventCursor → Bool
is_none none = true
is_none (some c) = false

pub due-Past :
    (cfg : Config) (now : ℕ) (old : Option EventCursor) (first_ever : Bool)
    → first_ever ≡ is_none old
    → (not first_ever && ltb now (start_of cfg now old + cfg.grace_period)) ≡ false
    → Past now old
due-Past cfg now none first_ever known due = tt
due-Past cfg now (some c) first_ever known due = ground arith

pub Behind-cons :
    (lookback now since : ℕ) (old : Option EventCursor) (ws : List Window) (time : ℕ)
    → Past now old
    → Behind lookback old (record { since = since; until = now } ∷ ws) time
Behind-cons lookback now since none ws time past = tt
Behind-cons lookback now since (some c) ws time past = inl past

pub Same-IsGapless :
    {W : Type 0} (tr : Trace W) (cfg : Config) (w w' : W)
    → Same tr w w'
    → IsGapless tr cfg w
    → IsGapless tr cfg w'
Same-IsGapless tr cfg w w' (st, an, ti) (g, b) =
    rw (st, an) (g, Behind-later cfg.first_connect_lookback (tr.stored w) (tr.answered w) _ _ ti b)

-- The trace after a write of the cursor: the cursor is set, or it is as it was.
pub Behind-write :
    {W : Type 0} (tr : Trace W) (lookback : ℕ) (c : EventCursor) (old : Option EventCursor)
    (ws : List Window) (w : W)
    → (tr.stored w ≡ some c) ⊎ (tr.stored w ≡ old)
    → Behind lookback (some c) ws (tr.time w)
    → Behind lookback old ws (tr.time w)
    → Behind lookback (tr.stored w) ws (tr.time w)
Behind-write tr lookback c old ws w (inl set) b b' = rw set b
Behind-write tr lookback c old ws w (inr kept) b b' = rw kept b'
