-- ===== src/Scheduler.antt =====
-- backend/pkg/scheduler/scheduler.go. A time is a number of nanoseconds since the zero time.
pub mod Ticks
pub mod Runs
pub mod Starts
pub mod Loop
use ocis_workflows.Base.{
  ℕ, Text, text, teq, Bool, true, false, Option, none, some, List, [], ◌∷◌, ltb, Result, ok, err,
  map, ◌++◌, if◌then◌else◌,
}
use ocis_workflows.Model.{WorkflowDefinition}
use ocis_workflows.LocalDb.{Automation, TriggerIndexEntry, Lookup}
use ocis_workflows.Times.{Times, get_time, set_time}
use ocis_workflows.Services.{Services, basic_auth, load_and_run}

-- cron.Schedule: `Next` gives the first activation after a time, or the zero time if there is none
-- in the five years after it.
pub record Schedule : Type 0 where
  pub next : ℕ → ℕ

-- `s.lastRun`: by workflow.
abbrev pub LastRun : Type 0
LastRun = Times

-- The time to count from, and the map, in which the first sight of a workflow is noted.
unfoldable pub last_run_for : Text → ℕ → LastRun → ℕ × LastRun
unfolding get_time set_time
last_run_for workflow_id now m = elim (get_time workflow_id m) [
  | none ↦ (now, set_time workflow_id now m)
  | some last ↦ (last, m)
]

-- One entry of the loop: whether it is due, and the map after it.
unfoldable pub check : (Text → Option Schedule) → ℕ → TriggerIndexEntry → LastRun → Bool × LastRun
unfolding last_run_for
check parse now e m = elim (parse e.schedule) [
  | none ↦ (false, m)
  | some schedule ↦
      let (last, m') = last_run_for e.workflow_id now m in
      if ltb now (schedule.next last) then (false, m') else (true, set_time e.workflow_id now m')
]

-- The loop of `tick`: the entries that it starts a goroutine for, in order, and the map after it.
unfoldable pub tick_entries :
    (Text → Option Schedule)
    → ℕ
    → List TriggerIndexEntry
    → LastRun
    → List TriggerIndexEntry × LastRun
unfolding check
tick_entries parse now [] m = ([], m)
tick_entries parse now (e ∷ es) m =
    let (due, m') = check parse now e m in
    let (started, m'') = tick_entries parse now es m' in (if due then e ∷ started else started, m'')

module _ {W : Type 0} (s : Services W) where
  unfoldable pub tick :
      (Text → Option Schedule) → ℕ → LastRun → W → List TriggerIndexEntry × LastRun × W
  unfolding tick_entries
  tick parse now m w =
      let (r, w') = s.list_schedule_triggers w in
      elim r [
        | err e ↦ ([], m, w')
        | ok entries ↦ let (started, m') = tick_entries parse now entries m in (started, m', w')
      ]

  after_credential : TriggerIndexEntry → Lookup Automation → W → Unit {0} × W
  unfolding load_and_run
  after_credential e Lookup.not_found w = (tt, w)
  after_credential e (Lookup.failed x) w = (tt, w)
  after_credential e (Lookup.found automation) w =
      load_and_run s (basic_auth s automation) (text "schedule") e.workflow_id (text "") w

  -- A goroutine that `tick` starts.
  unfoldable pub run_one : TriggerIndexEntry → W → Unit {0} × W
  unfolding after_credential
  run_one e w = let (a, w') = s.get_automation e.user_id w in after_credential e a w'

-- What the loop of `Start` waits for: the end of the context, or a tick with the time that `tick`
-- reads. `elapsed` is what happened to the world meanwhile, the goroutines of earlier ticks included.
pub data Signal (W : Type 0) : Type 0 where
  done : Signal W
  ticked : ℕ → Signal W
  elapsed : (W → W) → Signal W

abbrev pub at_time : ℕ → TriggerIndexEntry → ℕ × TriggerIndexEntry
at_time now e = (now, e)

module _ {W : Type 0} (s : Services W) (parse : Text → Option Schedule) where
  -- The entries that `Start` starts a goroutine for, with the time of the tick.
  unfoldable pub start : List (Signal W) → LastRun → W → List (ℕ × TriggerIndexEntry)
  unfolding tick
  start [] m w = []
  start (Signal.done ∷ rest) m w = []
  start (Signal.elapsed f ∷ rest) m w = start rest m (f w)
  start (Signal.ticked now ∷ rest) m w =
      let (started, m', w') = tick s parse now m w in map (at_time now) started ++ start rest m' w'
