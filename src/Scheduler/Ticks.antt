-- ===== src/Scheduler/Ticks.antt =====
-- Which entries a tick starts, and when one entry is started over a sequence of ticks.
use ocis_workflows.Base.{
  ℕ, Text, teq, teq_iff, teq_refl, true, false, not, Option, none, some, List, [], ◌∷◌, ltb, arith,
  select, ◌≡◌, ◌≤◌, ◌<◌, inl, inr, refl, IsKeyed, find_row, if◌then◌else◌, Bool-cases, All,
}
use ocis_workflows.LocalDb.{TriggerIndexEntry}
use ocis_workflows.Times.{get_time, set_time, get_time-set_time}
use ocis_workflows.Scheduler.{Schedule, LastRun, last_run_for, check, tick_entries}

module _ (parse : Text → Option Schedule) (now : ℕ) where
  -- An entry's check leaves what is stored for other workflows.
  pub get_time-check :
      (e : TriggerIndexEntry) (m : LastRun) (other : Text)
      → teq e.workflow_id other ≡ false
      → get_time other (check parse now e m).1 ≡ get_time other m
  unfolding check
  get_time-check e m other h = ground (
    arith,
    get_time-set_time e.workflow_id other now m,
    get_time-set_time e.workflow_id other now (set_time e.workflow_id now m),
  )

  -- A check reads only what is stored for its own workflow.
  check-cong :
      (e : TriggerIndexEntry) (m n : LastRun)
      → get_time e.workflow_id m ≡ get_time e.workflow_id n
      → (check parse now e m).0 ≡ (check parse now e n).0
  unfolding check
  check-cong e m n h = ground arith

  -- The entries from here on see `m` as they saw `n`.
  SameFor : List TriggerIndexEntry → LastRun → LastRun → Type 0
  SameFor es m n = All (λ e. get_time e.workflow_id m ≡ get_time e.workflow_id n) es

  SameFor-check :
      (e : TriggerIndexEntry) (es : List TriggerIndexEntry) (m n : LastRun)
      → find_row teq (λ r. r.workflow_id) e.workflow_id es ≡ none
      → SameFor es m n
      → SameFor es (check parse now e m).1 n
  unfolding SameFor find_row
  SameFor-check e [] m n h s = tt
  SameFor-check e (d ∷ es) m n h s = (
    ground (
      arith,
      get_time-check e m d.workflow_id,
      teq_iff e.workflow_id d.workflow_id,
      teq_iff d.workflow_id e.workflow_id,
    ),
    SameFor-check e es m n (ground arith) s.1,
  )

  started-select :
      (es : List TriggerIndexEntry) (m n : LastRun)
      → IsKeyed teq (λ r. r.workflow_id) es
      → SameFor es m n
      → (tick_entries parse now es m).0 ≡ select (λ e. (check parse now e n).0) es
  unfolding tick_entries select SameFor
  started-select [] m n k s = refl
  started-select (e ∷ es) m n k s = ground (
    arith,
    check-cong e m n s.0,
    started-select es (check parse now e m).1 n k.1 (SameFor-check e es m n k.0 s.1),
  )

  SameFor-refl : (es : List TriggerIndexEntry) (m : LastRun) → SameFor es m m
  unfolding SameFor
  SameFor-refl [] m = tt
  SameFor-refl (e ∷ es) m = (refl, SameFor-refl es m)

  -- If the index has at most one entry for each workflow, a tick starts exactly the entries that are
  -- due by the times stored before the tick, in the order of the index: the entries checked
  -- before one do not change whether it is due.
  pub tick_entries-select :
      (es : List TriggerIndexEntry) (m : LastRun)
      → IsKeyed teq (λ r. r.workflow_id) es
      → (tick_entries parse now es m).0 ≡ select (λ e. (check parse now e m).0) es
  tick_entries-select es m k = started-select es m m k (SameFor-refl es m)

-- The times, among those of the ticks, at which an entry is started.
pub fires : (Text → Option Schedule) → TriggerIndexEntry → List ℕ → LastRun → List ℕ
fires parse e [] m = []
fires parse e (now ∷ later) m =
    let (due, m') = check parse now e m in
    let rest = fires parse e later m' in if due then now ∷ rest else rest

-- Each time lies at or after the schedule's next activation after the one before it.
abbrev pub Spaced : Schedule → ℕ → List ℕ → Type 0
Spaced schedule last [] = Unit
Spaced schedule last (t ∷ ts) = (schedule.next last ≤ t) × Spaced schedule t ts

module _ (parse : Text → Option Schedule) (schedule : Schedule) (e : TriggerIndexEntry)
    (valid : parse e.schedule ≡ some schedule) where
  pub check-stored :
      (now last : ℕ) (m : LastRun)
      → get_time e.workflow_id m ≡ some last
      → ((check parse now e m).0 ≡ not (ltb now (schedule.next last)))
        × (get_time e.workflow_id (check parse now e m).1
            ≡ some (if ltb now (schedule.next last) then last else now))
  unfolding check
  check-stored now last m h =
      ground (arith, get_time-set_time e.workflow_id e.workflow_id now m, teq_refl e.workflow_id)

  fires-Spaced_from :
      (ticks : List ℕ) (last : ℕ) (m : LastRun)
      → get_time e.workflow_id m ≡ some last
      → Spaced schedule last (fires parse e ticks m)
  unfolding fires
  fires-Spaced_from [] last m h = tt
  fires-Spaced_from (now ∷ later) last m h = elim (Bool-cases (ltb now (schedule.next last))) [
    | inl early ↦
        let (due, stored) = check-stored now last m h in
        let e1 : (check parse now e m).0 ≡ false = ground arith in
        rw e1 (fires-Spaced_from later last _ (ground arith))
    | inr hit ↦
        let (due, stored) = check-stored now last m h in
        let e1 : (check parse now e m).0 ≡ true = ground arith in
        rw e1 (ground arith, fires-Spaced_from later now _ (ground arith))
  ]

  pub check-new :
      (now : ℕ) (m : LastRun)
      → now < schedule.next now
      → get_time e.workflow_id m ≡ none
      → ((check parse now e m).0 ≡ false)
        × (get_time e.workflow_id (check parse now e m).1 ≡ some now)
  unfolding check
  check-new now m later new =
      ground (arith, get_time-set_time e.workflow_id e.workflow_id now m, teq_refl e.workflow_id)

  -- For a schedule that has a next activation after every time, strictly later: whatever the times of
  -- the ticks, an entry that is not known yet is not started by the first tick that sees it, is
  -- started first at or after the schedule's next activation after that tick, and then each time
  -- at or after the next activation after the start before.
  pub fires-Spaced :
      (first : ℕ) (ticks : List ℕ) (m : LastRun)
      → ((t : ℕ) → t < schedule.next t)
      → get_time e.workflow_id m ≡ none
      → Spaced schedule first (fires parse e (first ∷ ticks) m)
  unfolding fires
  fires-Spaced first ticks m advances new =
      let (quiet, stored) = check-new first m (advances first) new in
      rw quiet (fires-Spaced_from ticks first _ stored)

  -- A schedule without a next activation, for which `Next` gives the zero time, is due at every
  -- tick, whatever is stored.
  pub check_no_activation :
      (now : ℕ) (m : LastRun) → ((t : ℕ) → schedule.next t ≡ 0) → (check parse now e m).0 ≡ true
  unfolding check
  check_no_activation now m never =
      ground (arith, never now, never (last_run_for e.workflow_id now m).0)
