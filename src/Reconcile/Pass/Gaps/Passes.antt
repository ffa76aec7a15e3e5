-- ===== src/Reconcile/Pass/Gaps/Passes.antt =====
-- reconciler.go, `Reconcile`: a history of passes for a user leaves no gap in a drive.
use ocis_workflows.Base.{
  ℕ, Text, teq, teq_iff, Bool, false, Bool-cases, Option, none, some, List, [], arith, ◌≡◌, inl,
  inr, refl,
}
use ocis_workflows.LocalDb.{TriggerIndexEntry, EventCursor}
use ocis_workflows.Services.{Services}
use ocis_workflows.Reconcile.{Config, Sources}
use ocis_workflows.Reconcile.Pass.{reconcile_drive}
use ocis_workflows.Times.{Times}
use ocis_workflows.Services.{Keeps}
use ocis_workflows.Reconcile.Pass.{reconcile}
use ocis_workflows.Reconcile.Pass.Calls.{AllowsDrive, reconcile_drive-Keeps}
use ocis_workflows.Reconcile.Pass.Safety.{pass-Keeps}
use ocis_workflows.Reconcile.Pass.Gaps.{
  Window, Trace, Gapless, Behind, IsGapless, Same, IsTrace, Same-IsGapless,
}
use ocis_workflows.Reconcile.Pass.Gaps.Drive.{drive-IsGapless}

-- Beside the drive's own calls, those of a pass for the user leave the drive's trace alone.
pub record IsPassTrace {W : Type 0} (s : Services W) (src : Sources W) (cfg : Config) (tr : Trace W)
    (user_id auth drive_id : Text) : Type 0 where
  pub own : IsTrace s src tr user_id auth drive_id
  pub other :
      (w : W) (d : Text) → teq d drive_id ≡ false → AllowsDrive s src cfg (Same tr w) user_id auth d
  pub entries : (w : W) → Same tr w (s.list_event_triggers w).1
  pub ordering : (set : List Text) (w : W) → Same tr w (src.iterate set w).1
  pub drives : (w : W) → Same tr w (src.list_drives auth w).1

module _ {W : Type 0} (s : Services W) (src : Sources W) (cfg : Config) (tr : Trace W)
    (user_id auth drive_id : Text) where
  -- Passes for the user, each with a slot of the semaphore or none, and between them anything that
  -- leaves the drive's trace alone. At the start no window was answered.
  pub data History : W → Type 0 where
    start : (w : W) → tr.answered w ≡ [] → History w
    pass :
        (slot : Bool) (passes : Times) {w : W}
        → History w
        → History (reconcile s src cfg slot user_id auth passes w).1
    between : {w : W} (w' : W) → History w → Same tr w w' → History w'

  module _ (laws : IsPassTrace s src cfg tr user_id auth drive_id) where
    drive_pass-Keeps :
        (es : List TriggerIndexEntry) (d : Text)
        → Keeps (IsGapless tr cfg) (reconcile_drive s src cfg es user_id auth d)
    drive_pass-Keeps es d w inv = elim (Bool-cases (teq d drive_id)) [
      | inl own ↦
          rw ((teq_iff d drive_id).0 own)
            (drive-IsGapless s src cfg tr user_id auth drive_id laws.own es w inv)
      | inr other ↦
          Same-IsGapless tr cfg w _
            (reconcile_drive-Keeps s src cfg (Same tr w) user_id auth d (laws.other w d other) es w
              (refl, refl, omega arith))
            inv
    ]

    start-IsGapless :
        (c : Option EventCursor) (ws : List Window) (time : ℕ)
        → ws ≡ []
        → Gapless cfg.first_connect_lookback ws × Behind cfg.first_connect_lookback c ws time
    start-IsGapless none ws time e = rw e (tt, tt)
    start-IsGapless (some c) ws time e = rw e (tt, tt)

    History-IsGapless : {w : W} → History w → IsGapless tr cfg w
    History-IsGapless (start w none_yet) =
        start-IsGapless (tr.stored w) (tr.answered w) (tr.time w) none_yet
    History-IsGapless (pass slot passes {w} h) =
        pass-Keeps s src cfg (IsGapless tr cfg) user_id auth (λ v es read. drive_pass-Keeps es)
          (λ v inv. Same-IsGapless tr cfg v _ (laws.own.clock v).0 inv)
          (λ v inv. Same-IsGapless tr cfg v _ (laws.entries v) inv)
          (λ set v inv. Same-IsGapless tr cfg v _ (laws.ordering set v) inv)
          (λ v inv. Same-IsGapless tr cfg v _ (laws.drives v) inv) slot passes w
          (History-IsGapless h)
    History-IsGapless (between {w} w' h same) =
        Same-IsGapless tr cfg w w' same (History-IsGapless h)

    -- In every history of passes for a user, whatever calls fail, is cancelled or is debounced, the
    -- windows of a drive whose queries were answered leave no gap but what lies further back than
    -- the lookback: a time after the end of one of them and before the start of the next lies more
    -- than the lookback before the end of that next one.
    pub reconcile-Gapless : {w : W} → History w → Gapless cfg.first_connect_lookback (tr.answered w)
    reconcile-Gapless h = (History-IsGapless h).0
