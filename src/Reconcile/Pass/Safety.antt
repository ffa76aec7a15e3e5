-- ===== src/Reconcile/Pass/Safety.antt =====
-- All that a reconciliation pass may do.
use ocis_workflows.Base.{Text, Bool, ◌&&◌, List, [], ◌∷◌, Result, ok, err, ◌≡◌, refl}
use ocis_workflows.LocalDb.{TriggerIndexEntry}
use ocis_workflows.Services.{Services, Keeps, Keeps-if}
use ocis_workflows.Times.{Times}
use ocis_workflows.Reconcile.{Config, Sources, drives_for_user, needs_all, should_start_pass}
use ocis_workflows.Reconcile.Pass.{
  reconcile_drive, reconcile_drives, after_drives, after_entries, reconcile,
}
use ocis_workflows.Reconcile.Pass.Calls.{DriveCalls, drive-Keeps}

-- A whole pass also reads the trigger index and the drives; the entries are some answer of the index.
pub record AllowsPass {W : Type 0} (s : Services W) (src : Sources W) (cfg : Config)
    (P : W → Type 0) (user_id auth : Text) : Type 0 where
  pub drive :
      (w : W) (es : List TriggerIndexEntry)
      → (s.list_event_triggers w).0 ≡ ok es
      → (drive_id : Text) → DriveCalls s src cfg P es user_id auth drive_id
  pub clock : Keeps P src.clock
  pub entries : Keeps P s.list_event_triggers
  pub ordering : (set : List Text) → Keeps P (src.iterate set)
  pub drives : Keeps P (src.list_drives auth)

-- The drives of a pass, whose parts are given by what they keep.
module _ {W : Type 0} (s : Services W) (src : Sources W) (cfg : Config) (P : W → Type 0)
    (user_id auth : Text)
    (over : (w : W) (es : List TriggerIndexEntry)
      → (s.list_event_triggers w).0 ≡ ok es
      → (drive_id : Text) → Keeps P (reconcile_drive s src cfg es user_id auth drive_id))
    (clock : Keeps P src.clock) (entries : Keeps P s.list_event_triggers)
    (ordering : (set : List Text) → Keeps P (src.iterate set))
    (drives : Keeps P (src.list_drives auth)) where
  reconcile_drives-Keeps :
      (w0 : W) (es : List TriggerIndexEntry) (ds : List Text)
      → (s.list_event_triggers w0).0 ≡ ok es
      → Keeps P (reconcile_drives s src cfg es user_id auth ds)
  unfolding reconcile_drives
  reconcile_drives-Keeps w0 es [] read w h = h
  reconcile_drives-Keeps w0 es (drive_id ∷ ds) read w h =
      reconcile_drives-Keeps w0 es ds read _ (over w0 es read drive_id w h)

  drives_for_user-Keeps :
      (es : List TriggerIndexEntry) → Keeps P (drives_for_user src es auth user_id)
  unfolding drives_for_user
  drives_for_user-Keeps es w h =
      Keeps-if P (needs_all user_id es) _ _ (λ _. drives w h) (ordering _ w h)

  after_drives-Keeps :
      (w0 : W) (es : List TriggerIndexEntry) (r : Result (List Text))
      → (s.list_event_triggers w0).0 ≡ ok es
      → Keeps P (after_drives s src cfg es user_id auth r)
  unfolding after_drives
  after_drives-Keeps w0 es (err e) read w h = h
  after_drives-Keeps w0 es (ok ds) read w h = reconcile_drives-Keeps w0 es ds read w h

  after_entries-Keeps :
      (w0 : W) (r : Result (List TriggerIndexEntry))
      → (s.list_event_triggers w0).0 ≡ r
      → Keeps P (after_entries s src cfg user_id auth r)
  unfolding after_entries
  after_entries-Keeps w0 (err e) read w h = h
  after_entries-Keeps w0 (ok es) read w h =
      after_drives-Keeps w0 es (drives_for_user src es auth user_id w).0 read _
        (drives_for_user-Keeps es w h)

  pub pass-Keeps :
      (slot : Bool) (passes : Times) (w : W)
      → P w
      → P (reconcile s src cfg slot user_id auth passes w).1
  unfolding reconcile
  pass-Keeps slot passes w h =
      let w1 : W = (src.clock w).1 in
      Keeps-if P ((should_start_pass cfg user_id (src.clock w).0 passes).0 && slot) _ _
        (λ _. after_entries-Keeps w1 (s.list_event_triggers w1).0 refl _ (entries w1 (clock w h)))
        (clock w h)

module _ {W : Type 0} (s : Services W) (src : Sources W) (cfg : Config) (P : W → Type 0)
    (user_id auth : Text) (allows : AllowsPass s src cfg P user_id auth) where
  -- A pass for a user, whatever its calls answer, makes no call but these: it reads the clock, the
  -- trigger index, the drives and the user's cursors; it queries a drive's activities from the later
  -- of the cursor, less the overlap, and the lookback, where the grace period of the cursor is over or
  -- there is no cursor; it resolves paths of items of the drive; for an entry of the index that is the
  -- user's, whose event type a message has and whose filters admit a path that an item of the drive
  -- resolved to, outside the sidecar's own folder, it loads the entry's workflow and executes what it
  -- loaded on that path, as "event", if it is enabled; it stores records; and it writes the drive's
  -- cursor of the user at the clock's time, or where it was with the status of a failure. A property of
  -- the world that those calls keep is kept by the pass.
  pub reconcile-Keeps :
      (slot : Bool) (passes : Times) (w : W)
      → P w
      → P (reconcile s src cfg slot user_id auth passes w).1
  reconcile-Keeps =
      pass-Keeps s src cfg P user_id auth
        (λ w es read drive_id.
          drive-Keeps s src cfg P es user_id auth drive_id (allows.drive w es read drive_id))
        allows.clock allows.entries allows.ordering allows.drives
