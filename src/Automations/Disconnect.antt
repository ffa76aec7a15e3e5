-- ===== src/Automations/Disconnect.antt =====
-- `Disconnect`: what is left of a user.
use ocis_workflows.Base.{
  Text, teq, some, [], arith, ok, ◌≡◌, refl, ◌∙◌, if◌then◌else◌, delete_row, select, not, teq_iff,
  find_row-delete_row,
}
use ocis_workflows.LocalDb.{
  Automation, AutomationRow, Db, found, not_found, full, get_automation, get_reliability,
  scan_automation,
}
use ocis_workflows.LocalDb.Automations.{
  get_automation-quiet, get_automation-same, delete_automation-quiet,
}
use ocis_workflows.LocalDb.Cursors.{delete_event_cursors-quiet, any_degraded-select}
use ocis_workflows.Automations.{Outside, State, disconnect, forget}

abbrev pub without_automation : Text → Db → Db
without_automation user_id db = record db {
  automations = delete_row teq (λ r. r.user_id) user_id db.automations;
}

abbrev pub without_cursors : Text → Db → Db
without_cursors user_id db = record db {
  event_cursors = select (λ c. not (teq c.user_id user_id)) db.event_cursors;
}

module _ {W : Type 0} (o : Outside W) where
  disconnect-found :
      (auth user_id : Text) (s : State W) (w : W) (a : Automation)
      → o.me auth s.world ≡ (ok user_id, w)
      → s.db.faults ≡ []
      → (get_automation user_id s.db).0 ≡ found a
      → disconnect o auth s ≡ forget o auth user_id (some a) (record { world = w; db = s.db })
  unfolding disconnect
  disconnect-found auth user_id s w a me quiet h =
      rw (me, h, get_automation-same user_id s.db quiet) refl

  forget-quiet :
      (auth user_id : Text) (s : State W) (a : Automation)
      → s.db.faults ≡ []
      → forget o auth user_id (some a) s ≡ (
        ok tt,
        record {
          world = (o.revoke_app_password auth a.app_password s.world).1;
          db = without_cursors user_id (without_automation user_id s.db);
        },
      )
  unfolding forget
  forget-quiet auth user_id s a quiet =
      rw
        (
          delete_automation-quiet user_id s.db quiet,
          delete_event_cursors-quiet user_id (without_automation user_id s.db) quiet,
        )
        refl

  -- With a driver that does not fail, `Disconnect` of a user with a credential returns no error,
  -- whatever the revocation answers; then the user has no credential and full reliability, and every
  -- other user has what it had.
  pub disconnect-forgets :
      (auth user_id other : Text) (s : State W) (w : W) (a : Automation)
      → o.me auth s.world ≡ (ok user_id, w)
      → s.db.faults ≡ []
      → (get_automation user_id s.db).0 ≡ found a
      → let (r, s') = disconnect o auth s in
        (r ≡ ok tt)
        × ((get_automation other s'.db).0
            ≡ (if teq user_id other then not_found else (get_automation other s.db).0))
        × ((get_reliability other s'.db).0
            ≡ (if teq user_id other then ok full else (get_reliability other s.db).0))
  unfolding scan_automation get_reliability
  disconnect-forgets auth user_id other s w a me quiet h =
      rw
        (
          disconnect-found auth user_id s w a me quiet h,
          forget-quiet auth user_id (record { world = w; db = s.db }) a quiet,
        )
        (
          refl,
          get_automation-quiet other (without_cursors user_id (without_automation user_id s.db))
                quiet
              ∙ ground (
                arith,
                get_automation-quiet other s.db quiet,
                find_row-delete_row teq teq_iff (λ (r : AutomationRow). r.user_id) other user_id
                    s.db.automations,
              ),
          ground (arith, any_degraded-select user_id other s.db.event_cursors),
        )
