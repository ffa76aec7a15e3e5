-- ===== src/Wiring/Traced.antt =====
-- The passes of the running program: the cursors are rows of the database, and all else that a pass
-- calls is of the outer world.
use ocis_workflows.Base.{
  ℕ, ◌≤◌, ◌*◌, Text, text, teq, false, Bool, some, List, arith, ◌≡◌, ◌⊎◌, inl, inr, refl, ap, ◌∙◌,
}
use ocis_workflows.Model.{WorkflowDefinition, ExecutionRecord}
use ocis_workflows.LocalDb.{second, Db, EventCursor, same_cursor, upsert_event_cursor}
use ocis_workflows.LocalDb.Cursors.{same_cursor_iff}
use ocis_workflows.LocalDb.Stored.{
  row_of, cut, get_event_cursor-reads, upsert_event_cursor-writes, list_event_triggers-cursors,
}
use ocis_workflows.Ocis
use ocis_workflows.WebdavStore.Store
use ocis_workflows.Executor.Run
use ocis_workflows.Api.Wire.{State}
use ocis_workflows.Reconcile.{Config}
use ocis_workflows.Reconcile.Dispatch.Calls.{Allows}
use ocis_workflows.Reconcile.Pass.{cursor}
use ocis_workflows.Reconcile.Pass.Gaps.{Window, Gapless, Trace, Same, logged, IsTrace}
use ocis_workflows.Reconcile.Pass.Gaps.Passes.{IsPassTrace, History, reconcile-Gapless}
use ocis_workflows.Wiring.{Parts, clients_of}
use ocis_workflows.Wiring.Background.{services_of}
use ocis_workflows.Wiring.Startup.{sources_of, reconcile_config}

differ :
    (user_id drive_id d : Text)
    → teq d drive_id ≡ false
    → same_cursor (user_id, d) (user_id, drive_id) ≡ false
unfolding same_cursor
differ user_id drive_id d other = rw other (ground arith)

own_write :
    (user_id drive_id : Text) (last_checked : ℕ) (status : Text) (db : Db)
    → let c = cursor user_id drive_id last_checked status in
      let new = row_of (user_id, drive_id) (upsert_event_cursor c db).1.event_cursors in
      (new ≡ some (cut c)) ⊎ (new ≡ row_of (user_id, drive_id) db.event_cursors)
own_write user_id drive_id last_checked status db =
    let c : EventCursor = cursor user_id drive_id last_checked status in
    elim (upsert_event_cursor-writes (user_id, drive_id) c db) [
      | inl kept ↦ inr kept
      | inr set ↦ inl (rw ((same_cursor_iff (user_id, drive_id) (user_id, drive_id)).1 refl) at set)
    ]

other_write :
    (user_id drive_id d : Text) (last_checked : ℕ) (status : Text) (db : Db)
    → teq d drive_id ≡ false
    → row_of
        (user_id, drive_id)
        (upsert_event_cursor (cursor user_id d last_checked status) db).1.event_cursors
      ≡ row_of (user_id, drive_id) db.event_cursors
other_write user_id drive_id d last_checked status db other =
    elim (upsert_event_cursor-writes (user_id, drive_id) (cursor user_id d last_checked status)
      db) [ inl kept ↦ kept | inr set ↦ rw (differ user_id drive_id d other) at set ]

module _ {W : Type 0} (p : Parts W) (cancelled : W → Bool) (iterate : List Text → W → List Text × W)
    (log : W → List Window) (time : W → ℕ) where
  abbrev pub Quiet : W → W → Type 0
  Quiet w w' = (log w' ≡ log w) × (time w ≤ time w')

  -- What the outer world does to the windows of a drive and to the clock.
  pub record IsOuterTrace (user_id auth drive_id : Text) : Type 0 where
    pub clock : (w : W) → Quiet w (p.clock w).1 × ((p.clock w).0 ≡ time (p.clock w).1)
    pub resolve :
        (space item : Text) (w : W) → Quiet w (Ocis.item_path p.store.ocis auth space item w).1
    pub load : (id : Text) (w : W) → Quiet w (Store.get p.store auth id w).1
    pub run :
        (wf : WorkflowDefinition) (path : Text) (w : W)
        → Quiet w (Run.run (clients_of p) auth wf (text "event") path w).1
    pub store : (rec : ExecutionRecord) (w : W) → Quiet w (Store.put_execution p.store auth rec w).1
    pub drives : (w : W) → Quiet w (Ocis.list_drives p.store.ocis auth w).1
    pub ordering : (set : List Text) (w : W) → Quiet w (iterate set w).1
    pub query :
        (since : ℕ) (w : W)
        → let (r, w') = Ocis.list_activities p.store.ocis auth drive_id since w in
          (log w' ≡ logged r since (time w) (log w)) × (time w ≤ time w')
    pub other :
        (d : Text) (since : ℕ) (w : W)
        → teq d drive_id ≡ false
        → Quiet w (Ocis.list_activities p.store.ocis auth d since w).1

  abbrev pub trace_of : Text → Text → Trace (State W)
  trace_of user_id drive_id = record {
    stored = λ s. row_of (user_id, drive_id) s.db.event_cursors;
    answered = λ s. log s.world;
    time = λ s. time s.world;
  }

  module _ (user_id auth drive_id : Text) (outer : IsOuterTrace user_id auth drive_id) where
    moved :
        (s0 s : State W) (w : W)
        → Same (trace_of user_id drive_id) s0 s
        → Quiet s.world w
        → Same (trace_of user_id drive_id) s0 (record s { world = w })
    moved s0 s w (st, an, ti) (log', time') = (st, log' ∙ an, omega (arith, ti, time'))

    dispatch_allowed :
        (s0 : State W) → Allows (services_of p) (Same (trace_of user_id drive_id) s0) user_id auth
    unfolding services_of
    dispatch_allowed s0 = record {
      resolve = λ space item s h. moved s0 s _ h (outer.resolve space item s.world);
      load = λ e own s h. moved s0 s _ h (outer.load e.workflow_id s.world);
      run = λ wf path on outside s h. moved s0 s _ h (outer.run wf path s.world);
      store = λ rec s h. moved s0 s _ h (outer.store rec s.world);
    }

    pub own-IsTrace :
        IsTrace
          (services_of p)
          (sources_of p cancelled iterate)
          (trace_of user_id drive_id)
          user_id
          auth
          drive_id
    unfolding sources_of
    own-IsTrace = record {
      dispatching = dispatch_allowed;
      clock = λ s.
          ((refl, (outer.clock s.world).0.0, (outer.clock s.world).0.1), (outer.clock s.world).1);
      read = λ s.
          let (r, rows) = get_event_cursor-reads user_id drive_id s.db in
          (r, (ap (row_of (user_id, drive_id)) rows, refl, omega arith), refl);
      write = λ last_checked status s.
          (own_write user_id drive_id last_checked status s.db, refl, omega arith);
      query = λ since s. (refl, (outer.query since s.world).0, (outer.query since s.world).1);
    }

    -- The cursors of the database and the outer world make a trace of the passes for the user.
    pub wired-IsPassTrace :
        (cfg : Config)
        → IsPassTrace
            (services_of p)
            (sources_of p cancelled iterate)
            cfg
            (trace_of user_id drive_id)
            user_id
            auth
            drive_id
    unfolding sources_of services_of
    wired-IsPassTrace cfg = record {
      own = own-IsTrace;
      other = λ s0 d other. record {
        dispatching = dispatch_allowed s0;
        clock = λ s h. moved s0 s _ h (outer.clock s.world).0;
        read_cursor = λ s h.
            let (r, rows) = get_event_cursor-reads user_id d s.db in
            (ap (row_of (user_id, drive_id)) rows ∙ h.0, h.1, h.2);
        activities = λ now last_checked s h. moved s0 s _ h (outer.other d _ s.world other);
        write_cursor = λ last_checked status s h.
            (other_write user_id drive_id d last_checked status s.db other ∙ h.0, h.1, h.2);
      };
      entries = λ s.
          (ap (row_of (user_id, drive_id)) (list_event_triggers-cursors s.db), refl, omega arith);
      ordering = λ set s. (refl, (outer.ordering set s.world).0, (outer.ordering set s.world).1);
      drives = λ s. (refl, (outer.drives s.world).0, (outer.drives s.world).1);
    }

    -- In every history of passes of the running program for a user, with its database, whatever
    -- calls and statements fail, a time between two answered windows of a drive lies more than five
    -- minutes before the end of the second.
    pub pass_of-Gapless :
        {s : State W}
        → History
            (services_of p)
            (sources_of p cancelled iterate)
            reconcile_config
            (trace_of user_id drive_id)
            user_id
            auth
            drive_id
            s
        → Gapless (300 * second) (log s.world)
    unfolding reconcile_config
    pass_of-Gapless h =
        reconcile-Gapless (services_of p) (sources_of p cancelled iterate) reconcile_config
          (trace_of user_id drive_id) user_id auth drive_id (wired-IsPassTrace reconcile_config) h
