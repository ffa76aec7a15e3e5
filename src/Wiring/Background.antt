-- ===== src/Wiring/Background.antt =====
-- backend/pkg/command/server.go: what the scheduler, the stream's manager and the reconciler are
-- given: the store, the executor, the client of oCIS and the tables of the database.
use ocis_workflows.Base.{text, Option, none, some, Result, ok, err}
use ocis_workflows.LocalDb.{Db, list_event_triggers, list_schedule_triggers, get_automation}
use ocis_workflows.Ocis
use ocis_workflows.WebdavStore.Store
use ocis_workflows.Executor.Run
use ocis_workflows.Services.{Services}
use ocis_workflows.Api.Wire.{State}
use ocis_workflows.Wiring.{Parts, clients_of, error_only}

abbrev pub on_world : {W A : Type 0} → (W → A × W) → State W → A × State W
on_world m s = let (r, w) = m s.world in (r, record s { world = w })

abbrev pub on_db : {W A : Type 0} → (Db → A × Db) → State W → A × State W
on_db m s = let (r, db) = m s.db in (r, record s { db = db })

-- `webdavstore.ErrNotFound` is an error like any other to these callers.
abbrev or_not_found : {A : Type 0} → Result (Option A) → Result A
or_not_found (ok (some a)) = ok a
or_not_found (ok none) = err (text "not found")
or_not_found (err e) = err e

module _ {W : Type 0} (p : Parts W) where
  unfoldable pub services_of : Services (State W)
  services_of = record {
    get = λ auth id.
        on_world (λ w. let (r, w') = Store.get p.store auth id w in (or_not_found r, w'));
    put_execution = λ auth rec. on_world (error_only (Store.put_execution p.store auth rec));
    execute =
        λ auth wf triggered_by path. on_world (Run.run (clients_of p) auth wf triggered_by path);
    item_path = λ auth space item. on_world (Ocis.item_path p.store.ocis auth space item);
    list_event_triggers = on_db list_event_triggers;
    list_schedule_triggers = on_db list_schedule_triggers;
    get_automation = λ user_id. on_db (get_automation user_id);
    base64 = p.base64;
  }
