-- ===== src/Wiring/Startup.antt =====
-- backend/pkg/command/server.go, `RunServer`: what it builds from the configuration, with the
-- constructors of the packages. The third-party parts come with the platform.
use ocis_workflows.Base.{ℕ, ◌*◌, Text, slash, trim_right, Bool, List}
use ocis_workflows.Config.{Config}
use ocis_workflows.Llm
use ocis_workflows.LocalDb.{get_event_cursor, upsert_event_cursor, second}
use ocis_workflows.Ocis
use ocis_workflows.Ocis.{Ocis}
use ocis_workflows.Api.Wire.{State}
use ocis_workflows.Reconcile
use ocis_workflows.Reconcile.{Sources}
use ocis_workflows.Reconcile.Pass
use ocis_workflows.Times.{Times}
use ocis_workflows.Auth.{Validator}
use ocis_workflows.WebdavFile.{Files}
use ocis_workflows.WebdavStore.Store.{Store}
use ocis_workflows.Wiring.{Parts}
use ocis_workflows.Wiring.Background.{on_world, on_db, services_of}

abbrev pub schedule_tick_interval : ℕ
schedule_tick_interval = 10 * second

abbrev pub sse_reconcile_interval : ℕ
sse_reconcile_interval = 30 * second

abbrev pub renewal_tick_interval : ℕ
renewal_tick_interval = 86400 * second

abbrev pub reconcile_max_concurrent : ℕ
reconcile_max_concurrent = 10

unfoldable pub reconcile_config : Reconcile.Config
reconcile_config = record {
  grace_period = 5 * second;
  overlap = 5 * second;
  first_connect_lookback = 300 * second;
}

-- `New` of the packages, over the parts that the platform gives.
module _ {W : Type 0} (cfg : Config) (p : Parts W) where
  abbrev base_url : Text
  base_url = trim_right slash cfg.ocis_url

  abbrev client_of : Ocis W
  client_of = record p.store.ocis { base_url = base_url }

  abbrev store_of : Store W
  store_of = record p.store { ocis_url = base_url; ocis = client_of }

  abbrev files_of : Files W
  files_of = record p.files { ocis_url = base_url; ocis = client_of }

  abbrev validator_of : Validator W
  validator_of = record p.validator { ocis_url = base_url; allowed_origin = cfg.allowed_origin }

  unfoldable pub configured : Parts W
  unfolding trim_right Llm.new
  configured = record p {
    store = store_of;
    files = files_of;
    llm = Llm.new cfg.llm_endpoint cfg.llm_api_key cfg.llm_model cfg.llm_max_tokens;
    validator = validator_of;
  }

-- `cancelled` is the context of a pass, and `iterate` the order of a Go map.
module _ {W : Type 0} (p : Parts W) (cancelled : W → Bool)
    (iterate : List Text → W → List Text × W) where
  unfoldable pub sources_of : Sources (State W)
  sources_of = record {
    list_drives = λ auth. on_world (Ocis.list_drives p.store.ocis auth);
    list_activities =
        λ auth drive_id since. on_world (Ocis.list_activities p.store.ocis auth drive_id since);
    get_event_cursor = λ user_id drive_id. on_db (get_event_cursor user_id drive_id);
    upsert_event_cursor = λ c. on_db (upsert_event_cursor c);
    clock = on_world p.clock;
    cancelled = λ s. cancelled s.world;
    iterate = λ set. on_world (iterate set);
  }

  -- A pass that the manager asks for, with the debounce of its user and a slot or none.
  unfoldable pub pass_of : Bool → Text → Text → Times → State W → Times × State W
  unfolding services_of sources_of reconcile_config
  pass_of = Pass.reconcile (services_of p) sources_of reconcile_config
