-- ===== src/Wiring.antt =====
-- backend/pkg/command/server.go: which component fills which interface. The interfaces take an error
-- alone as an optional text, and tell ErrNotFound apart, where the components return a result.
pub mod Saved
pub mod Indexed
pub mod Rows
pub mod Scheduled
pub mod Posted
pub mod Patched
pub mod Background
pub mod Startup
pub mod Traced
use ocis_workflows.Base.{Text, text, Option, none, some, List, [], ◌∷◌, Result, ok, err, ℕ}
use ocis_workflows.Model.{WorkflowDefinition, ExecutionRecord}
use ocis_workflows.Ocis
use ocis_workflows.WebdavFile.{Files}
use ocis_workflows.WebdavFile
use ocis_workflows.WebdavStore.Store.{Store}
use ocis_workflows.WebdavStore.Store
use ocis_workflows.Llm.{Provider, Client, tokens}
use ocis_workflows.Llm
use ocis_workflows.Notify.{Network}
use ocis_workflows.Notify
use ocis_workflows.TextExtract.{Readers}
use ocis_workflows.TextExtract
use ocis_workflows.LocalDb.{Lookup, found, not_found, failed}
use ocis_workflows.Executor.Template.{Vars}
use ocis_workflows.Executor.Clients.{Clients}
use ocis_workflows.Executor.Run
use ocis_workflows.Api.Wire.{Backend}
use ocis_workflows.Automations.{Outside}
use ocis_workflows.Auth.{Validator}
use ocis_workflows.Api.Router.{Server}
use ocis_workflows.Base.Actions.{Act}

-- What `RunServer` builds, with what the platform gives. The client of oCIS is the store's.
pub record Parts (W : Type 0) : Type 0 where
  pub store : Store W
  pub files : Files W
  pub provider : Provider W
  pub llm : Client
  pub network : Network W
  pub readers : Readers
  pub iterate : Vars → W → Vars × W
  pub new_id : W → Text × W
  pub timestamp : W → Text × W
  pub quote : Text → Text
  pub decimal : ℕ → Text
  pub kick : Option (W → W)
  pub clock : W → ℕ × W
  pub random : W → Result Text × W
  pub base64 : Text → Text
  pub format : ℕ → Text
  pub validator : Validator W

abbrev error_of : Result (Unit {0}) → Option Text
error_of (ok tt) = none
error_of (err e) = some e

abbrev pub error_only : {W : Type 0} → Act W (Unit {0}) → W → Option Text × W
error_only m w = let (r, w') = m w in (error_of r, w')

abbrev lookup_of : {A : Type 0} → Result (Option A) → Lookup A
lookup_of (ok (some a)) = found a
lookup_of (ok none) = not_found
lookup_of (err e) = failed e

abbrev pub looked_up : {W A : Type 0} → Act W (Option A) → W → Lookup A × W
looked_up m w = let (r, w') = m w in (lookup_of r, w')

module _ {W : Type 0} (p : Parts W) where
  unfoldable pub clients_of : Clients W
  clients_of = record {
    complete = λ prompt model.
        Llm.complete p.provider p.llm (record { role = text "user"; content = prompt } ∷ []) model
          (tokens 0);
    get_content = WebdavFile.get_content p.files;
    move = λ auth from to. error_only (WebdavFile.move p.files auth from to);
    copy = λ auth from to. error_only (WebdavFile.copy p.files auth from to);
    comment = λ auth path body. error_only (WebdavFile.comment p.files auth path body);
    resolve_item_id = Ocis.resolve_item_id p.store.ocis;
    assign_tag = λ auth item tag. error_only (Ocis.assign_tag p.store.ocis auth item tag);
    notify = λ target title body. error_only (Notify.send p.network target title body);
    extract = TextExtract.extract p.readers;
    iterate = p.iterate;
    new_id = p.new_id;
    timestamp = p.timestamp;
    quote = p.quote;
    decimal = p.decimal;
  }

  unfoldable pub backend_of : Backend W
  backend_of = record {
    list = Store.list p.store;
    get = λ auth id. looked_up (Store.get p.store auth id);
    put = λ auth wf. error_only (Store.put p.store auth wf);
    delete = λ auth id. looked_up (Store.delete p.store auth id);
    put_execution = λ auth rec. error_only (Store.put_execution p.store auth rec);
    list_executions = Store.list_executions p.store;
    get_execution = λ auth id exec_id. looked_up (Store.get_execution p.store auth id exec_id);
    execute = λ auth wf triggered_by path. Run.run clients_of auth wf triggered_by path;
    me = Ocis.me p.store.ocis;
    kick = p.kick;
    now = p.timestamp;
    new_id = p.new_id;
  }

  unfoldable pub outside_of : Outside W
  outside_of = record {
    me = Ocis.me p.store.ocis;
    username = Ocis.username p.store.ocis;
    mint_app_password = Ocis.mint_app_password p.store.ocis;
    revoke_app_password =
        λ auth token. error_only (Ocis.revoke_app_password p.store.ocis auth token);
    kick = p.kick;
    now = p.clock;
    random = p.random;
    base64 = p.base64;
    format = p.format;
  }

  unfoldable pub server_of : Server W
  unfolding backend_of outside_of
  server_of = record {
    validator = p.validator;
    backend = backend_of;
    account = record { outside = outside_of; list_drives = Ocis.list_drives p.store.ocis };
  }
