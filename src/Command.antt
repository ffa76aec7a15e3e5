-- ===== src/Command.antt =====
-- backend/pkg/command/root.go, command/health.go, logging/logging.go, server/debug/server.go and
-- cmd/workflows/main.go: the commands, and the health check between two of them.
use ocis_workflows.Base.{
  ℕ, Text, text, teq, Bool, true, false, ◌==◌, List, [], ◌∷◌, ◌++◌, Result, ok, err, ◌≡◌, refl,
  if◌then◌else◌,
}
use ocis_workflows.Base.Actions.{Act, fail, wrap, require, continue, prefixed, ◌>>=◌}
use ocis_workflows.Http.{Http, Reply}
use ocis_workflows.Config.{Config, Platform, from_env}

-- `slog.Level`
pub data Level : Type 0 where
  debug_level : Level
  info_level : Level
  warn_level : Level
  error_level : Level

-- The level that `logging.New` sets.
unfoldable pub level_of : Text → Level
level_of level =
    if teq level (text "debug")
    then debug_level
    else if teq level (text "warn")
    then warn_level
    else if teq level (text "error")
    then error_level
    else info_level

-- The handler of the debug server for /healthz.
abbrev pub healthz : Reply
healthz = record { status = 200; body = ok (text "ok") }

module _ {W : Type 0} where
  unfoldable pub run_health : Http W → Config → Act W (Unit {0})
  run_health http cfg = do
    res ← wrap (text "health check request failed") (
        http.send (record {
          method = text "GET";
          url = text "http://" ++ (cfg.debug_addr ++ text "/healthz");
          headers = [];
          body = [];
        }))
    require (res.status == 200) (text "health check returned status " ++ http.decimal res.status)

  module _ (p : Platform W) (http : Http W) (run_server : Config → Act W (Unit {0})) where
    abbrev dispatched : Text → Config → Act W (Unit {0})
    dispatched name cfg =
        if teq name (text "server")
        then run_server cfg
        else if teq name (text "health")
        then run_health http cfg
        else fail (
            text "unknown command "
            ++ (http.quote name ++ text ": usage: workflows <server|health>"))

    unfoldable pub execute : List Text → Act W (Unit {0})
    unfolding run_health
    execute [] = fail (text "usage: workflows <server|health>")
    execute (name ∷ rest) = do cfg ← wrap (text "load config") (from_env p); dispatched name cfg

-- The exit code of `main`.
abbrev pub exit_code : Result (Unit {0}) → ℕ
exit_code (ok u) = 0
exit_code (err e) = 1

-- The exit code that the answer to a health check calls for.
abbrev pub health_code : Result Reply → ℕ
health_code (err e) = 1
health_code (ok res) = if res.status == healthz.status then 0 else 1

module _ {W : Type 0} (p : Platform W) (http : Http W)
    (run_server : Config → Act W (Unit {0})) where
  required-exit : (b : Bool) (e : Text) (w : W) → exit_code (require b e w).0 ≡ (if b then 0 else 1)
  required-exit true e w = refl
  required-exit false e w = refl

  answered-exit :
      (r : Result Reply) (w : W)
      → exit_code
          (continue
            (prefixed (text "health check request failed") r)
            (λ res.
              require
                (res.status == 200)
                (text "health check returned status " ++ http.decimal res.status))
            w).0
        ≡ health_code r
  answered-exit (err e) w = refl
  answered-exit (ok res) w = required-exit (res.status == 200) _ w

  -- Where the configuration can be loaded, the command "health" sends one request, to the debug
  -- server's address, and exits with 0 if the answer has the status that the debug server gives, and
  -- with 1 if it has another or there is none.
  pub execute-health :
      (rest : List Text) (cfg : Config) (r : Result Reply) (w w' w'' : W)
      → from_env p w ≡ (ok cfg, w')
      → http.send
          (record {
            method = text "GET";
            url = text "http://" ++ (cfg.debug_addr ++ text "/healthz");
            headers = [];
            body = [];
          })
          w'
        ≡ (r, w'')
      → let (e, last) = execute p http run_server (text "health" ∷ rest) w in
        exit_code e ≡ health_code r
  unfolding execute teq
  execute-health rest cfg r w w' w'' loaded sent = rw (loaded, sent) (answered-exit r w'')
