-- ===== src/Config.antt =====
-- backend/pkg/config/config.go: the configuration from the environment. os.LookupEnv, strconv, base64
-- and rand.Read are parameters.
pub mod Loaded
use ocis_workflows.Base.{
  ℕ, Text, text, is_empty, not, length, ◌==◌, Bool, true, false, Option, none, some, List, ◌++◌,
  Result, ok, err, if◌then◌else◌,
}
use ocis_workflows.Base.Actions.{
  prefixed, continue, Act, pure, fail, given, wrap, require, ◌>>=◌, ◌>>◌,
}
use ocis_workflows.Llm.{Limit, tokens}

pub record Config : Type 0 where
  pub http_addr : Text
  pub debug_addr : Text
  pub ocis_url : Text
  pub ocis_insecure : Bool
  pub allowed_origin : Text
  pub llm_endpoint : Text
  pub llm_api_key : Text
  pub llm_model : Text
  pub llm_max_tokens : Limit
  pub db_path : Text
  pub encryption_key : Text
  pub log_level : Text
  pub encryption_key_generated : Bool

-- `random` draws 32 bytes.
pub record Platform (W : Type 0) : Type 0 where
  pub lookup_env : Text → Option Text
  pub atoi : Text → Result Limit
  pub parse_bool : Text → Result Bool
  pub decode_base64 : Text → Result Text
  pub random : Act W Text
  pub decimal : ℕ → Text

abbrev or_fallback : Option Text → Text → Text
or_fallback none fallback = fallback
or_fallback (some v) fallback = if not (is_empty v) then v else fallback

abbrev pub parsed_or : {A : Type 0} → Result A → A → A
parsed_or (ok a) fallback = a
parsed_or (err e) fallback = fallback

abbrev pub set_value : {A : Type 0} → (Text → Result A) → Option Text → A → A
set_value parse none fallback = fallback
set_value parse (some v) fallback = if is_empty v then fallback else parsed_or (parse v) fallback

-- os.Getenv, which does not tell an unset variable from an empty one
abbrev pub getenv : Option Text → Text
getenv none = text ""
getenv (some v) = v

module _ {W : Type 0} (p : Platform W) where
  abbrev pub get_env : Text → Text → Text
  get_env key fallback = or_fallback (p.lookup_env key) fallback

  abbrev pub get_env_int : Text → Limit → Limit
  get_env_int key fallback = set_value p.atoi (p.lookup_env key) fallback

  abbrev pub get_env_bool : Text → Bool → Bool
  get_env_bool key fallback = set_value p.parse_bool (p.lookup_env key) fallback

  unfoldable pub load_key : Text → Act W (Text × Bool)
  load_key encoded = do
    key ←
        wrap (text "WORKFLOWS_ENCRYPTION_KEY is not valid base64") (given (p.decode_base64 encoded))
    require (length key == 32)
        (text "WORKFLOWS_ENCRYPTION_KEY must decode to 32 bytes, got " ++ p.decimal (length key))
    pure (key, false)

  unfoldable pub generate_key : Act W (Text × Bool)
  generate_key = do key ← wrap (text "generate encryption key") p.random; pure (key, true)

  unfoldable pub load_or_generate_encryption_key : Act W (Text × Bool)
  unfolding load_key generate_key
  load_or_generate_encryption_key =
      let encoded = getenv (p.lookup_env (text "WORKFLOWS_ENCRYPTION_KEY")) in
      if not (is_empty encoded) then load_key encoded else generate_key

  abbrev raw_ocis_url : Text
  raw_ocis_url = get_env (text "WORKFLOWS_OCIS_URL") (text "https://host.docker.internal:9200")

  abbrev raw_allowed_origin : Text
  raw_allowed_origin = get_env (text "WORKFLOWS_ALLOWED_ORIGIN") (text "")

  -- `cfg` with its key.
  abbrev pub loaded : Text × Bool → Config
  loaded key = record {
    http_addr = get_env (text "WORKFLOWS_HTTP_ADDR") (text "0.0.0.0:9105");
    debug_addr = get_env (text "WORKFLOWS_DEBUG_ADDR") (text "0.0.0.0:9109");
    ocis_url = raw_ocis_url;
    ocis_insecure = get_env_bool (text "WORKFLOWS_OCIS_INSECURE") false;
    allowed_origin = if is_empty raw_allowed_origin then raw_ocis_url else raw_allowed_origin;
    llm_endpoint = get_env (text "WORKFLOWS_LLM_ENDPOINT") (text "");
    llm_api_key = get_env (text "WORKFLOWS_LLM_API_KEY") (text "");
    llm_model = get_env (text "WORKFLOWS_LLM_MODEL") (text "");
    llm_max_tokens = get_env_int (text "WORKFLOWS_LLM_MAX_TOKENS") (tokens 4096);
    db_path = get_env (text "WORKFLOWS_DB_PATH") (text "workflows.db");
    encryption_key = key.0;
    log_level = get_env (text "WORKFLOWS_LOG_LEVEL") (text "info");
    encryption_key_generated = key.1;
  }

  unfoldable pub from_env : Act W Config
  unfolding load_or_generate_encryption_key
  from_env = do
    require (not (is_empty raw_ocis_url)) (text "WORKFLOWS_OCIS_URL must not be empty")
    key ← load_or_generate_encryption_key
    pure (loaded key)
