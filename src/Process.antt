-- ===== src/Process.antt =====
-- internal/config/config.go: the configuration of the server. The environment gives the empty text
-- for a variable that is not set.
pub mod Closed
use modelo_man.Base.{String, Bool, true, false, Option, none, some, ◌==◌, parse_bool, if◌then◌else◌}

-- `Config`.
pub record ServerConfig : Type 0 where
  pub grpc_addr : String
  pub http_addr : String
  pub store_driver : String
  pub data_file : String
  pub database_url : String
  pub auth_token : String
  pub allow_legacy_auth : Bool
  pub enable_reflection : Bool
  pub bootstrap_agent_id : String
  pub bootstrap_agent_key : String

-- `envOrDefault`.
unfoldable pub env_or_default : (String → String) → String → String → String
env_or_default getenv key fallback = if getenv key == "" then fallback else getenv key

-- `envBoolOrDefault`.
unfoldable pub env_bool_or_default : (String → String) → String → Bool → Bool
env_bool_or_default getenv key fallback =
    if getenv key == ""
    then fallback
    else elim (parse_bool (getenv key)) [ none ↦ fallback | some b ↦ b ]

-- `Load`.
unfoldable pub load_config : (String → String) → ServerConfig
unfolding env_or_default env_bool_or_default
load_config getenv = record {
  grpc_addr = env_or_default getenv "GRPC_ADDR" "127.0.0.1:50051";
  http_addr = env_or_default getenv "HTTP_ADDR" "127.0.0.1:8080";
  store_driver = env_or_default getenv "STORE_DRIVER" "file";
  data_file = env_or_default getenv "DATA_FILE" "./data/modeloman.db.json";
  database_url = getenv "DATABASE_URL";
  auth_token = getenv "AUTH_TOKEN";
  allow_legacy_auth = env_bool_or_default getenv "ALLOW_LEGACY_AUTH_TOKEN" false;
  enable_reflection = env_bool_or_default getenv "ENABLE_REFLECTION" false;
  bootstrap_agent_id = env_or_default getenv "BOOTSTRAP_AGENT_ID" "orchestrator";
  bootstrap_agent_key = getenv "BOOTSTRAP_AGENT_KEY";
}
