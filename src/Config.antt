-- ===== src/Config.antt =====
-- `config::ServerConfig` and its loading and validation: include/config/ServerConfig.hpp and
-- src/config/ServerConfig.cpp. The file system and the two Glaze readers are parameters.
pub mod Fields
pub mod Validation
pub mod Loading
use recipes_core.Prelude.{
  ℕ, ◌+◌, Text, text, eq_text, Bool, true, false, not, ◌&&◌, ◌||◌, Option, none, some, List, [],
  ◌∷◌, ◌++◌, map, leb, ◌==◌, if◌then◌else◌,
}
use recipes_core.Api.{Attempt, returns, throws, Result, value, error, Read, done, failed}
use recipes_core.Service.{is_empty}

pub record ListenerConfig : Type 0 where
  pub enabled : Bool
  pub address : Text
  pub port : ℕ

pub record TlsConfig : Type 0 where
  pub certificate_path : Text
  pub private_key_path : Text
  pub certificate_chain_path : Text
  pub server_name : Text
  pub enable_hsts : Bool

pub record ServerConfig : Type 0 where
  pub http : ListenerConfig
  pub https : ListenerConfig
  pub tls : TlsConfig
  pub database_path : Text
  pub network_threads : ℕ
  pub database_queue_capacity : ℕ
  pub header_limit : ℕ
  pub body_limit : ℕ
  pub request_timeout_seconds : ℕ
  pub shutdown_timeout_seconds : ℕ

unfoldable pub default_config : ServerConfig
default_config = record {
  http = record { enabled = true; address = text "127.0.0.1"; port = 8080 };
  https = record { enabled = false; address = text "127.0.0.1"; port = 0 };
  tls = record {
    certificate_path = [];
    private_key_path = [];
    certificate_chain_path = [];
    server_name = [];
    enable_hsts = false;
  };
  database_path = text "data/recipes.db";
  network_threads = 1;
  database_queue_capacity = 128;
  header_limit = 8192;
  body_limit = 1048576;
  request_timeout_seconds = 30;
  shutdown_timeout_seconds = 5;
}

unfoldable pub validate_server_config : ServerConfig → Result (Unit {0})
validate_server_config config =
    if not config.http.enabled && not config.https.enabled
    then error (text "At least one listener must be enabled")
    else if config.network_threads == 0
    then error (text "Network thread count must be positive")
    else if config.database_queue_capacity == 0
    then error (text "Database queue capacity must be positive")
    else if config.header_limit == 0
        || config.body_limit == 0
        || config.request_timeout_seconds == 0
    then error (text "Request limits and timeout must be positive")
    else if config.shutdown_timeout_seconds == 0
    then error (text "Shutdown timeout must be positive")
    else if config.https.enabled
        && (is_empty config.tls.certificate_path || is_empty config.tls.private_key_path)
    then error (text "HTTPS requires certificate and private key paths")
    else if config.http.enabled
        && config.https.enabled
        && eq_text config.http.address config.https.address
        && (config.http.port == config.https.port)
    then error (text "HTTP and HTTPS listeners must use distinct endpoints")
    else value tt

-- std::tolower on one byte, in the C locale.
unfoldable pub to_lower : ℕ → ℕ
to_lower c = if leb b'A' c && leb c b'Z' then c + 32 else c

-- What the program takes from outside: whether a file opens, and then its contents or what reading
-- it throws (as it does for a directory), the extension of a path (`path::extension`), and Glaze
-- reading a configuration into one that holds the defaults.
pub record ConfigSource : Type 0 where
  pub contents : Text → Option (Attempt Text)
  pub extension : Text → Text
  pub read_json : ServerConfig → Text → Read ServerConfig
  pub read_yaml : ServerConfig → Text → Read ServerConfig
  pub format_error : ℕ → Text → Text

module _ (source : ConfigSource) where
  unfoldable pub read_config_file : Text → Attempt (Result Text)
  read_config_file config_path = elim (source.contents config_path) [
    | none ↦ returns (error (text "Failed to open configuration file: " ++ config_path))
    | some (returns contents) ↦ returns (value contents)
    | some (throws what) ↦ throws what
  ]

  unfoldable pub lowercase_extension : Text → Text
  unfolding to_lower
  lowercase_extension config_path = map to_lower (source.extension config_path)

  unfoldable pub parse_config :
      Text → (ServerConfig → Text → Read ServerConfig) → Result ServerConfig
  parse_config document read = elim (read default_config document) [
    | done config ↦ value config
    | failed context ↦ error (source.format_error context document)
  ]

  abbrev pub validated : Result ServerConfig → Result ServerConfig
  validated (error message) = error message
  validated (value config) = elim (validate_server_config config) [
    | error message ↦ error message
    | value _ ↦ value config
  ]

  abbrev pub parsed_as : Text → Text → Result ServerConfig
  parsed_as extension contents =
      if eq_text extension (text ".json")
      then parse_config contents source.read_json
      else if eq_text extension (text ".yaml") || eq_text extension (text ".yml")
      then parse_config contents source.read_yaml
      else error (text "Unsupported configuration file extension: " ++ extension)

  abbrev pub from_contents : Text → Attempt (Result Text) → Attempt (Result ServerConfig)
  from_contents extension (throws what) = throws what
  from_contents extension (returns (error message)) = returns (error message)
  from_contents extension (returns (value contents)) =
      returns (validated (parsed_as extension contents))

  unfoldable pub load_server_config : Text → Attempt (Result ServerConfig)
  load_server_config config_path =
      from_contents (lowercase_extension config_path) (read_config_file config_path)
