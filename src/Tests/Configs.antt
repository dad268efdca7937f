-- ===== src/Tests/Configs.antt =====
-- The configuration's theorems at the defaults.
use recipes_core.Prelude.{◌≡◌, refl, ◌↔◌, text, eq_text, some}
use recipes_core.Api.{returns, value, done, Read}
use recipes_core.Config.{
  ConfigSource, default_config, validate_server_config, load_server_config, lowercase_extension,
  read_config_file, parse_config,
}
use recipes_core.Config.Validation.{IsUsable, validate_server_config_iff}
use recipes_core.Config.Loading.{Loads, load_server_config_iff}

abbrev pub one_file : ConfigSource
one_file = record {
  contents = λ path. some (returns (text "{}"));
  extension = λ path. text ".JSON";
  read_json = λ config json. done config;
  read_yaml = λ config json. Read.failed 1;
  format_error = λ context json. json;
}

validate_server_config_iff_example :
    (validate_server_config default_config ≡ value tt) ↔ IsUsable default_config
validate_server_config_iff_example = validate_server_config_iff default_config

load_server_config_iff_example :
    (load_server_config one_file (text "server.JSON") ≡ returns (value default_config))
    ↔ Loads one_file (text "server.JSON") default_config
load_server_config_iff_example = load_server_config_iff one_file (text "server.JSON") default_config

loads_defaults : load_server_config one_file (text "server.JSON") ≡ returns (value default_config)
unfolding load_server_config default_config validate_server_config lowercase_extension
    read_config_file parse_config eq_text
loads_defaults = refl
