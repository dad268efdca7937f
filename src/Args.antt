-- ===== src/Args.antt =====
-- The command line: include/io/args/Args.hpp and src/io/args/Args.cpp. A `std::filesystem::path` is
-- its text; RECIPES_PROJECT_ROOT, which the build sets, is a parameter.
pub mod Paths
pub mod Forms
pub mod Parsing
use recipes_core.Prelude.{
  String, ◌≡◌, refl, ℕ, Text, text, eq_text, starts_with, Bool, true, false, not, ◌&&◌, ◌||◌,
  Option, none, some, List, [], ◌∷◌, ◌++◌, ◌==◌, if◌then◌else◌,
}
use recipes_core.Kitchen.{Product, Recipe}
use recipes_core.Api.{Result, value, error}
use recipes_core.Service.{is_empty}
use recipes_core.Args.Paths.{join, same_path}

pub data RecipeSelection : Type 0 where
  all_recipes cookable : RecipeSelection

pub record AppArgs : Type 0 where
  pub recipe_selection : RecipeSelection
  pub db_path : Text
  pub server_config_path : Text
  pub products : List Product
  pub recipes : List Recipe

pub record ArgsOut : Type 0 where
  pub is_full_info : Bool
  pub write_console : Bool
  pub write_json : Bool
  pub write_yaml : Bool
  pub json_out_path : Text
  pub yaml_out_path : Text

pub record Args : Type 0 where
  pub show_help : Bool
  pub app : AppArgs
  pub out : ArgsOut

-- `Args{}`
unfoldable pub default_args : Text → Args
unfolding join
default_args project_root = record {
  show_help = false;
  app = record {
    recipe_selection = all_recipes;
    db_path = join (join project_root (text "data")) (text "table.db");
    server_config_path = [];
    products = [];
    recipes = [];
  };
  out = record {
    is_full_info = true;
    write_console = true;
    write_json = true;
    write_yaml = true;
    json_out_path = join (join project_root (text "out")) (text "info.json");
    yaml_out_path = join (join project_root (text "out")) (text "info.yaml");
  };
}

pub data FlagType : Type 0 where
  bool_flag value_flag command_flag : FlagType

unfoldable pub flags : List (Text × FlagType)
flags =
    (text "-h", bool_flag)
    ∷ (text "--help", bool_flag)
    ∷ (text "--full-info", bool_flag)
    ∷ (text "--short", bool_flag)
    ∷ (text "--console", bool_flag)
    ∷ (text "--no-console", bool_flag)
    ∷ (text "--json", bool_flag)
    ∷ (text "--no-json", bool_flag)
    ∷ (text "--yaml", bool_flag)
    ∷ (text "--no-yaml", bool_flag)
    ∷ (text "--all-recipes", bool_flag)
    ∷ (text "--cookable", bool_flag)
    ∷ (text "--json-out", value_flag)
    ∷ (text "--yaml-out", value_flag)
    ∷ (text "--db-path", value_flag)
    ∷ (text "--server-config", value_flag)
    ∷ (text "--add-products", command_flag)
    ∷ (text "--add-recipes", command_flag)
    ∷ (text "--list-products", command_flag)
    ∷ (text "--list-recipes", command_flag)
    ∷ []

abbrev pub find_flag : Text → List (Text × FlagType) → Option FlagType
find_flag option [] = none
find_flag option ((name, type) ∷ rest) =
    if eq_text name option then some type else find_flag option rest

unfoldable pub get_flag_type : Text → Option FlagType
unfolding flags eq_text
get_flag_type option = find_flag option flags

-- At the first `=`; without one the value is empty.
unfoldable pub split_option : Text → Text × Text
split_option [] = ([], [])
split_option (c ∷ token) =
    if c == b'=' then ([], token) else (c ∷ (split_option token).0, (split_option token).1)

abbrev pub fits_type : FlagType → Text → Bool
fits_type value_flag given = not (is_empty given)
fits_type bool_flag given = is_empty given
fits_type command_flag given = is_empty given

unfoldable pub is_valid_token : Text → Bool
unfolding get_flag_type split_option starts_with
is_valid_token token =
    if not (starts_with token (text "-"))
    then false
    else elim (get_flag_type (split_option token).0) [
      | none ↦ false
      | some type ↦ fits_type type (split_option token).1
    ]

abbrev pub set_if : Bool → (Args → Args) → Args → Args
set_if b change args = if b then change args else args

-- A row of tests, where each changes what the one before it left.
abbrev pub changed : List (Bool × (Args → Args)) → Args → Args
changed [] args = args
changed ((test, change) ∷ rest) args = changed rest (set_if test change args)

abbrev pub with_out : (ArgsOut → ArgsOut) → Args → Args
with_out change args = record args { out = change args.out }

abbrev pub with_selection : RecipeSelection → Args → Args
with_selection selection args = record args {
  app = record args.app { recipe_selection = selection };
}

abbrev pub bool_changes : Text → List (Bool × (Args → Args))
bool_changes option =
    let is = λ (s : String). eq_text option (text s) in
    (is "-h" || is "--help", λ a. record a { show_help = true })
    ∷ (is "--full-info", with_out λ o. record o { is_full_info = true })
    ∷ (is "--short", with_out λ o. record o { is_full_info = false })
    ∷ (is "--console", with_out λ o. record o { write_console = true })
    ∷ (is "--no-console", with_out λ o. record o { write_console = false })
    ∷ (is "--json", with_out λ o. record o { write_json = true })
    ∷ (is "--no-json", with_out λ o. record o { write_json = false })
    ∷ (is "--yaml", with_out λ o. record o { write_yaml = true })
    ∷ (is "--no-yaml", with_out λ o. record o { write_yaml = false })
    ∷ (is "--all-recipes", with_selection all_recipes)
    ∷ (is "--cookable", with_selection cookable)
    ∷ []

unfoldable pub set_bool_flag : Args → Text → Args
unfolding eq_text
set_bool_flag args option = changed (bool_changes option) args

abbrev pub assigned : Text → Text → Args → Args
assigned option given args =
    if eq_text option (text "--json-out")
    then record args { out = record args.out { json_out_path = given } }
    else if eq_text option (text "--yaml-out")
    then record args { out = record args.out { yaml_out_path = given } }
    else if eq_text option (text "--db-path")
    then record args { app = record args.app { db_path = given } }
    else if eq_text option (text "--server-config")
    then record args { app = record args.app { server_config_path = given } }
    else args

abbrev pub checked_paths : Args → Result Args
checked_paths args =
    if same_path args.out.json_out_path args.out.yaml_out_path
    then error (
        text "JSON and YAML output paths must be different: "
        ++ (args.out.json_out_path ++ (text " == " ++ args.out.yaml_out_path)))
    else value args

unfoldable pub set_value_flag : Args → Text × Text → Result Args
set_value_flag args (option, given) = checked_paths (assigned option given args)

abbrev pub apply_flag : Option FlagType → Text × Text → Args → Result Args
apply_flag none (option, given) args = error (text "Unknown type for argument: " ++ option)
apply_flag (some value_flag) pair args = set_value_flag args pair
apply_flag (some bool_flag) (option, given) args = value (set_bool_flag args option)
apply_flag (some command_flag) pair args = value args

-- One round of the loop of `ParseArgs`.
unfoldable pub parse_token : Text → Args → Result Args
unfolding set_bool_flag set_value_flag
parse_token token args =
    if not (is_valid_token token)
    then error (text "Unknown argument: " ++ token)
    else apply_flag (get_flag_type (split_option token).0) (split_option token) args

infixl 5 ◌>>=◌
abbrev pub ◌>>=◌ : {A B : Type 0} → Result A → (A → Result B) → Result B
value a >>= f = f a
error message >>= f = error message

unfoldable pub parse_tokens : List Text → Args → Result Args
unfolding parse_token
parse_tokens [] args = value args
parse_tokens (token ∷ rest) args = parse_token token args >>= λ next. parse_tokens rest next

unfoldable pub parse_args : Text → List Text → Result Args
unfolding parse_tokens default_args
parse_args project_root [] = value (default_args project_root)
parse_args project_root (program ∷ tokens) = parse_tokens tokens (default_args project_root)

unfoldable pub has_any_output : ArgsOut → Bool
has_any_output args = args.write_console || args.write_json || args.write_yaml

abbrev usage_line : String → Text
usage_line line = text line ++ b'\n' ∷ []

abbrev usage_lines : List Text → Text
usage_lines [] = []
usage_lines (line ∷ lines) = line ++ usage_lines lines

unfoldable pub build_usage : Text → Text
build_usage program_name =
    text "Usage: "
    ++ (program_name
        ++ (usage_line " [options]"
            ++ usage_lines (
                usage_line "Options:"
                ∷ usage_line "  -h, --help               Show this help message"
                ∷ usage_line
                    "  --full-info              Print full recipe info to console (default)"
                ∷ usage_line "  --short                  Print short recipe info to console"
                ∷ usage_line "  --all-recipes            Select all recipes (default)"
                ∷ usage_line "  --cookable               Select only cookable recipes"
                ∷ usage_line "  --console                Enable console output (default)"
                ∷ usage_line "  --no-console             Disable console output"
                ∷ usage_line "  --json                   Enable JSON output (default)"
                ∷ usage_line "  --no-json                Disable JSON output"
                ∷ usage_line "  --yaml                   Enable YAML output (default)"
                ∷ usage_line "  --no-yaml                Disable YAML output"
                ∷ usage_line "  --json-out=<path>        JSON output path"
                ∷ usage_line "  --yaml-out=<path>        YAML output path"
                ∷ usage_line "  --db-path=<path>         SQL database path"
                ∷ usage_line "  --server-config=<path>   Start HTTP/HTTPS server from config"
                ∷ [])))
