-- ===== src/Reports.antt =====
-- src/io/IO.cpp and include/io/IO.hpp: the reports of a list to the enabled outputs, in sequence and
-- by one task for each output.
pub mod Views
pub mod Console
pub mod Files
pub mod Writing
pub mod Parallel
use recipes_core.Prelude.{
  Text, Bool, true, false, not, ◌&&◌, Option, none, some, List, ◌++◌, if◌then◌else◌,
}
use recipes_core.Kitchen.{SysDays, Product, Recipe}
use recipes_core.Args.{ArgsOut}
use recipes_core.Reports.Console.{print_products, print_recipes}
use recipes_core.Reports.Files.{
  ErrorCode, invalid_argument, FileSystem, Writer, Items, of_products, of_recipes, write_items_json,
  write_items_yaml,
}

-- What the reports depend on: the day, the file system, and Glaze's writers.
pub record Outputs (S : Type 0) : Type 0 where
  pub today : SysDays
  pub files : FileSystem S
  pub json : Writer
  pub yaml : Writer

-- The lines of the output stream, and the files.
pub record World (S : Type 0) : Type 0 where
  pub console : List Text
  pub disk : S

unfoldable pub print_items : SysDays → Bool → Items → List Text
unfolding print_products print_recipes
print_items today is_full_info (of_products products) = print_products today products
print_items today is_full_info (of_recipes recipes) = print_recipes today is_full_info recipes

module _ {S : Type 0} (outputs : Outputs S) where
  abbrev pub printed : ArgsOut → Items → World S → World S
  unfolding print_items
  printed args items w =
      if args.write_console
      then record w { console = w.console ++ print_items outputs.today args.is_full_info items }
      else w

  abbrev pub on_disk : World S → Option ErrorCode × S → Option ErrorCode × World S
  on_disk w (result, s) = (result, record w { disk = s })

  abbrev pub json_written : ArgsOut → Items → World S → Option ErrorCode × World S
  unfolding write_items_json
  json_written args items w =
      on_disk w (write_items_json outputs.files outputs.json items args.json_out_path w.disk)

  abbrev pub yaml_written : ArgsOut → Items → World S → Option ErrorCode × World S
  unfolding write_items_yaml
  yaml_written args items w =
      on_disk w (write_items_yaml outputs.files outputs.yaml items args.yaml_out_path w.disk)

  abbrev pub after_json : ArgsOut → Items → Option ErrorCode × World S → Option ErrorCode × World S
  unfolding write_items_yaml
  after_json args items (some error, w) = (some error, w)
  after_json args items (none, w) = if args.write_yaml then yaml_written args items w else (none, w)

  unfoldable pub write_reports : Items → ArgsOut → World S → Option ErrorCode × World S
  unfolding print_items write_items_json write_items_yaml
  write_reports items args w = after_json args items (
      if args.write_json
      then json_written args items (printed args items w)
      else (none, printed args items w))

  abbrev pub is_silent : ArgsOut → Bool
  is_silent args = not args.write_console && not args.write_json && not args.write_yaml

  unfoldable pub report_recipes : List Recipe → ArgsOut → World S → Option ErrorCode × World S
  unfolding write_reports
  report_recipes recipes args w =
      if is_silent args
      then (some invalid_argument, w)
      else write_reports (of_recipes recipes) args w

  unfoldable pub report_products : List Product → ArgsOut → World S → Option ErrorCode × World S
  unfolding write_reports
  report_products products args w =
      if is_silent args
      then (some invalid_argument, w)
      else write_reports (of_products products) args w

  unfoldable pub reports_items : Items → ArgsOut → World S → Option ErrorCode × World S
  unfolding report_recipes report_products
  reports_items (of_products products) args w = report_products products args w
  reports_items (of_recipes recipes) args w = report_recipes recipes args w

  abbrev pub both : Option ErrorCode → Option ErrorCode → Option ErrorCode
  both (some error) yaml = some error
  both none yaml = yaml

  -- The two results in the order of `futures_files`, whichever task came first.
  abbrev pub json_then_yaml : ArgsOut → Items → World S → Option ErrorCode × World S
  unfolding write_items_json write_items_yaml
  json_then_yaml args items w =
      let json = json_written args items w in
      let yaml = yaml_written args items json.1 in (both json.0 yaml.0, yaml.1)

  abbrev pub yaml_then_json : ArgsOut → Items → World S → Option ErrorCode × World S
  unfolding write_items_json write_items_yaml
  yaml_then_json args items w =
      let yaml = yaml_written args items w in
      let json = json_written args items yaml.1 in (both json.0 yaml.0, json.1)

  -- Tasks that run at the same time are run one after the other, in the order that `json_first`
  -- says; the console task touches no file.
  unfoldable pub parallel_reports_items :
      Bool → Items → ArgsOut → World S → Option ErrorCode × World S
  unfolding print_items write_items_json write_items_yaml
  parallel_reports_items json_first items args w =
      if json_first
      then json_then_yaml args items (printed args items w)
      else yaml_then_json args items (printed args items w)
