-- ===== src/Reports/Parallel.antt =====
-- `ParallelReportsItems` of include/io/IO.hpp against `ReportsItems`.
use recipes_core.Prelude.{◌≡◌, refl, ◌∙◌, sym, ap, true, false, Option, none, some, arith}
use recipes_core.Args.{ArgsOut}
use recipes_core.Reports.{
  Outputs, World, printed, json_written, yaml_written, after_json, both, is_silent, write_reports,
  report_products, report_recipes, reports_items, parallel_reports_items, json_then_yaml,
}
use recipes_core.Reports.Files.{ErrorCode, Items, of_products, of_recipes}

module _ {S : Type 0} (outputs : Outputs S) where
  -- After an error of the JSON file, the YAML file is written too, and the first error is kept.
  abbrev pub resumed :
      ArgsOut → Items → Option ErrorCode → Option ErrorCode × World S → Option ErrorCode × World S
  resumed args items none r = r
  resumed args items (some e) (result, w) =
      let yaml = yaml_written outputs args items w in (both outputs result yaml.0, yaml.1)

  loud : (args : ArgsOut) → args.write_json ≡ true → is_silent outputs args ≡ false
  loud args j = ground arith

  reports_items-write_reports :
      (items : Items) (args : ArgsOut) (w : World S)
      → args.write_json ≡ true
      → reports_items outputs items args w ≡ write_reports outputs items args w
  unfolding reports_items report_products report_recipes
  reports_items-write_reports (of_products products) args w j = rw (loud args j) refl
  reports_items-write_reports (of_recipes recipes) args w j = rw (loud args j) refl

  by_json :
      (items : Items) (args : ArgsOut) (json : Option ErrorCode × World S)
      → args.write_yaml ≡ true
      → (
        both outputs json.0 (yaml_written outputs args items json.1).0,
        (yaml_written outputs args items json.1).1,
      )
        ≡ resumed args items json.0 (after_json outputs args items json)
  unfolding after_json
  by_json items args (none, w) y = rw y refl
  by_json items args (some e, w) y = refl

  write_reports-both :
      (items : Items) (args : ArgsOut) (w : World S)
      → args.write_json ≡ true
      → write_reports outputs items args w
        ≡ after_json outputs args items
            (json_written outputs args items (printed outputs args items w))
  unfolding write_reports
  write_reports-both items args w j = rw j refl

  abbrev pub enabled : ArgsOut → ArgsOut
  enabled args = record args { write_json = true; write_yaml = true }

  -- With the JSON task first, and whatever the settings say of the files, the parallel report is the
  -- report in sequence with both files enabled, but for an error of the JSON file: there the sequence
  -- stops, and the parallel report goes on to write the YAML file and then returns the same error.
  pub parallel_reports_items-reports_items :
      (items : Items) (args : ArgsOut) (w : World S)
      → parallel_reports_items outputs true items args w
        ≡ resumed args items
            (json_written outputs args items (printed outputs args items w)).0
            (reports_items outputs items (enabled args) w)
  unfolding parallel_reports_items json_then_yaml
  parallel_reports_items-reports_items items args w =
      by_json items (enabled args) (json_written outputs args items (printed outputs args items w))
        refl
      ∙ ap (resumed args items (json_written outputs args items (printed outputs args items w)).0) (
          sym (write_reports-both items (enabled args) w refl)
          ∙ sym (reports_items-write_reports items (enabled args) w refl))
