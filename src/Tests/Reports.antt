-- ===== src/Tests/Reports.antt =====
-- The reports' theorems on a file system that is a function from paths to contents.
use recipes_core.Prelude.{
  ◌≡◌, refl, ap, sym, ◌∙◌, All, map, Text, text, eq_text, eq_text_refl, Bool, true, false, Option,
  none, some, [], ◌∷◌, ◌++◌, if◌then◌else◌,
}
use recipes_core.Args.{ArgsOut}
use recipes_core.Reports.{
  Outputs, World, printed, json_written, reports_items, parallel_reports_items,
}
use recipes_core.Reports.Files.{FileSystem, Writer, of_recipes}
use recipes_core.Reports.Writing.{IsLawful, Seen}
use recipes_core.Reports.Writing.Sequence.{Reported, reports_items-Reported}
use recipes_core.Reports.Parallel.{resumed, enabled, parallel_reports_items-reports_items}
use recipes_core.Reports.Views.{build_recipe_views}
use recipes_core.Reports.Views.Reading.{
  IsReportable, without_ids, read_recipe_views, read_recipe_views-build_recipe_views,
}
use recipes_core.Tests.Fixtures.{omelette}

abbrev Disk : Type 0
Disk = Text → Option Text

abbrev stored : Text → Option Text → Disk → Disk
stored path bytes disk q = if eq_text path q then bytes else disk q

abbrev joined : Option Text → Text → Option Text
joined none bytes = some bytes
joined (some old) bytes = some (old ++ bytes)

abbrev flat_files : FileSystem Disk
flat_files = record {
  parent_path = λ path. [];
  create_directories = λ path disk. (none, disk);
  open_truncated = λ path disk. (true, stored path (some []) disk);
  put = λ path bytes disk. (false, stored path (joined (disk path) bytes) disk);
  close = λ path disk. disk;
}

abbrev seen : Text → Disk → Seen
seen path disk = (disk path, false)

stored_here :
    (path : Text) (bytes : Option Text) (disk : Disk) → stored path bytes disk path ≡ bytes
stored_here path bytes disk = rw (eq_text_refl path) refl

stored_there :
    (path q : Text) (bytes : Option Text) (disk : Disk)
    → eq_text path q ≡ false
    → stored path bytes disk q ≡ disk q
stored_there path q bytes disk e = rw e refl

flat_files-IsLawful : IsLawful flat_files seen eq_text
flat_files-IsLawful = record {
  directories = λ p q s. refl;
  opened = λ p s s' e.
      ap (λ (r : Bool × Disk). seen p r.1) (sym e)
      ∙ ap (λ o. (o, false)) (stored_here p (some []) s);
  open_frame = λ p q s h. ap (λ o. (o, false)) (stored_there p q (some []) s h);
  flushed = λ p bytes s s' empty e kept.
      ap (λ (r : Bool × Disk). r.1 p) (sym e)
      ∙ stored_here p (joined (s p) bytes) s
      ∙ ap (λ (o : Seen). joined o.0 bytes) empty;
  put_frame = λ p q bytes s h. ap (λ o. (o, false)) (stored_there p q (joined (s p) bytes) s h);
  close_frame = λ p q s h. refl;
}

-- A writer that counts nothing and never fails.
abbrev plain_writer : Text → Writer
plain_writer mark = record {
  products = λ views. record { bytes = mark; failed = false };
  recipes = λ views. record { bytes = mark; failed = false };
}

abbrev flat_outputs : Outputs Disk
flat_outputs = record {
  today = record { year = 2024; month = 2; day = 29 };
  files = flat_files;
  json = plain_writer (text "[]");
  yaml = plain_writer (text "-");
}

abbrev two_files : ArgsOut
two_files = record {
  is_full_info = true;
  write_console = true;
  write_json = true;
  write_yaml = true;
  json_out_path = text "info.json";
  yaml_out_path = text "info.yaml";
}

abbrev blank : World Disk
blank = record { console = []; disk = λ path. none }

apart : eq_text two_files.yaml_out_path two_files.json_out_path ≡ false
unfolding eq_text
apart = refl

reports_items-Reported_example :
    Reported flat_outputs seen eq_text two_files
      (of_recipes (omelette ∷ []))
      (printed flat_outputs two_files (of_recipes (omelette ∷ [])) blank)
      (reports_items flat_outputs (of_recipes (omelette ∷ [])) two_files blank)
reports_items-Reported_example =
    reports_items-Reported flat_outputs flat_files-IsLawful two_files (of_recipes (omelette ∷ []))
      blank apart

parallel_reports_items-reports_items_example :
    parallel_reports_items flat_outputs true (of_recipes (omelette ∷ [])) two_files blank
    ≡ resumed flat_outputs two_files
        (of_recipes (omelette ∷ []))
        (json_written flat_outputs two_files
          (of_recipes (omelette ∷ []))
          (printed flat_outputs two_files (of_recipes (omelette ∷ [])) blank)).0
        (reports_items flat_outputs
          (of_recipes (omelette ∷ []))
          (enabled flat_outputs two_files)
          blank)
parallel_reports_items-reports_items_example =
    parallel_reports_items-reports_items flat_outputs (of_recipes (omelette ∷ [])) two_files blank

omelette-IsReportable : All (λ recipe. All IsReportable recipe.ingredients) (omelette ∷ [])
omelette-IsReportable = ((record { dimension = tt; manufacture = tt; expiration = tt }, tt), tt)

read_recipe_views-build_recipe_views_example :
    read_recipe_views (build_recipe_views (omelette ∷ [])) ≡ some (map without_ids (omelette ∷ []))
read_recipe_views-build_recipe_views_example =
    read_recipe_views-build_recipe_views (omelette ∷ []) omelette-IsReportable
