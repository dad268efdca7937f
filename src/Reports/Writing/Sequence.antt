-- ===== src/Reports/Writing/Sequence.antt =====
-- `ReportProducts` and `ReportRecipes` of src/io/IO.cpp: what they leave on the output stream and in
-- the files, whether they end with an error or not.
use recipes_core.Prelude.{
  Text, ◌≡◌, refl, sym, subst, ◌∙◌, Bool, true, false, not, ◌&&◌, ◌||◌, Option, none, some,
  if_cases, if◌then◌else◌, arith,
}
use recipes_core.Args.{ArgsOut}
use recipes_core.Reports.{
  Outputs, World, printed, json_written, yaml_written, after_json, write_reports, is_silent,
  report_products, report_recipes, reports_items,
}
use recipes_core.Reports.Files.{
  ErrorCode, invalid_argument, Rendered, Items, of_products, of_recipes,
}
use recipes_core.Reports.Writing.{
  render, IsLawful, Seen, Holds, Cause, Written, write_items_json-Written, write_items_yaml-Written,
}

-- Why a report ends with an error: nothing is enabled, or an enabled file cannot be written.
pub data Refused {S : Type 0} (outputs : Outputs S) (args : ArgsOut) (items : Items)
    : ErrorCode → Type 0 where
  silent : is_silent outputs args ≡ true → Refused outputs args items invalid_argument
  json :
      (e : ErrorCode)
      → args.write_json ≡ true
      → Cause outputs.files args.json_out_path (render outputs.json items) e
      → Refused outputs args items e
  yaml :
      (e : ErrorCode)
      → args.write_yaml ≡ true
      → Cause outputs.files args.yaml_out_path (render outputs.yaml items) e
      → Refused outputs args items e

module _ {S : Type 0} (contents : Text → S → Seen) (aliases : Text → Text → Bool) where
  -- An enabled file holds the whole rendering, unless the last flush of its stream failed.
  abbrev pub Stored : Bool → Text → Rendered → S → Type 0
  Stored false path rendered s = Unit {0}
  Stored true path rendered s = Holds (contents path s) rendered.bytes × (rendered.failed ≡ false)

  abbrev pub targets : ArgsOut → Text → Bool
  targets args q =
      (args.write_json && aliases args.json_out_path q)
      || (args.write_yaml && aliases args.yaml_out_path q)

  -- No file but the enabled ones has changed.
  abbrev pub Untouched : ArgsOut → S → S → Type 0
  Untouched args s s' = (q : Text) → targets args q ≡ false → contents q s' ≡ contents q s

module _ {S : Type 0} (outputs : Outputs S) (contents : Text → S → Seen)
    (aliases : Text → Text → Bool) where
  -- The outcome of a report, from the world after its console output: with no error, at least one
  -- output is enabled and each enabled file holds its rendering.
  abbrev pub Reported : ArgsOut → Items → World S → Option ErrorCode × World S → Type 0
  Reported args items w (none, w') =
      (is_silent outputs args ≡ false)
      × Stored contents aliases args.write_json args.json_out_path (render outputs.json items)
          w'.disk
      × Stored contents aliases args.write_yaml args.yaml_out_path (render outputs.yaml items)
          w'.disk
      × (w'.console ≡ w.console)
      × Untouched contents aliases args w.disk w'.disk
  Reported args items w (some e, w') =
      Refused outputs args items e
      × (w'.console ≡ w.console)
      × Untouched contents aliases args w.disk w'.disk

  -- After the JSON file.
  abbrev pub JsonDone : ArgsOut → Items → World S → Option ErrorCode × World S → Type 0
  JsonDone args items w (none, w') =
      Stored contents aliases args.write_json args.json_out_path (render outputs.json items) w'.disk
      × (w'.console ≡ w.console)
      × Untouched contents aliases args w.disk w'.disk
  JsonDone args items w (some e, w') =
      Refused outputs args items e
      × (w'.console ≡ w.console)
      × Untouched contents aliases args w.disk w'.disk

module _ {S : Type 0} (outputs : Outputs S) {contents : Text → S → Seen}
    {aliases : Text → Text → Bool} (lawful : IsLawful outputs.files contents aliases) where
  json_frame :
      (args : ArgsOut) (s s' : S)
      → args.write_json ≡ true
      → ((q : Text) → aliases args.json_out_path q ≡ false → contents q s' ≡ contents q s)
      → Untouched contents aliases args s s'
  json_frame args s s' on frame q h = frame q (ground arith)

  yaml_frame :
      (args : ArgsOut) (s s' : S)
      → args.write_yaml ≡ true
      → ((q : Text) → aliases args.yaml_out_path q ≡ false → contents q s' ≡ contents q s)
      → Untouched contents aliases args s s'
  yaml_frame args s s' on frame q h = frame q (ground arith)

  Stored-on :
      (on : Bool) (path : Text) (rendered : Rendered) (s : S)
      → on ≡ true
      → Holds (contents path s) rendered.bytes × (rendered.failed ≡ false)
      → Stored contents aliases on path rendered s
  Stored-on true path rendered s h stored = stored
  Stored-on false path rendered s h stored = tt

  Stored-off :
      (on : Bool) (path : Text) (rendered : Rendered) (s : S)
      → on ≡ false
      → Stored contents aliases on path rendered s
  Stored-off true path rendered s h = cc
  Stored-off false path rendered s h = tt

  Stored-frame :
      (on : Bool) (path : Text) (rendered : Rendered) (s s' : S)
      → contents path s' ≡ contents path s
      → Stored contents aliases on path rendered s
      → Stored contents aliases on path rendered s'
  Stored-frame true path rendered s s' e stored =
      (subst (λ seen. Holds seen rendered.bytes) (sym e) stored.0, stored.1)
  Stored-frame false path rendered s s' e stored = tt

  json_stage :
      (args : ArgsOut) (items : Items) (w : World S)
      → JsonDone outputs contents aliases args items w
          (if args.write_json then json_written outputs args items w else (none, w))
  unfolding json_written
  json_stage args items w =
      if_cases (JsonDone outputs contents aliases args items w) args.write_json _ _
        (λ on.
          by_result on _
            (write_items_json-Written lawful outputs.json items args.json_out_path w.disk))
        λ off. (Stored-off args.write_json _ _ _ off, refl, λ q h. refl)
    where
      by_result :
          args.write_json ≡ true
          → (r : Option ErrorCode × S)
          → Written lawful args.json_out_path (render outputs.json items) w.disk r
          → JsonDone outputs contents aliases args items w (r.0, record w { disk = r.1 })
      by_result on (none, s) h =
          (Stored-on args.write_json _ _ s on (h.0, h.1), refl, json_frame args w.disk s on h.2)
      by_result on (some e, s) h = (Refused.json e on h.0, refl, json_frame args w.disk s on h.1)

  -- From the outcome of the JSON file on.
  yaml_stage :
      (args : ArgsOut) (items : Items) (w : World S)
      → aliases args.yaml_out_path args.json_out_path ≡ false
      → is_silent outputs args ≡ false
      → (r : Option ErrorCode × World S) → JsonDone outputs contents aliases args items w r
      → Reported outputs contents aliases args items w (after_json outputs args items r)
  unfolding after_json yaml_written
  yaml_stage args items w distinct loud (some e, w1) h = h
  yaml_stage args items w distinct loud (none, w1) (stored, console, untouched) =
      if_cases (Reported outputs contents aliases args items w) args.write_yaml _ _
        (λ on.
          by_result on _
            (write_items_yaml-Written lawful outputs.yaml items args.yaml_out_path w1.disk))
        λ off. (loud, stored, Stored-off args.write_yaml _ _ _ off, console, untouched)
    where
      by_result :
          args.write_yaml ≡ true
          → (r : Option ErrorCode × S)
          → Written lawful args.yaml_out_path (render outputs.yaml items) w1.disk r
          → Reported outputs contents aliases args items w (r.0, record w1 { disk = r.1 })
      by_result on (none, s) (holds, rendered, frame) = (
        loud,
        Stored-frame args.write_json _ _ w1.disk s (frame args.json_out_path distinct) stored,
        Stored-on args.write_yaml _ _ s on (holds, rendered),
        console,
        λ q h. yaml_frame args w1.disk s on frame q h ∙ untouched q h,
      )
      by_result on (some e, s) (cause, frame) = (
        Refused.yaml e on cause,
        console,
        λ q h. yaml_frame args w1.disk s on frame q h ∙ untouched q h,
      )

  write_reports-Reported :
      (args : ArgsOut) (items : Items) (w : World S)
      → aliases args.yaml_out_path args.json_out_path ≡ false
      → is_silent outputs args ≡ false
      → Reported outputs contents aliases args items
          (printed outputs args items w)
          (write_reports outputs items args w)
  unfolding write_reports
  write_reports-Reported args items w distinct loud =
      yaml_stage args items (printed outputs args items w) distinct loud _
        (json_stage args items (printed outputs args items w))

  -- A report of nothing prints nothing.
  printed_silent :
      (args : ArgsOut) (items : Items) (w : World S)
      → is_silent outputs args ≡ true
      → printed outputs args items w ≡ w
  unfolding printed
  printed_silent args items w quiet = rw (off args.write_console quiet) refl
    where
      off : (b : Bool) → (not b && not args.write_json && not args.write_yaml) ≡ true → b ≡ false
      off b h = ground arith

  tested-Reported :
      (args : ArgsOut) (items : Items) (w : World S)
      → aliases args.yaml_out_path args.json_out_path ≡ false
      → Reported outputs contents aliases args items (printed outputs args items w) (
          if is_silent outputs args
          then (some invalid_argument, w)
          else write_reports outputs items args w)
  tested-Reported args items w distinct =
      if_cases (Reported outputs contents aliases args items (printed outputs args items w))
        (is_silent outputs args) _ _
        (λ quiet.
          subst (λ p. Reported outputs contents aliases args items p (some invalid_argument, w))
            (sym (printed_silent args items w quiet)) (Refused.silent quiet, refl, λ q h. refl))
        (write_reports-Reported args items w distinct)

  -- Whatever the settings, with output paths of different files, a report prints to the console, if
  -- that is enabled, and changes no file but the enabled ones. If it ends with no error, some output
  -- is enabled and every enabled file holds the whole rendering of the items, without a failure of
  -- the renderer, but for a file whose last flush failed: that happens when the stream is destroyed,
  -- after the test of fail(), and is not reported. If it ends with an error, nothing is enabled or an
  -- enabled file could not be written, for a cause that fits the error code. The file system keeps a
  -- file that is opened empty until something is put, keeps what was put without a failure of the
  -- stream or of its last flush, and changes no file through the path of another.
  pub reports_items-Reported :
      (args : ArgsOut) (items : Items) (w : World S)
      → aliases args.yaml_out_path args.json_out_path ≡ false
      → Reported outputs contents aliases args items
          (printed outputs args items w)
          (reports_items outputs items args w)
  unfolding reports_items report_products report_recipes
  reports_items-Reported args (of_products products) w distinct =
      tested-Reported args (of_products products) w distinct
  reports_items-Reported args (of_recipes recipes) w distinct =
      tested-Reported args (of_recipes recipes) w distinct
