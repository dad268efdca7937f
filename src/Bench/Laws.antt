-- ===== src/Bench/Laws.antt =====
-- What the rounds of bench/ThreadOutput.cpp leave in the files.
use recipes_core.Prelude.{
  ℕ, zero, suc, ◌≡◌, refl, ap, Text, text, false, Bool, Option, none, some, ◌++◌, decimal,
}
use recipes_core.Args.{ArgsOut}
use recipes_core.Reports.{Outputs, World, printed}
use recipes_core.Reports.Files.{ErrorCode, of_recipes}
use recipes_core.Reports.Writing.{IsLawful, Seen, Holds, render}
use recipes_core.Reports.Writing.Sequence.{Reported, reports_items-Reported}
use recipes_core.Bench.{
  Platform, build_recipes, make_args, Run, after_round, run_rounds, bm_reports_items_recipes,
}

-- A run that is not skipped has done all its rounds, and what a round leaves holds at its end.
abbrev pub IsDone : {S : Type 0} → (World S → Type 0) → ℕ → Run S → Type 0
IsDone Good n r = r.skipped ≡ false → (r.rounds ≡ n) × Good r.world

module _ {S : Type 0} (report : World S → Option ErrorCode × World S)
    (Good : World S → Type 0) where
  abbrev GoodIfDone : Option ErrorCode × World S → Type 0
  GoodIfDone (none, w) = Good w
  GoodIfDone (some e, w) = Unit

  first_round :
      (r : Option ErrorCode × World S)
      → GoodIfDone r
      → IsDone Good 1 (after_round (run_rounds report zero) r)
  unfolding run_rounds
  first_round (some e, w) h skipped = cc
  first_round (none, w) h skipped = (refl, h)

  next_round :
      (n : ℕ) (r : Option ErrorCode × World S)
      → ((v : World S) → IsDone Good n (run_rounds report n v))
      → IsDone Good (suc n) (after_round (run_rounds report n) r)
  next_round n (some e, w) rest skipped = cc
  next_round n (none, w) rest skipped = let done = rest w skipped in (ap suc done.0, done.1)

  pub run_rounds-IsDone :
      (n : ℕ) (w : World S)
      → ((v : World S) → GoodIfDone (report v))
      → IsDone Good (suc n) (run_rounds report (suc n) w)
  unfolding run_rounds
  run_rounds-IsDone zero w good = first_round (report w) (good w)
  run_rounds-IsDone (suc n) w good = next_round (suc n) (report w) (λ v. run_rounds-IsDone n v good)

module _ {S : Type 0} (platform : Platform) (outputs : Outputs S) {contents : Text → S → Seen}
    {aliases : Text → Text → Bool} (lawful : IsLawful outputs.files contents aliases) where
  abbrev pub bench_args : ℕ → ArgsOut
  unfolding make_args
  bench_args recipes_count = make_args platform (text "reports_items_" ++ decimal recipes_count)

  -- Both files of a report hold the generated recipes.
  abbrev pub AreStored : ℕ → World S → Type 0
  AreStored recipes_count w =
      let args = bench_args recipes_count in
      let items = of_recipes (build_recipes platform recipes_count) in
      Holds (contents args.json_out_path w.disk) (render outputs.json items).bytes
      × Holds (contents args.yaml_out_path w.disk) (render outputs.yaml items).bytes

  Reported-AreStored :
      (recipes_count : ℕ) (v : World S) (r : Option ErrorCode × World S)
      → Reported outputs contents aliases
          (bench_args recipes_count)
          (of_recipes (build_recipes platform recipes_count))
          v
          r
      → GoodIfDone (λ w. r) (AreStored recipes_count) r
  unfolding make_args
  Reported-AreStored recipes_count v (some e, w) h = tt
  Reported-AreStored recipes_count v (none, w) h = (h.1.0, h.2.0)

  -- A benchmark of the report in sequence that is not skipped for an error has done every round
  -- that was asked for, of which there is at least one, and its two files hold the generated
  -- recipes, but for one whose last flush failed. The file system is lawful, and the two paths are
  -- different files.
  pub bm_reports_items_recipes-IsDone :
      (n recipes_count : ℕ) (w : World S)
      → aliases (bench_args recipes_count).yaml_out_path (bench_args recipes_count).json_out_path
        ≡ false
      → IsDone
          (AreStored recipes_count)
          (suc n)
          (bm_reports_items_recipes platform outputs (suc n) recipes_count w)
  unfolding bm_reports_items_recipes
  bm_reports_items_recipes-IsDone n recipes_count w distinct =
      run_rounds-IsDone _ (AreStored recipes_count) n w λ v.
        Reported-AreStored recipes_count
          (printed outputs (bench_args recipes_count)
            (of_recipes (build_recipes platform recipes_count)) v)
          _
          (reports_items-Reported outputs lawful (bench_args recipes_count)
            (of_recipes (build_recipes platform recipes_count)) v distinct)
