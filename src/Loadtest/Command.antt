-- ===== src/Loadtest/Command.antt =====
-- The command cmd/loadtest/main.go. Its flags are given; what it prints beside the reports is left out.
pub mod CertDir
pub mod Exits
use tlspxy.Common.{
  ℕ, zero, suc, ◌+◌, String, str_eq, Bool, true, false, not, ◌&&◌, ◌||◌, List, [], ◌∷◌, Option,
  none, some, ltb, codes, ◌==◌, length, if◌then◌else◌,
}
use tlspxy.Common.Result.{Result, ok, err}
use tlspxy.Config.Koanf.{ℤ, pos, negsuc}
use tlspxy.Loadtest.Float.{FloatOps}
use tlspxy.Loadtest.Stats.{LoadResult}
use tlspxy.Loadtest.Scenario.{Scenario, ScenarioRun, default_scenarios}

pub record Flags : Type 0 where
  pub scenario : String
  pub list : Bool
  pub concurrency : ℤ
  pub duration : ℤ
  pub payload : ℤ
  pub json_output : Bool
  pub cert_dir : String

-- os.Getwd, whether os.Stat has no error, filepath.Join of a directory and a path, filepath.Dir.
pub record Paths : Type 0 where
  pub getwd : Option String
  pub exists : String → Bool
  pub join : String → String → String
  pub dir : String → String

pub data CertDirError : Type 0 where
  no_working_directory : CertDirError
  no_certs_directory : String → CertDirError
  no_module : CertDirError
  out_of_fuel : CertDirError

-- The loop of findCertDir, on fuel.
unfoldable pub find_from : Paths → ℕ → String → Result CertDirError String
find_from paths zero dir = err out_of_fuel
find_from paths (suc fuel) dir =
    let cert_dir = paths.join dir "contrib/testdata/certs" in
    let rest = find_from paths fuel (paths.dir dir) in
    if paths.exists (paths.join dir "go.mod")
    then (if paths.exists cert_dir then ok cert_dir else err (no_certs_directory dir))
    else if str_eq (paths.dir dir) dir
    then err no_module
    else rest

-- findCertDir: a path has fewer parents than characters.
unfoldable pub find_cert_dir : Paths → Result CertDirError String
find_cert_dir paths = elim paths.getwd [
  | none ↦ err no_working_directory
  | some dir ↦ find_from paths (suc (length (codes dir))) dir
]

-- `if n > 0 { field = n }`.
abbrev pub override : ℤ → ℕ → ℕ
override (pos zero) n = n
override (pos (suc m)) n = suc m
override (negsuc m) n = n

abbrev pub override_int : ℤ → ℤ → ℤ
override_int (pos zero) n = n
override_int (pos (suc m)) n = pos (suc m)
override_int (negsuc m) n = n

-- How the command ends: after the list of scenarios, with os.Exit(1), or by returning.
pub data CommandEnd : Type 0 where
  listed : CommandEnd
  exits : CommandEnd
  returns : CommandEnd

module _ (fl : FloatOps) where
  -- The loop of selectScenarios.
  unfoldable pub find_scenario : String → List (Scenario fl) → List (Scenario fl)
  find_scenario name [] = []
  find_scenario name (s ∷ all) =
      let rest = find_scenario name all in if str_eq s.name name then s ∷ [] else rest

  unfoldable pub select_scenarios : String → List (Scenario fl)
  select_scenarios name =
      if str_eq name "all" then default_scenarios fl else find_scenario name (default_scenarios fl)

  unfoldable pub apply_overrides : Flags → Scenario fl → Scenario fl
  apply_overrides flags s = record s {
    concurrency = override flags.concurrency s.concurrency;
    duration = override flags.duration s.duration;
    payload_size = override_int flags.payload s.payload_size;
  }

  -- The check of pass or fail: whether it fails.
  unfoldable pub fails_check : Scenario fl → LoadResult fl → Bool
  fails_check s r = elim s.validate [
    | some check ↦ elim (check r) [ none ↦ false | some e ↦ true ]
    | none ↦ fl.gt r.error_rate (fl.literal "0.01")
  ]

module _ (fl : FloatOps) {C P : Type 0}
    (run : Scenario fl → String → Option (ScenarioRun fl C P)) where
  -- What one scenario adds to `results` and `failed`; `none` is a panic, by RunScenario or by a nil
  -- *Result.
  unfoldable pub record_run :
      Scenario fl
      → ScenarioRun fl C P
      → List (LoadResult fl) × Bool
      → Option (List (LoadResult fl) × Bool)
  record_run s r others = elim r.error [
    | some e ↦ some (others.0, true)
    | none ↦ elim r.result [
      | none ↦ none
      | some result ↦ some (result ∷ others.0, fails_check fl s result || others.1)
    ]
  ]

  -- The loop over the scenarios.
  unfoldable pub run_each :
      Flags → String → List (Scenario fl) → Option (List (LoadResult fl) × Bool)
  run_each flags dir [] = some ([], false)
  run_each flags dir (s ∷ scenarios) =
      let s' = apply_overrides fl flags s in
      let rest = run_each flags dir scenarios in
      elim (run s' dir) [
        | none ↦ none
        | some r ↦ elim rest [ none ↦ none | some others ↦ record_run s' r others ]
      ]

  -- The end of main, by whether the JSON is written without an error.
  unfoldable pub finish_command :
      Flags → (List (LoadResult fl) → Bool) → List (LoadResult fl) × Bool → CommandEnd
  finish_command flags writes_json done =
      if flags.json_output && ltb 0 (length done.0) && not (writes_json done.0)
      then exits
      else if done.1
      then exits
      else returns

  -- main, from the directory on.
  unfoldable pub run_selected : Flags → (List (LoadResult fl) → Bool) → String → Option CommandEnd
  run_selected flags writes_json dir =
      let scenarios = select_scenarios fl flags.scenario in
      if length scenarios == 0 then some exits else elim (run_each flags dir scenarios) [
        | none ↦ none
        | some done ↦ some (finish_command flags writes_json done)
      ]

  -- main.
  unfoldable pub main : Paths → Flags → (List (LoadResult fl) → Bool) → Option CommandEnd
  main paths flags writes_json =
      if flags.list
      then some listed
      else if str_eq flags.cert_dir ""
      then elim (find_cert_dir paths) [
        | err e ↦ some exits
        | ok dir ↦ run_selected flags writes_json dir
      ]
      else run_selected flags writes_json flags.cert_dir
