-- ===== src/Loadtest/Command/Exits.antt =====
-- When the command cmd/loadtest/main.go passes.
use mathlib.Core.Path.{subst}
use tlspxy.Common.{
  ℕ, ◌≡◌, ◌<◌, arith, String, true, false, List, [], ◌∷◌, Option, none, some, length, inl, inr,
}
use tlspxy.Loadtest.Float.{FloatOps}
use tlspxy.Loadtest.Stats.{LoadResult}
use tlspxy.Loadtest.Scenario.{Scenario, World, ScenarioRun, validate_result, run_scenario}
use tlspxy.Loadtest.Scenario.Runs.{IsPassed, run_scenario-IsPassed}
use tlspxy.Loadtest.Command.{
  Flags, CommandEnd, listed, exits, returns, select_scenarios, apply_overrides, fails_check,
}

module _ (fl : FloatOps) {C P : Type 0} (w : World C P) where
  -- A scenario has run without an error, and its Result passes the check.
  abbrev pub Passes : Scenario fl → String → LoadResult fl → Type 0
  Passes s dir r =
      (run : ScenarioRun fl C P) × (run_scenario fl w s dir ≡ some run)
      × (run.error ≡ none)
      × (run.result ≡ some r)
      × (fails_check fl s r ≡ false)

  -- The results are those of the scenarios, one by one, and all of them pass.
  abbrev pub AllPass : Flags → String → List (Scenario fl) → List (LoadResult fl) → Type 0
  AllPass flags dir [] [] = Unit
  AllPass flags dir [] (r ∷ results) = ⊥
  AllPass flags dir (s ∷ scenarios) [] = ⊥
  AllPass flags dir (s ∷ scenarios) (r ∷ results) =
      Passes (apply_overrides fl flags s) dir r × AllPass flags dir scenarios results

  -- What each end says: -list was given, or os.Exit(1) was called, or all scenarios have passed.
  abbrev pub Honest : Flags → CommandEnd → Type 0
  Honest flags listed = flags.list ≡ true
  Honest flags exits = Unit
  Honest flags returns =
      (flags.list ≡ false)
      × ((dir : String) × (results : List (LoadResult fl)) × (0 < length results)
          × AllPass flags dir (select_scenarios fl flags.scenario) results)

  -- A Result that RunScenario returns without an error never fails its own Validate.
  pub fails_check-run_scenario :
      (s : Scenario fl) (dir : String) (run : ScenarioRun fl C P) (r : LoadResult fl)
      (check : LoadResult fl → Option (List ℕ))
      → run_scenario fl w s dir ≡ some run
      → run.error ≡ none
      → run.result ≡ some r
      → s.validate ≡ some check
      → fails_check fl s r ≡ false
  unfolding fails_check validate_result
  fails_check-run_scenario s dir run r check ran fine result validates =
      let p = run_scenario-IsPassed fl w s dir in
      let same : p.0 ≡ run = ground (arith, p.1, ran) in
      elim (subst (IsPassed fl w s) same p.2) [
        | inl bad ↦ absurd (bad fine)
        | inr q ↦
            let same_result : q.0 ≡ r = ground (arith, q.1, result) in
            ground (arith, validates, subst (λ t. validate_result fl w s t ≡ none) same_result q.2)
      ]
