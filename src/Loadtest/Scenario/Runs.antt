-- ===== src/Loadtest/Scenario/Runs.antt =====
-- RunScenario of internal/loadtest/scenario.go: it never panics, and what it closes and returns.
use mathlib.Core.Path.{subst}
use tlspxy.Common.{
  ℕ, zero, suc, ◌≡◌, ◌≢◌, ◌∙◌, sym, refl, arith, String, str_eq, true, List, [], ◌∷◌, Option, none,
  some, Option-cases, inl, inr, ◌⊎◌,
}
use tlspxy.Loadtest.Float.{FloatOps}
use tlspxy.Loadtest.Stats.{Op, Stats, LoadResult, start_stats, new_stats, apply_ops, snapshot}
use tlspxy.Loadtest.Generator.Counts.{snapshot-apply_ops}
use tlspxy.Loadtest.Float.{i64}
use tlspxy.Common.Merges.{Interleaved}
use tlspxy.Loadtest.Generator.{tcp_run, tcp_size}
use tlspxy.Loadtest.Generator.TcpRuns.{AllReturn, total_rounds, tcp_run-snapshot}
use tlspxy.Loadtest.Harness.{
  TestHarness, Goroutine, echo_loop, proxy_loop, backend_closer, serve_loop,
}
use tlspxy.Loadtest.Harness.Setup.{new_harness, close, trigger_reload, ends}
use tlspxy.Loadtest.Harness.Closing.{AllEnd, close-new_harness}
use tlspxy.Loadtest.Scenario.{
  Scenario, World, ScenarioRun, creating_harness, unsupported_mode, generate, reload_ticks, spawn,
  reload_under_load, validate_result, measure, run_generator, run_scenario,
}

module _ {C P : Type 0} where
  -- The parts of a harness that a reload leaves alone.
  abbrev SameLives : TestHarness C P → TestHarness C P → Type 0
  SameLives h h' =
      (h'.backend_ln ≡ h.backend_ln)
      × (h'.proxy_ln ≡ h.proxy_ln)
      × (h'.srv ≡ h.srv)
      × (h'.wg ≡ h.wg)

  ends-same :
      (g : Goroutine) (h h' : TestHarness C P)
      → SameLives h h'
      → ends g (close h) ≡ true
      → ends g (close h') ≡ true
  unfolding ends close
  ends-same echo_loop h h' same e = ground (arith, same, e)
  ends-same proxy_loop h h' same e = ground (arith, same, e)
  ends-same backend_closer h h' same e = refl
  ends-same serve_loop h h' same e = ground (arith, same, e)

  AllEnd-same :
      (gs : List Goroutine) (h h' : TestHarness C P)
      → SameLives h h'
      → AllEnd gs (close h)
      → AllEnd gs (close h')
  AllEnd-same [] h h' same e = tt
  AllEnd-same (g ∷ gs) h h' same e = (ends-same g h h' same e.0, AllEnd-same gs h h' same e.1)

  close-wg : (h : TestHarness C P) → (close h).wg ≡ h.wg
  unfolding close
  close-wg h = refl

  -- A harness that has been reloaded closes as well.
  AllEnd-close :
      (h h' : TestHarness C P)
      → SameLives h h'
      → AllEnd h.wg (close h)
      → AllEnd (close h').wg (close h')
  AllEnd-close h h' same e =
      subst (λ gs. AllEnd gs (close h')) (sym (close-wg h' ∙ same.3)) (AllEnd-same h.wg h h' same e)

  trigger_reload-SameLives :
      (load : String → String → Option C) (h : TestHarness C P)
      → SameLives h (trigger_reload load h).0
  unfolding trigger_reload
  trigger_reload-SameLives load h = ground arith

module _ (fl : FloatOps) {C P : Type 0} (w : World C P) where
  reload_ticks-SameLives : (n : ℕ) (h : TestHarness C P) → SameLives h (reload_ticks fl w n h)
  unfolding reload_ticks
  reload_ticks-SameLives zero h = (refl, refl, refl, refl)
  reload_ticks-SameLives (suc n) h =
      let first = trigger_reload-SameLives w.host.load_key_pair h in
      let rest = reload_ticks-SameLives n (trigger_reload w.host.load_key_pair h).0 in
      (rest.0 ∙ first.0, rest.1 ∙ first.1, rest.2 ∙ first.2, rest.3 ∙ first.3)

  reload_under_load-SameLives :
      (s : Scenario fl) (h : TestHarness C P) → SameLives h (reload_under_load fl w s h)
  unfolding reload_under_load
  reload_under_load-SameLives s h = ground (arith, reload_ticks-SameLives w.ticks h)

  -- What RunScenario returns where the harness is made and there is a generator.
  run_scenario-some :
      (s : Scenario fl) (cert_dir : String) (h : TestHarness C P) (workers : List (List Op))
      (r : LoadResult fl)
      → new_harness w.host w.net (record s.harness { cert_dir = cert_dir }) ≡ (h, none)
      → generate fl w s h ≡ some workers
      → measure fl w s workers ≡ some r
      → run_scenario fl w s cert_dir
        ≡ some (record {
          harness = close (reload_under_load fl w s h);
          result = some r;
          error = validate_result fl w s r;
        })
  unfolding run_scenario run_generator
  run_scenario-some s cert_dir h workers r made generated measured =
      ground (arith, made, generated, measured)

  generate-tcp :
      (s : Scenario fl) (h : TestHarness C P)
      → str_eq s.mode "tcp" ≡ true
      → generate fl w s h
        ≡ some (
            tcp_run s.payload_size
              (spawn s.concurrency (w.tcp_rounds h.proxy_addr h.client_tls_conf)))
  unfolding generate
  generate-tcp s h e = ground (arith, e)

  measure-some :
      (s : Scenario fl) (workers : List (List Op)) (stats : Stats) (r : LoadResult fl)
      → apply_ops (w.order workers) (start_stats w.began new_stats) ≡ some stats
      → snapshot fl w.now s.name s.concurrency stats ≡ some r
      → measure fl w s workers ≡ some r
  unfolding measure
  measure-some s workers stats r ran shot = ground (arith, ran, shot)

  -- Where the harness of a TCP scenario is made, every worker returns and their operations
  -- interleave in any order, RunScenario gives a Result that counts each round of each worker once,
  -- mod 2^64, with as many bytes received as sent, and every goroutine that Close waits for comes
  -- to its end.
  pub run_scenario-tcp :
      (s : Scenario fl) (cert_dir : String) (h : TestHarness C P)
      → new_harness w.host w.net (record s.harness { cert_dir = cert_dir }) ≡ (h, none)
      → str_eq s.mode "tcp" ≡ true
      → let workers = spawn s.concurrency (w.tcp_rounds h.proxy_addr h.client_tls_conf) in
        AllReturn (tcp_size s.payload_size) workers
        → Interleaved (tcp_run s.payload_size workers) (w.order (tcp_run s.payload_size workers))
        → (run : ScenarioRun fl C P) × (r : LoadResult fl) × (run_scenario fl w s cert_dir
            ≡ some run)
          × (run.result ≡ some r)
          × (r.total_requests ≡ i64 (total_rounds workers))
          × (r.bytes_received ≡ r.bytes_sent)
          × AllEnd run.harness.wg run.harness
  run_scenario-tcp s cert_dir h made tcp all inter =
      let workers = spawn s.concurrency (w.tcp_rounds h.proxy_addr h.client_tls_conf) in
      let ops = tcp_run s.payload_size workers in
      let shot =
        tcp_run-snapshot s.payload_size workers (w.order ops) fl w.began w.now s.name s.concurrency
          all inter in
      let h' = reload_under_load fl w s h in
      let config = record s.harness { cert_dir = cert_dir } in
      (
        record { harness = close h'; result = some shot.1; error = validate_result fl w s shot.1 },
        shot.1,
        run_scenario-some s cert_dir h ops shot.1 made (generate-tcp s h tcp)
            (measure-some s ops shot.0 shot.1 shot.2 shot.3),
        refl,
        shot.4,
        shot.6,
        AllEnd-close h h' (reload_under_load-SameLives s h)
            (close-new_harness w.host w.net config h made),
      )

  measure_returns :
      (s : Scenario fl) (workers : List (List Op))
      → (r : LoadResult fl) × (measure fl w s workers ≡ some r)
  measure_returns s workers =
      let shot = snapshot-apply_ops (w.order workers) fl w.began w.now s.name s.concurrency in
      (shot.1, measure-some s workers shot.0 shot.1 shot.2 shot.3)

  -- A run without an error has a result, and this is valid.
  abbrev pub IsPassed : Scenario fl → ScenarioRun fl C P → Type 0
  IsPassed s run =
      (run.error ≢ none)
      ⊎ ((r : LoadResult fl) × (run.result ≡ some r) × (validate_result fl w s r ≡ none))

  run_generator-IsPassed :
      (s : Scenario fl) (h : TestHarness C P)
      → (run : ScenarioRun fl C P) × (run_generator fl w s h ≡ some run) × IsPassed s run
  unfolding run_generator
  run_generator-IsPassed s h = elim (Option-cases (generate fl w s h)) [
    | inl unknown ↦ (
      record { harness = close h; result = none; error = some (unsupported_mode s.mode) },
      ground (arith, unknown),
      inl (λ e. ground (arith, e)),
    )
    | inr workers ↦
        let m = measure_returns s workers.0 in
        (
          record {
            harness = close (reload_under_load fl w s h);
            result = some m.0;
            error = validate_result fl w s m.0;
          },
          ground (arith, workers.1, m.1),
          (elim (Option-cases (validate_result fl w s m.0)) [
            | inl valid ↦ inr (m.0, refl, valid)
            | inr bad ↦ inl (λ e. ground (arith, e, bad.1))
          ]),
        )
  ]

  -- RunScenario never panics, and without an error has a Result that is valid.
  pub run_scenario-IsPassed :
      (s : Scenario fl) (cert_dir : String)
      → (run : ScenarioRun fl C P) × (run_scenario fl w s cert_dir ≡ some run) × IsPassed s run
  unfolding run_scenario
  run_scenario-IsPassed s cert_dir =
      let made = new_harness w.host w.net (record s.harness { cert_dir = cert_dir }) in
      elim (Option-cases made.1) [
        | inl there ↦
            let run = run_generator-IsPassed s made.0 in
            (run.0, ground (arith, there, run.1), run.2)
        | inr failed ↦ (
          record { harness = made.0; result = none; error = some (creating_harness failed.0) },
          ground (arith, failed.1),
          inl (λ e. ground (arith, e)),
        )
      ]
