-- ===== src/Loadtest/Scenario.antt =====
-- internal/loadtest/scenario.go: the scenarios, and RunScenario, which puts harness, generator and
-- statistics together. Durations are in nanoseconds.
pub mod Runs
use tlspxy.Common.{
  ℕ, zero, suc, ◌+◌, ◌*◌, String, str_eq, str_append, Bool, true, false, List, [], ◌∷◌, ◌++◌,
  Option, none, some, ltb, codes, if◌then◌else◌,
}
use tlspxy.Config.Koanf.{ℤ, pos, negsuc}
use tlspxy.Tls.Host.{Host}
use tlspxy.Loadtest.Float.{FloatOps}
use tlspxy.Loadtest.Stats.{Op, Stats, LoadResult, start_stats, new_stats, apply_ops, snapshot}
use tlspxy.Loadtest.Generator.{TcpRound, HttpRound, tcp_run, http_run}
use tlspxy.Loadtest.Harness.{HarnessConfig, HarnessError, Net, DialConfig, TestHarness}
use tlspxy.Loadtest.Harness.Setup.{new_harness, close, trigger_reload}

pub record Scenario (fl : FloatOps) : Type 0 where
  pub name : String
  pub description : String
  pub mode : String
  pub harness : HarnessConfig
  pub concurrency : ℕ
  pub duration : ℕ
  pub payload_size : ℤ
  pub reload_interval : ℕ
  -- The error of a Result that does not pass.
  pub validate : Option (LoadResult fl → Option (List ℕ))

-- A HarnessConfig with its mode; all else is the zero value.
abbrev pub harness_of : String → HarnessConfig
harness_of mode = record {
  mode = mode;
  server_tls = false;
  remote_tls = false;
  mutual_tls = false;
  max_conns = pos 0;
  http2 = false;
  cert_dir = "";
  response_size = pos 0;
}

abbrev pub with_server_tls : String → HarnessConfig
with_server_tls mode = record (harness_of mode) { server_tls = true }

abbrev pub ten_seconds : ℕ
ten_seconds = 10_000_000_000

abbrev pub mebibyte : ℕ
mebibyte = 1_048_576

module _ (fl : FloatOps) where
  -- A scenario of ten seconds without reloads.
  abbrev pub basic : String → String → HarnessConfig → ℕ → ℕ → Scenario fl
  basic name description harness concurrency payload_size = record {
    name = name;
    description = description;
    mode = harness.mode;
    harness = harness;
    concurrency = concurrency;
    duration = ten_seconds;
    payload_size = pos payload_size;
    reload_interval = 0;
    validate = none;
  }

  -- Validate of tcp-maxconns.
  unfoldable pub validate_maxconns : LoadResult fl → Option (List ℕ)
  validate_maxconns r =
      if fl.gt r.error_rate (fl.literal "0.75")
      then some (
          codes "error rate "
          ++ (fl.fixed 2 (fl.times r.error_rate (fl.of_nat 100))
              ++ codes "% exceeds 75% threshold"))
      else none

  -- DefaultScenarios, which ListScenarios copies.
  unfoldable pub default_scenarios : List (Scenario fl)
  default_scenarios =
      basic "tcp-plaintext" "TCP proxy with no TLS" (harness_of "tcp") 50 1024
      ∷ basic "tcp-tls" "TCP proxy with server-side TLS" (with_server_tls "tcp") 50 1024
      ∷ basic "tcp-tls-both" "TCP proxy with TLS on both sides"
          (record (with_server_tls "tcp") { remote_tls = true }) 50 1024
      ∷ basic "tcp-mtls" "TCP proxy with mutual TLS"
          (record (with_server_tls "tcp") { mutual_tls = true }) 50 1024
      ∷ record (basic "tcp-maxconns"
          "TCP proxy with connection limit (50) under high load (200 workers)"
          (record (with_server_tls "tcp") { max_conns = pos 50 }) 200 1024) {
            validate = some validate_maxconns;
          }
      ∷ basic "tcp-large-payload" "TCP proxy with 1MB payload" (with_server_tls "tcp") 20 mebibyte
      ∷ basic "http-tls" "HTTP reverse proxy with TLS" (with_server_tls "http") 50 0
      ∷ basic "http-large-response" "HTTP reverse proxy with 1MB response"
          (record (with_server_tls "http") { response_size = pos mebibyte }) 20 0
      ∷ record (basic "cert-reload-under-load" "TCP proxy with cert reload every 500ms under load"
          (with_server_tls "tcp") 50 1024) { reload_interval = 500_000_000 }
      ∷ []

pub data ScenarioError : Type 0 where
  creating_harness : HarnessError → ScenarioError
  unsupported_mode : String → ScenarioError
  invalid : List ℕ → ScenarioError

-- What is around a scenario: what the network does to each worker that dials an address, or asks for a
-- URL; the order in which what the workers do happens; the times of Start and Snapshot; how often the
-- ticker has fired before the context ends.
pub record World (C P : Type 0) : Type 0 where
  pub host : Host C P
  pub net : Net
  pub tcp_rounds : String → Option (DialConfig C P) → ℕ → List TcpRound
  pub http_rounds : String → Option (DialConfig C P) → ℕ → List HttpRound
  pub order : List (List Op) → List Op
  pub began : ℕ
  pub now : ℕ
  pub ticks : ℕ

-- The workers from 0 to n - 1, the last one first.
abbrev pub spawn {ℓ} : {A : Type ℓ} → ℕ → (ℕ → A) → List A
spawn zero f = []
spawn (suc n) f = f n ∷ spawn n f

-- A *Result and an error, with the harness as it is then.
pub record ScenarioRun (fl : FloatOps) (C P : Type 0) : Type 0 where
  pub harness : TestHarness C P
  pub result : Option (LoadResult fl)
  pub error : Option ScenarioError

module _ (fl : FloatOps) {C P : Type 0} (w : World C P) where
  -- The URL that an HTTP generator asks for.
  unfoldable pub generator_url : Scenario fl → TestHarness C P → String
  generator_url s h =
      let scheme = if s.harness.server_tls then "https" else "http" in
      str_append scheme (str_append "://" (str_append h.proxy_addr "/"))

  -- What the workers of the generator do; `none` where there is no generator for the mode.
  unfoldable pub generate : Scenario fl → TestHarness C P → Option (List (List Op))
  generate s h =
      if str_eq s.mode "tcp"
      then some (
          tcp_run s.payload_size
            (spawn s.concurrency (w.tcp_rounds h.proxy_addr h.client_tls_conf)))
      else if str_eq s.mode "http"
      then some (
          http_run s.payload_size
            (spawn s.concurrency (w.http_rounds (generator_url s h) h.client_tls_conf)))
      else none

  -- The goroutine of the ticker: its errors are dropped.
  unfoldable pub reload_ticks : ℕ → TestHarness C P → TestHarness C P
  reload_ticks zero h = h
  reload_ticks (suc n) h = reload_ticks n (trigger_reload w.host.load_key_pair h).0

  unfoldable pub reload_under_load : Scenario fl → TestHarness C P → TestHarness C P
  unfolding reload_ticks
  reload_under_load s h = if ltb 0 s.reload_interval then reload_ticks w.ticks h else h

  -- `if s.Validate != nil { … }`.
  unfoldable pub validate_result : Scenario fl → LoadResult fl → Option ScenarioError
  validate_result s r = elim s.validate [
    | none ↦ none
    | some check ↦ elim (check r) [ none ↦ none | some e ↦ some (invalid e) ]
  ]

  -- Snapshot of the stats after the run; `none` is a panic.
  unfoldable pub measure : Scenario fl → List (List Op) → Option (LoadResult fl)
  measure s workers = elim (apply_ops (w.order workers) (start_stats w.began new_stats)) [
    | none ↦ none
    | some stats ↦ snapshot fl w.now s.name s.concurrency stats
  ]

  -- RunScenario after NewHarness; the deferred Close comes last.
  unfoldable pub run_generator : Scenario fl → TestHarness C P → Option (ScenarioRun fl C P)
  run_generator s h = elim (generate s h) [
    | none ↦
        some (record { harness = close h; result = none; error = some (unsupported_mode s.mode) })
    | some workers ↦ elim (measure s workers) [
      | none ↦ none
      | some r ↦ some (record {
        harness = close (reload_under_load s h);
        result = some r;
        error = validate_result s r;
      })
    ]
  ]

  -- RunScenario.
  unfoldable pub run_scenario : Scenario fl → String → Option (ScenarioRun fl C P)
  run_scenario s cert_dir =
      let made = new_harness w.host w.net (record s.harness { cert_dir = cert_dir }) in
      elim made.1 [
        | some e ↦
            some (record { harness = made.0; result = none; error = some (creating_harness e) })
        | none ↦ run_generator s made.0
      ]
