-- ===== src/Examples/Loadtest.antt =====
-- A scenario with two workers, of which one is refused once, and what is measured of it.
use tlspxy.Common.{
  ℕ, zero, suc, ◌+◌, ◌*◌, ◌/◌, ◌≤◌, ◌<◌, ◌≡◌, refl, arith, String, str_eq, true, false, List, [],
  ◌∷◌, ◌++◌, none, some, ltb, if◌then◌else◌,
}
use tlspxy.Common.Result.{ok, err}
use tlspxy.Config.Koanf.{pos}
use tlspxy.Proxy.Header.Text.{decimal}
use tlspxy.Tls.Host.{Host}
use tlspxy.Loadtest.Float.{FloatOps, i64}
use tlspxy.Loadtest.Stats.{Op, LoadResult, percentile, sort_durations}
use tlspxy.Loadtest.Stats.Percentiles.{count_up_to, count_from, limited, percentile-sort_durations}
use tlspxy.Common.Merges.{Merge, stop, left, right, Interleaved, no_thread, thread}
use tlspxy.Loadtest.Generator.{
  TcpRound, tcp_size, tcp_run, tcp_worker, tcp_round, tcp_reads, read_loop,
}
use tlspxy.Loadtest.Generator.TcpRuns.{AllReturn, total_rounds}
use tlspxy.Loadtest.Harness.{
  HarnessConfig, proxy_listen, Net, TestHarness, running, ended, echo_loop, empty_harness,
}
use tlspxy.Loadtest.Harness.Setup.{
  go, cancel_on_error, listen_backend, wrap_backend, listen_proxy, wrap_proxy, set_proxy_addr,
  set_remote, setup_tcp, set_client, setup, new_harness, close,
}
use tlspxy.Loadtest.Harness.Closing.{AllEnd, close-new_harness}
use tlspxy.Loadtest.Harness.Leaks.{is_backend_tls, new_harness-leaks}
use tlspxy.Loadtest.Scenario.{Scenario, World, ScenarioRun, basic, harness_of, spawn, run_scenario}
use tlspxy.Loadtest.Scenario.Runs.{run_scenario-tcp}
use tlspxy.Loadtest.Command.{Flags, Paths}

-- Fractions for floating-point numbers.
abbrev fraction : String → ℕ × ℕ
fraction text =
    if str_eq text "0.50"
    then (50, 100)
    else if str_eq text "0.95"
    then (95, 100)
    else if str_eq text "0.99"
    then (99, 100)
    else if str_eq text "0.75"
    then (75, 100)
    else if str_eq text "0.01"
    then (1, 100)
    else (0, 1)

abbrev fractions : FloatOps
fractions = record {
  Float = ℕ × ℕ;
  literal = fraction;
  of_nat = λ n. (n, 1);
  of_int64 = λ n. (n, 1);
  times = λ a b. (a.0 * b.0, a.1 * b.1);
  over = λ a b. (a.0 * b.1, a.1 * b.0);
  gt = λ a b. ltb (b.0 * a.1) (a.0 * b.1);
  to_int = λ a. pos (a.0 / a.1);
  quantile_index = λ n p h. (n * (fraction p).0 / (1 * (fraction p).1), refl);
  seconds = λ d. (d, 1_000_000_000);
  minutes = λ d. (d, 60_000_000_000);
  hours = λ d. (d, 3_600_000_000_000);
  fixed = λ n a. decimal (pos (a.0 / a.1));
}

abbrev samples : List ℕ
samples = 30 ∷ 10 ∷ 20 ∷ []

percentile-sort_durations_example :
    (v : ℕ) × (percentile fractions (sort_durations samples) (50, 100) ≡ some v)
    × (limited fractions 3 1 < count_up_to v samples)
    × (3 ≤ count_from v samples + limited fractions 3 1)
percentile-sort_durations_example =
    percentile-sort_durations fractions samples (50, 100) 1 (omega arith) refl

-- No certificates, and two listeners.
abbrev host : Host ℕ ℕ
host = record {
  exists = λ path. false;
  read_file = λ path. none;
  load_key_pair = λ cert key. none;
  system_pool = none;
  new_pool = 0;
  append_certs = λ pool pem. none;
}

abbrev net : Net
net = record {
  join = λ dir name. name;
  backend_addr = some "127.0.0.1:4001";
  proxy_addr = some "127.0.0.1:4002";
  backend_url = "http://127.0.0.1:4003";
  parses = λ url. true;
}

-- A round that succeeds in two reads, and one that is refused.
abbrev echoed : TcpRound
echoed = record { dial = ok 5; write = none; reads = (1000, none) ∷ (24, none) ∷ []; latency = 9 }

abbrev refused : TcpRound
refused = record { dial = err "connection refused"; write = none; reads = []; latency = 0 }

abbrev rounds : ℕ → List TcpRound
rounds zero = echoed ∷ refused ∷ echoed ∷ []
rounds (suc n) = echoed ∷ []

abbrev one_by_one : List (List Op) → List Op
one_by_one [] = []
one_by_one (w ∷ ws) = w ++ one_by_one ws

after_all : (xs ys : List Op) → Merge xs ys (xs ++ ys)
after_all [] [] = stop
after_all [] (y ∷ ys) = right (after_all [] ys)
after_all (x ∷ xs) ys = left (after_all xs ys)

one_by_one-Interleaved : (ws : List (List Op)) → Interleaved ws (one_by_one ws)
one_by_one-Interleaved [] = no_thread
one_by_one-Interleaved (w ∷ ws) = thread (after_all w (one_by_one ws)) (one_by_one-Interleaved ws)

abbrev world : World ℕ ℕ
world = record {
  host = host;
  net = net;
  tcp_rounds = λ addr conf. rounds;
  http_rounds = λ url conf n. [];
  order = one_by_one;
  began = 10;
  now = 50;
  ticks = 3;
}

abbrev plaintext : Scenario fractions
plaintext = basic fractions "tcp-plaintext" "TCP proxy with no TLS" (harness_of "tcp") 2 1024

abbrev config : HarnessConfig
config = record plaintext.harness { cert_dir = "/certs" }

abbrev harness : TestHarness ℕ ℕ
harness = (new_harness host net config).0

harness_made : new_harness host net config ≡ (harness, none)
unfolding new_harness cancel_on_error set_client setup setup_tcp listen_backend wrap_backend go
    listen_proxy wrap_proxy set_proxy_addr set_remote
harness_made = refl

close-new_harness_example : AllEnd harness.wg (close harness)
close-new_harness_example = close-new_harness host net config harness harness_made

abbrev workers : List (List TcpRound)
workers = spawn 2 rounds

all_return : AllReturn (tcp_size (pos 1024)) workers
unfolding tcp_worker tcp_round tcp_reads read_loop tcp_size
all_return = (refl, (refl, tt))

run_scenario-tcp_example :
    (run : ScenarioRun fractions ℕ ℕ) × (r : LoadResult fractions) × (run_scenario fractions world
        plaintext "/certs"
      ≡ some run)
    × (run.result ≡ some r)
    × (r.total_requests ≡ i64 (total_rounds workers))
    × (r.bytes_received ≡ r.bytes_sent)
    × AllEnd run.harness.wg run.harness
run_scenario-tcp_example =
    run_scenario-tcp fractions world plaintext "/certs" harness harness_made refl all_return
      (one_by_one-Interleaved (tcp_run (pos 1024) workers))

abbrev paths : Paths
paths = record {
  getwd = some "/src";
  exists = λ path. true;
  join = λ dir name. name;
  dir = λ path. "/";
}

abbrev flags : Flags
flags = record {
  scenario = "tcp-plaintext";
  list = false;
  concurrency = pos 2;
  duration = pos 0;
  payload = pos 0;
  json_output = false;
  cert_dir = "";
}

-- The proxy gets no listener.
abbrev half_net : Net
half_net = record net { proxy_addr = none }

abbrev half_made : TestHarness ℕ ℕ
half_made = (new_harness host half_net config).0

half_failed : new_harness host half_net config ≡ (half_made, some proxy_listen)
unfolding new_harness cancel_on_error set_client setup setup_tcp listen_backend wrap_backend go
    listen_proxy wrap_proxy set_proxy_addr set_remote
half_failed = refl

client_fine : (set_client host half_net config empty_harness).1 ≡ none
unfolding set_client
client_fine = refl

new_harness-leaks_example :
    (half_made.backend_ln ≡ running)
    × (half_made.wg ≡ (if is_backend_tls proxy_listen then [] else echo_loop ∷ []))
    × (half_made.context ≡ ended)
new_harness-leaks_example =
    new_harness-leaks host half_net config half_made proxy_listen "127.0.0.1:4001" refl refl
      client_fine half_failed
