-- ===== src/Loadtest/Report/Printing.antt =====
-- PrintText, PrintJSON and PrintSummary of internal/loadtest/report.go: the bytes that they write.
use tlspxy.Common.{
  newline, repeat, pad_left, pad_right, ℕ, String, List, [], ◌∷◌, ◌++◌, map, Option, none, some,
  codes,
}
use tlspxy.Config.Koanf.{pos}
use tlspxy.Proxy.Header.Text.{decimal}
use tlspxy.Loadtest.Float.{FloatOps}
use tlspxy.Loadtest.Stats.{LoadResult, Breakdown}
use tlspxy.Loadtest.Report.{
  format_int, truncate, format_ms, format_float, format_duration_short, duration_ms,
}

-- What is printed one after the other, unless a part of it panics.
unfoldable pub concat_all : List (Option (List ℕ)) → Option (List ℕ)
concat_all [] = some []
concat_all (none ∷ parts) = none
concat_all (some part ∷ parts) = elim (concat_all parts) [
  | none ↦ none
  | some rest ↦ some (part ++ rest)
]

abbrev text : String → Option (List ℕ)
text s = some (codes s)

abbrev pub pad_left? : ℕ → Option (List ℕ) → Option (List ℕ)
pad_left? width none = none
pad_left? width (some s) = some (pad_left width s)

-- The three bytes of "─", a hundred times.
abbrev pub rule : List ℕ
rule = repeat 100 (0xe2 ∷ 0x94 ∷ 0x80 ∷ []) ++ newline

-- The lines of the kinds of errors, in the order in which Go ranges over the map.
unfoldable pub print_breakdown : Breakdown → Option (List ℕ)
print_breakdown [] = some []
print_breakdown (entry ∷ m) = concat_all (
    text "    - "
    ∷ text entry.0
    ∷ text ": "
    ∷ format_int entry.1
    ∷ some newline
    ∷ print_breakdown m
    ∷ [])

unfoldable pub summary_header : List ℕ
summary_header =
    newline
    ++ (codes "Summary"
        ++ (newline
            ++ (rule
                ++ (pad_right 20 (codes "Scenario")
                    ++ (codes " "
                        ++ (pad_left 10 (codes "Req/s")
                            ++ (codes " "
                                ++ (pad_left 10 (codes "MB/s")
                                    ++ (codes " "
                                        ++ (pad_left 10 (codes "P50")
                                            ++ (codes " "
                                                ++ (pad_left 10 (codes "P99")
                                                    ++ (codes " "
                                                        ++ (pad_left 10 (codes "Errors")
                                                            ++ (codes " "
                                                            ++ (pad_left 10 (codes "Err%")
                                                            ++ (newline ++ rule)))))))))))))))))

-- The fields of the JSON; their names are the tags of the structure.
pub record JsonResult (F : Type 0) : Type 0 where
  pub scenario : String
  pub duration : List ℕ
  pub concurrency : ℕ
  pub total_requests : ℕ
  pub requests_per_sec : F
  pub bytes_sent : ℕ
  pub bytes_received : ℕ
  pub throughput_mbps : F
  pub connect_p50_ms : F
  pub connect_p95_ms : F
  pub connect_p99_ms : F
  pub roundtrip_p50_ms : F
  pub roundtrip_p95_ms : F
  pub roundtrip_p99_ms : F
  pub roundtrip_max_ms : F
  pub error_count : ℕ
  pub error_rate : F
  pub error_breakdown : Breakdown

module _ (fl : FloatOps) where
  -- The rate of errors in percent.
  abbrev percent : LoadResult fl → List ℕ
  percent r = fl.fixed 2 (fl.times r.error_rate (fl.of_nat 100))

  -- PrintText, where Go ranges over the map of errors in the given order.
  unfoldable pub print_text : (Breakdown → Breakdown) → LoadResult fl → Option (List ℕ)
  print_text range r = concat_all (
      text "=== "
      ∷ text r.scenario
      ∷ text " ("
      ∷ some (format_duration_short fl r.duration)
      ∷ text ", "
      ∷ some (decimal (pos r.concurrency))
      ∷ text " workers) ==="
      ∷ some newline
      ∷ text "  Throughput:    "
      ∷ format_float fl r.requests_per_sec
      ∷ text " req/s | "
      ∷ some (fl.fixed 2 r.throughput_mbps)
      ∷ text " MB/s"
      ∷ some newline
      ∷ text "  Latency p50/p95/p99/max: "
      ∷ some (format_ms fl r.round_trip_p50)
      ∷ text " / "
      ∷ some (format_ms fl r.round_trip_p95)
      ∷ text " / "
      ∷ some (format_ms fl r.round_trip_p99)
      ∷ text " / "
      ∷ some (format_ms fl r.round_trip_max)
      ∷ some newline
      ∷ text "  Connect p50/p95/p99: "
      ∷ some (format_ms fl r.connect_p50)
      ∷ text " / "
      ∷ some (format_ms fl r.connect_p95)
      ∷ text " / "
      ∷ some (format_ms fl r.connect_p99)
      ∷ some newline
      ∷ text "  Errors: "
      ∷ format_int r.error_count
      ∷ text " ("
      ∷ some (percent r)
      ∷ text "%)"
      ∷ some newline
      ∷ print_breakdown (range r.error_breakdown)
      ∷ [])

  -- What PrintJSON hands to the encoder for one Result; duration_string is time.Duration.String.
  unfoldable pub json_result : (ℕ → List ℕ) → LoadResult fl → JsonResult fl.Float
  json_result duration_string r = record {
    scenario = r.scenario;
    duration = duration_string r.duration;
    concurrency = r.concurrency;
    total_requests = r.total_requests;
    requests_per_sec = r.requests_per_sec;
    bytes_sent = r.bytes_sent;
    bytes_received = r.bytes_received;
    throughput_mbps = r.throughput_mbps;
    connect_p50_ms = duration_ms fl r.connect_p50;
    connect_p95_ms = duration_ms fl r.connect_p95;
    connect_p99_ms = duration_ms fl r.connect_p99;
    roundtrip_p50_ms = duration_ms fl r.round_trip_p50;
    roundtrip_p95_ms = duration_ms fl r.round_trip_p95;
    roundtrip_p99_ms = duration_ms fl r.round_trip_p99;
    roundtrip_max_ms = duration_ms fl r.round_trip_max;
    error_count = r.error_count;
    error_rate = r.error_rate;
    error_breakdown = r.error_breakdown;
  }

  unfoldable pub json_results : (ℕ → List ℕ) → List (LoadResult fl) → List (JsonResult fl.Float)
  json_results duration_string = map (json_result duration_string)

  unfoldable pub summary_row : LoadResult fl → Option (List ℕ)
  summary_row r = concat_all (
      some (pad_right 20 (truncate (codes r.scenario) 20))
      ∷ text " "
      ∷ pad_left? 10 (format_float fl r.requests_per_sec)
      ∷ text " "
      ∷ some (pad_left 10 (fl.fixed 2 r.throughput_mbps))
      ∷ text " "
      ∷ some (pad_left 10 (format_ms fl r.round_trip_p50))
      ∷ text " "
      ∷ some (pad_left 10 (format_ms fl r.round_trip_p99))
      ∷ text " "
      ∷ pad_left? 10 (format_int r.error_count)
      ∷ text " "
      ∷ some (pad_left 9 (percent r))
      ∷ text "%"
      ∷ some newline
      ∷ [])

  -- PrintSummary.
  unfoldable pub print_summary : List (LoadResult fl) → Option (List ℕ)
  print_summary [] = some []
  print_summary (r ∷ results) =
      concat_all (some summary_header ∷ concat_all (map summary_row (r ∷ results)) ∷ some rule ∷ [])
