-- ===== src/Loadtest/Stats.antt =====
-- Stats of internal/loadtest/stats.go. Durations are numbers of nanoseconds. Each method takes the lock
-- or is one atomic operation, so that what the workers do is a list of operations, in some order.
pub mod Sorting
pub mod Percentiles
pub mod Counting
use tlspxy.Common.{
  ℕ, ◌+◌, ◌-◌, ◌*◌, String, str_eq, Bool, List, [], ◌∷◌, ◌++◌, Option, none, some, ltb, leb, length,
  if◌then◌else◌, ◌==◌, zero, suc, true, ◌&&◌, codes,
}
use tlspxy.Config.Koanf.{ℤ, pos, negsuc}
use tlspxy.Loadtest.Float.{FloatOps, i64, is_positive}

-- map[string]int; the order of its entries plays no part.
abbrev pub Breakdown : Type 0
Breakdown = List (String × ℕ)

pub record Stats : Type 0 where
  pub connect_latency : List ℕ
  pub rt_latency : List ℕ
  -- `none` is the nil map.
  pub error_breakdown : Option Breakdown
  pub success_count : ℕ
  pub error_count : ℕ
  pub bytes_sent : ℕ
  pub bytes_received : ℕ
  pub start_time : ℕ

-- `&Stats{}`.
abbrev pub new_stats : Stats
new_stats = record {
  connect_latency = [];
  rt_latency = [];
  error_breakdown = none;
  success_count = 0;
  error_count = 0;
  bytes_sent = 0;
  bytes_received = 0;
  start_time = 0;
}

-- Start, at the time `now`.
unfoldable pub start_stats : ℕ → Stats → Stats
start_stats now s = record s { start_time = now; error_breakdown = some [] }

unfoldable pub record_connect : ℕ → Stats → Stats
record_connect d s = record s { connect_latency = s.connect_latency ++ (d ∷ []) }

unfoldable pub record_round_trip : ℕ → Stats → Stats
record_round_trip d s = record s { rt_latency = s.rt_latency ++ (d ∷ []) }

unfoldable pub record_success : Stats → Stats
record_success s = record s { success_count = i64 (s.success_count + 1) }

-- `m[key]++` on a map that is not nil.
unfoldable pub increment : String → Breakdown → Breakdown
increment key [] = (key, 1) ∷ []
increment key (entry ∷ m) =
    let rest = increment key m in
    if str_eq entry.0 key then (entry.0, i64 (entry.1 + 1)) ∷ m else entry ∷ rest

-- `none` is the panic of an assignment to the nil map.
unfoldable pub record_error : String → Stats → Option Stats
record_error err_str s = elim s.error_breakdown [
  | none ↦ none
  | some m ↦ some (record s {
    error_count = i64 (s.error_count + 1);
    error_breakdown = some (increment err_str m);
  })
]

unfoldable pub record_bytes : ℕ → ℕ → Stats → Stats
record_bytes sent received s = record s {
  bytes_sent = i64 (s.bytes_sent + sent);
  bytes_received = i64 (s.bytes_received + received);
}

-- A call of one of these methods.
pub data Op : Type 0 where
  connect : ℕ → Op
  round_trip : ℕ → Op
  success : Op
  error : String → Op
  bytes : ℕ → ℕ → Op

unfoldable pub apply_op : Op → Stats → Option Stats
unfolding record_connect record_round_trip record_success record_error record_bytes
apply_op (connect d) s = some (record_connect d s)
apply_op (round_trip d) s = some (record_round_trip d s)
apply_op success s = some (record_success s)
apply_op (error e) s = record_error e s
apply_op (bytes sent received) s = some (record_bytes sent received s)

unfoldable pub apply_ops : List Op → Stats → Option Stats
unfolding apply_op
apply_ops [] s = some s
apply_ops (op ∷ ops) s = elim (apply_op op s) [ none ↦ none | some s' ↦ apply_ops ops s' ]

-- sort.Slice by `<`: equal durations are the same, so that which of them comes first plays no part.
unfoldable pub insert_sorted : ℕ → List ℕ → List ℕ
insert_sorted x [] = x ∷ []
insert_sorted x (y ∷ ys) = let rest = insert_sorted x ys in if leb x y then x ∷ y ∷ ys else y ∷ rest

unfoldable pub sort_durations : List ℕ → List ℕ
unfolding insert_sorted
sort_durations [] = []
sort_durations (x ∷ xs) = insert_sorted x (sort_durations xs)

-- `sorted[idx]`; `none` is the panic of an index that is out of range.
unfoldable pub get_elem? : List ℕ → ℕ → Option ℕ
get_elem? [] i = none
get_elem? (x ∷ xs) zero = some x
get_elem? (x ∷ xs) (suc i) = get_elem? xs i

-- The end of percentile: `if idx >= n { idx = n - 1 }`, and `sorted[idx]`, which panics below 0.
unfoldable pub at_index : List ℕ → ℤ → Option ℕ
at_index sorted (pos idx) =
    let n = length sorted in get_elem? sorted (if leb n idx then n - 1 else idx)
at_index sorted (negsuc idx) = none

module _ (fl : FloatOps) where
  unfoldable pub percentile : List ℕ → fl.Float → Option ℕ
  unfolding at_index
  percentile sorted p =
      let n = length sorted in
      if n == 0 then some 0 else at_index sorted (fl.to_int (fl.times (fl.of_nat (n - 1)) p))

  -- Result.
  pub record LoadResult : Type 0 where
    pub scenario : String
    pub duration : ℕ
    pub concurrency : ℕ
    pub total_requests : ℕ
    pub requests_per_sec : fl.Float
    pub bytes_sent : ℕ
    pub bytes_received : ℕ
    pub throughput_mbps : fl.Float
    pub connect_p50 : ℕ
    pub connect_p95 : ℕ
    pub connect_p99 : ℕ
    pub round_trip_p50 : ℕ
    pub round_trip_p95 : ℕ
    pub round_trip_p99 : ℕ
    pub round_trip_max : ℕ
    pub error_count : ℕ
    pub error_rate : fl.Float
    pub error_breakdown : Breakdown

  -- The three percentiles of a slice, the middle one first.
  unfoldable pub percentiles : List ℕ → Option (ℕ × ℕ × ℕ)
  percentiles sorted = elim (percentile sorted (fl.literal "0.50")) [
    | none ↦ none
    | some p50 ↦ elim (percentile sorted (fl.literal "0.95")) [
      | none ↦ none
      | some p95 ↦ elim (percentile sorted (fl.literal "0.99")) [
        | none ↦ none
        | some p99 ↦ some (p50, p95, p99)
      ]
    ]
  ]

  -- rtCopy[len(rtCopy)-1].
  unfoldable pub last_or_zero : List ℕ → Option ℕ
  last_or_zero sorted =
      if ltb 0 (length sorted) then get_elem? sorted (length sorted - 1) else some 0

  -- The rates of Snapshot: `if secs > 0`, and `if total > 0`.
  unfoldable pub requests_rate : ℕ → ℕ → fl.Float
  requests_rate duration total =
      if fl.gt (fl.seconds duration) (fl.literal "0")
      then fl.over (fl.of_int64 total) (fl.seconds duration)
      else fl.literal "0"

  unfoldable pub throughput_rate : ℕ → ℕ → fl.Float
  throughput_rate duration transferred =
      if fl.gt (fl.seconds duration) (fl.literal "0")
      then fl.over (fl.over (fl.of_int64 transferred) (fl.literal "1024 * 1024"))
          (fl.seconds duration)
      else fl.literal "0"

  unfoldable pub errors_rate : ℕ → ℕ → fl.Float
  errors_rate errors total =
      if is_positive total then fl.over (fl.of_int64 errors) (fl.of_int64 total) else fl.literal "0"

  -- A copy of a map, entry by entry.
  unfoldable pub copy_breakdown : Option Breakdown → Breakdown
  copy_breakdown none = []
  copy_breakdown (some m) = m

  -- The Result of Snapshot at the time `now`, by the percentiles and the maximum.
  abbrev pub result_of : ℕ → String → ℕ → ℕ × ℕ × ℕ → ℕ × ℕ × ℕ → ℕ → Stats → LoadResult
  result_of now scenario concurrency connects trips rt_max s =
      let duration = now - s.start_time in
      let total = i64 (s.success_count + s.error_count) in
      record {
        scenario = scenario;
        duration = duration;
        concurrency = concurrency;
        total_requests = total;
        requests_per_sec = requests_rate duration total;
        bytes_sent = s.bytes_sent;
        bytes_received = s.bytes_received;
        throughput_mbps = throughput_rate duration (i64 (s.bytes_sent + s.bytes_received));
        connect_p50 = connects.0;
        connect_p95 = connects.1;
        connect_p99 = connects.2;
        round_trip_p50 = trips.0;
        round_trip_p95 = trips.1;
        round_trip_p99 = trips.2;
        round_trip_max = rt_max;
        error_count = s.error_count;
        error_rate = errors_rate s.error_count total;
        error_breakdown = copy_breakdown s.error_breakdown;
      }

  -- Snapshot.
  unfoldable pub snapshot : ℕ → String → ℕ → Stats → Option LoadResult
  snapshot now scenario concurrency s =
      let rt_copy = sort_durations s.rt_latency in
      elim (percentiles (sort_durations s.connect_latency)) [
        | none ↦ none
        | some connects ↦ elim (percentiles rt_copy) [
          | none ↦ none
          | some trips ↦ elim (last_or_zero rt_copy) [
            | none ↦ none
            | some rt_max ↦ some (result_of now scenario concurrency connects trips rt_max s)
          ]
        ]
      ]
