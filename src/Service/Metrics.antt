-- ===== src/Service/Metrics.antt =====
-- internal/metrics/metrics.go: the registration of the metrics, once, and the server that shows them.
-- The registry is the list of the names that it has; whether a pattern suits ServeMux, and whether the
-- system lets the server listen, are parameters.
use tlspxy.Common.{
  ◌≡◌, refl, arith, String, str_eq, Bool, true, false, not, List, [], ◌∷◌, Option, none, some,
  if◌then◌else◌,
}

-- Enabled, initOnce, and the default registerer of Prometheus.
pub record Metrics : Type 0 where
  pub registered : List String
  pub once_done : Bool
  pub enabled : Bool

-- The names of the variables.
unfoldable pub metric_names : List String
metric_names =
    "tlspxy_connections_active" ∷ "tlspxy_connections_total" ∷ "tlspxy_bytes_sent_total"
    ∷ "tlspxy_bytes_received_total" ∷ "tlspxy_errors_total" ∷ []

abbrev pub has_name : String → List String → Bool
has_name name [] = false
has_name name (n ∷ names) = if str_eq n name then true else has_name name names

-- MustRegister; `none` is its panic, on a name that the registry has already.
unfoldable pub must_register : List String → List String → Option (List String)
must_register [] registered = some registered
must_register (name ∷ names) registered =
    let rest = must_register names (name ∷ registered) in
    if has_name name registered then none else rest

-- Init.
unfoldable pub init : Metrics → Option Metrics
init m = if m.once_done then some m else elim (must_register metric_names m.registered) [
  | none ↦ none
  | some names ↦ some (record { registered = names; once_done = true; enabled = true })
]

-- Before Init, with the collectors that Prometheus registers itself.
unfoldable pub new_metrics : Metrics
new_metrics = record {
  registered = "go_info" ∷ "process_start_time_seconds" ∷ [];
  once_done = false;
  enabled = false;
}

-- The ends of StartServer.
pub data MetricsStart : Type 0 where
  panics listen_error serving : MetricsStart

-- StartServer.
unfoldable pub start_server : (String → Bool) → (String → Bool) → String → String → MetricsStart
start_server valid_pattern listens addr path =
    if not (valid_pattern path) then panics else if listens addr then serving else listen_error

abbrev pub IsEnabled : Option Metrics → Type 0
IsEnabled none = ⊥
IsEnabled (some m) = m.enabled ≡ true

-- Init does not panic on the fresh registry, and enables the metrics.
init_new : IsEnabled (init new_metrics)
unfolding init new_metrics must_register metric_names
init_new = refl

-- Where Init has succeeded, a further call of it changes nothing.
init-init : (m n : Metrics) → init m ≡ some n → init n ≡ some n
unfolding init
init-init m n h = ground arith
