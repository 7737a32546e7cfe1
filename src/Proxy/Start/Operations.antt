-- ===== src/Proxy/Start/Operations.antt =====
-- Start of internal/proxy/tcp.go as the sequences of its operations on what all connections share: the
-- counter and the metrics. The two pipes of a connection, and the rest of Start beside them, run at
-- the same time.
pub mod Order
pub mod Serial
pub mod Sums
pub mod Totals
use tlspxy.Common.{
  ℕ, ◌+◌, str_eq, Bool, true, false, ◌||◌, List, [], ◌∷◌, ◌++◌, Option, none, some, ltb, length,
  map, ◌≡◌, if◌then◌else◌,
}
use tlspxy.Common.Result.{ok, err}
use tlspxy.Common.Merges.{Merge}
use tlspxy.Config.Koanf.{ℤ}
use tlspxy.Proxy.Counter.{Counter, add_to, add_from}
use tlspxy.Proxy.Gauge.{inc, dec}
use tlspxy.Proxy.Header.{NetText}
use tlspxy.Proxy.Header.Text.{proxy_header}
use tlspxy.Proxy.Pipe.{other, WriteResult}
use tlspxy.Proxy.Pipe.Operations.{
  SharedOp, warns, counts_error, signals, counts, meters, report_ops, pipe_ops,
}
use tlspxy.Proxy.Start.{TcpProxy, Network, StartState}

-- What all connections share.
pub record Shared : Type 0 where
  pub counter : Counter
  pub warnings : ℕ
  pub errors : ℕ
  pub bytes_sent : ℕ
  pub bytes_received : ℕ
  pub active : ℤ
  pub accepted : ℕ
  pub metrics : Bool

abbrev pub shared_of : StartState → Shared
shared_of s = record {
  counter = s.link.counter;
  warnings = s.link.warnings;
  errors = s.link.errors;
  bytes_sent = s.link.bytes_sent;
  bytes_received = s.link.bytes_received;
  active = s.active;
  accepted = s.accepted;
  metrics = s.link.metrics;
}

-- A connection before Start, with a CloseOnce and an ErrorSignal of its own.
unfoldable pub new_connection : Shared → StartState
new_connection sh = record {
  link = record {
    delivered = [];
    counter = sh.counter;
    closed_once = false;
    signals = 0;
    warnings = sh.warnings;
    errors = sh.errors;
    bytes_sent = sh.bytes_sent;
    bytes_received = sh.bytes_received;
    metrics = sh.metrics;
  };
  received = [];
  trace = [];
  active = sh.active;
  accepted = sh.accepted;
}

-- The gauges at the start and at the end of Start, and what is done in between.
pub data ConnOp : Type 0 where
  enters leaves : ConnOp
  shares : SharedOp → ConnOp

unfoldable pub run_conn_op : ConnOp → Shared → Shared
run_conn_op enters sh =
    if sh.metrics then record sh { active = inc sh.active; accepted = sh.accepted + 1 } else sh
run_conn_op leaves sh = if sh.metrics then record sh { active = dec sh.active } else sh
run_conn_op (shares warns) sh = record sh { warnings = sh.warnings + 1 }
run_conn_op (shares counts_error) sh =
    if sh.metrics then record sh { errors = sh.errors + 1 } else sh
run_conn_op (shares signals) sh = sh
run_conn_op (shares (counts islocal n)) sh = record sh {
  counter = if islocal then add_to n sh.counter else add_from n sh.counter;
}
run_conn_op (shares (meters islocal n)) sh =
    if sh.metrics
    then (if islocal
        then record sh { bytes_sent = sh.bytes_sent + n }
        else record sh { bytes_received = sh.bytes_received + n })
    else sh

-- Up to the pipes: the operations, and whether the pipes start.
unfoldable pub header_ops : NetText → TcpProxy → WriteResult → List SharedOp × Bool
header_ops net p w =
    if str_eq p.proxy_proto ""
    then ([], true)
    else elim (proxy_header net p.proxy_proto p.remote_addr p.local_addr) [
      | err e ↦ (report_ops other, false)
      | ok header ↦
          if ltb 0 (length header)
          then elim w.error [ none ↦ ([], true) | some e ↦ (report_ops e, false) ]
          else ([], true)
    ]

unfoldable pub dial_ops : NetText → TcpProxy → Network → List SharedOp × Bool
unfolding header_ops
dial_ops net p n = elim n.dial [ some e ↦ (report_ops e, false) | none ↦ header_ops net p n.header ]

unfoldable pub first_ops : NetText → TcpProxy → Network → List SharedOp × Bool
unfolding dial_ops
first_ops net p n =
    if p.server_tls
    then (if n.handshake then dial_ops net p n else (signals ∷ [], false))
    else dial_ops net p n

abbrev pub has_signal : List SharedOp → Bool
has_signal [] = false
has_signal (signals ∷ ops) = true
has_signal (_ ∷ ops) = has_signal ops

-- Whether the select of Start ends.
abbrev pub select_ends : Network → Bool
select_ends n =
    n.cancelled || has_signal (pipe_ops true n.forward) || has_signal (pipe_ops false n.backward)

-- The sequences that one connection may show. The end of Start is not after that of its pipes.
pub data ConnTrace (net : NetText) (p : TcpProxy) (n : Network) : List ConnOp → Type 0 where
  quits :
      (first_ops net p n).1 ≡ false
      → ConnTrace net p n (enters ∷ map shares (first_ops net p n).0 ++ leaves ∷ [])
  serves :
      {ops : List SharedOp} {rest : List ConnOp}
      → (first_ops net p n).1 ≡ true
      → Merge (pipe_ops true n.forward) (pipe_ops false n.backward) ops
      → Merge (map shares ops) (if select_ends n then leaves ∷ [] else []) rest
      → ConnTrace net p n (enters ∷ rest)
