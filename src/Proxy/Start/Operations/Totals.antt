-- ===== src/Proxy/Start/Operations/Totals.antt =====
-- What the counter and the metrics of internal/proxy/tcp.go show of connections that run at the same
-- time.
use tlspxy.Common.{
  ℕ, ◌+◌, ◌≡◌, refl, ap, ◌∙◌, arith, Bool, true, false, not, ◌&&◌, List, [], ◌∷◌, length,
  if◌then◌else◌,
}
use tlspxy.Common.Merges.{Interleaved, run_all, tally-Interleaved}
use tlspxy.Config.Koanf.{pos}
use tlspxy.Proxy.Counter.{u64, interrupt_handler}
use tlspxy.Proxy.Gauge.{inc}
use tlspxy.Proxy.Header.{NetText}
use tlspxy.Proxy.Start.{TcpProxy, Network, start}
use tlspxy.Proxy.Start.Gate.{is_finished, start-closes}
use tlspxy.Proxy.Start.Operations.{Shared, shared_of, new_connection, ConnOp, run_conn_op}
use tlspxy.Proxy.Start.Operations.Serial.{
  returns, start-returns, start-ConnTrace, metrics-run_all, Connection, run_connections, Traces,
  no_connection, connection, run_all-run_connections,
}
use tlspxy.Proxy.Start.Operations.Sums.{
  conn_counted, conn_metered, run_all-Adds, total_moved, Traces-moved,
}

abbrev pub still_open : NetText → List Connection → ℕ
still_open net [] = 0
still_open net ((p, n) ∷ conns) =
    if returns net p n then still_open net conns else still_open net conns + 1

-- The gauge and the count of connections.
Gauges : NetText → List Connection → ℕ → Shared → Shared → Type 0
Gauges net conns k sh sh' =
    (sh'.active ≡ (if sh.metrics then pos (k + still_open net conns) else pos k))
    × (sh'.accepted ≡ (if sh.metrics then sh.accepted + length conns else sh.accepted))

connection_Gauges :
    (net : NetText) (p : TcpProxy) (n : Network) (k : ℕ) (sh : Shared)
    → sh.active ≡ pos k
    → is_finished (start net p n (new_connection sh)).1 ≡ returns net p n
    → let sh' = shared_of (start net p n (new_connection sh)).0 in
      (sh'.active ≡ pos (if sh.metrics && not (returns net p n) then k + 1 else k))
      × (sh'.accepted ≡ (if sh.metrics then sh.accepted + 1 else sh.accepted))
unfolding new_connection inc
connection_Gauges net p n k sh from ends =
    ground (arith, start-closes net p n (new_connection sh), from, ends)

run_connections-Gauges :
    {net : NetText} {conns : List Connection} {traces : List (List ConnOp)} (k : ℕ) (sh : Shared)
    → Traces net conns traces
    → sh.active ≡ pos k
    → Gauges net conns k sh (run_connections net conns sh)
unfolding Gauges
run_connections-Gauges k sh no_connection from = ground (arith, from)
run_connections-Gauges {net} k sh (connection {p = p} {n = n} {ops = ops} one others) from =
    let sh' = shared_of (start net p n (new_connection sh)).0 in
    let closes = connection_Gauges net p n k sh from (start-returns net p n sh one) in
    let k' = if sh.metrics && not (returns net p n) then k + 1 else k in
    let rest = run_connections-Gauges k' sh' others closes.0 in
    let same : sh'.metrics ≡ sh.metrics =
      ap (λ (t : Shared). t.metrics) (start-ConnTrace net p n sh one) ∙ metrics-run_all ops sh in
    ground (arith, rest, closes, same)

-- Before any connection.
abbrev pub no_traffic : Bool → Shared
no_traffic metrics = record {
  counter = record { to = 0; from = 0 };
  warnings = 0;
  errors = 0;
  bytes_sent = 0;
  bytes_received = 0;
  active = pos 0;
  accepted = 0;
  metrics = metrics;
}

-- Of connections that run at the same time from zero, each by one of its sequences of steps and in
-- any interleaving, InterruptHandler logs the bytes of the whole rounds of all pipes, mod 2^64;
-- where metrics are enabled, the metrics of bytes are these sums, the gauge is the number of
-- connections whose Start has not returned, and the total is the number of connections; where they
-- are not, all four stay 0.
pub interrupt_handler-run_all :
    {net : NetText} {conns : List Connection} {traces : List (List ConnOp)} {ops : List ConnOp}
    (metrics : Bool)
    → Traces net conns traces
    → Interleaved traces ops
    → let sh = run_all run_conn_op ops (no_traffic metrics) in
      let sent = total_moved net true conns in
      let received = total_moved net false conns in
      (interrupt_handler sh.counter ≡ (u64 sent, u64 received))
      × (sh.bytes_sent ≡ (if metrics then sent else 0))
      × (sh.bytes_received ≡ (if metrics then received else 0))
      × (sh.active ≡ pos (if metrics then still_open net conns else 0))
      × (sh.accepted ≡ (if metrics then length conns else 0))
unfolding interrupt_handler Gauges
interrupt_handler-run_all {ops = ops} metrics each order =
    let began = no_traffic metrics in
    let added = run_all-Adds ops began (ground arith) in
    let moves = Traces-moved true each in
    let moves_back = Traces-moved false each in
    let gauges = run_connections-Gauges 0 began each refl in
    let serial = run_all-run_connections began each order in
    ground (
      arith,
      added,
      moves,
      moves_back,
      tally-Interleaved (conn_counted true) order,
      tally-Interleaved (conn_counted false) order,
      tally-Interleaved (conn_metered true) order,
      tally-Interleaved (conn_metered false) order,
      gauges,
      serial,
    )
