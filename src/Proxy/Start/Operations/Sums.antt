-- ===== src/Proxy/Start/Operations/Sums.antt =====
-- What the operations of connections of internal/proxy/tcp.go add up to.
use tlspxy.Common.{
  ℕ, ◌+◌, ◌≡◌, refl, arith, Bool, true, false, List, [], ◌∷◌, map, length, if◌then◌else◌,
  Option-cases, inl, inr,
}
use tlspxy.Common.Merges.{run_all, tally, tally_all, tally-append, tally-Merge}
use tlspxy.Proxy.Counter.{u64, add_to, add_from}
use tlspxy.Proxy.Header.{NetText}
use tlspxy.Proxy.Pipe.{other, Round}
use tlspxy.Proxy.Pipe.Counting.{IsCounter}
use tlspxy.Proxy.Pipe.Operations.{SharedOp}
use tlspxy.Proxy.Pipe.Operations.Sums.{
  passed_bytes, counted_by, metered_by, report_ops_lem, pipe_ops_lem,
}
use tlspxy.Proxy.Start.{TcpProxy, Network}
use tlspxy.Proxy.Start.Operations.{
  Shared, ConnOp, enters, leaves, shares, run_conn_op, header_ops, dial_ops, first_ops, ConnTrace,
  quits, serves,
}
use tlspxy.Proxy.Start.Operations.Serial.{Connection, Traces, no_connection, connection}

abbrev pub conn_counted : Bool → ConnOp → ℕ
conn_counted l (shares a) = counted_by l a
conn_counted l enters = 0
conn_counted l leaves = 0

abbrev pub conn_metered : Bool → ConnOp → ℕ
conn_metered l (shares a) = metered_by l a
conn_metered l enters = 0
conn_metered l leaves = 0

tally-shares :
    (l : Bool) (ops : List SharedOp)
    → (tally (conn_counted l) (map shares ops) ≡ tally (counted_by l) ops)
      × (tally (conn_metered l) (map shares ops) ≡ tally (metered_by l) ops)
tally-shares l [] = (refl, refl)
tally-shares l (a ∷ ops) = ground (arith, tally-shares l ops)

-- From a counter of two uint64, the counter and the metrics of bytes after any operations.
abbrev pub Adds : List ConnOp → Shared → Shared → Type 0
Adds ops sh sh' =
    (sh'.counter.to ≡ u64 (sh.counter.to + tally (conn_counted true) ops))
    × (sh'.counter.from ≡ u64 (sh.counter.from + tally (conn_counted false) ops))
    × (sh'.bytes_sent
        ≡ (if sh.metrics then sh.bytes_sent + tally (conn_metered true) ops else sh.bytes_sent))
    × (sh'.bytes_received ≡ (
        if sh.metrics
        then sh.bytes_received + tally (conn_metered false) ops
        else sh.bytes_received))

pub run_all-Adds :
    (ops : List ConnOp) (sh : Shared)
    → IsCounter sh.counter
    → Adds ops sh (run_all run_conn_op ops sh)
unfolding run_conn_op add_to add_from
run_all-Adds [] sh wf = ground arith
run_all-Adds (a ∷ ops) sh wf = ground (arith, run_all-Adds ops (run_conn_op a sh))

-- Before the pipes nothing is counted.
Uncounted : Bool → List SharedOp → Type 0
Uncounted l ops = (tally (counted_by l) ops ≡ 0) × (tally (metered_by l) ops ≡ 0)

module _ (net : NetText) (p : TcpProxy) (n : Network) where
  header_ops_lem : (l : Bool) → Uncounted l (header_ops net p n.header).0
  unfolding header_ops Uncounted
  header_ops_lem l = elim (Option-cases n.header.error) [
    | inl fine ↦ ground (arith, fine, report_ops_lem l other)
    | inr (e, failed) ↦ ground (arith, failed, report_ops_lem l e, report_ops_lem l other)
  ]

  dial_ops_lem : (l : Bool) → Uncounted l (dial_ops net p n).0
  unfolding dial_ops Uncounted
  dial_ops_lem l = elim (Option-cases n.dial) [
    | inl dialled ↦ ground (arith, dialled, header_ops_lem l)
    | inr (e, failed) ↦ ground (arith, failed, report_ops_lem l e)
  ]

  first_ops_lem : (l : Bool) → Uncounted l (first_ops net p n).0
  unfolding first_ops Uncounted
  first_ops_lem l = ground (arith, dial_ops_lem l)

  -- What the rounds of a direction are.
  abbrev pub side : Bool → List Round
  side true = n.forward
  side false = n.backward

  -- How many bytes of a direction are counted.
  abbrev pub moved : Bool → ℕ
  moved l = if (first_ops net p n).1 then length (passed_bytes (side l)) else 0

  ConnTrace-moved :
      (l : Bool) {ops : List ConnOp}
      → ConnTrace net p n ops
      → (tally (conn_counted l) ops ≡ moved l) × (tally (conn_metered l) ops ≡ moved l)
  unfolding Uncounted
  ConnTrace-moved l (quits fails) =
      let first = map shares (first_ops net p n).0 in
      ground (
        arith,
        fails,
        first_ops_lem l,
        tally-shares l (first_ops net p n).0,
        tally-append (conn_counted l) first (leaves ∷ []),
        tally-append (conn_metered l) first (leaves ∷ []),
      )
  ConnTrace-moved true (serves {ops = ops} goes_on m along) = ground (
    arith,
    goes_on,
    tally-Merge (conn_counted true) along,
    tally-Merge (conn_metered true) along,
    tally-shares true ops,
    tally-Merge (counted_by true) m,
    tally-Merge (metered_by true) m,
    pipe_ops_lem true n.forward,
    pipe_ops_lem false n.backward,
  )
  ConnTrace-moved false (serves {ops = ops} goes_on m along) = ground (
    arith,
    goes_on,
    tally-Merge (conn_counted false) along,
    tally-Merge (conn_metered false) along,
    tally-shares false ops,
    tally-Merge (counted_by false) m,
    tally-Merge (metered_by false) m,
    pipe_ops_lem true n.forward,
    pipe_ops_lem false n.backward,
  )

-- Of all connections.
abbrev pub total_moved : NetText → Bool → List Connection → ℕ
total_moved net l [] = 0
total_moved net l ((p, n) ∷ conns) = moved net p n l + total_moved net l conns

pub Traces-moved :
    {net : NetText} (l : Bool) {conns : List Connection} {traces : List (List ConnOp)}
    → Traces net conns traces
    → (tally_all (conn_counted l) traces ≡ total_moved net l conns)
      × (tally_all (conn_metered l) traces ≡ total_moved net l conns)
Traces-moved l no_connection = (refl, refl)
Traces-moved {net} l (connection {p = p} {n = n} one others) =
    ground (arith, ConnTrace-moved net p n l one, Traces-moved l others)
