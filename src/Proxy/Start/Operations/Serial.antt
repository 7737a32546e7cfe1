-- ===== src/Proxy/Start/Operations/Serial.antt =====
-- Whole connections of internal/proxy/tcp.go that run at the same time.
use tlspxy.Common.{
  ◌≡◌, refl, sym, ap, ◌∙◌, arith, Bool, true, false, List, [], ◌∷◌, ◌++◌, map, if◌then◌else◌,
  Bool-cases, Option-cases, inl, inr,
}
use tlspxy.Common.Merges.{
  Merge, Interleaved, run_all, run_each, run_all-append, run_all-Merge, run_all-Interleaved,
}
use tlspxy.Proxy.Header.{NetText}
use tlspxy.Proxy.Pipe.{signal}
use tlspxy.Proxy.Pipe.Operations.{SharedOp, report_ops, pipe_ops}
use tlspxy.Proxy.Pipe.Operations.Order.{report-report_ops}
use tlspxy.Proxy.Start.{
  TcpProxy, Network, StartState, Ending, or_timeout, dials, handshakes, note, enter, leave,
  dial_and_serve, handshake_and_serve, finish, start,
}
use tlspxy.Proxy.Start.Gate.{is_finished}
use tlspxy.Proxy.Start.Operations.{
  Shared, shared_of, new_connection, ConnOp, enters, leaves, shares, run_conn_op, dial_ops,
  first_ops, select_ends, ConnTrace, quits, serves,
}
use tlspxy.Proxy.Start.Operations.Order.{
  Quits, Serves, IsUnsignalled, serve-Quits, serve-Serves, run_conn_op_comm, run_all-shares,
}

module _ (net : NetText) (p : TcpProxy) (n : Network) where
  dial-Quits :
      (s : StartState)
      → (dial_ops net p n).1 ≡ false
      → Quits net p n s (dial_ops net p n).0 (dial_and_serve net p n s)
  unfolding dial_and_serve dial_ops note
  dial-Quits s fails =
      let t = note (dials p.remote_tls (or_timeout p.dial_timeout 30000000000)) s in
      elim (Option-cases n.dial) [
        | inr (e, failed) ↦
            ground (arith, failed, report-report_ops e s.link, run_all-shares (report_ops e) s)
        | inl dialled ↦ ground (arith, dialled, serve-Quits net p n t)
      ]

  dial-Serves :
      {ops : List SharedOp} (s : StartState)
      → Merge (pipe_ops true n.forward) (pipe_ops false n.backward) ops
      → (dial_ops net p n).1 ≡ true
      → IsUnsignalled s.link
      → Serves net p n ops s (dial_and_serve net p n s)
  unfolding dial_and_serve dial_ops note
  dial-Serves s m goes_on fresh =
      let t = note (dials p.remote_tls (or_timeout p.dial_timeout 30000000000)) s in
      elim (Option-cases n.dial) [
        | inr (e, failed) ↦ absurd (ground (arith, failed))
        | inl dialled ↦ ground (arith, dialled, serve-Serves net p n t m)
      ]

  first-Quits :
      (s : StartState)
      → (first_ops net p n).1 ≡ false
      → Quits net p n s (first_ops net p n).0 (handshake_and_serve net p n s)
  unfolding handshake_and_serve first_ops note run_conn_op signal
  first-Quits s fails =
      let t = note (handshakes (or_timeout p.handshake_timeout 10000000000)) s in
      elim (Bool-cases p.server_tls) [
        | inr plain ↦ ground (arith, plain, dial-Quits s)
        | inl tls ↦ elim (Bool-cases n.handshake) [
          | inl shaken ↦ ground (arith, tls, shaken, dial-Quits t)
          | inr refused ↦ rw (tls, refused) (ground arith, refl)
        ]
      ]

  first-Serves :
      {ops : List SharedOp} (s : StartState)
      → Merge (pipe_ops true n.forward) (pipe_ops false n.backward) ops
      → (first_ops net p n).1 ≡ true
      → IsUnsignalled s.link
      → Serves net p n ops s (handshake_and_serve net p n s)
  unfolding handshake_and_serve first_ops note
  first-Serves s m goes_on fresh =
      let t = note (handshakes (or_timeout p.handshake_timeout 10000000000)) s in
      ground (arith, dial-Serves s m, dial-Serves t m)

pub metrics-run_all :
    (ops : List ConnOp) (sh : Shared) → (run_all run_conn_op ops sh).metrics ≡ sh.metrics
unfolding run_conn_op
metrics-run_all [] sh = refl
metrics-run_all (a ∷ ops) sh = metrics-run_all ops (run_conn_op a sh) ∙ ground arith

-- The deferred calls.
finish_lem :
    (counted : Bool) (r : StartState × Ending)
    → counted ≡ r.0.link.metrics
    → shared_of (finish counted r).0
      ≡ (if is_finished r.1 then run_conn_op leaves (shared_of r.0) else shared_of r.0)
unfolding finish leave note run_conn_op
finish_lem counted r same = ground (arith, same)

entered :
    (sh : Shared)
    → (shared_of (enter (new_connection sh)) ≡ run_conn_op enters sh)
      × IsUnsignalled (enter (new_connection sh)).link
unfolding enter new_connection run_conn_op
entered sh = ground arith

abbrev ended : Bool → List ConnOp
ended over = if over then leaves ∷ [] else []

run_all-ended :
    (over : Bool) (ops : List ConnOp) (sh : Shared)
    → (if over then run_conn_op leaves (run_all run_conn_op ops sh) else run_all run_conn_op ops sh)
      ≡ run_all run_conn_op (ops ++ ended over) sh
run_all-ended true ops sh = sym (run_all-append run_conn_op ops (leaves ∷ []) sh)
run_all-ended false ops sh = sym (run_all-append run_conn_op ops [] sh)

module _ (net : NetText) (p : TcpProxy) (n : Network) where
  start_lem :
      (ops : List ConnOp) (over : Bool) (sh : Shared)
      → let r = handshake_and_serve net p n (enter (new_connection sh)) in
        shared_of r.0 ≡ run_all run_conn_op ops (shared_of (enter (new_connection sh)))
        → is_finished r.1 ≡ over
        → shared_of (start net p n (new_connection sh)).0
          ≡ run_all run_conn_op (enters ∷ ops ++ ended over) sh
  unfolding start new_connection
  start_lem ops over sh same ends =
      let s = enter (new_connection sh) in
      let r = handshake_and_serve net p n s in
      let before = same ∙ ap (run_all run_conn_op ops) (entered sh).0 in
      let still : sh.metrics ≡ r.0.link.metrics =
        sym (ap (λ (t : Shared). t.metrics) before ∙ metrics-run_all (enters ∷ ops) sh) in
      finish_lem sh.metrics r still
      ∙ ap (λ over. if over then run_conn_op leaves (shared_of r.0) else shared_of r.0) ends
      ∙ ap (λ t. if over then run_conn_op leaves t else t) before
      ∙ run_all-ended over ops (run_conn_op enters sh)

  -- What a connection leaves is what any of its sequences of operations makes.
  pub start-ConnTrace :
      {ops : List ConnOp} (sh : Shared)
      → ConnTrace net p n ops
      → shared_of (start net p n (new_connection sh)).0 ≡ run_all run_conn_op ops sh
  start-ConnTrace sh (quits fails) =
      let s = enter (new_connection sh) in
      let (same, over) = first-Quits net p n s fails in
      start_lem (map shares (first_ops net p n).0) true sh same (ap is_finished over)
  start-ConnTrace sh (serves {ops = ops} {rest = rest} goes_on m along) =
      let s = enter (new_connection sh) in
      let (same, over) = first-Serves net p n s m goes_on (entered sh).1 in
      start_lem (map shares ops) (select_ends n) sh same over
      ∙ run_all-append run_conn_op (map shares ops) (ended (select_ends n)) (run_conn_op enters sh)
      ∙ sym (run_all-Merge run_conn_op run_conn_op_comm along (run_conn_op enters sh))

module _ (net : NetText) (p : TcpProxy) (n : Network) where
  -- Whether Start returns.
  abbrev pub returns : Bool
  returns = if (first_ops net p n).1 then select_ends n else true

  finished-start :
      (s : StartState)
      → is_finished (start net p n s).1 ≡ is_finished (handshake_and_serve net p n (enter s)).1
  unfolding start finish
  finished-start s = ground arith

  pub start-returns :
      {ops : List ConnOp} (sh : Shared)
      → ConnTrace net p n ops
      → is_finished (start net p n (new_connection sh)).1 ≡ returns
  start-returns sh (quits fails) =
      let s = enter (new_connection sh) in
      finished-start (new_connection sh)
      ∙ ap is_finished (first-Quits net p n s fails).1
      ∙ ground (arith, fails)
  start-returns sh (serves goes_on m along) =
      let s = enter (new_connection sh) in
      finished-start (new_connection sh)
      ∙ (first-Serves net p n s m goes_on (entered sh).1).1
      ∙ ground (arith, goes_on)

-- A connection with what the network does to it.
abbrev pub Connection : Type 0
Connection = TcpProxy × Network

-- Each connection after the one before.
abbrev pub run_connections : NetText → List Connection → Shared → Shared
run_connections net [] sh = sh
run_connections net ((p, n) ∷ conns) sh =
    run_connections net conns (shared_of (start net p n (new_connection sh)).0)

-- For each connection one of its sequences of operations.
pub data Traces (net : NetText) : List Connection → List (List ConnOp) → Type 0 where
  no_connection : Traces net [] []
  connection :
      {p : TcpProxy} {n : Network} {conns : List Connection} {ops : List ConnOp}
      {traces : List (List ConnOp)}
      → ConnTrace net p n ops
      → Traces net conns traces
      → Traces net ((p, n) ∷ conns) (ops ∷ traces)

pub run_each-Traces :
    {net : NetText} {conns : List Connection} {traces : List (List ConnOp)} (sh : Shared)
    → Traces net conns traces
    → run_each run_conn_op traces sh ≡ run_connections net conns sh
run_each-Traces sh no_connection = refl
run_each-Traces {net} sh (connection {p = p} {n = n} {conns = conns} {traces = traces} one others) =
    ap (run_each run_conn_op traces) (sym (start-ConnTrace net p n sh one))
    ∙ run_each-Traces (shared_of (start net p n (new_connection sh)).0) others

-- However any connections run at the same time, each by one of its sequences of steps, the counter
-- and the metrics end as if each Start ran after the one before.
pub run_all-run_connections :
    {net : NetText} {conns : List Connection} {traces : List (List ConnOp)} {ops : List ConnOp}
    (sh : Shared)
    → Traces net conns traces
    → Interleaved traces ops
    → run_all run_conn_op ops sh ≡ run_connections net conns sh
run_all-run_connections sh each order =
    run_all-Interleaved run_conn_op run_conn_op_comm order sh ∙ run_each-Traces sh each
