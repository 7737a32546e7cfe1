-- ===== src/Startup/Serving/Serial.antt =====
-- What the connections that main.go serves beside each other leave in the counter and the metrics of
-- internal/proxy/tcp.go.
use tlspxy.Common.{
  ℕ, ◌≡◌, refl, ap, sym, ◌∙◌, Bool, true, false, List, [], ◌∷◌, length, if◌then◌else◌,
}
use tlspxy.Common.Merges.{
  run_all, run_each, act-run_all, run_each-run_all, in_order, Interleaved-in_order,
}
use tlspxy.Config.Koanf.{pos}
use tlspxy.Proxy.Counter.{u64, interrupt_handler}
use tlspxy.Proxy.Header.{NetText}
use tlspxy.Proxy.Start.Operations.{Shared, ConnOp, run_conn_op}
use tlspxy.Proxy.Start.Operations.Order.{run_conn_op_comm}
use tlspxy.Proxy.Start.Operations.Serial.{
  Connection, run_connections, Traces, no_connection, connection, run_each-Traces,
  run_all-run_connections,
}
use tlspxy.Proxy.Start.Operations.Sums.{total_moved}
use tlspxy.Proxy.Start.Operations.Totals.{still_open, no_traffic, interrupt_handler-run_all}
use tlspxy.Startup.Serving.{
  ConnThread, Works, this_works, other_works, Ends, this_ends, other_ends, Serving, spawn_start,
  ServingStep, signal_comes, listener_closes, takes, rejects, fails, works, ends, ServingRuns,
  serving_stays, serving_goes,
}
use tlspxy.Startup.Serving.Gauges.{new_serving}

abbrev todos : List ConnThread → List (List ConnOp)
todos [] = []
todos (g ∷ gs) = g.todo ∷ todos gs

-- The connections that were served, the newest first.
abbrev pub connections : List ConnThread → List Connection
connections [] = []
connections (g ∷ gs) = g.conn ∷ connections gs

-- No goroutine has a step to do.
abbrev pub AllIdle : List ConnThread → Type 0
AllIdle [] = Unit
AllIdle (g ∷ gs) = (g.todo ≡ []) × AllIdle gs

todos-Works :
    {op : ConnOp} {gs hs : List ConnThread} (sh : Shared)
    → Works op gs hs
    → run_each run_conn_op (todos hs) (run_conn_op op sh) ≡ run_each run_conn_op (todos gs) sh
todos-Works sh this_works = refl
todos-Works {op} sh (other_works {g = g} {hs = hs} w) =
    ap (run_each run_conn_op (todos hs)) (act-run_all run_conn_op run_conn_op_comm op g.todo sh)
    ∙ todos-Works (run_all run_conn_op g.todo sh) w

todos-Ends : {id : ℕ} {gs hs : List ConnThread} → Ends id gs hs → todos hs ≡ todos gs
todos-Ends this_ends = refl
todos-Ends (other_ends {g = g} e) = ap (λ ws. g.todo ∷ ws) (todos-Ends e)

connections-Works :
    {op : ConnOp} {gs hs : List ConnThread} → Works op gs hs → connections hs ≡ connections gs
connections-Works this_works = refl
connections-Works (other_works {g = g} w) = ap (λ conns. g.conn ∷ conns) (connections-Works w)

connections-Ends :
    {id : ℕ} {gs hs : List ConnThread} → Ends id gs hs → connections hs ≡ connections gs
connections-Ends this_ends = refl
connections-Ends (other_ends {g = g} e) = ap (λ conns. g.conn ∷ conns) (connections-Ends e)

AllIdle-todos :
    (gs : List ConnThread) (sh : Shared) → AllIdle gs → run_each run_conn_op (todos gs) sh ≡ sh
AllIdle-todos [] sh idle = refl
AllIdle-todos (g ∷ gs) sh (none_left, idle) =
    ap (λ ops. run_each run_conn_op (todos gs) (run_all run_conn_op ops sh)) none_left
    ∙ AllIdle-todos gs sh idle

-- Once what is to do has been done, the shared state is that of the connections, one after the other.
abbrev Adds : NetText → Shared → List (List ConnOp) → Serving → Type 0
Adds net sh traces s =
    Traces net (connections s.goroutines) traces
    × (run_each run_conn_op (todos s.goroutines) s.shared ≡ run_each run_conn_op traces sh)

step-Adds :
    {net : NetText} {sh : Shared} {traces : List (List ConnOp)} {s t : Serving}
    → ServingStep net s t
    → Adds net sh traces s
    → (traces' : List (List ConnOp)) × Adds net sh traces' t
unfolding spawn_start
step-Adds {traces = traces} (signal_comes s) h = (traces, h)
step-Adds {traces = traces} (listener_closes s c) h = (traces, h)
step-Adds {sh = sh} {traces = traces} (takes {ops = ops} s a l free trace) h = (
  ops ∷ traces,
  (
    connection trace h.0,
    run_each-run_all run_conn_op run_conn_op_comm (todos s.goroutines) ops s.shared
        ∙ ap (run_all run_conn_op ops) h.1
        ∙ sym (run_each-run_all run_conn_op run_conn_op_comm traces ops sh),
  ),
)
step-Adds {traces = traces} (rejects s a l full) h = (traces, h)
step-Adds {traces = traces} (fails s a) h = (traces, h)
step-Adds {net} {traces = traces} (works s w) h =
    (traces, (rw (connections-Works w) h.0, todos-Works s.shared w ∙ h.1))
step-Adds {net} {traces = traces} (ends s e) h = (
  traces,
  (rw (connections-Ends e) h.0, ap (λ ws. run_each run_conn_op ws s.shared) (todos-Ends e) ∙ h.1),
)

ServingRuns-Adds :
    {net : NetText} (max_conns : ℕ) (metrics : Bool) {s : Serving}
    → ServingRuns net (new_serving max_conns metrics) s
    → (traces : List (List ConnOp)) × Adds net (no_traffic metrics) traces s
ServingRuns-Adds max_conns metrics serving_stays = ([], (no_connection, refl))
ServingRuns-Adds max_conns metrics (serving_goes r st) =
    let (traces, h) = ServingRuns-Adds max_conns metrics r in step-Adds st h

-- While main serves TCP, with connections accepted, rejected, run step by step beside each other
-- and ended in any order: whenever no goroutine has a step to do, the counter and the metrics are
-- as if the connections that were served had run one after the other, the newest first;
-- InterruptHandler logs the bytes of the whole rounds of all their pipes, mod 2^64, and, where
-- metrics are enabled, the gauge is the number of those whose Start has not returned and the total
-- is their number.
pub ServingRuns-run_connections :
    {net : NetText} (max_conns : ℕ) (metrics : Bool) {s : Serving}
    → ServingRuns net (new_serving max_conns metrics) s
    → AllIdle s.goroutines
    → let conns = connections s.goroutines in
      let sent = total_moved net true conns in
      let received = total_moved net false conns in
      (s.shared ≡ run_connections net conns (no_traffic metrics))
      × (interrupt_handler s.shared.counter ≡ (u64 sent, u64 received))
      × (s.shared.active ≡ pos (if metrics then still_open net conns else 0))
      × (s.shared.accepted ≡ (if metrics then length conns else 0))
ServingRuns-run_connections max_conns metrics {s} r idle =
    let began = no_traffic metrics in
    let (traces, (each, same)) = ServingRuns-Adds max_conns metrics r in
    let order = Interleaved-in_order traces in
    let serial = run_all-run_connections began each order in
    let all_done =
      sym (AllIdle-todos s.goroutines s.shared idle) ∙ same ∙ run_each-Traces began each in
    let logged = interrupt_handler-run_all metrics each order in
    let shown : s.shared ≡ run_all run_conn_op (in_order traces) began = all_done ∙ sym serial in
    (
      all_done,
      ap (λ (sh : Shared). interrupt_handler sh.counter) shown ∙ logged.0,
      ap (λ (sh : Shared). sh.active) shown ∙ logged.3,
      ap (λ (sh : Shared). sh.accepted) shown ∙ logged.4,
    )
