-- ===== src/Startup/Serving/Gauges.antt =====
-- The gauge of internal/proxy/tcp.go and the limit of main.go, while main.go serves TCP.
use tlspxy.Common.{
  ℕ, zero, suc, ◌+◌, ◌≤◌, ◌≡◌, refl, sym, arith, ◌⊎◌, inl, inr, Bool-cases, Bool, true, false, List,
  [], ◌∷◌, ◌==◌, none, some, map, length, if◌then◌else◌,
}
use tlspxy.Common.Merges.{tally, tally-append, tally-Merge}
use tlspxy.Config.Koanf.{pos}
use tlspxy.Limit.Tcp.{new_accept_loop, on_accept, on_accept_error, on_done, has_id, remove}
use tlspxy.Limit.Tcp.Slots.{Within, Distinct, Runs-IsLimited}
use tlspxy.Proxy.Gauge.{inc, dec}
use tlspxy.Proxy.Header.{NetText}
use tlspxy.Proxy.Pipe.Operations.{SharedOp}
use tlspxy.Proxy.Start.{TcpProxy, Network}
use tlspxy.Proxy.Start.Operations.{
  Shared, ConnOp, enters, leaves, shares, run_conn_op, first_ops, ConnTrace, quits, serves,
}
use tlspxy.Proxy.Start.Operations.Totals.{no_traffic}
use tlspxy.Startup.Shutdown.{
  new_tcp_main, MainStep, signalled, close_listener, accepts, accept_fails, accept_closed,
  connection_ends, MainRuns, main_stay, main_go,
}
use tlspxy.Startup.Shutdown.Drains.{loop-Runs}
use tlspxy.Startup.Serving.{
  Phase, spawned, inside, left_start, returned, ConnThread, next_phase, Works, this_works,
  other_works, Ends, this_ends, other_ends, Serving, has_slot, spawn_start, ServingStep,
  signal_comes, listener_closes, takes, rejects, fails, works, ends, ServingRuns, serving_stays,
  serving_goes,
}

abbrev pub new_serving : ℕ → Bool → Serving
new_serving max_conns metrics = record {
  main = new_tcp_main max_conns;
  shared = no_traffic metrics;
  goroutines = [];
}

-- The goroutines that are in Start, and those that hold their slot.
abbrev is_inside : Phase → ℕ
is_inside inside = 1
is_inside spawned = 0
is_inside left_start = 0
is_inside returned = 0

abbrev pub in_start : List ConnThread → ℕ
in_start [] = 0
in_start (g ∷ gs) = is_inside g.phase + in_start gs

abbrev holds_slot : Phase → Bool
holds_slot spawned = true
holds_slot inside = true
holds_slot left_start = true
holds_slot returned = false

abbrev holders : List ConnThread → List ℕ
holders [] = []
holders (g ∷ gs) = if holds_slot g.phase then g.id ∷ holders gs else holders gs

holders-in_start : (gs : List ConnThread) → in_start gs ≤ length (holders gs)
holders-in_start [] = omega arith
holders-in_start (g ∷ gs) = ground (arith, holders-in_start gs)

abbrev is_enters : ConnOp → ℕ
is_enters enters = 1
is_enters leaves = 0
is_enters (shares a) = 0

abbrev is_leaves : ConnOp → ℕ
is_leaves enters = 0
is_leaves leaves = 1
is_leaves (shares a) = 0

-- What may come in each phase.
abbrev Fits : Phase → List ConnOp → Type 0
Fits spawned [] = ⊥
Fits spawned (enters ∷ ops) = (tally is_enters ops ≡ 0) × (tally is_leaves ops ≤ 1)
Fits spawned (leaves ∷ ops) = ⊥
Fits spawned (shares a ∷ ops) = ⊥
Fits inside ops = (tally is_enters ops ≡ 0) × (tally is_leaves ops ≤ 1)
Fits left_start ops = (tally is_enters ops ≡ 0) × (tally is_leaves ops ≡ 0)
Fits returned ops = (tally is_enters ops ≡ 0) × (tally is_leaves ops ≡ 0)

abbrev AllFit : List ConnThread → Type 0
AllFit [] = Unit
AllFit (g ∷ gs) = Fits g.phase g.todo × AllFit gs

tally-shared :
    (ops : List SharedOp)
    → (tally is_enters (map shares ops) ≡ 0) × (tally is_leaves (map shares ops) ≡ 0)
tally-shared [] = (refl, refl)
tally-shared (a ∷ ops) = ground (arith, tally-shared ops)

module _ (net : NetText) (p : TcpProxy) (n : Network) where
  ConnTrace-Fits : {ops : List ConnOp} → ConnTrace net p n ops → Fits spawned ops
  ConnTrace-Fits (quits stops) =
      let first = map shares (first_ops net p n).0 in
      ground (
        arith,
        tally-shared (first_ops net p n).0,
        tally-append is_enters first (leaves ∷ []),
        tally-append is_leaves first (leaves ∷ []),
      )
  ConnTrace-Fits (serves {ops = ops} goes_on m along) =
      ground (arith, tally-shared ops, tally-Merge is_enters along, tally-Merge is_leaves along)

-- How a step of a goroutine changes the number of those in Start.
abbrev Moves : ConnOp → ℕ → ℕ → Type 0
Moves enters k k' = k' ≡ k + 1
Moves leaves k k' = k' + 1 ≡ k
Moves (shares a) k k' = k' ≡ k

works_first :
    (op : ConnOp) (phase : Phase) (ops : List ConnOp)
    → Fits phase (op ∷ ops)
    → Fits (next_phase op phase) ops
      × (holds_slot (next_phase op phase) ≡ holds_slot phase)
      × Moves op (is_inside phase) (is_inside (next_phase op phase))
unfolding next_phase
works_first op phase ops fits = ground (arith, fits)

works_lem :
    {op : ConnOp} {gs hs : List ConnThread}
    → Works op gs hs
    → AllFit gs
    → AllFit hs × (holders hs ≡ holders gs) × Moves op (in_start gs) (in_start hs)
works_lem {op} (this_works {phase = phase} {todo = todo}) fit =
    let first = works_first op phase todo fit.0 in ground (arith, first, fit)
works_lem {op} (other_works w) fit = ground (arith, works_lem w fit.1, fit)

ends_lem :
    {id : ℕ} {gs hs : List ConnThread}
    → Ends id gs hs
    → AllFit gs
    → Distinct (holders gs)
    → AllFit hs
      × (has_id id (holders gs) ≡ true)
      × (holders hs ≡ remove id (holders gs))
      × (in_start hs ≡ in_start gs)
unfolding remove
ends_lem this_ends fit distinct = ground (arith, fit)
ends_lem (other_ends {g = g} e) fit distinct = ground (arith, ends_lem e fit.1, fit, distinct)

pub record IsServing (enabled : Bool) (s : Serving) : Type 0 where
  active : s.shared.active ≡ pos (if enabled then in_start s.goroutines else 0)
  metrics : s.shared.metrics ≡ enabled
  running : s.main.loop.running ≡ holders s.goroutines
  fit : AllFit s.goroutines

gauge-Moves :
    (op : ConnOp) (sh : Shared) (k k' : ℕ)
    → sh.active ≡ pos (if sh.metrics then k else 0)
    → Moves op k k'
    → ((run_conn_op op sh).active ≡ pos (if sh.metrics then k' else 0))
      × ((run_conn_op op sh).metrics ≡ sh.metrics)
unfolding run_conn_op inc dec
gauge-Moves op sh k zero active moved = ground (arith, active, moved)
gauge-Moves op sh k (suc k') active moved = ground (arith, active, moved)

-- A step of main, or none.
main_step :
    {net : NetText} {metrics : Bool} {s t : Serving}
    → ServingStep net s t
    → IsServing metrics s
    → Distinct s.main.loop.running
    → (t.main ≡ s.main) ⊎ MainStep s.main t.main
unfolding spawn_start
main_step (signal_comes s) h d = inr (signalled s.main)
main_step (listener_closes s c) h d = inr (close_listener s.main c)
main_step (takes s a l free trace) h d = inr (accepts s.main a l)
main_step (rejects s a l full) h d = inr (accepts s.main a l)
main_step (fails s a) h d = elim (Bool-cases s.main.listening) [
  | inl on ↦ inr (accept_fails s.main a on)
  | inr off ↦ inr (accept_closed s.main a off)
]
main_step (works s w) h d = inl refl
main_step (ends {id = id} s e) h d =
    let ended = ends_lem e h.fit (rw (sym h.running) d) in
    inr (connection_ends s.main id (rw h.running ended.1))

step-IsServing :
    {net : NetText} {metrics : Bool} {s t : Serving}
    → ServingStep net s t
    → IsServing metrics s
    → Distinct s.main.loop.running
    → IsServing metrics t
unfolding spawn_start has_slot on_accept on_accept_error on_done
step-IsServing (signal_comes s) h d = ground arith
step-IsServing (listener_closes s c) h d = ground arith
step-IsServing {net} (takes {p = p} {n = n} s a l free trace) h d =
    ground (arith, ConnTrace-Fits net p n trace, free)
step-IsServing (rejects s a l full) h d = ground (arith, full)
step-IsServing (fails s a) h d = ground arith
step-IsServing (works {op = op} {gs = gs} s w) h d =
    let worked = works_lem w h.fit in
    let moved = gauge-Moves op s.shared (in_start s.goroutines) (in_start gs) in
    ground (arith, h, worked, moved)
step-IsServing (ends s e) h d =
    let ended = ends_lem e h.fit (rw (sym h.running) d) in ground (arith, h, ended)

pub ServingRuns-MainRuns :
    {net : NetText} (max_conns : ℕ) (metrics : Bool) {s : Serving}
    → ServingRuns net (new_serving max_conns metrics) s
    → MainRuns (new_tcp_main max_conns) s.main × IsServing metrics s
unfolding new_tcp_main new_accept_loop
ServingRuns-MainRuns max_conns metrics serving_stays = (main_stay, ground arith)
ServingRuns-MainRuns max_conns metrics {s} (serving_goes r st) =
    let (runs, is) = ServingRuns-MainRuns max_conns metrics r in
    let distinct = (Runs-IsLimited max_conns (loop-Runs runs)).0.distinct in
    (
      elim (main_step st is distinct) [ inl same ↦ rw same runs | inr moved ↦ main_go runs moved ],
      step-IsServing st is distinct,
    )

-- Whatever main does while it serves TCP, its accept loop and its goroutines go through states that
-- its shutdown is shown for; the gauge of active connections, where metrics are enabled, is the
-- number of connections in Start, which is never more than the wait group counts, nor than
-- server.maxconns where that is positive.
pub ServingRuns-active :
    {net : NetText} (max_conns : ℕ) (metrics : Bool) {s : Serving}
    → ServingRuns net (new_serving max_conns metrics) s
    → MainRuns (new_tcp_main max_conns) s.main
      × (s.shared.active ≡ pos (if metrics then in_start s.goroutines else 0))
      × (in_start s.goroutines ≤ s.main.loop.waiting)
      × Within (in_start s.goroutines) (if max_conns == 0 then none else some max_conns)
unfolding new_tcp_main
ServingRuns-active max_conns metrics {s} r =
    let (runs, is) = ServingRuns-MainRuns max_conns metrics r in
    let (limited, cap) = Runs-IsLimited max_conns (loop-Runs runs) in
    let fewer = holders-in_start s.goroutines in
    (
      runs,
      is.active,
      ground (arith, fewer, limited.waiting, is.running),
      ground (arith, fewer, limited.used, limited.within, is.running, cap),
    )
