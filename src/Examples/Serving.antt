-- ===== src/Examples/Serving.antt =====
-- main.go under a limit of one: the backend refuses its first connection, and the second comes too
-- early.
use tlspxy.Common.{◌≤◌, ◌≡◌, refl, true, false, [], ◌∷◌, none, some, length, ◌==◌, if◌then◌else◌}
use tlspxy.Config.Koanf.{pos}
use tlspxy.Proxy.Counter.{u64, interrupt_handler}
use tlspxy.Proxy.Gauge.{inc, dec}
use tlspxy.Proxy.Start.Operations.{run_conn_op}
use tlspxy.Proxy.Start.Operations.Serial.{run_connections}
use tlspxy.Proxy.Start.Operations.Sums.{total_moved}
use tlspxy.Proxy.Start.Operations.Totals.{still_open, no_traffic}
use tlspxy.Limit.Tcp.{new_accept_loop, on_accept, on_done, remove}
use tlspxy.Limit.Tcp.Slots.{Within}
use tlspxy.Startup.Shutdown.{new_tcp_main, MainRuns}
use tlspxy.Startup.Serving.{
  returned, next_phase, this_works, this_ends, Serving, has_slot, spawn_start, takes, rejects,
  works, ends, ServingRuns, serving_stays, serving_goes,
}
use tlspxy.Startup.Serving.Gauges.{new_serving, in_start, ServingRuns-active}
use tlspxy.Startup.Serving.Serial.{connections, AllIdle, ServingRuns-run_connections}
use tlspxy.Examples.Connections.{net}
use tlspxy.Examples.Traffic.{plain, refusing, refused_ops, refused}

abbrev taken : Serving
unfolding spawn_start new_tcp_main new_accept_loop on_accept
taken = spawn_start (plain, refusing) refused_ops (new_serving 1 true)

-- The goroutine does its next step.
abbrev worked : Serving → Serving
unfolding run_conn_op next_phase inc dec
worked s = elim s.goroutines [
  | [] ↦ s
  | g ∷ gs ↦ elim g.todo [
    | [] ↦ s
    | op ∷ ops ↦ record s {
      shared = run_conn_op op s.shared;
      goroutines = record g { phase = next_phase op g.phase; todo = ops } ∷ gs;
    }
  ]
]

abbrev entered : Serving
entered = worked taken

entered_runs : ServingRuns net (new_serving 1 true) entered
unfolding spawn_start new_tcp_main new_accept_loop on_accept has_slot run_conn_op next_phase inc dec
entered_runs =
    serving_goes (serving_goes serving_stays (takes (new_serving 1 true) refl refl refl refused))
      (works taken this_works)

ServingRuns-active_example :
    MainRuns (new_tcp_main 1) entered.main
    × (entered.shared.active ≡ pos (if true then in_start entered.goroutines else 0))
    × (in_start entered.goroutines ≤ entered.main.loop.waiting)
    × Within (in_start entered.goroutines) (if 1 == 0 then none else some 1)
ServingRuns-active_example = ServingRuns-active 1 true entered_runs

one_active : entered.shared.active ≡ pos 1
unfolding spawn_start new_tcp_main new_accept_loop on_accept run_conn_op next_phase inc worked
one_active = refl

-- The second connection is closed while the first one is in Start.
abbrev crowded : Serving
unfolding on_accept
crowded = record entered { main = record entered.main { loop = on_accept entered.main.loop } }

abbrev left : Serving
left = worked (worked (worked (worked crowded)))

abbrev over : Serving
unfolding on_done remove
over = record left {
  main = record left.main { loop = on_done 1 left.main.loop };
  goroutines = elim left.goroutines [ [] ↦ [] | g ∷ gs ↦ record g { phase = returned } ∷ gs ];
}

over_runs : ServingRuns net (new_serving 1 true) over
unfolding spawn_start new_tcp_main new_accept_loop on_accept on_done remove has_slot run_conn_op
    next_phase inc dec worked
over_runs =
    let full = serving_goes entered_runs (rejects entered refl refl refl) in
    let warned = serving_goes full (works crowded this_works) in
    let counted = serving_goes warned (works (worked crowded) this_works) in
    let signalled = serving_goes counted (works (worked (worked crowded)) this_works) in
    let out = serving_goes signalled (works (worked (worked (worked crowded))) this_works) in
    serving_goes out (ends left this_ends)

over_idle : AllIdle over.goroutines
unfolding spawn_start worked next_phase over crowded taken
over_idle = (refl, tt)

ServingRuns-run_connections_example :
    let conns = connections over.goroutines in
    let sent = total_moved net true conns in
    let received = total_moved net false conns in
    (over.shared ≡ run_connections net conns (no_traffic true))
    × (interrupt_handler over.shared.counter ≡ (u64 sent, u64 received))
    × (over.shared.active ≡ pos (if true then still_open net conns else 0))
    × (over.shared.accepted ≡ (if true then length conns else 0))
ServingRuns-run_connections_example = ServingRuns-run_connections 1 true over_runs over_idle
