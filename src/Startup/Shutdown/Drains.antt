-- ===== src/Startup/Shutdown/Drains.antt =====
-- What the end of main.go promises to the connections that it serves.
use tlspxy.Common.{
  ℕ, ◌≡◌, refl, arith, true, false, List, [], ◌∷◌, ◌⊎◌, inl, inr, length, ◌==◌, none, some,
  if◌then◌else◌,
}
use tlspxy.Limit.Tcp.{
  new_accept_loop, on_accept, on_accept_error, on_done, LoopStep, accept, accept_error, done, Runs,
  here, next,
}
use tlspxy.Limit.Tcp.Slots.{Within, IsLimited, Runs-IsLimited}
use tlspxy.Startup.Shutdown.{
  TcpMain, new_tcp_main, MainStep, signalled, close_listener, accepts, accept_fails, accept_closed,
  connection_ends, MainRuns, main_stay, main_go, Drain, drain_timeout, Returns, on_drained,
  on_timeout, HttpMain, new_http_main, request, shutdown, HttpRuns, http_stay, http_go, HttpReturns,
  server_closed,
}

loop_step : {m n : TcpMain} → MainStep m n → (n.loop ≡ m.loop) ⊎ LoopStep m.loop n.loop
loop_step (signalled m) = inl refl
loop_step (close_listener m h) = inl refl
loop_step (accepts m a o) = inr (accept m.loop a)
loop_step (accept_fails m a o) = inr (accept_error m.loop m.cancelled a)
loop_step (accept_closed m a o) = inr (accept_error m.loop m.cancelled a)
loop_step (connection_ends m id r) = inr (done m.loop id r)

-- The accept loop of main runs as that of Limit/Tcp.
pub loop-Runs : {m n : TcpMain} → MainRuns m n → Runs m.loop n.loop
loop-Runs main_stay = here
loop-Runs {m} (main_go r st) = elim (loop_step st) [
  | inl same ↦ rw same (loop-Runs r)
  | inr moved ↦ next (loop-Runs r) moved
]

-- The loop goes on until the root context has ended, and the listener is open until then.
record IsGuarded (m : TcpMain) : Type 0 where
  loop : m.loop.accepting ≡ false → m.cancelled ≡ true
  listener : m.listening ≡ false → m.cancelled ≡ true

step-IsGuarded : {m n : TcpMain} → MainStep m n → IsGuarded m → IsGuarded n
unfolding on_accept on_accept_error on_done
step-IsGuarded (signalled m) g = record { loop = λ h. refl; listener = λ h. refl }
step-IsGuarded (close_listener m c) g = record { loop = g.loop; listener = λ h. c }
step-IsGuarded (accepts m a o) g = ground (arith, g.loop, g.listener)
step-IsGuarded (accept_fails m a o) g = ground (arith, g.loop, g.listener)
step-IsGuarded (accept_closed m a o) g = ground (arith, g.loop, g.listener)
step-IsGuarded (connection_ends m id r) g = ground (arith, g.loop, g.listener)

runs-IsGuarded : {m n : TcpMain} → MainRuns m n → IsGuarded m → IsGuarded n
runs-IsGuarded main_stay g = g
runs-IsGuarded (main_go r st) g = step-IsGuarded st (runs-IsGuarded r g)

new-IsGuarded : (max_conns : ℕ) → IsGuarded (new_tcp_main max_conns)
unfolding new_tcp_main new_accept_loop
new-IsGuarded max_conns = ground arith

no_length : (ids : List ℕ) → length ids ≡ 0 → ids ≡ []
no_length [] h = refl
no_length (id ∷ ids) h = absurd (omega arith)

running-Within :
    (max_conns : ℕ) {m : TcpMain}
    → MainRuns (new_tcp_main max_conns) m
    → Within (length m.loop.running) (if max_conns == 0 then none else some max_conns)
unfolding new_tcp_main
running-Within max_conns r =
    let (limited, cap) = Runs-IsLimited max_conns (loop-Runs r) in
    ground (arith, limited.used, limited.within, cap)

-- Whenever main returns from serving TCP, the root context has ended, and no more connections run
-- than server.maxconns, where that is positive; the slots in use are those of the connections that
-- run, and if it is not because of the timeout, then no connection runs any more, and every slot
-- has been given back.
pub Returns-drained :
    (max_conns : ℕ) {m : TcpMain} {why : Drain}
    → MainRuns (new_tcp_main max_conns) m
    → Returns m why
    → (m.cancelled ≡ true)
      × IsLimited m.loop
      × Within (length m.loop.running) (if max_conns == 0 then none else some max_conns)
      × ((why ≡ drain_timeout) ⊎ ((m.loop.running ≡ []) × (m.loop.used ≡ 0)))
unfolding new_tcp_main
Returns-drained max_conns r (on_timeout m ended) =
    let guarded = runs-IsGuarded r (new-IsGuarded max_conns) in
    (
      guarded.loop ended,
      (Runs-IsLimited max_conns (loop-Runs r)).0,
      running-Within max_conns r,
      inl refl,
    )
Returns-drained max_conns r (on_drained m ended none_waits) =
    let guarded = runs-IsGuarded r (new-IsGuarded max_conns) in
    let limited = (Runs-IsLimited max_conns (loop-Runs r)).0 in
    let empty = no_length m.loop.running (ground (arith, limited.waiting, none_waits)) in
    (
      guarded.loop ended,
      limited,
      running-Within max_conns r,
      inr (empty, ground (arith, limited.used, empty)),
    )

all_requests : (ids : List ℕ) → HttpRuns new_http_main (record { in_flight = ids; shut = false })
unfolding new_http_main
all_requests [] = http_stay
all_requests (id ∷ ids) =
    http_go (all_requests ids) (request (record { in_flight = ids; shut = false }) id refl)

-- Main can return from serving HTTP with whatever requests in flight: a Shutdown that has just begun
-- is enough.
pub HttpReturns-in_flight :
    (ids : List ℕ) → (m : HttpMain) × HttpRuns new_http_main m × HttpReturns m × (m.in_flight ≡ ids)
HttpReturns-in_flight ids =
    let before : HttpMain = record { in_flight = ids; shut = false } in
    let m : HttpMain = record { in_flight = ids; shut = true } in
    (m, http_go (all_requests ids) (shutdown before), server_closed m refl, refl)
