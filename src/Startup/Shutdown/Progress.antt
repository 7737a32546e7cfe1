-- ===== src/Startup/Shutdown/Progress.antt =====
-- How main.go comes to the end of serving TCP.
use tlspxy.Common.{
  ℕ, ◌+◌, ◌≤◌, ◌≡◌, refl, arith, true, false, List, [], ◌∷◌, ◌⊎◌, inl, inr, length, Bool-cases,
  if◌then◌else◌,
}
use tlspxy.Limit.Tcp.{on_accept, on_accept_error, on_done, has_id}
use tlspxy.Limit.Tcp.Slots.{length-remove, Runs-IsLimited}
use tlspxy.Startup.Shutdown.{
  TcpMain, new_tcp_main, MainStep, signalled, close_listener, accepts, accept_fails, accept_closed,
  connection_ends, MainRuns, main_stay, main_go, all_drained, Returns, on_drained,
}
use tlspxy.Startup.Shutdown.Drains.{loop-Runs}

-- What is left to do until main returns: the listener is closed, the loop ends, connections end.
abbrev pub work : TcpMain → ℕ
work m =
    (if m.listening then 1 else 0) + (if m.loop.accepting then 1 else 0) + length m.loop.running

-- The steps of a run that main or a connection takes to the end, and the connections accepted on the
-- way.
abbrev pub moves : {m n : TcpMain} → MainStep m n → ℕ
moves (signalled m) = 0
moves (close_listener m c) = if m.listening then 1 else 0
moves (accepts m a o) = 0
moves (accept_fails m a o) = 1
moves (accept_closed m a o) = 1
moves (connection_ends m id r) = 1

abbrev pub all_moves : {m n : TcpMain} → MainRuns m n → ℕ
all_moves main_stay = 0
all_moves (main_go r st) = all_moves r + moves st

-- The connections that Accept returns.
abbrev pub is_accepted : {m n : TcpMain} → MainStep m n → ℕ
is_accepted (signalled m) = 0
is_accepted (close_listener m c) = 0
is_accepted (accepts m a o) = 1
is_accepted (accept_fails m a o) = 0
is_accepted (accept_closed m a o) = 0
is_accepted (connection_ends m id r) = 0

abbrev pub all_accepted : {m n : TcpMain} → MainRuns m n → ℕ
all_accepted main_stay = 0
all_accepted (main_go r st) = all_accepted r + is_accepted st

-- Once the root context has ended it stays so, and each of the moves does some of the work.
step-work :
    {m n : TcpMain} (st : MainStep m n)
    → m.cancelled ≡ true
    → (n.cancelled ≡ true) × (work n + moves st ≤ work m + is_accepted st)
unfolding on_accept on_accept_error on_done
step-work (signalled m) c = ground arith
step-work (close_listener m c') c = ground arith
step-work (accepts m a o) c = ground arith
step-work (accept_fails m a o) c = ground arith
step-work (accept_closed m a o) c = ground arith
step-work (connection_ends m id r) c = ground (arith, length-remove id m.loop.running r)

runs-work :
    {m n : TcpMain} (r : MainRuns m n)
    → m.cancelled ≡ true
    → (n.cancelled ≡ true) × (work n + all_moves r ≤ work m + all_accepted r)
runs-work main_stay c = ground arith
runs-work (main_go r st) c =
    let before = runs-work r c in let step = step-work st before.0 in ground (arith, before, step)

-- A step that main or a connection takes by itself, with no connection that arrives and no failure of
-- the network.
abbrev pub IsOwn : {m n : TcpMain} → MainStep m n → Type 0
IsOwn (signalled m) = ⊥
IsOwn (close_listener m c) = Unit
IsOwn (accepts m a o) = ⊥
IsOwn (accept_fails m a o) = ⊥
IsOwn (accept_closed m a o) = Unit
IsOwn (connection_ends m id r) = Unit

-- Main can return, or take a step of its own that does some of the work.
abbrev pub GoesOn : TcpMain → Type 0
GoesOn m =
    Returns m all_drained ⊎ ((n : TcpMain) × (st : MainStep m n) × IsOwn st × (work n + 1 ≡ work m))

ends_one :
    (m : TcpMain) (ids : List ℕ)
    → m.loop.running ≡ ids
    → m.loop.accepting ≡ false
    → m.loop.waiting ≡ length m.loop.running
    → GoesOn m
unfolding on_done
ends_one m [] none_runs over waiting = inl (on_drained m over (ground (arith, waiting, none_runs)))
ends_one m (id ∷ ids) some_run over waiting =
    let runs : has_id id m.loop.running ≡ true = ground (arith, some_run) in
    inr (
      record m { loop = on_done id m.loop },
      connection_ends m id runs,
      tt,
      ground (arith, length-remove id m.loop.running runs),
    )

-- Where the root context has ended, main can return, or a step that needs no failure of the network
-- does some of the work.
goes_on : (m : TcpMain) → m.cancelled ≡ true → m.loop.waiting ≡ length m.loop.running → GoesOn m
unfolding on_accept_error
goes_on m c waiting = elim (Bool-cases m.listening) [
  | inl open_still ↦
      inr (record m { listening = false }, close_listener m c, tt, ground (arith, open_still))
  | inr closed ↦ elim (Bool-cases m.loop.accepting) [
    | inl on ↦ inr (
      record m { loop = on_accept_error m.cancelled m.loop },
      accept_closed m on closed,
      tt,
      ground (arith, on, closed, c),
    )
    | inr over ↦ ends_one m m.loop.running refl over waiting
  ]
]

MainRuns-append : {m n o : TcpMain} → MainRuns m n → MainRuns n o → MainRuns m o
MainRuns-append r main_stay = r
MainRuns-append r (main_go q st) = main_go (MainRuns-append r q) st

-- Once the root context has ended, in any run of main from a state that it reaches while it serves
-- TCP: no more steps towards its return are made than closing the listener, ending the loop and
-- ending each connection that runs or is still accepted; and wherever the run has come to, main can
-- return because all connections have ended, or one of these steps is possible without a failure of
-- the network, by the goroutine that closes the listener, by Accept of a closed listener, or by a
-- connection that ends.
pub MainRuns-Returns :
    (max_conns : ℕ) {m n : TcpMain}
    → MainRuns (new_tcp_main max_conns) m
    → m.cancelled ≡ true
    → (r : MainRuns m n) → (work n + all_moves r ≤ work m + all_accepted r) × GoesOn n
unfolding new_tcp_main
MainRuns-Returns max_conns {n = n} reached c r =
    let (still, bound) = runs-work r c in
    let limited = (Runs-IsLimited max_conns (loop-Runs (MainRuns-append reached r))).0 in
    (bound, goes_on n still limited.waiting)
