-- ===== src/Startup/Shutdown.antt =====
-- How main.go ends once it serves. TCP: the goroutine that closes the listener when the root context
-- has ended, the accept loop of Limit/Tcp, and the wait for the connections, at most 30 seconds. HTTP:
-- Serve of Go's net/http returns as soon as the handler of the signal calls Shutdown, and main returns
-- with it.
pub mod Drains
pub mod Progress
use tlspxy.Common.{ℕ, ◌+◌, ◌-◌, ◌≡◌, Bool, true, false, List, [], ◌∷◌, ◌==◌, if◌then◌else◌}
use tlspxy.Limit.Tcp.{
  AcceptLoop, new_accept_loop, on_accept, on_accept_error, on_done, has_id, remove,
}

pub record TcpMain : Type 0 where
  pub loop : AcceptLoop
  -- Whether rootCtx has ended, and whether the listener is open.
  pub cancelled : Bool
  pub listening : Bool

unfoldable pub new_tcp_main : ℕ → TcpMain
new_tcp_main max_conns = record {
  loop = new_accept_loop max_conns;
  cancelled = false;
  listening = true;
}

-- The steps of the goroutines. Accept of a listener that is closed fails; of one that is open it returns
-- a connection or fails, as the network will. The end of a connection can come before or after the
-- signal.
pub data MainStep : TcpMain → TcpMain → Type 0 where
  signalled : (m : TcpMain) → MainStep m (record m { cancelled = true })
  close_listener : (m : TcpMain) → m.cancelled ≡ true → MainStep m (record m { listening = false })
  accepts :
      (m : TcpMain)
      → m.loop.accepting ≡ true
      → m.listening ≡ true
      → MainStep m (record m { loop = on_accept m.loop })
  accept_fails :
      (m : TcpMain)
      → m.loop.accepting ≡ true
      → m.listening ≡ true
      → MainStep m (record m { loop = on_accept_error m.cancelled m.loop })
  accept_closed :
      (m : TcpMain)
      → m.loop.accepting ≡ true
      → m.listening ≡ false
      → MainStep m (record m { loop = on_accept_error m.cancelled m.loop })
  connection_ends :
      (m : TcpMain) (id : ℕ)
      → has_id id m.loop.running ≡ true
      → MainStep m (record m { loop = on_done id m.loop })

pub data MainRuns : TcpMain → TcpMain → Type 0 where
  main_stay : {m : TcpMain} → MainRuns m m
  main_go : {m n o : TcpMain} → MainRuns m n → MainStep n o → MainRuns m o

-- What the select after the loop logs: all connections have ended, or 30 seconds have passed.
pub data Drain : Type 0 where
  all_drained drain_timeout : Drain

pub data Returns : TcpMain → Drain → Type 0 where
  on_drained : (m : TcpMain) → m.loop.accepting ≡ false → m.loop.waiting ≡ 0 → Returns m all_drained
  on_timeout : (m : TcpMain) → m.loop.accepting ≡ false → Returns m drain_timeout

-- The HTTP server: its requests in flight, and whether Shutdown has closed its listener.
pub record HttpMain : Type 0 where
  pub in_flight : List ℕ
  pub shut : Bool

unfoldable pub new_http_main : HttpMain
new_http_main = record { in_flight = []; shut = false }

pub data HttpStep : HttpMain → HttpMain → Type 0 where
  request :
      (m : HttpMain) (id : ℕ)
      → m.shut ≡ false
      → HttpStep m (record m { in_flight = id ∷ m.in_flight })
  answered :
      (m : HttpMain) (id : ℕ)
      → has_id id m.in_flight ≡ true
      → HttpStep m (record m { in_flight = remove id m.in_flight })
  shutdown : (m : HttpMain) → HttpStep m (record m { shut = true })

pub data HttpRuns : HttpMain → HttpMain → Type 0 where
  http_stay : {m : HttpMain} → HttpRuns m m
  http_go : {m n o : HttpMain} → HttpRuns m n → HttpStep n o → HttpRuns m o

-- Serve returns ErrServerClosed, and main after it.
pub data HttpReturns : HttpMain → Type 0 where
  server_closed : (m : HttpMain) → m.shut ≡ true → HttpReturns m
