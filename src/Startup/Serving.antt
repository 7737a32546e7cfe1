-- ===== src/Startup/Serving.antt =====
-- main.go while it serves TCP, with the goroutines that it starts: the accept loop of Startup/Shutdown,
-- and for each connection that it has taken the steps of Start of internal/proxy/tcp.go that are
-- still to come. They run beside each other on what all connections share.
pub mod Gauges
pub mod Serial
pub mod Settling
use tlspxy.Common.{ℕ, ◌≡◌, Bool, true, false, List, [], ◌∷◌, none, some, ltb}
use tlspxy.Limit.Tcp.{AcceptLoop, on_accept, on_accept_error, on_done}
use tlspxy.Proxy.Header.{NetText}
use tlspxy.Proxy.Start.{TcpProxy, Network}
use tlspxy.Proxy.Start.Operations.{Shared, ConnOp, enters, leaves, shares, run_conn_op, ConnTrace}
use tlspxy.Proxy.Start.Operations.Serial.{Connection}
use tlspxy.Startup.Shutdown.{TcpMain}

-- Before Start, in Start, after it, and after the deferred calls that give back the slot. The pipes may
-- run on after Start.
pub data Phase : Type 0 where
  spawned inside left_start returned : Phase

pub record ConnThread : Type 0 where
  pub id : ℕ
  pub conn : Connection
  pub phase : Phase
  -- What of its sequence of steps is still to come.
  pub todo : List ConnOp

unfoldable pub next_phase : ConnOp → Phase → Phase
next_phase enters phase = inside
next_phase leaves phase = left_start
next_phase (shares a) phase = phase

-- One goroutine does its next step.
pub data Works : ConnOp → List ConnThread → List ConnThread → Type 0 where
  this_works :
      {id : ℕ} {conn : Connection} {phase : Phase} {op : ConnOp} {todo : List ConnOp}
      {gs : List ConnThread}
      → Works op
          (record { id = id; conn = conn; phase = phase; todo = op ∷ todo } ∷ gs)
          (record { id = id; conn = conn; phase = next_phase op phase; todo = todo } ∷ gs)
  other_works :
      {op : ConnOp} {g : ConnThread} {gs hs : List ConnThread}
      → Works op gs hs
      → Works op (g ∷ gs) (g ∷ hs)

-- One goroutine, whose Start has returned, ends.
pub data Ends : ℕ → List ConnThread → List ConnThread → Type 0 where
  this_ends :
      {id : ℕ} {conn : Connection} {todo : List ConnOp} {gs : List ConnThread}
      → Ends id
          (record { id = id; conn = conn; phase = left_start; todo = todo } ∷ gs)
          (record { id = id; conn = conn; phase = returned; todo = todo } ∷ gs)
  other_ends :
      {id : ℕ} {g : ConnThread} {gs hs : List ConnThread}
      → Ends id gs hs
      → Ends id (g ∷ gs) (g ∷ hs)

pub record Serving : Type 0 where
  pub main : TcpMain
  pub shared : Shared
  pub goroutines : List ConnThread

-- Whether an accepted connection is served.
unfoldable pub has_slot : AcceptLoop → Bool
has_slot s = elim s.cap [ none ↦ true | some n ↦ ltb s.used n ]

unfoldable pub spawn_start : Connection → List ConnOp → Serving → Serving
spawn_start conn ops s =
    let loop = on_accept s.main.loop in
    record s {
      main = record s.main { loop = loop };
      goroutines =
          record { id = loop.conn_id; conn = conn; phase = spawned; todo = ops } ∷ s.goroutines;
    }

pub data ServingStep (net : NetText) : Serving → Serving → Type 0 where
  signal_comes :
      (s : Serving) → ServingStep net s (record s { main = record s.main { cancelled = true } })
  listener_closes :
      (s : Serving)
      → s.main.cancelled ≡ true
      → ServingStep net s (record s { main = record s.main { listening = false } })
  takes :
      {p : TcpProxy} {n : Network} {ops : List ConnOp} (s : Serving)
      → s.main.loop.accepting ≡ true
      → s.main.listening ≡ true
      → has_slot s.main.loop ≡ true
      → ConnTrace net p n ops
      → ServingStep net s (spawn_start (p, n) ops s)
  rejects :
      (s : Serving)
      → s.main.loop.accepting ≡ true
      → s.main.listening ≡ true
      → has_slot s.main.loop ≡ false
      → ServingStep net s (record s { main = record s.main { loop = on_accept s.main.loop } })
  fails :
      (s : Serving)
      → s.main.loop.accepting ≡ true
      → ServingStep net s (record s {
        main = record s.main { loop = on_accept_error s.main.cancelled s.main.loop };
      })
  works :
      {op : ConnOp} {gs : List ConnThread} (s : Serving)
      → Works op s.goroutines gs
      → ServingStep net s (record s { shared = run_conn_op op s.shared; goroutines = gs })
  ends :
      {id : ℕ} {gs : List ConnThread} (s : Serving)
      → Ends id s.goroutines gs
      → ServingStep net s
          (record s { main = record s.main { loop = on_done id s.main.loop }; goroutines = gs })

pub data ServingRuns (net : NetText) (s : Serving) : Serving → Type 0 where
  serving_stays : ServingRuns net s s
  serving_goes : {t u : Serving} → ServingRuns net s t → ServingStep net t u → ServingRuns net s u
