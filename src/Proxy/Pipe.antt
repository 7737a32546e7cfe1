-- ===== src/Proxy/Pipe.antt =====
-- Pipe of internal/proxy/tcp.go: one direction of a connection. What the network does is given, as a
-- list of rounds, each with the outcome of one Read and of the Writes that follow it. Deadlines only
-- decide when a call times out, so they are part of what is given. No call of the loop panics.
pub mod Delivery
pub mod Counting
pub mod Teardown
pub mod Endings
pub mod Operations
use tlspxy.Common.{
  ℕ, zero, suc, ◌+◌, ◌-◌, Bool, true, false, not, ◌&&◌, ◌||◌, List, [], ◌∷◌, ◌++◌, Option, none,
  some, ◌==◌, length, take, drop, if◌then◌else◌,
}
use Prim.Native.Nat.{min}
use tlspxy.Proxy.Counter.{Counter, add_to, add_from}

-- io.EOF, net.ErrClosed, a net.Error with Timeout(), or any other error.
pub data IoError : Type 0 where
  eof closed timeout other : IoError

-- `cancelled` is ctx.Err() != nil after the call.
pub record ReadResult : Type 0 where
  pub bytes : List ℕ
  pub error : Option IoError
  pub cancelled : Bool

-- Write takes at most `room` of the bytes that it is given.
pub record WriteResult : Type 0 where
  pub room : ℕ
  pub error : Option IoError
  pub cancelled : Bool

pub record Round : Type 0 where
  pub cancelled : Bool
  pub read : ReadResult
  pub writes : List WriteResult

-- What a connection's goroutines share, and what the destination has taken. `closed_once` is
-- CloseOnce, `signals` how often ErrorSignal was sent to; `errors`, `bytes_sent` and `bytes_received`
-- are what has been added to ErrorsTotal, BytesSentTotal and BytesReceivedTotal.
pub record PipeState : Type 0 where
  pub delivered : List ℕ
  pub counter : Counter
  pub closed_once : Bool
  pub signals : ℕ
  pub warnings : ℕ
  pub errors : ℕ
  pub bytes_sent : ℕ
  pub bytes_received : ℕ
  pub metrics : Bool

-- p.CloseOnce.Do(func() { p.ErrorSignal <- true }).
unfoldable pub signal : PipeState → PipeState
signal st =
    if st.closed_once then st else record st { closed_once = true; signals = st.signals + 1 }

abbrev pub is_benign : IoError → Bool
is_benign eof = true
is_benign closed = true
is_benign timeout = false
is_benign other = false

abbrev pub is_timeout : IoError → Bool
is_timeout timeout = true
is_timeout eof = false
is_timeout closed = false
is_timeout other = false

-- TCPProxy.err.
unfoldable pub report : IoError → PipeState → PipeState
unfolding signal
report e st = signal (
    if is_benign e then st else record st {
      warnings = st.warnings + 1;
      errors = if st.metrics then st.errors + 1 else st.errors;
    })

-- What a failed Read or Write leads to.
unfoldable pub fail : IoError → Bool → PipeState → PipeState
unfolding report
fail e cancelled st = if cancelled then st else if is_timeout e then signal st else report e st

pub data WriteExit : Type 0 where
  wrote : ℕ → WriteExit
  gave_up : WriteExit
  writing : WriteExit

-- `for written < len(b) { … }`, with what is left of b. io.ErrNoProgress is no benign error.
unfoldable pub write_loop : List ℕ → ℕ → List WriteResult → PipeState → PipeState × WriteExit
unfolding fail
write_loop [] written ws st = (st, wrote written)
write_loop (c ∷ b) written [] st = (st, writing)
write_loop (c ∷ b) written (w ∷ ws) st =
    let n = min w.room (length (c ∷ b)) in
    let st' = record st { delivered = st.delivered ++ take n (c ∷ b) } in
    elim w.error [
      | some e ↦ (fail e w.cancelled st', gave_up)
      | none ↦ elim (n == 0) [
        | true ↦ (report other st', gave_up)
        | false ↦ write_loop (drop n (c ∷ b)) (written + n) ws st'
      ]
    ]

pub data Exit : Type 0 where
  returned : Exit
  in_read : Exit
  in_write : Exit

-- `if metrics.Enabled.Load() { … }`, for the direction.
unfoldable pub meter : Bool → ℕ → PipeState → PipeState
meter islocal n st = record st {
  bytes_sent = if islocal && st.metrics then st.bytes_sent + n else st.bytes_sent;
  bytes_received = if not islocal && st.metrics then st.bytes_received + n else st.bytes_received;
}

-- `islocal`: the client's bytes on the way to the backend.
unfoldable pub count : Bool → ℕ → PipeState → PipeState
unfolding meter
count islocal n st =
    meter islocal n
      (record st { counter = if islocal then add_to n st.counter else add_from n st.counter })

-- The loop of Pipe; where no round is left, it waits in its Read.
unfoldable pub pipe : Bool → List Round → PipeState → PipeState × Exit
unfolding write_loop count
pipe islocal [] st = (st, in_read)
pipe islocal (r ∷ rounds) st = elim r.cancelled [
  | true ↦ (st, returned)
  | false ↦ elim r.read.error [
    | some e ↦ (fail e r.read.cancelled st, returned)
    | none ↦
        let (st', exit) = write_loop r.read.bytes 0 r.writes st in
        elim exit [
          | gave_up ↦ (st', returned)
          | writing ↦ (st', in_write)
          | wrote n ↦ pipe islocal rounds (count islocal n st')
        ]
  ]
]
