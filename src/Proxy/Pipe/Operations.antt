-- ===== src/Proxy/Pipe/Operations.antt =====
-- The pipe of internal/proxy/tcp.go as the sequence of its operations on what goroutines share: each
-- is one atomic step, or one call of CloseOnce.
pub mod Order
pub mod Sums
use Prim.Native.Nat.{min}
use tlspxy.Common.{
  ℕ, ◌+◌, Bool, true, false, List, [], ◌∷◌, ◌++◌, Option, none, some, ◌==◌, length, drop,
  if◌then◌else◌,
}
use tlspxy.Proxy.Counter.{add_to, add_from}
use tlspxy.Proxy.Pipe.{
  IoError, other, is_benign, is_timeout, WriteResult, Round, PipeState, signal, meter, WriteExit,
  wrote, gave_up, writing,
}

-- A warning in the log, an error in ErrorsTotal, a CloseOnce.Do, an add to the Counter and one to the
-- metric of bytes of a direction.
pub data SharedOp : Type 0 where
  warns counts_error signals : SharedOp
  counts meters : Bool → ℕ → SharedOp

unfoldable pub run_shared_op : SharedOp → PipeState → PipeState
unfolding signal meter
run_shared_op warns st = record st { warnings = st.warnings + 1 }
run_shared_op counts_error st = record st {
  errors = if st.metrics then st.errors + 1 else st.errors;
}
run_shared_op signals st = signal st
run_shared_op (counts islocal n) st = record st {
  counter = if islocal then add_to n st.counter else add_from n st.counter;
}
run_shared_op (meters islocal n) st = meter islocal n st

-- TCPProxy.err.
unfoldable pub report_ops : IoError → List SharedOp
report_ops e = if is_benign e then signals ∷ [] else warns ∷ counts_error ∷ signals ∷ []

-- A failed Read or Write.
unfoldable pub fail_ops : IoError → Bool → List SharedOp
unfolding report_ops
fail_ops e cancelled = if cancelled then [] else if is_timeout e then signals ∷ [] else report_ops e

-- The write loop, which shares nothing until it gives up.
unfoldable pub write_ops : List ℕ → ℕ → List WriteResult → List SharedOp × WriteExit
unfolding fail_ops
write_ops [] written ws = ([], wrote written)
write_ops (c ∷ b) written [] = ([], writing)
write_ops (c ∷ b) written (w ∷ ws) =
    let n = min w.room (length (c ∷ b)) in
    elim w.error [
      | some e ↦ (fail_ops e w.cancelled, gave_up)
      | none ↦ elim (n == 0) [
        | true ↦ (report_ops other, gave_up)
        | false ↦ write_ops (drop n (c ∷ b)) (written + n) ws
      ]
    ]

-- Pipe.
unfoldable pub pipe_ops : Bool → List Round → List SharedOp
unfolding write_ops
pipe_ops islocal [] = []
pipe_ops islocal (r ∷ rounds) = elim r.cancelled [
  | true ↦ []
  | false ↦ elim r.read.error [
    | some e ↦ fail_ops e r.read.cancelled
    | none ↦
        let (ops, exit) = write_ops r.read.bytes 0 r.writes in
        elim exit [
          | gave_up ↦ ops
          | writing ↦ ops
          | wrote n ↦ counts islocal n ∷ meters islocal n ∷ pipe_ops islocal rounds
        ]
  ]
]
