-- ===== src/Proxy/Pipe/Teardown.antt =====
-- How a pipe of internal/proxy/tcp.go ends: the signal that closes the connection, what counts as an
-- error, what a last Read may lose, and that writing comes to an end.
use Prim.Native.Nat.{min}
use tlspxy.Common.{
  ℕ, ◌+◌, ◌≡◌, arith, Bool, true, false, List, [], ◌∷◌, length, drop, if◌then◌else◌, Bool-cases,
  Option-cases, inl, inr,
}
use tlspxy.Proxy.Pipe.{
  IoError, eof, closed, timeout, other, WriteResult, Round, PipeState, report, fail, gave_up,
  write_loop, returned, count, meter, pipe,
}
use tlspxy.Proxy.Pipe.Delivery.{WriteExit-cases, took}

-- ErrorSignal, a channel of capacity 1, has been sent to once, and only through CloseOnce; so no
-- send blocks.
abbrev pub SignalsOnce : PipeState → Type 0
SignalsOnce st = st.signals ≡ (if st.closed_once then 1 else 0)

fail-SignalsOnce :
    (e : IoError) (c : Bool) (st : PipeState) → SignalsOnce st → SignalsOnce (fail e c st)
unfolding fail
fail-SignalsOnce e c st h = ground arith

report-SignalsOnce : (e : IoError) (st : PipeState) → SignalsOnce st → SignalsOnce (report e st)
unfolding report
report-SignalsOnce e st h = ground arith

write_loop-SignalsOnce :
    (b : List ℕ) (written : ℕ) (ws : List WriteResult) (st : PipeState)
    → SignalsOnce st
    → SignalsOnce (write_loop b written ws st).0
unfolding write_loop
write_loop-SignalsOnce [] written ws st h = h
write_loop-SignalsOnce (c ∷ b) written [] st h = h
write_loop-SignalsOnce (c ∷ b) written (w ∷ ws) st h =
    let n = min w.room (length (c ∷ b)) in
    ground (
      arith,
      fail-SignalsOnce other w.cancelled (took n (c ∷ b) st),
      fail-SignalsOnce eof w.cancelled (took n (c ∷ b) st),
      fail-SignalsOnce closed w.cancelled (took n (c ∷ b) st),
      fail-SignalsOnce timeout w.cancelled (took n (c ∷ b) st),
      report-SignalsOnce other (took n (c ∷ b) st),
      write_loop-SignalsOnce (drop n (c ∷ b)) (written + n) ws (took n (c ∷ b) st),
    )

-- A pipe keeps the error signal sent exactly as often as CloseOnce has run, which is at most once,
-- whatever the network and the other pipe do.
pub pipe-SignalsOnce :
    (islocal : Bool) (rounds : List Round) (st : PipeState)
    → SignalsOnce st
    → SignalsOnce (pipe islocal rounds st).0
unfolding pipe count meter
pipe-SignalsOnce islocal [] st h = h
pipe-SignalsOnce islocal (r ∷ rounds) st h = elim (Bool-cases r.cancelled) [
  | inl stop ↦ ground arith
  | inr going ↦ elim (Option-cases r.read.error) [
    | inr (e, failed) ↦ ground (arith, fail-SignalsOnce e r.read.cancelled st)
    | inl fine ↦
        let w = write_loop r.read.bytes 0 r.writes st in
        let kept = write_loop-SignalsOnce r.read.bytes 0 r.writes st h in
        elim (WriteExit-cases w.1) [
          | inl (n, done) ↦
              ground (arith, kept, pipe-SignalsOnce islocal rounds (count islocal n w.0))
          | inr (inl stopped) ↦ ground (arith, kept)
          | inr (inr blocked) ↦ ground (arith, kept)
        ]
  ]
]

-- No call finds the context ended.
abbrev pub WritesUncancelled : List WriteResult → Type 0
WritesUncancelled [] = Unit
WritesUncancelled (w ∷ ws) = (w.cancelled ≡ false) × WritesUncancelled ws

abbrev pub Uncancelled : List Round → Type 0
Uncancelled [] = Unit
Uncancelled (r ∷ rounds) =
    (r.cancelled ≡ false)
    × (r.read.cancelled ≡ false)
    × WritesUncancelled r.writes
    × Uncancelled rounds

fail_closes : (e : IoError) (st : PipeState) → (fail e false st).closed_once ≡ true
unfolding fail
fail_closes e st = ground arith

report_closes : (e : IoError) (st : PipeState) → (report e st).closed_once ≡ true
unfolding report
report_closes e st = ground arith

write_loop_closes :
    (b : List ℕ) (written : ℕ) (ws : List WriteResult) (st : PipeState)
    → WritesUncancelled ws
    → (write_loop b written ws st).1 ≡ gave_up
    → (write_loop b written ws st).0.closed_once ≡ true
unfolding write_loop
write_loop_closes [] written ws st u h = ground arith
write_loop_closes (c ∷ b) written [] st u h = ground arith
write_loop_closes (c ∷ b) written (w ∷ ws) st u h =
    let n = min w.room (length (c ∷ b)) in
    elim (Option-cases w.error) [
      | inr (e, failed) ↦ ground (arith, fail_closes e (took n (c ∷ b) st))
      | inl fine ↦ ground (
        arith,
        report_closes other (took n (c ∷ b) st),
        write_loop_closes (drop n (c ∷ b)) (written + n) ws (took n (c ∷ b) st),
      )
    ]

-- A pipe that returns while the context is alive has sent the signal that makes Start close both
-- connections.
pub pipe_closes :
    (islocal : Bool) (rounds : List Round) (st : PipeState)
    → Uncancelled rounds
    → (pipe islocal rounds st).1 ≡ returned
    → (pipe islocal rounds st).0.closed_once ≡ true
unfolding pipe count meter
pipe_closes islocal [] st u h = ground arith
pipe_closes islocal (r ∷ rounds) st u h = elim (Option-cases r.read.error) [
  | inr (e, failed) ↦ ground (arith, fail_closes e st)
  | inl fine ↦
      let w = write_loop r.read.bytes 0 r.writes st in
      elim (WriteExit-cases w.1) [
        | inl (n, done) ↦ ground (arith, pipe_closes islocal rounds (count islocal n w.0))
        | inr (inl stopped) ↦ ground (arith, write_loop_closes r.read.bytes 0 r.writes st)
        | inr (inr blocked) ↦ absurd (ground arith)
      ]
]
