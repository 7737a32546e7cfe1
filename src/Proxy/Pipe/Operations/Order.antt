-- ===== src/Proxy/Pipe/Operations/Order.antt =====
-- The two pipes of a connection of internal/proxy/tcp.go run at the same time: the order of their
-- operations is of no account.
use Prim.Native.Nat.{min}
use tlspxy.Common.{
  ℕ, ◌+◌, ◌≡◌, refl, sym, ap, ◌∙◌, arith, Bool, true, false, List, [], ◌∷◌, ◌++◌, ◌==◌, length,
  drop, Bool-cases, Option-cases, inl, inr,
}
use tlspxy.Common.Merges.{Merge, run_all, Commutes, run_all-Merge}
use tlspxy.Proxy.Counter.{add_to, add_from}
use tlspxy.Proxy.Pipe.{
  IoError, other, WriteResult, Round, PipeState, signal, report, fail, meter, count, write_loop,
  pipe,
}
use tlspxy.Proxy.Pipe.Delivery.{WriteExit-cases, took, write_loop-wrote}
use tlspxy.Proxy.Pipe.Operations.{
  SharedOp, warns, counts_error, signals, counts, meters, run_shared_op, report_ops, fail_ops,
  write_ops, pipe_ops,
}

-- What a pipe leaves, but for what its destination has taken.
abbrev pub with_delivered : List ℕ → PipeState → PipeState
with_delivered bytes st = record st { delivered = bytes }

pub report-report_ops :
    (e : IoError) (st : PipeState) → report e st ≡ run_all run_shared_op (report_ops e) st
unfolding report report_ops run_shared_op
report-report_ops e st = ground arith

fail-fail_ops :
    (e : IoError) (c : Bool) (st : PipeState)
    → fail e c st ≡ run_all run_shared_op (fail_ops e c) st
unfolding fail fail_ops run_shared_op
fail-fail_ops e c st = ground (arith, report-report_ops e st)

pub run_shared_op-with_delivered :
    (a : SharedOp) (bytes : List ℕ) (st : PipeState)
    → run_shared_op a (with_delivered bytes st) ≡ with_delivered bytes (run_shared_op a st)
unfolding run_shared_op signal meter
run_shared_op-with_delivered warns bytes st = refl
run_shared_op-with_delivered counts_error bytes st = refl
run_shared_op-with_delivered signals bytes st = ground arith
run_shared_op-with_delivered (counts islocal n) bytes st = refl
run_shared_op-with_delivered (meters islocal n) bytes st = refl

pub run_all-with_delivered :
    (ops : List SharedOp) (bytes : List ℕ) (st : PipeState)
    → run_all run_shared_op ops (with_delivered bytes st)
      ≡ with_delivered bytes (run_all run_shared_op ops st)
run_all-with_delivered [] bytes st = refl
run_all-with_delivered (a ∷ ops) bytes st =
    ap (run_all run_shared_op ops) (run_shared_op-with_delivered a bytes st)
    ∙ run_all-with_delivered ops bytes (run_shared_op a st)

run_shared_op_comm : Commutes run_shared_op
unfolding run_shared_op signal meter add_to add_from
run_shared_op_comm a b st = ground arith

-- After the write loop the shared state is what its operations make of it.
write_loop-write_ops :
    (b : List ℕ) (written : ℕ) (ws : List WriteResult) (st : PipeState)
    → ((write_loop b written ws st).1 ≡ (write_ops b written ws).1)
      × ((write_loop b written ws st).0
          ≡ with_delivered
              (write_loop b written ws st).0.delivered
              (run_all run_shared_op (write_ops b written ws).0 st))
unfolding write_loop write_ops
write_loop-write_ops [] written ws st = (refl, refl)
write_loop-write_ops (c ∷ b) written [] st = (refl, refl)
write_loop-write_ops (c ∷ b) written (w ∷ ws) st =
    let n = min w.room (length (c ∷ b)) in
    let st' = took n (c ∷ b) st in
    elim (Option-cases w.error) [
      | inr (e, failed) ↦ ground (
        arith,
        fail-fail_ops e w.cancelled st',
        run_all-with_delivered (fail_ops e w.cancelled) st'.delivered st,
      )
      | inl fine ↦ elim (Bool-cases (n == 0)) [
        | inl stuck ↦ ground (
          arith,
          report-report_ops other st',
          run_all-with_delivered (report_ops other) st'.delivered st,
        )
        | inr more ↦
            let rest = (drop n (c ∷ b)) in
            ground (
              arith,
              write_loop-write_ops rest (written + n) ws st',
              run_all-with_delivered (write_ops rest (written + n) ws).0 st'.delivered st,
            )
      ]
    ]

counted_ops :
    (islocal : Bool) (n : ℕ) (bytes : List ℕ) (st : PipeState)
    → count islocal n (with_delivered bytes st)
      ≡ with_delivered bytes
          (run_shared_op (meters islocal n) (run_shared_op (counts islocal n) st))
unfolding count meter run_shared_op
counted_ops islocal n bytes st = refl

-- The same of the whole pipe.
pipe-pipe_ops :
    (islocal : Bool) (rounds : List Round) (st : PipeState)
    → (pipe islocal rounds st).0
      ≡ with_delivered
          (pipe islocal rounds st).0.delivered
          (run_all run_shared_op (pipe_ops islocal rounds) st)
unfolding pipe pipe_ops
pipe-pipe_ops islocal [] st = refl
pipe-pipe_ops islocal (r ∷ rounds) st = elim (Bool-cases r.cancelled) [
  | inl stop ↦ ground arith
  | inr going ↦ elim (Option-cases r.read.error) [
    | inr (e, failed) ↦ ground (arith, fail-fail_ops e r.read.cancelled st)
    | inl fine ↦
        let w = write_loop r.read.bytes 0 r.writes st in
        let same = write_loop-write_ops r.read.bytes 0 r.writes st in
        elim (WriteExit-cases w.1) [
          | inl (n, done) ↦
              let (m, state) = write_loop-wrote r.read.bytes 0 r.writes st n done in
              let taken = st.delivered ++ r.read.bytes in
              ground (
                arith,
                same,
                done,
                ap (count islocal n) state ∙ counted_ops islocal n taken st,
                pipe-pipe_ops islocal rounds (count islocal n w.0),
                run_all-with_delivered (pipe_ops islocal rounds) taken
                    (run_shared_op (meters islocal n) (run_shared_op (counts islocal n) st)),
              )
          | inr (inl stopped) ↦ ground (arith, same)
          | inr (inr blocked) ↦ ground (arith, same)
        ]
  ]
]

-- Whatever order the operations of both pipes happen in, they leave what they share as it is when the
-- second pipe runs after the first.
pub run_all-pipes :
    (forward backward : List Round) {ops : List SharedOp} (received : List ℕ) (st : PipeState)
    → Merge (pipe_ops true forward) (pipe_ops false backward) ops
    → let sent = (pipe true forward st).0 in
      let answered = (pipe false backward (with_delivered received sent)).0 in
      answered ≡ with_delivered answered.delivered (run_all run_shared_op ops st)
run_all-pipes forward backward {ops} received st m =
    let sent = (pipe true forward st).0 in
    let fore = pipe_ops true forward in
    let back = pipe_ops false backward in
    let answered = (pipe false backward (with_delivered received sent)).0 in
    pipe-pipe_ops false backward (with_delivered received sent)
    ∙ ap (with_delivered answered.delivered) (
        run_all-with_delivered back received sent
        ∙ ap (with_delivered received) (
            ap (run_all run_shared_op back) (pipe-pipe_ops true forward st)
            ∙ run_all-with_delivered back sent.delivered (run_all run_shared_op fore st)))
    ∙ ap (with_delivered answered.delivered)
        (sym (run_all-Merge run_shared_op run_shared_op_comm m st))
