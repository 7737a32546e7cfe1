-- ===== src/Proxy/Pipe/Operations/Sums.antt =====
-- What the operations of a pipe of internal/proxy/tcp.go add up to.
use Prim.Native.Nat.{min}
use tlspxy.Common.{
  ℕ, ◌+◌, ◌≡◌, refl, arith, Bool, true, false, not, List, [], ◌∷◌, ◌++◌, none, some, ◌==◌, length,
  drop, length-append, length-drop, Bool-cases, Option-cases, inl, inr,
}
use tlspxy.Common.Merges.{tally}
use tlspxy.Proxy.Pipe.{IoError, other, Round, WriteResult, wrote, gave_up, writing}
use tlspxy.Proxy.Pipe.Delivery.{WriteExit-cases}
use tlspxy.Proxy.Pipe.Operations.{
  SharedOp, counts, meters, report_ops, fail_ops, write_ops, pipe_ops,
}

-- The bytes of the rounds that a pipe has written whole.
abbrev pub passed_bytes : List Round → List ℕ
passed_bytes [] = []
passed_bytes (r ∷ rounds) = elim r.cancelled [
  | true ↦ []
  | false ↦ elim r.read.error [
    | some e ↦ []
    | none ↦ elim (write_ops r.read.bytes 0 r.writes).1 [
      | wrote n ↦ r.read.bytes ++ passed_bytes rounds
      | gave_up ↦ []
      | writing ↦ []
    ]
  ]
]

-- What an operation adds to the counter of a direction, and to its metric.
abbrev pub counted_by : Bool → SharedOp → ℕ
counted_by true (counts true n) = n
counted_by false (counts false n) = n
counted_by _ _ = 0

abbrev pub metered_by : Bool → SharedOp → ℕ
metered_by true (meters true n) = n
metered_by false (meters false n) = n
metered_by _ _ = 0

write_ops-wrote :
    (b : List ℕ) (written : ℕ) (ws : List WriteResult) (n : ℕ)
    → (write_ops b written ws).1 ≡ wrote n
    → n ≡ written + length b
unfolding write_ops
write_ops-wrote [] written ws n h = ground arith
write_ops-wrote (c ∷ b) written [] n h = absurd (ground arith)
write_ops-wrote (c ∷ b) written (w ∷ ws) n h =
    let k = min w.room (length (c ∷ b)) in
    elim (Option-cases w.error) [
      | inr (e, failed) ↦ absurd (ground (arith, failed))
      | inl fine ↦ elim (Bool-cases (k == 0)) [
        | inl stuck ↦ absurd (ground (arith, fine, stuck))
        | inr more ↦
            let rest =
              write_ops-wrote (drop k (c ∷ b)) (written + k) ws n (ground (arith, fine, more)) in
            omega (arith, rest, length-drop {0} k (c ∷ b))
      ]
    ]

-- A failed Read or Write counts nothing.
pub report_ops_lem :
    (l : Bool) (e : IoError)
    → (tally (counted_by l) (report_ops e) ≡ 0) × (tally (metered_by l) (report_ops e) ≡ 0)
unfolding report_ops
report_ops_lem l e = ground arith

abbrev Nothing : Bool → List SharedOp → Type 0
Nothing l ops = (tally (counted_by l) ops ≡ 0) × (tally (metered_by l) ops ≡ 0)

write_ops_lem :
    (l : Bool) (b : List ℕ) (written : ℕ) (ws : List WriteResult)
    → Nothing l (write_ops b written ws).0
unfolding write_ops fail_ops
write_ops_lem l [] written ws = (refl, refl)
write_ops_lem l (c ∷ b) written [] = (refl, refl)
write_ops_lem l (c ∷ b) written (w ∷ ws) =
    let k = min w.room (length (c ∷ b)) in
    elim (Option-cases w.error) [
      | inr (e, failed) ↦ ground (arith, failed, report_ops_lem l e)
      | inl fine ↦
          ground
            (arith, fine, report_ops_lem l other, write_ops_lem l (drop k (c ∷ b)) (written + k) ws)
    ]

-- A pipe adds the bytes of its whole rounds to the counter and to the metric of its direction, and
-- nothing to the others.
pub pipe_ops_lem :
    (l : Bool) (rounds : List Round)
    → (tally (counted_by l) (pipe_ops l rounds) ≡ length (passed_bytes rounds))
      × (tally (metered_by l) (pipe_ops l rounds) ≡ length (passed_bytes rounds))
      × Nothing (not l) (pipe_ops l rounds)
unfolding pipe_ops fail_ops
pipe_ops_lem l [] = (refl, refl, (refl, refl))
pipe_ops_lem l (r ∷ rounds) = elim (Bool-cases r.cancelled) [
  | inl stop ↦ ground (arith, stop)
  | inr going ↦ elim (Option-cases r.read.error) [
    | inr (e, failed) ↦ ground (arith, going, failed, report_ops_lem l e, report_ops_lem (not l) e)
    | inl fine ↦
        let w = write_ops r.read.bytes 0 r.writes in
        let none_there = write_ops_lem l r.read.bytes 0 r.writes in
        let none_back = write_ops_lem (not l) r.read.bytes 0 r.writes in
        elim (WriteExit-cases w.1) [
          | inl (n, done) ↦ ground (
            arith,
            going,
            fine,
            done,
            write_ops-wrote r.read.bytes 0 r.writes n done,
            pipe_ops_lem l rounds,
            length-append {0} r.read.bytes (passed_bytes rounds),
          )
          | inr (inl stopped) ↦ ground (arith, going, fine, stopped, none_there, none_back)
          | inr (inr blocked) ↦ ground (arith, going, fine, blocked, none_there, none_back)
        ]
  ]
]
