-- ===== src/Proxy/Pipe/Endings.antt =====
-- Of a pipe of internal/proxy/tcp.go: writing comes to an end, ordinary endings are no errors, and
-- what a Read returns beside an error is lost.
use Prim.Native.Nat.{min}
use tlspxy.Common.{
  ℕ, ◌+◌, ◌≤◌, ◌≡◌, ◌≢◌, refl, ap, ◌∙◌, arith, Bool, false, List, [], ◌∷◌, ◌++◌, Option, none, some,
  ◌==◌, length, drop, length-drop, Bool-cases, Option-cases, inl, inr,
}
use tlspxy.Proxy.Pipe.{
  IoError, other, WriteResult, Round, PipeState, fail, wrote, write_loop, returned, in_read, count,
  meter, pipe,
}
use tlspxy.Proxy.Pipe.Delivery.{read_bytes, WriteExit-cases, took, write_loop_step}
use tlspxy.Proxy.Pipe.Counting.{IsCounter, pipe_in_read}

-- Every Write takes at least a byte, and has no error.
abbrev pub Progress : List WriteResult → Type 0
Progress [] = Unit
Progress (w ∷ ws) = (w.error ≡ none) × (1 ≤ w.room) × Progress ws

-- If every Write takes a byte and has no error, and at least as many Writes as bytes are given, the
-- write loop ends with all of the bytes written.
pub write_loop_total :
    (b : List ℕ) (written : ℕ) (ws : List WriteResult) (st : PipeState)
    → Progress ws
    → length b ≤ length ws
    → (write_loop b written ws st).1 ≡ wrote (written + length b)
unfolding write_loop
write_loop_total [] written ws st p long = ground arith
write_loop_total (c ∷ b) written [] st p long = absurd (omega arith)
write_loop_total (c ∷ b) written (w ∷ ws) st p long =
    let n = min w.room (length (c ∷ b)) in
    let more : (n == 0) ≡ false = ground arith in
    rw (write_loop_step c b written w ws st p.0 more) (
      write_loop_total (drop n (c ∷ b)) (written + n) ws (took n (c ∷ b) st) p.2
        (omega (arith, length-drop {0} n (c ∷ b)))
      ∙ ap wrote (omega (arith, length-drop {0} n (c ∷ b))))

-- Every error is an end of file, a closed connection or a timeout, and every Write takes a byte.
abbrev pub IsOrdinary : Option IoError → Type 0
IsOrdinary o = o ≢ some other

abbrev pub OrdinaryWrites : List WriteResult → Type 0
OrdinaryWrites [] = Unit
OrdinaryWrites (w ∷ ws) = IsOrdinary w.error × (1 ≤ w.room) × OrdinaryWrites ws

abbrev pub Ordinary : List Round → Type 0
Ordinary [] = Unit
Ordinary (r ∷ rounds) = IsOrdinary r.read.error × OrdinaryWrites r.writes × Ordinary rounds

abbrev Same : PipeState → PipeState → Type 0
Same st st' = (st'.errors ≡ st.errors) × (st'.warnings ≡ st.warnings)

fail_ordinary :
    (e : IoError) (c : Bool) (st : PipeState) → IsOrdinary (some e) → Same st (fail e c st)
unfolding fail
fail_ordinary e c st h = ground arith

write_loop_ordinary :
    (b : List ℕ) (written : ℕ) (ws : List WriteResult) (st : PipeState)
    → OrdinaryWrites ws
    → Same st (write_loop b written ws st).0
unfolding write_loop
write_loop_ordinary [] written ws st h = ground arith
write_loop_ordinary (c ∷ b) written [] st h = ground arith
write_loop_ordinary (c ∷ b) written (w ∷ ws) st h =
    let n = min w.room (length (c ∷ b)) in
    let more : (n == 0) ≡ false = ground arith in
    elim (Option-cases w.error) [
      | inr (e, failed) ↦ ground (arith, fail_ordinary e w.cancelled (took n (c ∷ b) st))
      | inl fine ↦
          ground
            (arith, more, write_loop_ordinary (drop n (c ∷ b)) (written + n) ws (took n (c ∷ b) st))
    ]

-- Where every error is an end of file, a closed connection or a timeout, and every Write takes a
-- byte, a pipe counts no error and logs no warning.
pub pipe-Ordinary :
    (islocal : Bool) (rounds : List Round) (st : PipeState)
    → Ordinary rounds
    → ((pipe islocal rounds st).0.errors ≡ st.errors)
      × ((pipe islocal rounds st).0.warnings ≡ st.warnings)
unfolding pipe count meter
pipe-Ordinary islocal [] st h = ground arith
pipe-Ordinary islocal (r ∷ rounds) st h = elim (Bool-cases r.cancelled) [
  | inl stop ↦ ground arith
  | inr going ↦ elim (Option-cases r.read.error) [
    | inr (e, failed) ↦ ground (arith, fail_ordinary e r.read.cancelled st)
    | inl fine ↦
        let w = write_loop r.read.bytes 0 r.writes st in
        let kept = write_loop_ordinary r.read.bytes 0 r.writes st h.1 in
        elim (WriteExit-cases w.1) [
          | inl (n, done) ↦ ground (arith, kept, pipe-Ordinary islocal rounds (count islocal n w.0))
          | inr (inl stopped) ↦ ground (arith, kept)
          | inr (inr blocked) ↦ ground (arith, kept)
        ]
  ]
]

pipe-append :
    (islocal : Bool) (rounds more : List Round) (st : PipeState)
    → (pipe islocal rounds st).1 ≡ in_read
    → pipe islocal (rounds ++ more) st ≡ pipe islocal more (pipe islocal rounds st).0
unfolding pipe count meter
pipe-append islocal [] more st h = refl
pipe-append islocal (r ∷ rounds) more st h = elim (Bool-cases r.cancelled) [
  | inl stop ↦ absurd (ground arith)
  | inr going ↦ elim (Option-cases r.read.error) [
    | inr (e, failed) ↦ absurd (ground arith)
    | inl fine ↦
        let w = write_loop r.read.bytes 0 r.writes st in
        elim (WriteExit-cases w.1) [
          | inl (n, done) ↦ ground (arith, pipe-append islocal rounds more (count islocal n w.0))
          | inr (inl stopped) ↦ absurd (ground arith)
          | inr (inr blocked) ↦ absurd (ground arith)
        ]
  ]
]

-- A Read with an error ends the pipe, and leaves what is delivered and counted as it is.
pipe_last :
    (islocal : Bool) (r : Round) (st : PipeState) (e : IoError)
    → r.cancelled ≡ false
    → r.read.error ≡ some e
    → ((pipe islocal (r ∷ []) st).1 ≡ returned)
      × ((pipe islocal (r ∷ []) st).0.delivered ≡ st.delivered)
      × ((pipe islocal (r ∷ []) st).0.counter ≡ st.counter)
unfolding pipe fail
pipe_last islocal r st e going failed = ground arith

-- A pipe that waits in a Read, with the context alive and a counter of two uint64, returns when
-- this Read has an error, without delivering or counting the bytes that came with the error.
pub pipe_loses_last_bytes :
    (islocal : Bool) (rounds : List Round) (r : Round) (st : PipeState)
    → IsCounter st.counter
    → (pipe islocal rounds st).1 ≡ in_read
    → r.cancelled ≡ false
    → r.read.error ≢ none
    → let after = pipe islocal (rounds ++ r ∷ []) st in
      (after.1 ≡ returned)
      × (after.0.delivered ≡ st.delivered ++ read_bytes rounds)
      × (after.0.counter ≡ (pipe islocal rounds st).0.counter)
pipe_loses_last_bytes islocal rounds r st wf h going bad =
    let joined = pipe-append islocal rounds (r ∷ []) st h in
    let before = pipe_in_read islocal rounds st wf h in
    let st' = (pipe islocal rounds st).0 in
    elim (Option-cases r.read.error) [
      | inl none_there ↦ absurd (bad none_there)
      | inr (e, failed) ↦
          let last = pipe_last islocal r st' e going failed in
          rw joined (last.0, last.1 ∙ ap (λ (s : PipeState). s.delivered) before, last.2)
    ]
