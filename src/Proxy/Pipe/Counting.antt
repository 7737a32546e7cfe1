-- ===== src/Proxy/Pipe/Counting.antt =====
-- What a pipe of internal/proxy/tcp.go counts: a pipe that goes on has lost nothing.
use mathlib.Core.List.{append-nil, append_assoc}
use tlspxy.Common.{
  ℕ, ◌+◌, ◌<◌, ◌^◌, ◌≡◌, ap, sym, ◌∙◌, arith, Bool, true, false, not, ◌&&◌, if◌then◌else◌, List, [],
  ◌∷◌, ◌++◌, none, length, length-append, Bool-cases, Option-cases, inl, inr,
}
use tlspxy.Proxy.Counter.{Counter, u64, add_to, add_from}
use tlspxy.Proxy.Pipe.{Round, PipeState, wrote, write_loop, Exit, in_read, count, meter, pipe}
use tlspxy.Proxy.Pipe.Delivery.{read_bytes, WriteExit-cases, write_loop-wrote}

abbrev pub counted : Bool → ℕ → Counter → Counter
counted true n c = record c { to = u64 (c.to + n) }
counted false n c = record c { from = u64 (c.from + n) }

abbrev pub IsCounter : Counter → Type 0
IsCounter c = (c.to < 2 ^ 64) × (c.from < 2 ^ 64)

-- What a metric of bytes holds after n more bytes that way.
abbrev pub metered : Bool → ℕ → ℕ → ℕ
metered counts n before = if counts then before + n else before

-- The state after a round whose bytes have all been written.
abbrev pub passed : Bool → List ℕ → PipeState → PipeState
passed islocal bytes st = record st {
  delivered = st.delivered ++ bytes;
  counter = counted islocal (length bytes) st.counter;
  bytes_sent = metered (islocal && st.metrics) (length bytes) st.bytes_sent;
  bytes_received = metered (not islocal && st.metrics) (length bytes) st.bytes_received;
}

counted-IsCounter :
    (islocal : Bool) (n : ℕ) (c : Counter) → IsCounter c → IsCounter (counted islocal n c)
counted-IsCounter true n c h = omega arith
counted-IsCounter false n c h = omega arith

counted-counted :
    (islocal : Bool) (n m : ℕ) (c : Counter)
    → counted islocal m (counted islocal n c) ≡ counted islocal (n + m) c
counted-counted true n m c = ground arith
counted-counted false n m c = ground arith

passed-passed :
    (islocal : Bool) (a b : List ℕ) (st : PipeState)
    → passed islocal b (passed islocal a st) ≡ passed islocal (a ++ b) st
passed-passed islocal a b st = ground (
  arith,
  append_assoc st.delivered a b,
  counted-counted islocal (length a) (length b) st.counter,
  length-append {0} a b,
)

passed_none : (islocal : Bool) (st : PipeState) → IsCounter st.counter → st ≡ passed islocal [] st
passed_none true st h = ground (arith, append-nil st.delivered)
passed_none false st h = ground (arith, append-nil st.delivered)

pub pipe_round :
    (islocal : Bool) (r : Round) (rounds : List Round) (st : PipeState) (n : ℕ)
    → r.cancelled ≡ false
    → r.read.error ≡ none
    → (write_loop r.read.bytes 0 r.writes st).1 ≡ wrote n
    → pipe islocal (r ∷ rounds) st ≡ pipe islocal rounds (passed islocal r.read.bytes st)
unfolding pipe count meter add_to add_from
pipe_round islocal r rounds st n going fine done =
    let (m, state) = write_loop-wrote r.read.bytes 0 r.writes st n done in
    rw (going, fine, done, state, m) (ap (λ (s : PipeState). pipe islocal rounds s) (same islocal))
  where
    same :
        (l : Bool)
        → count l (0 + length r.read.bytes) (record st { delivered = st.delivered ++ r.read.bytes })
          ≡ passed l r.read.bytes st
    same true = ground arith
    same false = ground arith

-- While a pipe waits in a Read, the destination has taken exactly what was read, the counter of the
-- direction has grown by its length mod 2^64, and so, where metrics are enabled, has the metric of
-- the direction, without the wrap; nothing else of the state has changed, from a counter of two
-- uint64.
pub pipe_in_read :
    (islocal : Bool) (rounds : List Round) (st : PipeState)
    → IsCounter st.counter
    → (pipe islocal rounds st).1 ≡ in_read
    → (pipe islocal rounds st).0 ≡ record st {
      delivered = st.delivered ++ read_bytes rounds;
      counter = counted islocal (length (read_bytes rounds)) st.counter;
      bytes_sent = metered (islocal && st.metrics) (length (read_bytes rounds)) st.bytes_sent;
      bytes_received =
          metered (not islocal && st.metrics) (length (read_bytes rounds)) st.bytes_received;
    }
unfolding pipe
pipe_in_read islocal [] st wf h = passed_none islocal st wf
pipe_in_read islocal (r ∷ rounds) st wf h = elim (Bool-cases r.cancelled) [
  | inl stop ↦ absurd (ground arith)
  | inr going ↦ elim (Option-cases r.read.error) [
    | inr (e, failed) ↦ absurd (ground arith)
    | inl fine ↦
        let w = write_loop r.read.bytes 0 r.writes st in
        elim (WriteExit-cases w.1) [
          | inr (inl stopped) ↦ absurd (ground arith)
          | inr (inr blocked) ↦ absurd (ground arith)
          | inl (n, done) ↦
              let step = pipe_round islocal r rounds st n going fine done in
              let rest =
                pipe_in_read islocal rounds (passed islocal r.read.bytes st)
                  (counted-IsCounter islocal (length r.read.bytes) st.counter wf)
                  (ap (λ (p : PipeState × Exit). p.1) (sym step) ∙ h) in
              ap (λ (p : PipeState × Exit). p.0) step
              ∙ rest
              ∙ passed-passed islocal r.read.bytes (read_bytes rounds) st
              ∙ ap (λ t. passed islocal t st) (rw (going, fine))
        ]
  ]
]
