-- ===== src/Loadtest/Generator/TcpRuns.antt =====
-- A run of TCPGenerator of internal/loadtest/generator.go, from Start to Snapshot.
use Prim.Native.Nat.{min}
use tlspxy.Common.{
  ℕ, suc, ◌+◌, ◌*◌, ◌-◌, ◌≤◌, ◌≡◌, refl, ◌∙◌, ap, sym, arith, true, String, List, [], ◌∷◌, ◌++◌,
  some, length, Option-cases, inl, inr,
}
use tlspxy.Common.Result.{Result-cases}
use tlspxy.Config.Koanf.{ℤ}
use tlspxy.Loadtest.Float.{i64, FloatOps}
use tlspxy.Loadtest.Stats.{Op, Stats, start_stats, new_stats, apply_ops, snapshot, LoadResult}
use tlspxy.Loadtest.Stats.Counting.{
  adds_success, adds_error, adds_sent, adds_received, breakdown_total,
}
use tlspxy.Common.Merges.{Interleaved, tally, tally_all, tally-append, tally-Interleaved}
use tlspxy.Loadtest.Generator.{
  Read, TcpRound, ReadEnd, all_read, read_failed, waiting, read_loop, tcp_reads, tcp_round,
  tcp_worker, tcp_run, tcp_size,
}
use tlspxy.Loadtest.Generator.Counts.{snapshot-apply_ops}

-- Where the loop leaves with all read, that is the length of the payload.
read_loop_len :
    (len received : ℕ) (reads : List Read) (n : ℕ)
    → received ≤ len
    → read_loop len received reads ≡ all_read n
    → n ≡ len
unfolding read_loop
read_loop_len len received [] n h e = ground arith
read_loop_len len received (r ∷ reads) n h e =
    ground (arith, read_loop_len len (received + min r.0 (len - received)) reads n (omega arith))

-- A round is one success, with the whole payload sent and received, or one error.
abbrev pub IsCounted : ℕ → ℕ → List Op → Type 0
IsCounted len rounds ops =
    (tally adds_success ops + tally adds_error ops ≡ rounds)
    × (tally adds_sent ops ≡ len * tally adds_success ops)
    × (tally adds_received ops ≡ tally adds_sent ops)

tcp_reads-IsCounted :
    (len d latency : ℕ) (end : ReadEnd)
    → ((n : ℕ) → end ≡ all_read n → n ≡ len)
    → (tcp_reads len d latency end).1 ≡ true
    → IsCounted len 1 (tcp_reads len d latency end).0
unfolding tcp_reads
tcp_reads-IsCounted len d latency (all_read n) h e = ground (arith, h n refl)
tcp_reads-IsCounted len d latency (read_failed s) h e = ground arith
tcp_reads-IsCounted len d latency waiting h e = ground arith

tcp_round-IsCounted :
    (len : ℕ) (r : TcpRound) → (tcp_round len r).1 ≡ true → IsCounted len 1 (tcp_round len r).0
unfolding tcp_round
tcp_round-IsCounted len r e = elim (Result-cases r.dial) [
  | inr failed ↦ ground (arith, failed.1)
  | inl dialled ↦ elim (Option-cases r.write) [
    | inr failed ↦ ground (arith, dialled.1, failed.1)
    | inl written ↦ ground (
      arith,
      dialled.1,
      written,
      tcp_reads-IsCounted len dialled.0 r.latency (read_loop len 0 r.reads)
          (λ n. read_loop_len len 0 r.reads n (omega arith)),
    )
  ]
]

-- One round, and n more.
IsCounted-append :
    (len n : ℕ) (xs ys : List Op)
    → IsCounted len 1 xs
    → IsCounted len n ys
    → IsCounted len (suc n) (xs ++ ys)
IsCounted-append len n xs ys h k =
    let successes = tally-append adds_success xs ys in
    let errors = tally-append adds_error xs ys in
    let sent = tally-append adds_sent xs ys in
    let received = tally-append adds_received xs ys in
    (
      omega (arith, successes, errors, h.0, k.0),
      grind (arith, successes, sent, h.1, k.1),
      omega (arith, sent, received, h.2, k.2),
    )

tcp_worker-nil : (len : ℕ) → IsCounted len 0 (tcp_worker len []).0
unfolding tcp_worker
tcp_worker-nil len = (refl, omega arith, refl)

tcp_worker-cons :
    (len : ℕ) (r : TcpRound) (rounds : List TcpRound)
    → (tcp_round len r).1 ≡ true
    → tcp_worker len (r ∷ rounds)
      ≡ ((tcp_round len r).0 ++ (tcp_worker len rounds).0, (tcp_worker len rounds).1)
unfolding tcp_worker
tcp_worker-cons len r rounds e = rw e refl

-- A worker that returns has ended every round.
tcp_worker-ended :
    (len : ℕ) (r : TcpRound) (rounds : List TcpRound)
    → (tcp_worker len (r ∷ rounds)).1 ≡ true
    → ((tcp_round len r).1 ≡ true) × ((tcp_worker len rounds).1 ≡ true)
unfolding tcp_worker
tcp_worker-ended len r rounds e = ground (arith, e)

-- A worker that returns has counted every round that it began.
tcp_worker-IsCounted :
    (len : ℕ) (rounds : List TcpRound)
    → (tcp_worker len rounds).1 ≡ true
    → IsCounted len (length rounds) (tcp_worker len rounds).0
tcp_worker-IsCounted len [] e = tcp_worker-nil len
tcp_worker-IsCounted len (r ∷ rounds) e =
    let ended = tcp_worker-ended len r rounds e in
    let first = (tcp_round len r).0 in
    let rest = (tcp_worker len rounds).0 in
    rw (tcp_worker-cons len r rounds ended.0) (
      IsCounted-append len (length rounds) first rest (tcp_round-IsCounted len r ended.0)
        (tcp_worker-IsCounted len rounds ended.1))

-- Every worker returns, as Run waits for.
abbrev pub AllReturn : ℕ → List (List TcpRound) → Type 0
AllReturn len [] = Unit
AllReturn len (rounds ∷ workers) = ((tcp_worker len rounds).1 ≡ true) × AllReturn len workers

-- The rounds of all workers.
abbrev pub total_rounds {ℓ} : {A : Type ℓ} → List (List A) → ℕ
total_rounds [] = 0
total_rounds (rounds ∷ workers) = length rounds + total_rounds workers

-- The same of all workers.
abbrev pub IsCountedAll : ℕ → ℕ → List (List Op) → Type 0
IsCountedAll len rounds ws =
    (tally_all adds_success ws + tally_all adds_error ws ≡ rounds)
    × (tally_all adds_sent ws ≡ len * tally_all adds_success ws)
    × (tally_all adds_received ws ≡ tally_all adds_sent ws)

tcp_run-IsCountedAll :
    (payload_size : ℤ) (workers : List (List TcpRound))
    → AllReturn (tcp_size payload_size) workers
    → IsCountedAll (tcp_size payload_size) (total_rounds workers) (tcp_run payload_size workers)
unfolding tcp_run
tcp_run-IsCountedAll payload_size [] h = (refl, omega arith, refl)
tcp_run-IsCountedAll payload_size (rounds ∷ workers) h =
    let first = tcp_worker-IsCounted (tcp_size payload_size) rounds h.0 in
    let rest = tcp_run-IsCountedAll payload_size workers h.1 in
    (omega (arith, first.0, rest.0), grind (arith, first.1, rest.1), omega (arith, first.2, rest.2))

-- However the operations of workers that all return interleave, the Result counts each of their rounds
-- once, as many bytes are received as sent, the payload for each success, and the errors of its map
-- add up to the count of errors.
pub tcp_run-snapshot :
    (payload_size : ℤ) (workers : List (List TcpRound)) (ops : List Op) (fl : FloatOps)
    (began now : ℕ) (name : String) (concurrency : ℕ)
    → AllReturn (tcp_size payload_size) workers
    → Interleaved (tcp_run payload_size workers) ops
    → (s : Stats) × (r : LoadResult fl) × (apply_ops ops (start_stats began new_stats) ≡ some s)
      × (snapshot fl now name concurrency s ≡ some r)
      × (r.total_requests ≡ i64 (total_rounds workers))
      × (r.bytes_sent ≡ i64 (tcp_size payload_size * tally adds_success ops))
      × (r.bytes_received ≡ r.bytes_sent)
      × (i64 (breakdown_total r.error_breakdown) ≡ r.error_count)
tcp_run-snapshot payload_size workers ops fl began now name concurrency all i =
    let shot = snapshot-apply_ops ops fl began now name concurrency in
    let says = shot.4 in
    let counted = tcp_run-IsCountedAll payload_size workers all in
    let successes = tally-Interleaved adds_success i in
    let errors = tally-Interleaved adds_error i in
    let sent = tally-Interleaved adds_sent i in
    let received = tally-Interleaved adds_received i in
    (
      shot.0,
      shot.1,
      shot.2,
      shot.3,
      says ∙ ap i64 (omega (arith, successes, errors, counted.0)),
      shot.6 ∙ ap i64 (sent ∙ counted.1 ∙ ap (λ n. tcp_size payload_size * n) (sym successes)),
      shot.7 ∙ ap i64 (received ∙ counted.2 ∙ sym sent) ∙ sym shot.6,
      shot.8,
    )
