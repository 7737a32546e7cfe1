-- ===== src/Loadtest/Generator/HttpRuns.antt =====
-- A run of HTTPGenerator of internal/loadtest/generator.go, from Start to Snapshot.
use tlspxy.Common.{
  ℕ, suc, ◌+◌, ◌*◌, ◌≡◌, refl, ◌∙◌, ap, sym, arith, true, false, String, List, [], ◌∷◌, some,
}
use tlspxy.Config.Koanf.{ℤ}
use tlspxy.Loadtest.Float.{i64, FloatOps}
use tlspxy.Loadtest.Stats.{Op, Stats, start_stats, new_stats, apply_ops, snapshot, LoadResult}
use tlspxy.Loadtest.Stats.Counting.{adds_success, adds_error, adds_sent, breakdown_total}
use tlspxy.Common.Merges.{Interleaved, tally, tally_all, tally-Interleaved}
use tlspxy.Loadtest.Generator.{
  HttpRound, request_failed, do_failed, body_failed, responded, http_worker, http_run, http_size,
}
use tlspxy.Loadtest.Generator.Counts.{snapshot-apply_ops}

-- The rounds of an HTTP worker that count: those before the end of the context cuts one off.
abbrev pub counted_rounds : List HttpRound → ℕ
counted_rounds [] = 0
counted_rounds (request_failed e ∷ rounds) = suc (counted_rounds rounds)
counted_rounds (do_failed e true ∷ rounds) = 0
counted_rounds (do_failed e false ∷ rounds) = suc (counted_rounds rounds)
counted_rounds (body_failed e true ∷ rounds) = 0
counted_rounds (body_failed e false ∷ rounds) = suc (counted_rounds rounds)
counted_rounds (responded trip since received ∷ rounds) = suc (counted_rounds rounds)

http_worker_counts :
    (len : ℕ) (rounds : List HttpRound)
    → (tally adds_success (http_worker len rounds) + tally adds_error (http_worker len rounds)
        ≡ counted_rounds rounds)
      × (tally adds_sent (http_worker len rounds)
          ≡ len * tally adds_success (http_worker len rounds))
unfolding http_worker
http_worker_counts len [] = (refl, omega arith)
http_worker_counts len (request_failed e ∷ rounds) = ground (arith, http_worker_counts len rounds)
http_worker_counts len (do_failed e true ∷ rounds) = (refl, omega arith)
http_worker_counts len (do_failed e false ∷ rounds) = ground (arith, http_worker_counts len rounds)
http_worker_counts len (body_failed e true ∷ rounds) = (refl, omega arith)
http_worker_counts len (body_failed e false ∷ rounds) =
    ground (arith, http_worker_counts len rounds)
http_worker_counts len (responded trip since received ∷ rounds) =
    let rest = http_worker_counts len rounds in (omega (arith, rest.0), grind (arith, rest.1))

abbrev pub all_counted_rounds : List (List HttpRound) → ℕ
all_counted_rounds [] = 0
all_counted_rounds (rounds ∷ workers) = counted_rounds rounds + all_counted_rounds workers

http_run_counts :
    (payload_size : ℤ) (workers : List (List HttpRound))
    → (tally_all adds_success (http_run payload_size workers)
          + tally_all adds_error (http_run payload_size workers)
        ≡ all_counted_rounds workers)
      × (tally_all adds_sent (http_run payload_size workers)
          ≡ http_size payload_size * tally_all adds_success (http_run payload_size workers))
unfolding http_run
http_run_counts payload_size [] = (refl, omega arith)
http_run_counts payload_size (rounds ∷ workers) =
    let first = http_worker_counts (http_size payload_size) rounds in
    let rest = http_run_counts payload_size workers in
    (omega (arith, first.0, rest.0), grind (arith, first.1, rest.1))

-- However the operations of the workers interleave, the Result counts each round that the end of the
-- context did not cut off once, and the errors of its map add up to the count of errors.
pub http_run-snapshot :
    (payload_size : ℤ) (workers : List (List HttpRound)) (ops : List Op) (fl : FloatOps)
    (began now : ℕ) (name : String) (concurrency : ℕ)
    → Interleaved (http_run payload_size workers) ops
    → (s : Stats) × (r : LoadResult fl) × (apply_ops ops (start_stats began new_stats) ≡ some s)
      × (snapshot fl now name concurrency s ≡ some r)
      × (r.total_requests ≡ i64 (all_counted_rounds workers))
      × (r.bytes_sent ≡ i64 (http_size payload_size * tally adds_success ops))
      × (i64 (breakdown_total r.error_breakdown) ≡ r.error_count)
http_run-snapshot payload_size workers ops fl began now name concurrency i =
    let shot = snapshot-apply_ops ops fl began now name concurrency in
    let counted = http_run_counts payload_size workers in
    let successes = tally-Interleaved adds_success i in
    let errors = tally-Interleaved adds_error i in
    let sent = tally-Interleaved adds_sent i in
    (
      shot.0,
      shot.1,
      shot.2,
      shot.3,
      shot.4 ∙ ap i64 (omega (arith, successes, errors, counted.0)),
      shot.6 ∙ ap i64 (sent ∙ counted.1 ∙ ap (λ n. http_size payload_size * n) (sym successes)),
      shot.8,
    )
