-- ===== src/Loadtest/Generator/Counts.antt =====
-- What the operations of many workers add up to, in whatever order they happen.
use tlspxy.Common.{ℕ, ◌+◌, ◌≡◌, refl, arith, String, List, [], some}
use tlspxy.Loadtest.Float.{i64, FloatOps}
use tlspxy.Loadtest.Stats.{
  Op, Stats, start_stats, new_stats, apply_ops, snapshot, LoadResult, copy_breakdown,
}
use tlspxy.Loadtest.Stats.Counting.{
  adds_success, adds_error, adds_sent, adds_received, breakdown_total, apply_ops-AddedUp,
  snapshot-counts,
}
use tlspxy.Loadtest.Stats.Percentiles.{snapshot_returns}
use tlspxy.Common.Merges.{tally}

-- A Snapshot of the new Stats after Start and the operations.
pub snapshot-apply_ops :
    (ops : List Op) (fl : FloatOps) (began now : ℕ) (name : String) (concurrency : ℕ)
    → (s : Stats) × (r : LoadResult fl) × (apply_ops ops (start_stats began new_stats) ≡ some s)
      × (snapshot fl now name concurrency s ≡ some r)
      × (r.total_requests ≡ i64 (tally adds_success ops + tally adds_error ops))
      × (r.error_count ≡ i64 (tally adds_error ops))
      × (r.bytes_sent ≡ i64 (tally adds_sent ops))
      × (r.bytes_received ≡ i64 (tally adds_received ops))
      × (i64 (breakdown_total r.error_breakdown) ≡ r.error_count)
unfolding start_stats copy_breakdown
snapshot-apply_ops ops fl began now name concurrency =
    let ran = apply_ops-AddedUp ops (start_stats began new_stats) (ground arith) ([], refl, refl) in
    let shot = snapshot_returns fl now name concurrency ran.0 in
    let says = snapshot-counts fl now name concurrency ran.0 shot.0 shot.1 in
    let added = ran.2 in
    (
      ran.0,
      shot.0,
      ran.1,
      shot.1,
      omega (arith, says.0, added.0, added.1),
      omega (arith, says.1, added.1),
      omega (arith, says.2, added.2),
      omega (arith, says.3, added.3),
      ground (arith, says.4, says.1, ran.4.1, ran.4.2),
    )
