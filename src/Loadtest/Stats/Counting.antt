-- ===== src/Loadtest/Stats/Counting.antt =====
-- What operations on Stats, in any number, add up to.
use tlspxy.Common.{
  ℕ, ◌+◌, ◌<◌, ◌^◌, ◌≡◌, refl, ◌∙◌, arith, String, List, [], ◌∷◌, some, length, length-append,
}
use tlspxy.Common.Merges.{tally}
use tlspxy.Loadtest.Float.{i64, FloatOps}
use tlspxy.Loadtest.Stats.{
  Op, connect, round_trip, success, error, bytes, Stats, Breakdown, apply_op, apply_ops, increment,
  record_connect, record_round_trip, record_success, record_error, record_bytes, snapshot,
  LoadResult, copy_breakdown,
}

-- What an operation adds to each of the counts.
abbrev pub adds_success : Op → ℕ
adds_success success = 1
adds_success _ = 0

abbrev pub adds_error : Op → ℕ
adds_error (error e) = 1
adds_error _ = 0

abbrev pub adds_sent : Op → ℕ
adds_sent (bytes sent received) = sent
adds_sent _ = 0

abbrev pub adds_received : Op → ℕ
adds_received (bytes sent received) = received
adds_received _ = 0

abbrev pub adds_trip : Op → ℕ
adds_trip (round_trip d) = 1
adds_trip _ = 0

-- The errors of all kinds.
abbrev pub breakdown_total : Breakdown → ℕ
breakdown_total [] = 0
breakdown_total (entry ∷ m) = entry.1 + breakdown_total m

breakdown_total-increment :
    (key : String) (m : Breakdown)
    → i64 (breakdown_total (increment key m)) ≡ i64 (breakdown_total m + 1)
unfolding increment
breakdown_total-increment key [] = refl
breakdown_total-increment key (entry ∷ m) = ground (arith, breakdown_total-increment key m)

-- Every count of s' is that of s, with what the operations add, mod 2^64.
abbrev pub AddedUp : List Op → Stats → Stats → Type 0
AddedUp ops s s' =
    (s'.success_count ≡ i64 (s.success_count + tally adds_success ops))
    × (s'.error_count ≡ i64 (s.error_count + tally adds_error ops))
    × (s'.bytes_sent ≡ i64 (s.bytes_sent + tally adds_sent ops))
    × (s'.bytes_received ≡ i64 (s.bytes_received + tally adds_received ops))
    × (length s'.rt_latency ≡ length s.rt_latency + tally adds_trip ops)

-- The counts are int64.
abbrev pub InRange : Stats → Type 0
InRange s =
    (s.success_count < 2 ^ 64)
    × (s.error_count < 2 ^ 64)
    × (s.bytes_sent < 2 ^ 64)
    × (s.bytes_received < 2 ^ 64)

-- Start has been called, and the errors of the map add up to the count of errors.
abbrev pub IsBroken : Stats → Type 0
IsBroken s =
    (m : Breakdown) × (s.error_breakdown ≡ some m) × (i64 (breakdown_total m) ≡ s.error_count)

apply_op_lem :
    (op : Op) (s : Stats)
    → InRange s
    → IsBroken s
    → (s' : Stats) × (apply_op op s ≡ some s') × AddedUp (op ∷ []) s s' × InRange s' × IsBroken s'
unfolding apply_op record_connect record_round_trip record_success record_error record_bytes
apply_op_lem (connect d) s h b = (record_connect d s, refl, ground arith, h, b)
apply_op_lem (round_trip d) s h b =
    (record_round_trip d s, refl, ground (arith, length-append s.rt_latency (d ∷ [])), h, b)
apply_op_lem success s h b = (record_success s, refl, ground arith, ground arith, b)
apply_op_lem (error e) s h b = (
  record s { error_count = i64 (s.error_count + 1); error_breakdown = some (increment e b.0) },
  ground (arith, b.1),
  ground arith,
  ground arith,
  (increment e b.0, refl, ground (arith, breakdown_total-increment e b.0, b.2)),
)
apply_op_lem (bytes sent received) s h b =
    (record_bytes sent received s, refl, ground arith, ground arith, b)

-- The sums of two parts of a sequence are those of the whole.
AddedUp-cons :
    (op : Op) (ops : List Op) (s t u : Stats)
    → AddedUp (op ∷ []) s t
    → AddedUp ops t u
    → AddedUp (op ∷ ops) s u
AddedUp-cons op ops s t u h k = ground (arith, h, k)

apply_ops-cons :
    (op : Op) (ops : List Op) (s t : Stats)
    → apply_op op s ≡ some t
    → apply_ops (op ∷ ops) s ≡ apply_ops ops t
unfolding apply_ops
apply_ops-cons op ops s t e = ground (arith, e)

-- After Start no operation panics, and the counts add up.
pub apply_ops-AddedUp :
    (ops : List Op) (s : Stats)
    → InRange s
    → IsBroken s
    → (s' : Stats) × (apply_ops ops s ≡ some s') × AddedUp ops s s' × InRange s' × IsBroken s'
unfolding apply_ops
apply_ops-AddedUp [] s h b = (s, refl, ground (arith, h), h, b)
apply_ops-AddedUp (op ∷ ops) s h b =
    let first = apply_op_lem op s h b in
    let rest = apply_ops-AddedUp ops first.0 first.3 first.4 in
    (
      rest.0,
      apply_ops-cons op ops s first.0 first.1 ∙ rest.1,
      AddedUp-cons op ops s first.0 rest.0 first.2 rest.2,
      rest.3,
      rest.4,
    )

-- What a Result says of the counts.
pub snapshot-counts :
    (fl : FloatOps) (now : ℕ) (scenario : String) (concurrency : ℕ) (s : Stats) (r : LoadResult fl)
    → snapshot fl now scenario concurrency s ≡ some r
    → (r.total_requests ≡ i64 (s.success_count + s.error_count))
      × (r.error_count ≡ s.error_count)
      × (r.bytes_sent ≡ s.bytes_sent)
      × (r.bytes_received ≡ s.bytes_received)
      × (r.error_breakdown ≡ copy_breakdown fl s.error_breakdown)
unfolding snapshot
snapshot-counts fl now scenario concurrency s r e = ground (arith, e)
