-- ===== src/Loadtest/Stats/Percentiles.antt =====
-- The percentiles of Snapshot in internal/loadtest/stats.go.
use tlspxy.Common.{
  ℕ, zero, suc, ◌+◌, ◌-◌, ◌≤◌, ◌<◌, ◌≡◌, refl, arith, List, [], ◌∷◌, some, leb, length,
  if◌then◌else◌, String, true,
}
use tlspxy.Config.Koanf.{pos}
use tlspxy.Loadtest.Float.{FloatOps, is_quantile}
use tlspxy.Loadtest.Stats.{
  insert_sorted, sort_durations, get_elem?, at_index, percentile, percentiles, last_or_zero,
  snapshot, Stats, LoadResult, result_of,
}
use tlspxy.Loadtest.Stats.Sorting.{
  AllFrom, IsSorted, sort_durations-IsSorted, get_elem?-some, get_elem?-mono,
}

-- The number of samples that are at most d, and that are at least d.
abbrev pub count_up_to : ℕ → List ℕ → ℕ
count_up_to d [] = 0
count_up_to d (x ∷ xs) = (if leb x d then 1 else 0) + count_up_to d xs

abbrev pub count_from : ℕ → List ℕ → ℕ
count_from d [] = 0
count_from d (x ∷ xs) = (if leb d x then 1 else 0) + count_from d xs

insert_sorted_counts :
    (d x : ℕ) (xs : List ℕ)
    → (count_up_to d (insert_sorted x xs) ≡ count_up_to d (x ∷ xs))
      × (count_from d (insert_sorted x xs) ≡ count_from d (x ∷ xs))
      × (length (insert_sorted x xs) ≡ suc (length xs))
unfolding insert_sorted
insert_sorted_counts d x [] = (refl, refl, refl)
insert_sorted_counts d x (y ∷ ys) = ground (arith, insert_sorted_counts d x ys)

-- Sorting keeps the counts and the length.
sort_durations_counts :
    (d : ℕ) (xs : List ℕ)
    → (count_up_to d (sort_durations xs) ≡ count_up_to d xs)
      × (count_from d (sort_durations xs) ≡ count_from d xs)
      × (length (sort_durations xs) ≡ length xs)
unfolding sort_durations
sort_durations_counts d [] = (refl, refl, refl)
sort_durations_counts d (x ∷ xs) =
    ground (arith, insert_sorted_counts d x (sort_durations xs), sort_durations_counts d xs)

count_from-AllFrom : (d : ℕ) (xs : List ℕ) → AllFrom d xs → count_from d xs ≡ length xs
count_from-AllFrom d [] a = refl
count_from-AllFrom d (x ∷ xs) a = ground (arith, count_from-AllFrom d xs a.1)

-- The sample at index i of a sorted slice has more than i samples up to it, and at least n - i from it.
rank_in_sorted :
    (xs : List ℕ) (i v : ℕ)
    → IsSorted xs
    → get_elem? xs i ≡ some v
    → (i < count_up_to v xs) × (length xs ≤ count_from v xs + i)
unfolding get_elem?
rank_in_sorted [] i v s h = ground arith
rank_in_sorted (x ∷ xs) zero v s h = ground (arith, count_from-AllFrom x xs s.0)
rank_in_sorted (x ∷ xs) (suc i) v s h = ground (
  arith,
  rank_in_sorted xs i v s.1 h,
  get_elem?-mono (x ∷ xs) zero (suc i) x v s (omega arith) refl h,
)

module _ (fl : FloatOps) where
  -- The index that percentile uses.
  abbrev pub limited : ℕ → ℕ → ℕ
  limited n idx = if leb n idx then n - 1 else idx

  percentile_at :
      (xs : List ℕ) (p : fl.Float) (i : ℕ)
      → 0 < length xs
      → fl.to_int (fl.times (fl.of_nat (length xs - 1)) p) ≡ pos i
      → (v : ℕ) × (percentile fl (sort_durations xs) p ≡ some v)
        × (get_elem? (sort_durations xs) (limited (length xs) i) ≡ some v)
  unfolding percentile at_index
  percentile_at xs p i h index =
      let ys = sort_durations xs in
      let len : length ys ≡ length xs = (sort_durations_counts 0 xs).2 in
      let found = get_elem?-some ys (limited (length xs) i) (ground (arith, len)) in
      let same : fl.to_int (fl.times (fl.of_nat (length ys - 1)) p) ≡ pos i = rw len index in
      (found.0, ground (arith, len, same, found.1), found.1)

  -- The percentile of sorted samples, at least one, whose index int(float64(n-1)*p) is not
  -- negative, is found in range: more samples than the index, which is limited to the last one, are
  -- at most that duration, and at least all but as many are not below it.
  pub percentile-sort_durations :
      (xs : List ℕ) (p : fl.Float) (i : ℕ)
      → 0 < length xs
      → fl.to_int (fl.times (fl.of_nat (length xs - 1)) p) ≡ pos i
      → (v : ℕ) × (percentile fl (sort_durations xs) p ≡ some v)
        × (limited (length xs) i < count_up_to v xs)
        × (length xs ≤ count_from v xs + limited (length xs) i)
  percentile-sort_durations xs p i h index =
      let at = percentile_at xs p i h index in
      let counts = sort_durations_counts at.0 xs in
      let rank =
        rank_in_sorted (sort_durations xs) (limited (length xs) i) at.0 (sort_durations-IsSorted xs)
          at.2 in
      (at.0, at.1, rw⁻¹ counts.0 rank.0, ground (arith, counts, rank))

  -- The index of one of the constants among n samples, before it is limited.
  abbrev index_at : ℕ → (p : String) → is_quantile p ≡ true → ℕ
  index_at n p h = (fl.quantile_index (n - 1) p h).0

  -- int(float64(n-1)*p) does not fall as p grows from 0.50 to 0.95 and to 0.99.
  abbrev IsMonotone : Type 0
  IsMonotone =
      (n : ℕ)
      → (index_at n "0.50" refl ≤ index_at n "0.95" refl)
        × (index_at n "0.95" refl ≤ index_at n "0.99" refl)

  -- The percentiles of a slice and its maximum are in order.
  abbrev Ascending : ℕ × ℕ × ℕ → ℕ → Type 0
  Ascending ps most = (ps.0 ≤ ps.1) × (ps.1 ≤ ps.2) × (ps.2 ≤ most)

  percentiles-some :
      (ys : List ℕ) (a b c : ℕ)
      → percentile fl ys (fl.literal "0.50") ≡ some a
      → percentile fl ys (fl.literal "0.95") ≡ some b
      → percentile fl ys (fl.literal "0.99") ≡ some c
      → percentiles fl ys ≡ some (a, b, c)
  unfolding percentiles
  percentiles-some ys a b c ea eb ec = ground (arith, ea, eb, ec)

  snapshot-some :
      (now : ℕ) (scenario : String) (concurrency : ℕ) (s : Stats) (c t : ℕ × ℕ × ℕ) (most : ℕ)
      → percentiles fl (sort_durations s.connect_latency) ≡ some c
      → percentiles fl (sort_durations s.rt_latency) ≡ some t
      → last_or_zero fl (sort_durations s.rt_latency) ≡ some most
      → snapshot fl now scenario concurrency s
        ≡ some (result_of fl now scenario concurrency c t most s)
  unfolding snapshot
  snapshot-some now scenario concurrency s c t most ec et em = ground (arith, ec, et, em)

  percentiles-Ascending :
      (xs : List ℕ)
      → (ps : ℕ × ℕ × ℕ) × (most : ℕ) × (percentiles fl (sort_durations xs) ≡ some ps)
        × (last_or_zero fl (sort_durations xs) ≡ some most)
        × (IsMonotone → Ascending ps most)
  unfolding percentiles last_or_zero percentile at_index sort_durations
  percentiles-Ascending [] =
      ((0, 0, 0), 0, refl, refl, λ mono. (omega arith, omega arith, omega arith))
  percentiles-Ascending (x ∷ xs) =
      let ys = sort_durations (x ∷ xs) in
      let n = length (x ∷ xs) in
      let sorted = sort_durations-IsSorted (x ∷ xs) in
      let len = (sort_durations_counts 0 (x ∷ xs)).2 in
      let p50 =
        percentile_at (x ∷ xs) (fl.literal "0.50") (index_at n "0.50" refl) (omega arith)
          (fl.quantile_index (n - 1) "0.50" refl).1 in
      let p95 =
        percentile_at (x ∷ xs) (fl.literal "0.95") (index_at n "0.95" refl) (omega arith)
          (fl.quantile_index (n - 1) "0.95" refl).1 in
      let p99 =
        percentile_at (x ∷ xs) (fl.literal "0.99") (index_at n "0.99" refl) (omega arith)
          (fl.quantile_index (n - 1) "0.99" refl).1 in
      let last = get_elem?-some ys (length ys - 1) (omega (arith, len)) in
      let i50 = limited n (index_at n "0.50" refl) in
      let i95 = limited n (index_at n "0.95" refl) in
      let i99 = limited n (index_at n "0.99" refl) in
      (
        (p50.0, p95.0, p99.0),
        last.0,
        percentiles-some ys p50.0 p95.0 p99.0 p50.1 p95.1 p99.1,
        ground (arith, len, last.1),
        λ mono. (
          get_elem?-mono ys i50 i95 p50.0 p95.0 sorted (ground (arith, mono n)) p50.2 p95.2,
          get_elem?-mono ys i95 i99 p95.0 p99.0 sorted (ground (arith, mono n)) p95.2 p99.2,
          get_elem?-mono ys i99 (length ys - 1) p99.0 last.0 sorted (ground (arith, len)) p99.2
              last.1,
        ),
      )

  -- Snapshot returns a Result, whatever the samples are.
  pub snapshot_returns :
      (now : ℕ) (scenario : String) (concurrency : ℕ) (s : Stats)
      → (r : LoadResult fl) × (snapshot fl now scenario concurrency s ≡ some r)
        × (IsMonotone
            → Ascending (r.round_trip_p50, r.round_trip_p95, r.round_trip_p99) r.round_trip_max
              × ((r.connect_p50 ≤ r.connect_p95) × (r.connect_p95 ≤ r.connect_p99)))
  snapshot_returns now scenario concurrency s =
      let c = percentiles-Ascending s.connect_latency in
      let t = percentiles-Ascending s.rt_latency in
      (
        result_of fl now scenario concurrency c.0 t.0 t.1 s,
        snapshot-some now scenario concurrency s c.0 t.0 t.1 c.2 t.2 t.3,
        λ mono. (t.4 mono, ((c.4 mono).0, (c.4 mono).1)),
      )

  -- If the index of a percentile does not fall from 0.50 to 0.95 and to 0.99, Snapshot returns a
  -- Result whose percentiles ascend, and those of the round trips do not exceed the maximum.
  snapshot-Ascending :
      (now : ℕ) (scenario : String) (concurrency : ℕ) (s : Stats)
      → IsMonotone
      → (r : LoadResult fl) × (snapshot fl now scenario concurrency s ≡ some r)
        × Ascending (r.round_trip_p50, r.round_trip_p95, r.round_trip_p99) r.round_trip_max
        × ((r.connect_p50 ≤ r.connect_p95) × (r.connect_p95 ≤ r.connect_p99))
  snapshot-Ascending now scenario concurrency s mono =
      let r = snapshot_returns now scenario concurrency s in (r.0, r.1, (r.2 mono).0, (r.2 mono).1)
