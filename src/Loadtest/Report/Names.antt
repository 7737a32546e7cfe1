-- ===== src/Loadtest/Report/Names.antt =====
-- The names in the table of the reports of internal/loadtest/report.go.
use tlspxy.Common.{
  rune_count, ℕ, zero, suc, ◌+◌, ◌-◌, ◌<◌, ◌≡◌, refl, arith, List, [], ◌∷◌, ◌++◌, length, take,
  length-take,
}
use Prim.Native.Nat.{min}
use tlspxy.Loadtest.Report.{ellipsis, truncate}

abbrev pub IsAscii : List ℕ → Type 0
IsAscii [] = Unit
IsAscii (c ∷ s) = (c < 0x80) × IsAscii s

rune_count-append : (s t : List ℕ) → rune_count (s ++ t) ≡ rune_count s + rune_count t
rune_count-append [] t = omega arith
rune_count-append (c ∷ s) t = omega (arith, rune_count-append s t)

rune_count-IsAscii : (s : List ℕ) → IsAscii s → rune_count s ≡ length s
rune_count-IsAscii [] h = refl
rune_count-IsAscii (c ∷ s) h = ground (arith, rune_count-IsAscii s h.1)

IsAscii-take : (n : ℕ) (s : List ℕ) → IsAscii s → IsAscii (take n s)
IsAscii-take zero s h = tt
IsAscii-take (suc n) [] h = tt
IsAscii-take (suc n) (c ∷ s) h = (h.0, IsAscii-take n s h.1)

-- An ASCII name keeps its characters, up to the limit, which the ellipsis counts for one of.
pub rune_count-truncate :
    (s : List ℕ) (max_len : ℕ)
    → IsAscii s
    → rune_count (truncate s max_len) ≡ min (length s) max_len
unfolding truncate
rune_count-truncate s max_len h =
    let most = max_len - 1 in
    ground (
      arith,
      rune_count-IsAscii s h,
      rune_count-IsAscii (take max_len s) (IsAscii-take max_len s h),
      rune_count-IsAscii (take most s) (IsAscii-take most s h),
      rune_count-append (take most s) ellipsis,
      length-take max_len s,
      length-take most s,
    )
