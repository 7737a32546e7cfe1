-- ===== src/Loadtest/Float.antt =====
-- float64, which is no code of the repository: the operations that internal/loadtest uses. An int64 is
-- its bit pattern, below 2^64.
use tlspxy.Common.{ℕ, ◌%◌, ◌^◌, ◌-◌, Bool, true, ◌&&◌, ◌||◌, List, String, str_eq, ltb, ◌≡◌}
use tlspxy.Config.Koanf.{ℤ, pos, negsuc}
use tlspxy.Common.{if◌then◌else◌}

-- The constants that Snapshot takes percentiles at.
abbrev pub is_quantile : String → Bool
is_quantile p = str_eq p "0.50" || str_eq p "0.95" || str_eq p "0.99"

pub record FloatOps : Type 1 where
  pub Float : Type 0
  -- A constant of the source, by its text.
  pub literal : String → Float
  -- float64(n), for what is no negative number, and for an int64.
  pub of_nat : ℕ → Float
  pub of_int64 : ℕ → Float
  pub times : Float → Float → Float
  pub over : Float → Float → Float
  -- x > y.
  pub gt : Float → Float → Bool
  -- int(x), rounded towards 0.
  pub to_int : Float → ℤ
  -- A product of numbers that are not negative is not negative, and neither is its int: n is an index of
  -- a slice, below 2^63.
  pub quantile_index :
      (n : ℕ) (p : String)
      → is_quantile p ≡ true
      → (i : ℕ) × (to_int (times (of_nat n) (literal p)) ≡ pos i)
  -- Seconds, Minutes and Hours of a time.Duration that is not negative.
  pub seconds : ℕ → Float
  pub minutes : ℕ → Float
  pub hours : ℕ → Float
  -- fmt.Sprintf("%.<n>f", x).
  pub fixed : ℕ → Float → List ℕ

abbrev pub i64 : ℕ → ℕ
i64 n = n % 2 ^ 64

-- `n > 0` for an int64.
abbrev pub is_positive : ℕ → Bool
is_positive n = ltb 0 n && ltb n (2 ^ 63)

-- The number that an int64 stands for.
abbrev pub to_int : ℕ → ℤ
to_int n = if ltb n (2 ^ 63) then pos n else negsuc (2 ^ 64 - n - 1)
