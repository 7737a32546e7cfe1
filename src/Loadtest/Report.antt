-- ===== src/Loadtest/Report.antt =====
-- internal/loadtest/report.go: texts are lists of bytes, which for the names that the reports print are
-- their code points. `none` is the panic of a slice that is out of range.
pub mod Numbers
pub mod Names
pub mod Printing
pub mod Total
use tlspxy.Common.{
  ℕ, zero, suc, ◌+◌, ◌-◌, ◌*◌, ◌/◌, ◌%◌, ◌≤◌, Bool, true, false, List, [], ◌∷◌, ◌++◌, Option, none,
  some, ltb, leb, ◌==◌, length, take, drop, codes, if◌then◌else◌, ◌||◌, not, ◌&&◌,
}
use tlspxy.Config.Koanf.{pos}
use tlspxy.Proxy.Header.Text.{decimal}
use tlspxy.Loadtest.Float.{FloatOps, to_int}

-- The loop of addCommas, over the digits from i on.
unfoldable pub write_groups : List ℕ → Option (List ℕ)
write_groups [] = some []
write_groups (a ∷ []) = none
write_groups (a ∷ b ∷ []) = none
write_groups (a ∷ b ∷ c ∷ rest) = elim (write_groups rest) [
  | none ↦ none
  | some groups ↦ some (b',' ∷ a ∷ b ∷ c ∷ groups)
]

-- `start` of addCommas.
abbrev pub sign_length : List ℕ → ℕ
sign_length [] = 0
sign_length (c ∷ s) = if c == b'-' then 1 else 0

-- `first` of addCommas, of n digits.
abbrev pub first_group : ℕ → ℕ
first_group n = if n % 3 == 0 then 3 else n % 3

unfoldable pub add_commas : List ℕ → Option (List ℕ)
add_commas s =
    let sign = take (sign_length s) s in
    let digits = drop (sign_length s) s in
    let n = length digits in
    if leb n 3 then some s else elim (write_groups (drop (first_group n) digits)) [
      | none ↦ none
      | some groups ↦ some (sign ++ (take (first_group n) digits ++ groups))
    ]

-- formatInt of an int64.
unfoldable pub format_int : ℕ → Option (List ℕ)
format_int n = add_commas (decimal (to_int n))

-- strings.SplitN(s, ".", 2): what stands before the first point, and behind it, if there is one.
unfoldable pub split_point : List ℕ → List ℕ × Option (List ℕ)
split_point [] = ([], none)
split_point (c ∷ s) =
    let rest = split_point s in if c == b'.' then ([], some s) else (c ∷ rest.0, rest.1)

-- The three bytes of "…".
abbrev pub ellipsis : List ℕ
ellipsis = 0xe2 ∷ 0x80 ∷ 0xa6 ∷ []

unfoldable pub truncate : List ℕ → ℕ → List ℕ
truncate s max_len =
    if leb (length s) max_len
    then s
    else if leb max_len 1
    then take max_len s
    else take (max_len - 1) s ++ ellipsis

abbrev pub second : ℕ
second = 1_000_000_000

module _ (fl : FloatOps) where
  unfoldable pub duration_ms : ℕ → fl.Float
  duration_ms d = fl.over (fl.of_nat d) (fl.of_nat 1_000_000)

  unfoldable pub format_ms : ℕ → List ℕ
  unfolding duration_ms
  format_ms d = fl.fixed 2 (duration_ms d) ++ codes "ms"

  unfoldable pub format_float : fl.Float → Option (List ℕ)
  format_float f =
      let parts = split_point (fl.fixed 1 f) in
      elim (add_commas parts.0) [
        | none ↦ none
        | some int_part ↦ elim parts.1 [
          | none ↦ some int_part
          | some fraction ↦ some (int_part ++ b'.' ∷ fraction)
        ]
      ]

  unfoldable pub format_duration_short : ℕ → List ℕ
  format_duration_short d =
      if leb (3600 * second) d
      then fl.fixed 0 (fl.hours d) ++ codes "h"
      else if leb (60 * second) d
      then fl.fixed 0 (fl.minutes d) ++ codes "m"
      else if leb second d
      then fl.fixed 0 (fl.seconds d) ++ codes "s"
      else decimal (pos (d / 1_000_000)) ++ codes "ms"
