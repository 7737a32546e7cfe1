-- ===== src/Common/Format.antt =====
-- What the program uses of Go's package `fmt` to print columns. Texts are lists of bytes.
use Prim.Native.Nat.{ℕ, zero, suc, ◌+◌, ◌-◌}
use mathlib.Core.Bool.{◌&&◌}
use mathlib.Core.List.{List, [], ◌∷◌, ◌++◌}
use tlspxy.Common.Tests.{ltb, leb, if◌then◌else◌}

abbrev pub newline : List ℕ
newline = 10 ∷ []

-- The characters of a text in UTF-8: the bytes that do not continue one.
abbrev pub rune_count : List ℕ → ℕ
rune_count [] = 0
rune_count (c ∷ s) = (if leb 0x80 c && ltb c 0xc0 then 0 else 1) + rune_count s

-- strings.Repeat.
abbrev pub repeat : ℕ → List ℕ → List ℕ
repeat zero s = []
repeat (suc n) s = s ++ repeat n s

-- "%-<width>s" and "%<width>s".
unfoldable pub pad_right : ℕ → List ℕ → List ℕ
pad_right width s = s ++ repeat (width - rune_count s) (b' ' ∷ [])

unfoldable pub pad_left : ℕ → List ℕ → List ℕ
pad_left width s = repeat (width - rune_count s) (b' ' ∷ []) ++ s
