-- ===== src/Proxy/Join.antt =====
-- SingleJoiningSlash of internal/proxy/tcp.go: two URL paths joined by one slash.
use mathlib.Core.List.{append_assoc}
use tlspxy.Common.{
  ℕ, ◌≡◌, refl, Bool, true, false, not, ◌&&◌, List, [], ◌∷◌, ◌++◌, ◌==◌, if◌then◌else◌, arith,
  Bool-cases, inl, inr, ap,
}

abbrev pub slash : ℕ
slash = b'/'

-- `len(a) > 0 && a[len(a)-1] == '/'`.
unfoldable pub ends_in_slash : List ℕ → Bool
ends_in_slash [] = false
ends_in_slash (c ∷ []) = c == slash
ends_in_slash (c ∷ d ∷ s) = ends_in_slash (d ∷ s)

-- `len(b) > 0 && b[0] == '/'`.
unfoldable pub starts_with_slash : List ℕ → Bool
starts_with_slash [] = false
starts_with_slash (c ∷ s) = c == slash

abbrev pub rest : List ℕ → List ℕ
rest [] = []
rest (c ∷ s) = s

unfoldable pub single_joining_slash : List ℕ → List ℕ → List ℕ
unfolding ends_in_slash starts_with_slash
single_joining_slash a b =
    let aslash = ends_in_slash a in
    let bslash = starts_with_slash b in
    if aslash && bslash
    then a ++ rest b
    else if not aslash && not bslash
    then a ++ slash ∷ b
    else a ++ b

-- A path without one slash at its end, and without one at its start.
unfoldable pub trim_end : List ℕ → List ℕ
trim_end [] = []
trim_end (c ∷ []) = if c == slash then [] else c ∷ []
trim_end (c ∷ d ∷ s) = c ∷ trim_end (d ∷ s)

unfoldable pub trim_start : List ℕ → List ℕ
trim_start [] = []
trim_start (c ∷ s) = if c == slash then s else c ∷ s

end_slash : (a : List ℕ) → ends_in_slash a ≡ true → trim_end a ++ slash ∷ [] ≡ a
unfolding ends_in_slash trim_end
end_slash [] h = ground arith
end_slash (c ∷ []) h = ground arith
end_slash (c ∷ d ∷ s) h = ap (λ t. c ∷ t) (end_slash (d ∷ s) h)

no_end_slash : (a : List ℕ) → ends_in_slash a ≡ false → trim_end a ≡ a
unfolding ends_in_slash trim_end
no_end_slash [] h = refl
no_end_slash (c ∷ []) h = ground arith
no_end_slash (c ∷ d ∷ s) h = ap (λ t. c ∷ t) (no_end_slash (d ∷ s) h)

start_slash : (b : List ℕ) → starts_with_slash b ≡ true → slash ∷ trim_start b ≡ b
unfolding starts_with_slash trim_start
start_slash [] h = ground arith
start_slash (c ∷ s) h = ground arith

no_start_slash : (b : List ℕ) → starts_with_slash b ≡ false → trim_start b ≡ b
unfolding starts_with_slash trim_start
no_start_slash [] h = refl
no_start_slash (c ∷ s) h = ground arith

rest_trim : (b : List ℕ) → starts_with_slash b ≡ true → rest b ≡ trim_start b
unfolding starts_with_slash trim_start
rest_trim [] h = refl
rest_trim (c ∷ s) h = ground arith

-- The joined path is the first without its last slash, if it ends in one, a slash, and the second
-- without its first slash, if it starts with one.
pub single_joining_slash_lem :
    (a b : List ℕ) → single_joining_slash a b ≡ trim_end a ++ slash ∷ trim_start b
unfolding single_joining_slash
single_joining_slash_lem a b = elim (Bool-cases (ends_in_slash a)) [
  | inl ea ↦ elim (Bool-cases (starts_with_slash b)) [
    | inl sb ↦ ground (
      arith,
      end_slash a ea,
      rest_trim b sb,
      append_assoc (trim_end a) (slash ∷ []) (trim_start b),
    )
    | inr sb ↦ ground (
      arith,
      end_slash a ea,
      no_start_slash b sb,
      append_assoc (trim_end a) (slash ∷ []) (trim_start b),
    )
  ]
  | inr ea ↦ elim (Bool-cases (starts_with_slash b)) [
    | inl sb ↦ ground (arith, no_end_slash a ea, start_slash b sb)
    | inr sb ↦ ground (arith, no_end_slash a ea, no_start_slash b sb)
  ]
]
