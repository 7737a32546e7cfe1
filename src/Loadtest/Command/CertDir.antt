-- ===== src/Loadtest/Command/CertDir.antt =====
-- findCertDir of cmd/loadtest/main.go ends.
use tlspxy.Common.{
  ℕ, zero, suc, ◌<◌, ◌≡◌, ◌≢◌, ◌⊎◌, arith, String, str_eq, true, some, codes, length, inl, inr,
}
use tlspxy.Common.Result.{err}
use tlspxy.Loadtest.Command.{Paths, out_of_fuel, find_from, find_cert_dir}

-- filepath.Dir of an absolute path is absolute, and the same or shorter.
abbrev pub Climbs : (String → Type 0) → (String → String) → Type 0
Climbs IsAbsolute dir =
    (p : String)
    → IsAbsolute p
    → IsAbsolute (dir p) × ((str_eq (dir p) p ≡ true) ⊎ (length (codes (dir p)) < length (codes p)))

find_from_total :
    (IsAbsolute : String → Type 0) (paths : Paths) (fuel : ℕ) (dir : String)
    → Climbs IsAbsolute paths.dir
    → IsAbsolute dir
    → length (codes dir) < fuel
    → find_from paths fuel dir ≢ err out_of_fuel
unfolding find_from
find_from_total IsAbsolute paths zero dir climbs abs h = absurd (omega arith)
find_from_total IsAbsolute paths (suc fuel) dir climbs abs h = elim (climbs dir abs).1 [
  | inl root ↦ ground (arith, root)
  | inr shorter ↦ ground (
    arith,
    find_from_total IsAbsolute paths fuel (paths.dir dir) climbs (climbs dir abs).0 (omega arith),
  )
]

-- The loop reaches its end within its fuel.
pub find_cert_dir_total :
    (IsAbsolute : String → Type 0) (paths : Paths) (wd : String)
    → Climbs IsAbsolute paths.dir
    → paths.getwd ≡ some wd
    → IsAbsolute wd
    → find_cert_dir paths ≢ err out_of_fuel
unfolding find_cert_dir
find_cert_dir_total IsAbsolute paths wd climbs here abs = ground (
  arith,
  here,
  find_from_total IsAbsolute paths (suc (length (codes wd))) wd climbs abs (omega arith),
)
