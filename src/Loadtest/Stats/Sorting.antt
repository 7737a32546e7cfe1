-- ===== src/Loadtest/Stats/Sorting.antt =====
-- The sorted copies of Snapshot: in ascending order.
use tlspxy.Common.{
  ℕ, zero, suc, ◌≤◌, ◌<◌, ◌≡◌, refl, arith, Bool-cases, inl, inr, tests, List, [], ◌∷◌, some, leb,
  length,
}
use tlspxy.Loadtest.Stats.{insert_sorted, sort_durations, get_elem?}

-- Every sample is at least d.
abbrev pub AllFrom : ℕ → List ℕ → Type 0
AllFrom d [] = Unit
AllFrom d (x ∷ xs) = (d ≤ x) × AllFrom d xs

abbrev pub IsSorted : List ℕ → Type 0
IsSorted [] = Unit
IsSorted (x ∷ xs) = AllFrom x xs × IsSorted xs

AllFrom-down : (d e : ℕ) (xs : List ℕ) → d ≤ e → AllFrom e xs → AllFrom d xs
AllFrom-down d e [] h a = tt
AllFrom-down d e (x ∷ xs) h a = (omega (arith, a.0), AllFrom-down d e xs h a.1)

AllFrom-insert_sorted :
    (d x : ℕ) (xs : List ℕ) → d ≤ x → AllFrom d xs → AllFrom d (insert_sorted x xs)
unfolding insert_sorted
AllFrom-insert_sorted d x [] h a = (h, tt)
AllFrom-insert_sorted d x (y ∷ ys) h a = ground (arith, AllFrom-insert_sorted d x ys h a.1)

insert_sorted-IsSorted : (x : ℕ) (xs : List ℕ) → IsSorted xs → IsSorted (insert_sorted x xs)
unfolding insert_sorted
insert_sorted-IsSorted x [] s = (tt, tt)
insert_sorted-IsSorted x (y ∷ ys) s = elim (Bool-cases (leb x y)) [
  | inl h ↦ rw h ((omega tests, AllFrom-down x y ys (omega tests) s.0), s)
  | inr h ↦
      rw h (AllFrom-insert_sorted y x ys (ground (arith)) s.0, insert_sorted-IsSorted x ys s.1)
]

pub sort_durations-IsSorted : (xs : List ℕ) → IsSorted (sort_durations xs)
unfolding sort_durations
sort_durations-IsSorted [] = tt
sort_durations-IsSorted (x ∷ xs) =
    insert_sorted-IsSorted x (sort_durations xs) (sort_durations-IsSorted xs)

-- An index in range has a sample.
pub get_elem?-some : (xs : List ℕ) (i : ℕ) → i < length xs → (x : ℕ) × (get_elem? xs i ≡ some x)
unfolding get_elem?
get_elem?-some [] i h = absurd (omega arith)
get_elem?-some (x ∷ xs) zero h = (x, refl)
get_elem?-some (x ∷ xs) (suc i) h = get_elem?-some xs i (omega arith)

get_elem?-AllFrom : (d : ℕ) (xs : List ℕ) (i x : ℕ) → AllFrom d xs → get_elem? xs i ≡ some x → d ≤ x
unfolding get_elem?
get_elem?-AllFrom d [] i x a h = ground arith
get_elem?-AllFrom d (y ∷ ys) zero x a h = ground arith
get_elem?-AllFrom d (y ∷ ys) (suc i) x a h = get_elem?-AllFrom d ys i x a.1 h

-- In a sorted slice a later sample is not less.
pub get_elem?-mono :
    (xs : List ℕ) (i j x y : ℕ)
    → IsSorted xs
    → i ≤ j
    → get_elem? xs i ≡ some x
    → get_elem? xs j ≡ some y
    → x ≤ y
unfolding get_elem?
get_elem?-mono [] i j x y s h ex ey = ground arith
get_elem?-mono (z ∷ zs) zero zero x y s h ex ey = ground arith
get_elem?-mono (z ∷ zs) zero (suc j) x y s h ex ey =
    ground (arith, get_elem?-AllFrom z zs j y s.0 ey)
get_elem?-mono (z ∷ zs) (suc i) zero x y s h ex ey = absurd (omega arith)
get_elem?-mono (z ∷ zs) (suc i) (suc j) x y s h ex ey =
    get_elem?-mono zs i j x y s.1 (omega arith) ex ey
