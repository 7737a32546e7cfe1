-- ===== src/Common/Merges.antt =====
-- Orders in which sequences of operations on a shared state may happen, and when the order is of no
-- account. No code of the repository is modelled here.
use Prim.Native.Nat.{ℕ, ◌+◌}
use native.Mathlib.Omega.{arith}
use mathlib.Core.Path.{◌≡◌, refl, ap, ◌∙◌}
use mathlib.Core.List.{List, [], ◌∷◌, ◌++◌}

-- Two sequences, each in its own order.
pub data Merge {ℓ} {A : Type ℓ} : List A → List A → List A → Type ℓ where
  stop : Merge [] [] []
  left : {x : A} {xs ys zs : List A} → Merge xs ys zs → Merge (x ∷ xs) ys (x ∷ zs)
  right : {y : A} {xs ys zs : List A} → Merge xs ys zs → Merge xs (y ∷ ys) (y ∷ zs)

-- Any number of them.
pub data Interleaved {ℓ} {A : Type ℓ} : List (List A) → List A → Type ℓ where
  no_thread : Interleaved [] []
  thread :
      {w rest ops : List A} {ws : List (List A)}
      → Merge w rest ops
      → Interleaved ws rest
      → Interleaved (w ∷ ws) ops

-- One sequence with nothing beside it.
pub alone {ℓ} : {A : Type ℓ} → (xs : List A) → Merge xs [] xs
alone [] = stop
alone (x ∷ xs) = left (alone xs)

-- One sequence after the other.
abbrev pub in_order {ℓ} : {A : Type ℓ} → List (List A) → List A
in_order [] = []
in_order (w ∷ ws) = w ++ in_order ws

Merge-append {ℓ} : {A : Type ℓ} → (xs ys : List A) → Merge xs ys (xs ++ ys)
Merge-append [] [] = stop
Merge-append [] (y ∷ ys) = right (Merge-append [] ys)
Merge-append (x ∷ xs) ys = left (Merge-append xs ys)

pub Interleaved-in_order {ℓ} : {A : Type ℓ} → (ws : List (List A)) → Interleaved ws (in_order ws)
Interleaved-in_order [] = no_thread
Interleaved-in_order (w ∷ ws) = thread (Merge-append w (in_order ws)) (Interleaved-in_order ws)

module _ {ℓ κ} {A : Type ℓ} {S : Type κ} (act : A → S → S) where
  -- The operations, the first one first.
  abbrev pub run_all : List A → S → S
  run_all [] s = s
  run_all (x ∷ xs) s = run_all xs (act x s)

  -- One sequence after the other.
  abbrev pub run_each : List (List A) → S → S
  run_each [] s = s
  run_each (w ∷ ws) s = run_each ws (run_all w s)

  pub run_all-append : (xs ys : List A) (s : S) → run_all (xs ++ ys) s ≡ run_all ys (run_all xs s)
  run_all-append [] ys s = refl
  run_all-append (x ∷ xs) ys s = run_all-append xs ys (act x s)

  -- No order of two operations can be told from the other.
  abbrev pub Commutes : Type (ℓ ⊔ κ)
  Commutes = (a b : A) (s : S) → act a (act b s) ≡ act b (act a s)

  module _ (comm : Commutes) where
    pub act-run_all : (a : A) (xs : List A) (s : S) → run_all xs (act a s) ≡ act a (run_all xs s)
    act-run_all a [] s = refl
    act-run_all a (x ∷ xs) s = ap (run_all xs) (comm x a s) ∙ act-run_all a xs (act x s)

    act-run_each :
        (a : A) (ws : List (List A)) (s : S) → run_each ws (act a s) ≡ act a (run_each ws s)
    act-run_each a [] s = refl
    act-run_each a (w ∷ ws) s =
        ap (run_each ws) (act-run_all a w s) ∙ act-run_each a ws (run_all w s)

    pub run_each-run_all :
        (ws : List (List A)) (xs : List A) (s : S)
        → run_each ws (run_all xs s) ≡ run_all xs (run_each ws s)
    run_each-run_all ws [] s = refl
    run_each-run_all ws (x ∷ xs) s =
        run_each-run_all ws xs (act x s) ∙ ap (run_all xs) (act-run_each x ws s)

    pub run_all-Merge :
        {xs ys zs : List A} → Merge xs ys zs → (s : S) → run_all zs s ≡ run_all ys (run_all xs s)
    run_all-Merge stop s = refl
    run_all-Merge (left {x = x} m) s = run_all-Merge m (act x s)
    run_all-Merge (right {y = y} {xs = xs} {ys = ys} m) s =
        run_all-Merge m (act y s) ∙ ap (run_all ys) (act-run_all y xs s)

    pub run_all-Interleaved :
        {ws : List (List A)} {ops : List A}
        → Interleaved ws ops
        → (s : S) → run_all ops s ≡ run_each ws s
    run_all-Interleaved no_thread s = refl
    run_all-Interleaved (thread {w = w} m i) s =
        run_all-Merge m s ∙ run_all-Interleaved i (run_all w s)

-- What the operations add up to.
module _ {ℓ} {A : Type ℓ} (f : A → ℕ) where
  abbrev pub tally : List A → ℕ
  tally [] = 0
  tally (x ∷ xs) = f x + tally xs

  abbrev pub tally_all : List (List A) → ℕ
  tally_all [] = 0
  tally_all (w ∷ ws) = tally w + tally_all ws

  pub tally-append : (xs ys : List A) → tally (xs ++ ys) ≡ tally xs + tally ys
  tally-append [] ys = omega arith
  tally-append (x ∷ xs) ys = omega (arith, tally-append xs ys)

  pub tally-Merge : {xs ys zs : List A} → Merge xs ys zs → tally zs ≡ tally xs + tally ys
  tally-Merge stop = refl
  tally-Merge (left m) = omega (arith, tally-Merge m)
  tally-Merge (right m) = omega (arith, tally-Merge m)

  pub tally-Interleaved :
      {ws : List (List A)} {ops : List A} → Interleaved ws ops → tally ops ≡ tally_all ws
  tally-Interleaved no_thread = refl
  tally-Interleaved (thread m i) = omega (arith, tally-Merge m, tally-Interleaved i)
