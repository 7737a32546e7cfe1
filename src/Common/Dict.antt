-- ===== src/Common/Dict.antt =====
-- A Go map from texts, asked for one key at a time: the entries by age, the newest first, which hides
-- the older ones of its key.
use Prim.Native.String.{String}
use text.Mathlib.Text.{◌==◌}
use mathlib.Core.Path.{◌≡◌, refl}
use mathlib.Core.List.{List, [], ◌∷◌}
use mathlib.Core.Option.{Option, none, some}
use tlspxy.Common.Tests.{if◌then◌else◌}

module _ {ℓ} {V : Type ℓ} where
  unfoldable pub lookup : String → List (String × V) → Option V
  lookup key [] = none
  lookup key (entry ∷ older) = if entry.0 == key then some entry.1 else lookup key older

  unfoldable pub insert : String → V → List (String × V) → List (String × V)
  insert key value entries = (key, value) ∷ entries

  pub lookup-insert :
      (key other : String) (value : V) (entries : List (String × V))
      → lookup other (insert key value entries)
        ≡ (if key == other then some value else lookup other entries)
  unfolding lookup insert
  lookup-insert key other value entries = refl
