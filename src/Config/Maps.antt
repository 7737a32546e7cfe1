-- ===== src/Config/Maps.antt =====
-- CombineMaps and IsCfgFile of internal/config/config.go. A map is its fields; their order plays no part.
pub mod Overlays
pub mod Kept
use tlspxy.Common.{
  ℕ, Bool, true, false, ◌&&◌, ◌||◌, not, ◌≡◌, ◌≢◌, refl, ap, sym, ◌∙◌, arith, String, str_eq, List,
  [], ◌∷◌, ◌++◌, Option, none, some, ◌==◌, codes, text_eq, if◌then◌else◌, Bool-cases, Option-cases,
  inl, inr,
}
use tlspxy.Config.Flags.{to_lower}
use tlspxy.Config.Koanf.{Value, absent, str, boolean, int, list, object, Fields, end, field}

-- m[key].
unfoldable pub get_field : String → Fields → Option Value
get_field key end = none
get_field key (field j v m) = if str_eq j key then some v else get_field key m

-- m[key] = val.
unfoldable pub set_field : String → Value → Fields → Fields
set_field key val end = field key val end
set_field key val (field j v m) =
    let rest = set_field key val m in if str_eq j key then field j val m else field j v rest

-- The first map of CombineMaps, into one that is empty: each of its keys is new.
unfoldable pub copy_fields : Fields → Fields → Fields
copy_fields combined end = combined
copy_fields combined (field key val cfg) = copy_fields (set_field key val combined) cfg

unfoldable mutual
  -- The loop of CombineMaps over a further map.
  pub overlay_map : Fields → Fields → Fields
  overlay_map combined end = combined
  overlay_map combined (field key val cfg) =
      overlay_map (set_field key (merge_value val (get_field key combined)) combined) cfg

  -- What becomes of a key, by what is there.
  pub merge_value : Value → Option Value → Value
  merge_value (object v) (some (object existing)) =
      object (overlay_map (copy_fields end existing) v)
  merge_value (object v) existing = object v
  merge_value (str s) existing = str s
  merge_value (boolean b) existing = boolean b
  merge_value (int n) existing = int n
  merge_value absent existing = absent
  merge_value (list items) existing = list items

-- The loop of CombineMaps over the maps.
unfoldable pub combine_from : Fields → List Fields → Fields
combine_from combined [] = combined
combine_from combined (cfg ∷ cfgs) = combine_from (overlay_map combined cfg) cfgs

-- CombineMaps.
unfoldable pub combine_maps : List Fields → Fields
unfolding combine_from
combine_maps cfgs = combine_from end cfgs

abbrev pub has_code : ℕ → List ℕ → Bool
has_code c [] = false
has_code c (d ∷ s) = d == c || has_code c s

-- filepath.Ext: from the last point of the last element on.
unfoldable pub path_ext : List ℕ → List ℕ
path_ext [] = []
path_ext (c ∷ s) =
    let ext = path_ext s in
    if c == b'.' && not (has_code b'.' s) && not (has_code b'/' s) then c ∷ s else ext

-- IsCfgFile, by whether os.Stat has no error.
unfoldable pub is_cfg_file : (ℕ → ℕ) → (List ℕ → Bool) → List ℕ → Bool
is_cfg_file unicode_lower exists path =
    let ext = to_lower unicode_lower (path_ext path) in
    (text_eq ext (codes ".yml") || text_eq ext (codes ".yaml")) && exists path
