-- ===== src/Config/Maps/Overlays.antt =====
-- What CombineMaps of internal/config/config.go makes of a path of keys.
use mathlib.Core.Path.{subst}
use tlspxy.Common.{
  true, false, ◌≡◌, refl, ap, ◌∙◌, arith, String, str_eq, eq_iff, List, [], ◌∷◌, ◌++◌, Option, none,
  some, if◌then◌else◌, Bool-cases, inl, inr, ◌⊎◌,
}
use tlspxy.Config.Koanf.{Value, absent, str, boolean, int, list, object, Fields, end, field}
use tlspxy.Config.Maps.{
  get_field, set_field, copy_fields, overlay_map, merge_value, combine_from, combine_maps,
}

unfoldable mutual
  -- No map, at whatever depth, has a key twice.
  pub IsMap : Fields → Type 0
  IsMap end = Unit
  IsMap (field key val m) = (get_field key m ≡ none) × IsMapIn val × IsMap m

  pub IsMapIn : Value → Type 0
  IsMapIn (object m) = IsMap m
  IsMapIn (str s) = Unit
  IsMapIn (boolean b) = Unit
  IsMapIn (int n) = Unit
  IsMapIn absent = Unit
  IsMapIn (list items) = Unit

not_both :
    (j key other : String) → str_eq j key ≡ false → str_eq key other ≡ true → str_eq j other ≡ false
not_both j key other differs same =
    subst (λ k. str_eq j k ≡ false) ((eq_iff key other).0 same) differs

pub get_field-set_field :
    (key other : String) (val : Value) (m : Fields)
    → get_field other (set_field key val m)
      ≡ (if str_eq key other then some val else get_field other m)
unfolding get_field set_field
get_field-set_field key other val end = refl
get_field-set_field key other val (field j v m) = elim (Bool-cases (str_eq j key)) [
  | inl same ↦ ground (arith, same, ap (λ k. str_eq k other) ((eq_iff j key).0 same))
  | inr differs ↦
      ground (arith, differs, get_field-set_field key other val m, not_both j key other differs)
]

-- The value of a key in both maps.
abbrev pub merged : Option Value → Option Value → Option Value
merged x none = x
merged x (some v) = some (merge_value v x)

pub get_field-overlay_map :
    (key : String) (c m : Fields)
    → IsMap m
    → get_field key (overlay_map c m) ≡ merged (get_field key c) (get_field key m)
unfolding get_field overlay_map IsMap
get_field-overlay_map key c end h = refl
get_field-overlay_map key c (field k v m) h =
    let set_to = merge_value v (get_field k c) in
    let rest = get_field-overlay_map key (set_field k set_to c) m h.2 in
    let set_law = get_field-set_field k key set_to c in
    elim (Bool-cases (str_eq k key)) [
      | inr differs ↦ ground (arith, rest, set_law, differs)
      | inl same ↦
          let gone : get_field key m ≡ none =
            subst (λ j. get_field j m ≡ none) ((eq_iff k key).0 same) h.0 in
          let there : get_field k c ≡ get_field key c =
            ap (λ j. get_field j c) ((eq_iff k key).0 same) in
          ground (arith, rest, set_law, same, gone, ap (merge_value v) there)
    ]

-- m[key], where the rest of a path is asked for in the map that stands there.
abbrev pub in_map : (Fields → Option Value) → Option Value → Option Value
in_map f (some (object m)) = f m
in_map f (some (str s)) = none
in_map f (some (boolean b)) = none
in_map f (some (int n)) = none
in_map f (some absent) = none
in_map f (some (list items)) = none
in_map f none = none

abbrev pub get_path : List String → Fields → Option Value
get_path [] m = none
get_path (key ∷ []) m = get_field key m
get_path (key ∷ next ∷ keys) m = in_map (get_path (next ∷ keys)) (get_field key m)

-- A value that is no map.
abbrev pub IsLeaf : Value → Type 0
IsLeaf (object m) = ⊥
IsLeaf (str s) = Unit
IsLeaf (boolean b) = Unit
IsLeaf (int n) = Unit
IsLeaf absent = Unit
IsLeaf (list items) = Unit

merge_value-IsLeaf : (x : Option Value) (v : Value) → IsLeaf v → merge_value v x ≡ v
unfolding merge_value
merge_value-IsLeaf x (object m) l = absurd l
merge_value-IsLeaf x (str s) l = refl
merge_value-IsLeaf x (boolean b) l = refl
merge_value-IsLeaf x (int n) l = refl
merge_value-IsLeaf x absent l = refl
merge_value-IsLeaf x (list items) l = refl

pub get_field-IsMap :
    (key : String) (m fs : Fields) → IsMap m → get_field key m ≡ some (object fs) → IsMap fs
unfolding get_field IsMap
get_field-IsMap key end fs h e = ground (arith, e)
get_field-IsMap key (field k v m) fs h e = elim (Bool-cases (str_eq k key)) [
  | inl same ↦ let here : v ≡ object fs = ground (arith, e, same) in subst IsMapIn here h.1
  | inr differs ↦ get_field-IsMap key m fs h.2 (ground (arith, e, differs))
]

pub in_map-some :
    (f : Fields → Option Value) (o : Option Value) (v : Value)
    → in_map f o ≡ some v
    → (m : Fields) × (o ≡ some (object m)) × (f m ≡ some v)
in_map-some f (some (object m)) v e = (m, refl, e)
in_map-some f (some (str s)) v e = ground (arith, e)
in_map-some f (some (boolean b)) v e = ground (arith, e)
in_map-some f (some (int n)) v e = ground (arith, e)
in_map-some f (some absent) v e = ground (arith, e)
in_map-some f (some (list items)) v e = ground (arith, e)
in_map-some f none v e = ground (arith, e)

-- A map that comes later is there as it is, or laid over what was there.
merge_value-object :
    (fs : Fields) (x : Option Value)
    → (merge_value (object fs) x ≡ object fs)
      ⊎ ((c : Fields) × (merge_value (object fs) x ≡ object (overlay_map c fs)))
unfolding merge_value
merge_value-object fs none = inl refl
merge_value-object fs (some (object es)) = inr (copy_fields end es, refl)
merge_value-object fs (some (str s)) = inl refl
merge_value-object fs (some (boolean b)) = inl refl
merge_value-object fs (some (int n)) = inl refl
merge_value-object fs (some absent) = inl refl
merge_value-object fs (some (list items)) = inl refl

-- A value of the later map, at whatever depth.
get_path-overlay_map :
    (keys : List String) (c m : Fields) (v : Value)
    → IsMap m
    → IsLeaf v
    → get_path keys m ≡ some v
    → get_path keys (overlay_map c m) ≡ some v
get_path-overlay_map [] c m v h l e = e
get_path-overlay_map (key ∷ []) c m v h l e =
    get_field-overlay_map key c m h
    ∙ ap (merged (get_field key c)) e
    ∙ ap some (merge_value-IsLeaf (get_field key c) v l)
get_path-overlay_map (key ∷ next ∷ keys) c m v h l e =
    let inner = in_map-some (get_path (next ∷ keys)) (get_field key m) v e in
    let fs = inner.0 in
    let found : get_field key (overlay_map c m) ≡ some (merge_value (object fs) (get_field key c)) =
      get_field-overlay_map key c m h ∙ ap (merged (get_field key c)) inner.1 in
    let go_on : (m' : Fields)
        → merge_value (object fs) (get_field key c) ≡ object m'
        → get_path (next ∷ keys) m' ≡ some v
        → get_path (key ∷ next ∷ keys) (overlay_map c m) ≡ some v =
      λ m' e1 e2. ap (in_map (get_path (next ∷ keys))) (found ∙ ap some e1) ∙ e2 in
    elim (merge_value-object fs (get_field key c)) [
      | inl same ↦ go_on fs same inner.2
      | inr laid ↦ go_on (overlay_map laid.0 fs) laid.1 (
          get_path-overlay_map (next ∷ keys) laid.0 fs v (get_field-IsMap key m fs h inner.1) l
            inner.2)
    ]

combine_from-append :
    (c m : Fields) (cfgs : List Fields)
    → combine_from c (cfgs ++ m ∷ []) ≡ overlay_map (combine_from c cfgs) m
unfolding combine_from
combine_from-append c m [] = refl
combine_from-append c m (cfg ∷ cfgs) = combine_from-append (overlay_map c cfg) m cfgs

-- Whatever maps come before, CombineMaps holds, at every path of keys, the value that its last map
-- has there, if this is no map, and no map within the last one has a key twice.
pub get_path-combine_maps :
    (keys : List String) (cfgs : List Fields) (m : Fields) (v : Value)
    → IsMap m
    → IsLeaf v
    → get_path keys m ≡ some v
    → get_path keys (combine_maps (cfgs ++ m ∷ [])) ≡ some v
unfolding combine_maps
get_path-combine_maps keys cfgs m v h l e =
    ap (get_path keys) (combine_from-append end m cfgs)
    ∙ get_path-overlay_map keys (combine_from end cfgs) m v h l e
