-- ===== src/Config/Maps/Kept.antt =====
-- What CombineMaps of internal/config/config.go keeps of an earlier map.
use mathlib.Core.Path.{subst}
use tlspxy.Common.{
  false, ◌≡◌, refl, ap, sym, ◌∙◌, arith, String, str_eq, eq_iff, List, [], ◌∷◌, Option, none, some,
  Bool-cases, inl, inr, ◌⊎◌,
}
use tlspxy.Config.Koanf.{Value, object, Fields, end, field}
use tlspxy.Config.Maps.{get_field, set_field, copy_fields, overlay_map, merge_value}
use tlspxy.Config.Maps.Overlays.{
  IsMap, IsMapIn, merged, get_field-set_field, get_field-overlay_map, get_field-IsMap, in_map,
  in_map-some, get_path,
}

abbrev pub or_else : Option Value → Option Value → Option Value
or_else none o = o
or_else (some v) o = some v

or_else-none : (o : Option Value) → or_else o none ≡ o
or_else-none none = refl
or_else-none (some v) = refl

-- The copy of a map reads as the map.
get_field-copy_fields :
    (key : String) (c m : Fields)
    → IsMap m
    → get_field key (copy_fields c m) ≡ or_else (get_field key m) (get_field key c)
unfolding get_field copy_fields IsMap
get_field-copy_fields key c end h = refl
get_field-copy_fields key c (field k v m) h =
    let rest = get_field-copy_fields key (set_field k v c) m h.2 in
    let set_law = get_field-set_field k key v c in
    elim (Bool-cases (str_eq k key)) [
      | inr differs ↦ ground (arith, rest, set_law, differs)
      | inl same ↦
          let gone : get_field key m ≡ none =
            subst (λ j. get_field j m ≡ none) ((eq_iff k key).0 same) h.0 in
          ground (arith, rest, set_law, same, gone)
    ]

differs_sym : (a b : String) → str_eq a b ≡ false → str_eq b a ≡ false
differs_sym a b h = elim (Bool-cases (str_eq b a)) [
  | inr differs ↦ differs
  | inl same ↦ absurd (ground (arith, h, (eq_iff a b).1 (sym ((eq_iff b a).0 same))))
]

still_missing :
    (key j : String) (val : Value) (m : Fields)
    → str_eq j key ≡ false
    → get_field j m ≡ none
    → get_field j (set_field key val m) ≡ none
still_missing key j val m differs h =
    ground (arith, get_field-set_field key j val m, differs_sym j key differs, h)

set_field-IsMap :
    (key : String) (val : Value) (m : Fields) → IsMap m → IsMapIn val → IsMap (set_field key val m)
unfolding set_field IsMap get_field
set_field-IsMap key val end h v = (refl, v, tt)
set_field-IsMap key val (field j x m) h v = elim (Bool-cases (str_eq j key)) [
  | inl same ↦ rw same ((h.0, v, h.2))
  | inr differs ↦
      rw differs ((still_missing key j val m differs h.0, h.1, set_field-IsMap key val m h.2 v))
]

copy_fields-IsMap : (c m : Fields) → IsMap c → IsMap m → IsMap (copy_fields c m)
unfolding copy_fields IsMap
copy_fields-IsMap c end hc hm = hc
copy_fields-IsMap c (field k v m) hc hm =
    copy_fields-IsMap (set_field k v c) m (set_field-IsMap k v c hc hm.1) hm.2

-- Maps that read alike at every key do at every path.
get_path-same :
    (keys : List String) (a b : Fields)
    → ((key : String) → get_field key a ≡ get_field key b)
    → get_path keys a ≡ get_path keys b
get_path-same [] a b h = refl
get_path-same (key ∷ []) a b h = h key
get_path-same (key ∷ next ∷ keys) a b h = ap (in_map (get_path (next ∷ keys))) (h key)

-- A map says nothing at a path, nor at a map on the way to it that it would replace.
abbrev pub Misses : List String → Fields → Type 0
Misses [] m = ⊥
Misses (key ∷ []) m = get_field key m ≡ none
Misses (key ∷ next ∷ keys) m =
    (get_field key m ≡ none)
    ⊎ ((fs : Fields) × (get_field key m ≡ some (object fs)) × Misses (next ∷ keys) fs)

merge_objects :
    (fs es : Fields)
    → merge_value (object fs) (some (object es)) ≡ object (overlay_map (copy_fields end es) fs)
unfolding merge_value
merge_objects fs es = refl

copied : (key : String) (m : Fields) → IsMap m → get_field key (copy_fields end m) ≡ get_field key m
unfolding get_field
copied key m h = get_field-copy_fields key end m h ∙ or_else-none (get_field key m)

-- What an earlier map has at a path stays where the later one misses it.
pub get_path-kept :
    (keys : List String) (c m : Fields) (v : Value)
    → IsMap c
    → IsMap m
    → Misses keys m
    → get_path keys c ≡ some v
    → get_path keys (overlay_map c m) ≡ some v
unfolding IsMap
get_path-kept [] c m v hc hm miss e = absurd miss
get_path-kept (key ∷ []) c m v hc hm miss e =
    get_field-overlay_map key c m hm ∙ ap (merged (get_field key c)) miss ∙ e
get_path-kept (key ∷ next ∷ keys) c m v hc hm miss e =
    let rest = next ∷ keys in
    let inner = in_map-some (get_path rest) (get_field key c) v e in
    let es = inner.0 in
    let law = get_field-overlay_map key c m hm in
    elim miss [
      | inl nothing ↦ ap (in_map (get_path rest)) (law ∙ ap (merged (get_field key c)) nothing) ∙ e
      | inr there ↦
          let fs = there.0 in
          let copy = copy_fields end es in
          let es_map = get_field-IsMap key c es hc inner.1 in
          let found : get_field key (overlay_map c m) ≡ some (object (overlay_map copy fs)) =
            law
            ∙ ap (merged (get_field key c)) there.1
            ∙ ap (λ x. some (merge_value (object fs) x)) inner.1
            ∙ ap some (merge_objects fs es) in
          let same : get_path rest copy ≡ get_path rest es =
            get_path-same rest copy es (λ k. copied k es es_map) in
          ap (in_map (get_path rest)) found
          ∙ get_path-kept (next ∷ keys) copy fs v (copy_fields-IsMap end es tt es_map)
              (get_field-IsMap key m fs hm there.1) there.2 (same ∙ inner.2)
    ]
