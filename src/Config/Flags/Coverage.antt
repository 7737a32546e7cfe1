-- ===== src/Config/Flags/Coverage.antt =====
-- The help of internal/config/config.go, beside the flags of the defaults.
use tlspxy.Common.{
  arith, Bool, true, false, ◌&&◌, ◌||◌, ◌≡◌, refl, List, [], ◌∷◌, ◌++◌, map, codes, text_eq,
  if◌then◌else◌,
}
use tlspxy.Config.Sources.{Text}
use tlspxy.Config.Defaults.{default_config}
use tlspxy.Config.Flags.{register_flags}
use tlspxy.Config.Flags.Help.{flag_desc, FlagGroup, help_groups}
use tlspxy.Config.Flags.Keys.{HasPlainNames}

abbrev names_of : List FlagGroup → List Text
names_of [] = []
names_of (g ∷ groups) = map codes g.flags ++ names_of groups

abbrev has_text : Text → List Text → Bool
has_text s [] = false
has_text s (t ∷ texts) = text_eq s t || has_text s texts

abbrev all_in : List Text → List Text → Bool
all_in [] texts = true
all_in (s ∷ names) texts = has_text s texts && all_in names texts

abbrev distinct : List Text → Bool
distinct [] = true
distinct (s ∷ names) = (if has_text s names then false else true) && distinct names

abbrev registered_names : List Text
unfolding register_flags default_config
registered_names = codes "config" ∷ map (λ f. f.name) (register_flags default_config [])

-- Every flag stands in one group of the help, once, and has a description; no flag is registered twice.
help_covers_flags :
    (all_in registered_names (names_of help_groups) ≡ true)
    × (all_in (names_of help_groups) registered_names ≡ true)
    × (distinct registered_names ≡ true)
    × (distinct (names_of help_groups) ≡ true)
    × (all_in registered_names (map (λ entry. codes entry.0) flag_desc) ≡ true)
unfolding help_groups flag_desc registered_names
help_covers_flags = (refl, refl, refl, refl, refl)

-- The names of the defaults have no dash.
pub default_config-HasPlainNames : HasPlainNames default_config
unfolding HasPlainNames default_config
default_config-HasPlainNames = ground arith
