-- ===== src/Config/Flags.antt =====
-- Flags and environment variables of internal/config/config.go: RegisterFlags, and how LoadFlags and
-- LoadEnvVars turn their names into keys. Go's package flag and koanf's providers are not modelled.
pub mod Help
pub mod Keys
pub mod Variables
pub mod Printing
pub mod Coverage
use tlspxy.Common.{
  ℕ, ◌+◌, Bool, true, false, ◌&&◌, String, List, [], ◌∷◌, ◌++◌, Option, none, some, leb, ltb, ◌==◌,
  length, drop, codes, text_eq, has_prefix, if◌then◌else◌,
}
use tlspxy.Config.Koanf.{Value, absent, str, boolean, int, list, object, Fields, end, field}
use tlspxy.Config.Sources.{Text, after_prefix}
use tlspxy.Config.Flags.Help.{flag_desc}

-- A flag that is registered: flag.String, flag.Bool or flag.Int, by its default.
pub record Flag : Type 0 where
  pub name : Text
  pub default : Value
  pub usage : Text

-- flagDesc[name].
unfoldable pub describe : Text → List (String × String) → Text
describe name [] = []
describe name (entry ∷ table) =
    let rest = describe name table in if text_eq (codes entry.0) name then codes entry.1 else rest

-- The name of a flag, under the name of the map that it stands in.
abbrev pub flag_name : Text → Text → Text
flag_name [] key = key
flag_name (c ∷ prefix) key = (c ∷ prefix) ++ b'-' ∷ key

unfoldable mutual
  -- RegisterFlags, in the order of the fields.
  pub register_flags : Fields → Text → List Flag
  register_flags end prefix = []
  register_flags (field key val m) prefix =
      register_value val (flag_name prefix (codes key)) ++ register_flags m prefix

  -- The switch on the type of a value.
  pub register_value : Value → Text → List Flag
  register_value (object v) name = register_flags v name
  register_value (str s) name =
      record { name = name; default = str s; usage = describe name flag_desc } ∷ []
  register_value (boolean b) name =
      record { name = name; default = boolean b; usage = describe name flag_desc } ∷ []
  register_value (int n) name =
      record { name = name; default = int n; usage = describe name flag_desc } ∷ []
  register_value absent name = []
  register_value (list items) name = []

-- strings.ReplaceAll of a text of one character.
unfoldable pub replace_all : ℕ → ℕ → Text → Text
replace_all old new [] = []
replace_all old new (c ∷ s) = (if c == old then new else c) ∷ replace_all old new s

-- The callback of LoadFlags: no key for the flag "config".
unfoldable pub flag_key : Text → Option Text
flag_key name = if text_eq name (codes "config") then none else some (replace_all b'-' b'.' name)

-- unicode.ToLower, where the lower case of a character that is not ASCII is a parameter.
unfoldable pub lower : (ℕ → ℕ) → ℕ → ℕ
lower unicode_lower c =
    if leb b'A' c && leb c b'Z' then c + 32 else if ltb c 0x80 then c else unicode_lower c

unfoldable pub to_lower : (ℕ → ℕ) → Text → Text
unfolding lower
to_lower unicode_lower [] = []
to_lower unicode_lower (c ∷ s) = lower unicode_lower c ∷ to_lower unicode_lower s

-- strings.TrimPrefix.
abbrev pub trim_prefix : Text → Text → Text
trim_prefix s prefix = if has_prefix s prefix then after_prefix prefix s else s

abbrev pub env_prefix : Text
env_prefix = codes "TLSPXY_"

-- The callback of LoadEnvVars.
unfoldable pub env_key : (ℕ → ℕ) → Text → Text
env_key unicode_lower s = replace_all b'_' b'.' (to_lower unicode_lower (trim_prefix s env_prefix))
