-- ===== src/Config/Flags/Variables.antt =====
-- The environment variables that LoadEnvVars of internal/config/config.go takes for a key.
use tlspxy.Common.{ℕ, ◌-◌, ◌≤◌, ◌≡◌, refl, arith, ◌⊎◌, [], ◌∷◌, ◌++◌, ◌==◌, leb, if◌then◌else◌}
use tlspxy.Config.Sources.{Text}
use tlspxy.Config.Flags.{replace_all, lower, to_lower, env_prefix, env_key}

-- A key of small letters, digits and points.
abbrev pub IsKey : Text → Type 0
IsKey [] = Unit
IsKey (c ∷ key) = (((b'a' ≤ c) × (c ≤ b'z')) ⊎ (((b'0' ≤ c) × (c ≤ b'9')) ⊎ (c ≡ b'.'))) × IsKey key

-- The name in capitals, with an underscore for a point.
abbrev pub upper : ℕ → ℕ
upper c = if c == b'.' then b'_' else if leb b'a' c then c - 32 else c

abbrev pub to_upper : Text → Text
to_upper [] = []
to_upper (c ∷ key) = upper c ∷ to_upper key

abbrev pub env_name : Text → Text
env_name key = env_prefix ++ to_upper key

-- A letter or a digit is read back, and a point from an underscore.
replace_all-to_lower :
    (unicode_lower : ℕ → ℕ) (key : Text)
    → IsKey key
    → replace_all b'_' b'.' (to_lower unicode_lower (to_upper key)) ≡ key
unfolding replace_all to_lower lower
replace_all-to_lower unicode_lower [] h = refl
replace_all-to_lower unicode_lower (c ∷ key) h =
    ground (arith, h.0, replace_all-to_lower unicode_lower key h.1)

-- LoadEnvVars reads the variable that is named after a key of small letters, digits and points, in
-- capitals with underscores behind TLSPXY_, as exactly that key.
pub env_key-env_name :
    (unicode_lower : ℕ → ℕ) (key : Text) → IsKey key → env_key unicode_lower (env_name key) ≡ key
unfolding env_key
env_key-env_name unicode_lower key h = replace_all-to_lower unicode_lower key h
