-- ===== src/Config/Koanf.antt =====
-- What the program reads from its configuration object, `*koanf.Koanf` of github.com/knadh/koanf,
-- which is not part of the repository: a configuration is the answers of its getters. The values
-- of `map[string]interface{}` (internal/config/defaults.go) are one data type.
use tlspxy.Common.{ℕ, String, Bool, str_eq, if◌then◌else◌}

-- Go's `int`, by sign: `negsuc n` is -(n + 1).
pub data ℤ : Type 0 where
  pos : ℕ → ℤ
  negsuc : ℕ → ℤ

mutual
  -- What an `interface{}` of the configuration holds.
  pub data Value : Type 0 where
    absent : Value
    str : String → Value
    boolean : Bool → Value
    int : ℤ → Value
    list : Items → Value
    object : Fields → Value

  pub data Items : Type 0 where
    nil : Items
    cons : Value → Items → Items

  pub data Fields : Type 0 where
    end : Fields
    field : String → Value → Fields → Fields

pub record Koanf : Type 0 where
  pub string : String → String
  pub bool : String → Bool
  pub int : String → ℤ
  pub get : String → Value

-- k.Set(key, text): the key reads as the text from then on.
unfoldable pub set_string : Koanf → String → String → Koanf
set_string k key text = record k { string = λ j. if str_eq key j then text else k.string j }
