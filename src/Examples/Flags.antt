-- ===== src/Examples/Flags.antt =====
-- The defaults' flags, a variable for server.tls.minversion, and three maps laid over each other.
use tlspxy.Common.{ℕ, ◌≡◌, refl, arith, String, List, [], ◌∷◌, ◌++◌, map, some, codes}
use tlspxy.Config.Koanf.{str, object, Fields, end, field}
use tlspxy.Config.Defaults.{default_config}
use tlspxy.Config.Flags.{register_flags, env_key}
use tlspxy.Config.Flags.Keys.{leaves, stored, expected, stored-register_flags}
use tlspxy.Config.Flags.Coverage.{default_config-HasPlainNames}
use tlspxy.Config.Flags.Variables.{IsKey, env_name, env_key-env_name}
use tlspxy.Config.Maps.{get_field, combine_maps}
use tlspxy.Config.Maps.Overlays.{IsMap, get_path, get_path-combine_maps}

stored-register_flags_example :
    map stored (register_flags default_config []) ≡ map expected (leaves default_config [])
stored-register_flags_example = stored-register_flags default_config default_config-HasPlainNames

abbrev key : List ℕ
key = codes "server.tls.minversion"

key-IsKey : IsKey key
key-IsKey = ground arith

env_key-env_name_example : env_key (λ c. c) (env_name key) ≡ key
env_key-env_name_example = env_key-env_name (λ c. c) key key-IsKey

-- The map with an address of the server.
abbrev addressed : String → Fields
addressed addr = field "server" (object (field "addr" (str addr) end)) end

addressed-IsMap : IsMap (addressed ":1")
unfolding IsMap get_field
addressed-IsMap = (refl, (refl, tt, tt), tt)

there : get_path ("server" ∷ "addr" ∷ []) (addressed ":1") ≡ some (str ":1")
unfolding get_field
there = refl

get_path-combine_maps_example :
    get_path
      ("server" ∷ "addr" ∷ [])
      (combine_maps ((default_config ∷ addressed ":2" ∷ []) ++ addressed ":1" ∷ []))
    ≡ some (str ":1")
get_path-combine_maps_example =
    get_path-combine_maps ("server" ∷ "addr" ∷ []) (default_config ∷ addressed ":2" ∷ [])
      (addressed ":1") (str ":1") addressed-IsMap tt there
