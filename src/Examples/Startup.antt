-- ===== src/Examples/Startup.antt =====
-- A working directory with a marked file and one more.
use tlspxy.Common.{
  ℕ, ◌≡◌, refl, false, List, [], ◌∷◌, ◌++◌, none, some, codes, text_eq, if◌then◌else◌, trim_space,
  trim_left, is_space,
}
use tlspxy.Common.Result.{ok}
use tlspxy.Config.Sources.{
  Text, FileSystem, ConfigStore, first_line, has_marker, load_config_file, load_entries,
  load_configs_from_dir, load_extra_path, load_extra_paths, get_config,
}
use tlspxy.Config.Sources.Files.{overlay, all_files, working_files, get_config-overlay}

-- The working directory is the empty path.
abbrev files : FileSystem
files = record {
  read_dir = λ dir. some (
      record { name = codes "t.yml"; is_dir = false }
      ∷ record { name = codes "docker.yml"; is_dir = false }
      ∷ []);
  stat = λ path. some false;
  open_file = λ path. if text_eq path (codes "t.yml") then some (codes "#tlspxy") else some [];
  join = λ dir name. dir ++ name;
}

-- A configuration is the list of what was loaded.
abbrev loads : ConfigStore (List Text)
loads = record { defaults = some []; load_yaml = λ k path. some (k ++ path ∷ []) }

config_found :
    get_config loads files [] (codes "x.yaml" ∷ []) ≡ ok (codes "t.yml" ∷ codes "x.yaml" ∷ [])
unfolding get_config load_extra_paths load_extra_path load_configs_from_dir load_entries
    load_config_file has_marker first_line trim_space trim_left is_space
config_found = refl

get_config-overlay_example :
    (defaults : List Text) × (paths : List Text) × (some [] ≡ some defaults)
    × (all_files loads files (codes "x.yaml" ∷ []) ≡ some paths)
    × (overlay loads files (overlay loads files defaults (working_files loads files [])).0 paths
        ≡ (codes "t.yml" ∷ codes "x.yaml" ∷ [], none))
get_config-overlay_example =
    get_config-overlay loads files [] (codes "x.yaml" ∷ []) (codes "t.yml" ∷ codes "x.yaml" ∷ [])
      config_found

abbrev handlers : List (ℕ × List ℕ)
handlers = (1, 2 ∷ 15 ∷ []) ∷ (5, 1 ∷ []) ∷ (6, 15 ∷ []) ∷ []
