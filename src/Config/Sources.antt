-- ===== src/Config/Sources.antt =====
-- Where the configuration of internal/config/config.go comes from: ParseConfigPaths, GetConfig and the
-- files that it loads. The file system is a parameter, and so is koanf, whose state is K: what it
-- holds with the defaults (`none` if they do not load), and what a YAML file makes of it.
pub mod Files
pub mod Arguments
use tlspxy.Common.{
  ℕ, zero, suc, ◌+◌, Bool, true, false, not, ◌&&◌, ◌||◌, List, [], ◌∷◌, ◌++◌, Option, none, some,
  ◌==◌, length, drop, codes, text_eq, has_prefix, trim_space, if◌then◌else◌, String, ◌-◌,
}
use tlspxy.Common.Result.{Result, ok, err, or_err, ◌>>=◌}

-- Paths and arguments are lists of their code points.
abbrev pub Text : Type 0
Text = List ℕ

abbrev pub has_suffix : Text → Text → Bool
has_suffix s suffix = text_eq (drop (length s - length suffix) s) suffix

-- strings.TrimPrefix, where the prefix is known to stand there.
abbrev pub after_prefix : Text → Text → Text
after_prefix prefix s = drop (length prefix) s

-- `arg == "-config" || arg == "--config"`.
abbrev pub is_config_flag : Text → Bool
is_config_flag arg = text_eq arg (codes "-config") || text_eq arg (codes "--config")

-- What an argument that is not one of these two says by itself.
unfoldable pub inline_path : Text → List Text
inline_path arg =
    if has_prefix arg (codes "-config=")
    then after_prefix (codes "-config=") arg ∷ []
    else if has_prefix arg (codes "--config=")
    then after_prefix (codes "--config=") arg ∷ []
    else []

-- ParseConfigPaths.
unfoldable pub parse_config_paths : List Text → List Text
parse_config_paths [] = []
parse_config_paths (arg ∷ []) = if is_config_flag arg then [] else inline_path arg
parse_config_paths (arg ∷ value ∷ args) = elim (is_config_flag arg) [
  | true ↦ value ∷ parse_config_paths args
  | false ↦ inline_path arg ++ parse_config_paths (value ∷ args)
]

pub record DirEntry : Type 0 where
  pub name : Text
  pub is_dir : Bool

-- os.ReadDir, os.Stat (whether it is a directory), the bytes of a file that opens, filepath.Join.
pub record FileSystem : Type 0 where
  pub read_dir : Text → Option (List DirEntry)
  pub stat : Text → Option Bool
  pub open_file : Text → Option Text
  pub join : Text → Text → Text

pub record ConfigStore (K : Type 0) : Type 0 where
  pub defaults : Option K
  pub load_yaml : K → Text → Option K

pub data LoadError : Type 0 where
  loading_defaults : LoadError
  unreadable_dir : LoadError
  config_path : Text → LoadError
  config_dir config_file : Text → LoadError → LoadError
  bad_yaml : Text → LoadError

-- ReadString('\n') of a bufio.Reader.
unfoldable pub first_line : Text → Text
first_line [] = []
first_line (c ∷ s) = let rest = first_line s in if c == 10 then c ∷ [] else c ∷ rest

-- hasMarker.
unfoldable pub has_marker : FileSystem → Text → Bool
has_marker fs path = elim (fs.open_file path) [
  | none ↦ false
  | some content ↦ has_prefix (trim_space (first_line content)) (codes "#tlspxy")
]

abbrev pub is_yaml : Text → Bool
is_yaml path = has_suffix path (codes ".yml") || has_suffix path (codes ".yaml")

module _ {K : Type 0} (store : ConfigStore K) (fs : FileSystem) where
  -- loadConfigFile: the store, and its error.
  unfoldable pub load_config_file : K → Text → K × Option LoadError
  load_config_file k path =
      if is_yaml path
      then elim (store.load_yaml k path) [ none ↦ (k, some (bad_yaml path)) | some k' ↦ (k', none) ]
      else (k, none)

  -- The loop of loadConfigsFromDir.
  unfoldable pub load_entries : Bool → Text → List DirEntry → K → K × Option LoadError
  load_entries require_marker dirname [] k = (k, none)
  load_entries require_marker dirname (f ∷ files) k =
      let path = fs.join dirname f.name in
      elim (f.is_dir || not (is_yaml f.name) || (require_marker && not (has_marker fs path))) [
        | true ↦ load_entries require_marker dirname files k
        | false ↦
            let r = load_config_file k path in
            elim r.1 [
              | some e ↦ (r.0, some e)
              | none ↦ load_entries require_marker dirname files r.0
            ]
      ]

  -- loadConfigsFromDir.
  unfoldable pub load_configs_from_dir : K → Text → Bool → K × Option LoadError
  load_configs_from_dir k dirname require_marker = elim (fs.read_dir dirname) [
    | none ↦ (k, some unreadable_dir)
    | some files ↦ load_entries require_marker dirname files k
  ]

  -- One of the extra paths of GetConfig.
  unfoldable pub load_extra_path : K → Text → Result LoadError K
  load_extra_path k path = elim (fs.stat path) [
    | none ↦ err (config_path path)
    | some true ↦
        let r = load_configs_from_dir k path false in
        elim r.1 [ some e ↦ err (config_dir path e) | none ↦ ok r.0 ]
    | some false ↦
        let r = load_config_file k path in
        elim r.1 [ some e ↦ err (config_file path e) | none ↦ ok r.0 ]
  ]

  unfoldable pub load_extra_paths : List Text → K → Result LoadError K
  load_extra_paths [] k = ok k
  load_extra_paths (path ∷ paths) k = do k' ← load_extra_path k path; load_extra_paths paths k'

  -- GetConfig: an error in the working directory is only warned of, and what was loaded before it
  -- stays.
  unfoldable pub get_config : Text → List Text → Result LoadError K
  get_config dirname extra_paths = do
    k ← or_err store.defaults loading_defaults
    load_extra_paths extra_paths (load_configs_from_dir k dirname true).0
