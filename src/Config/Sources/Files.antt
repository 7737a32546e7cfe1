-- ===== src/Config/Sources/Files.antt =====
-- Which files GetConfig of internal/config/config.go loads, and in which order.
use tlspxy.Common.{
  ◌≡◌, refl, ap, ◌∙◌, sym, arith, Bool, true, false, not, ◌&&◌, ◌||◌, List, [], ◌∷◌, ◌++◌, Option,
  none, some, if◌then◌else◌, Option-cases, inl, inr,
}
use tlspxy.Common.Result.{Result-cases, ok}
use tlspxy.Config.Sources.{
  Text, is_yaml, DirEntry, FileSystem, has_marker, ConfigStore, LoadError, load_config_file,
  load_entries, load_configs_from_dir, load_extra_path, load_extra_paths, get_config,
}

-- The YAML files of a directory, by its listing; with the marker those that begin with it only.
abbrev pub chosen : FileSystem → Bool → Text → List DirEntry → List Text
chosen fs require_marker dirname [] = []
chosen fs require_marker dirname (f ∷ files) =
    let others = chosen fs require_marker dirname files in
    if not f.is_dir
      && is_yaml f.name
      && (not require_marker || has_marker fs (fs.join dirname f.name))
    then fs.join dirname f.name ∷ others
    else others

module _ {K : Type 0} (store : ConfigStore K) (fs : FileSystem) where
  -- Files overlaid one after the other, up to the first that fails.
  abbrev pub overlay : K → List Text → K × Option LoadError
  overlay k [] = (k, none)
  overlay k (path ∷ paths) =
      let r = load_config_file store fs k path in
      elim r.1 [ some e ↦ (r.0, some e) | none ↦ overlay r.0 paths ]

  -- A directory's files are those that are chosen, in the order of its listing.
  pub load_entries_lem :
      (require_marker : Bool) (dirname : Text) (files : List DirEntry) (k : K)
      → load_entries store fs require_marker dirname files k
        ≡ overlay k (chosen fs require_marker dirname files)
  unfolding load_entries
  load_entries_lem require_marker dirname [] k = refl
  load_entries_lem require_marker dirname (f ∷ files) k = ground (
    arith,
    load_entries_lem require_marker dirname files k,
    load_entries_lem require_marker dirname files
        (load_config_file store fs k (fs.join dirname f.name)).0,
  )

  -- The files of one extra path, `none` where it cannot be listed.
  abbrev pub path_files : Text → Option (List Text)
  path_files path = elim (fs.stat path) [
    | none ↦ none
    | some true ↦ elim (fs.read_dir path) [
      | none ↦ none
      | some files ↦ some (chosen fs false path files)
    ]
    | some false ↦ some (path ∷ [])
  ]

  abbrev pub all_files : List Text → Option (List Text)
  all_files [] = some []
  all_files (path ∷ paths) =
      let others = all_files paths in
      elim (path_files path) [
        | none ↦ none
        | some files ↦ elim others [ none ↦ none | some more ↦ some (files ++ more) ]
      ]

  -- The files of the working directory: those with the marker, and none if it cannot be listed.
  abbrev pub working_files : Text → List Text
  working_files dirname = elim (fs.read_dir dirname) [
    | none ↦ []
    | some files ↦ chosen fs true dirname files
  ]

  overlay-append :
      (paths more : List Text) (k k' : K)
      → overlay k paths ≡ (k', none)
      → overlay k (paths ++ more) ≡ overlay k' more
  overlay-append [] more k k' h = ap (λ (r : K × Option LoadError). overlay r.0 more) h
  overlay-append (path ∷ paths) more k k' h =
      ground (arith, overlay-append paths more (load_config_file store fs k path).0 k')

  load_extra_path_lem :
      (path : Text) (k k' : K)
      → load_extra_path store fs k path ≡ ok k'
      → (files : List Text) × (path_files path ≡ some files) × (overlay k files ≡ (k', none))
  unfolding load_extra_path load_configs_from_dir
  load_extra_path_lem path k k' h = elim (Option-cases (fs.stat path)) [
    | inl missing ↦ absurd (ground (arith, missing))
    | inr (false, file) ↦ (path ∷ [], ground (arith, file), ground (arith, file))
    | inr (true, dir) ↦ elim (Option-cases (fs.read_dir path)) [
      | inl unreadable ↦ absurd (ground (arith, dir, unreadable))
      | inr (listing, read) ↦ (
        chosen fs false path listing,
        ground (arith, dir, read),
        ground (arith, dir, read, load_entries_lem false path listing k),
      )
    ]
  ]

  load_extra_paths_lem :
      (paths : List Text) (k k' : K)
      → load_extra_paths store fs paths k ≡ ok k'
      → (files : List Text) × (all_files paths ≡ some files) × (overlay k files ≡ (k', none))
  unfolding load_extra_paths
  load_extra_paths_lem [] k k' h = ([], refl, ground arith)
  load_extra_paths_lem (path ∷ paths) k k' h =
      elim (Result-cases (load_extra_path store fs k path)) [
        | inr (e, failed) ↦ absurd (ground (arith, failed))
        | inl (k'', loaded) ↦
            let (files, found, over) = load_extra_path_lem path k k'' loaded in
            let (more, found', over') =
              load_extra_paths_lem paths k'' k' (ground (arith, loaded)) in
            (
              files ++ more,
              ground (arith, found, found'),
              overlay-append files more k k'' over ∙ over',
            )
      ]

  working_lem :
      (dirname : Text) (k : K)
      → (load_configs_from_dir store fs k dirname true).0 ≡ (overlay k (working_files dirname)).0
  unfolding load_configs_from_dir
  working_lem dirname k = elim (Option-cases (fs.read_dir dirname)) [
    | inl unreadable ↦ ground (arith, unreadable)
    | inr (listing, read) ↦ ground (arith, read, load_entries_lem true dirname listing k)
  ]

  -- The configuration that GetConfig returns without an error is the defaults, overlaid by the YAML
  -- files of the working directory that begin with the marker, up to the first that fails, and then
  -- by the files of every extra path, in order and without a failure.
  pub get_config-overlay :
      (dirname : Text) (paths : List Text) (k : K)
      → get_config store fs dirname paths ≡ ok k
      → (defaults : K) × (files : List Text) × (store.defaults ≡ some defaults)
        × (all_files paths ≡ some files)
        × (overlay (overlay defaults (working_files dirname)).0 files ≡ (k, none))
  unfolding get_config
  get_config-overlay dirname paths k h = elim (Option-cases store.defaults) [
    | inl missing ↦ absurd (ground (arith, missing))
    | inr (defaults, loaded) ↦
        let (files, found, over) =
          load_extra_paths_lem paths (load_configs_from_dir store fs defaults dirname true).0 k
            (ground (arith, loaded)) in
        (
          defaults,
          files,
          loaded,
          found,
          ap (λ k'. overlay k' files) (sym (working_lem dirname defaults)) ∙ over,
        )
  ]
