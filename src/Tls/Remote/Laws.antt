-- ===== src/Tls/Remote/Laws.antt =====
-- What the connection to the backend promises, by internal/tls/remote.go.
use tlspxy.Common.{
  ℕ, ◌≤◌, String, codes, Bool, true, false, not, ◌&&◌, List, none, some, if◌then◌else◌, ◌≡◌, arith,
  ◌⊎◌, inl, inr, Option-cases,
}
use tlspxy.Common.Result.{Result-cases, ok}
use tlspxy.Config.Koanf.{Koanf}
use tlspxy.Tls.Versions.{CipherTable, version_tls10, version_tls12, parse_tls_version}
use tlspxy.Tls.Options.{TlsOptions, parse_tls_options}
use tlspxy.Tls.Options.Laws.{min_or_default_range}
use tlspxy.Tls.Host.{min_or_default, Host, TlsConfig, with_options, system_ca_pool, append_ca_file}
use tlspxy.Tls.Remote.{
  load_config_from_files, base_config, set_system_roots, set_skip_verify, config_remote,
}

-- Both files of the client certificate are there.
abbrev pub has_client_pair : {C P : Type 0} → Host C P → Koanf → Bool
has_client_pair host k =
    host.exists (k.string "remote.tls.cert") && host.exists (k.string "remote.tls.key")

module _ {C P : Type 0} (host : Host C P) (k : Koanf) (opts : TlsOptions) where
  load_config_from_files_lem :
      (cert key ca : String) (sysroots : Bool) (conf : TlsConfig C P)
      → load_config_from_files host cert key ca sysroots opts ≡ ok conf
      → (conf.min_version ≡ min_or_default opts.min_version) × (conf.insecure_skip_verify ≡ false)
  unfolding load_config_from_files with_options
  load_config_from_files_lem cert key ca sysroots conf h = ground arith

  root_cas-load_config_from_files :
      (cert key ca : String) (conf : TlsConfig C P)
      → load_config_from_files host cert key ca false opts ≡ ok conf
      → (pem : List ℕ) × (pool : P) × (host.read_file ca ≡ some pem)
        × (host.append_certs host.new_pool pem ≡ some pool)
        × (conf.root_cas ≡ some pool)
  unfolding load_config_from_files append_ca_file
  root_cas-load_config_from_files cert key ca conf h = elim (Option-cases (host.read_file ca)) [
    | inl unreadable ↦ absurd (ground arith)
    | inr (pem, reads) ↦ elim (Option-cases (host.append_certs host.new_pool pem)) [
      | inl no_certs ↦ absurd (ground arith)
      | inr (pool, appends) ↦ (pem, pool, reads, appends, ground arith)
    ]
  ]

  base_config_lem :
      (conf : TlsConfig C P)
      → base_config host k opts ≡ ok (some conf)
      → (conf.min_version ≡ min_or_default opts.min_version) × (conf.insecure_skip_verify ≡ false)
  unfolding base_config with_options
  base_config_lem conf h = ground (
    arith,
    load_config_from_files_lem (k.string "remote.tls.cert") (k.string "remote.tls.key")
        (k.string "remote.tls.ca") (k.bool "remote.tls.sysroots") conf,
  )

module _ {C P : Type 0} (table : CipherTable) (host : Host C P) (k : Koanf) where
  -- Of a configured backend: the options parse, and the config is the base config, finished.
  config_remote_parts :
      (conf : TlsConfig C P)
      → config_remote table host k ≡ ok (some conf)
      → (opts : TlsOptions) × (base : TlsConfig C P) × (conf' : TlsConfig C P) × (parse_tls_options
            table k "remote.tls"
          ≡ ok opts)
        × (base_config host k opts ≡ ok (some base))
        × (set_system_roots host k base ≡ ok conf')
        × (conf ≡ set_skip_verify k conf')
  unfolding config_remote
  config_remote_parts conf h = elim (Result-cases (parse_tls_options table k "remote.tls")) [
    | inr (e, bad) ↦ absurd (ground arith)
    | inl (opts, good) ↦ elim (Result-cases (base_config host k opts)) [
      | inr (e, bad) ↦ absurd (ground arith)
      | inl (none, plain) ↦ absurd (ground arith)
      | inl (some base, based) ↦ elim (Result-cases (set_system_roots host k base)) [
        | inr (e, bad) ↦ absurd (ground arith)
        | inl (rooted, roots) ↦ (opts, base, rooted, good, based, roots, ground arith)
      ]
    ]
  ]

  -- The backend is spoken to in plaintext only where remote.tls.enable is off and there is no
  -- client certificate with its key.
  pub config_remote_plaintext :
      config_remote table host k ≡ ok none
      → (k.bool "remote.tls.enable" ≡ false) × (has_client_pair host k ≡ false)
  unfolding config_remote base_config set_system_roots
  config_remote_plaintext h = ground arith

  -- The backend's certificate is checked exactly where remote.tls.verify is on, and the version
  -- never goes below TLS 1.0, nor below TLS 1.2 unless remote.tls.minversion asks for it.
  config_remote_verifies :
      (conf : TlsConfig C P)
      → config_remote table host k ≡ ok (some conf)
      → (conf.insecure_skip_verify ≡ not (k.bool "remote.tls.verify"))
        × (version_tls10 ≤ conf.min_version)
        × ((version_tls12 ≤ conf.min_version)
            ⊎ (parse_tls_version (codes (k.string "remote.tls.minversion")) ≡ ok conf.min_version))
  unfolding set_system_roots set_skip_verify
  config_remote_verifies conf h =
      let (opts, base, conf', good, based, rooted, finished) = config_remote_parts conf h in
      ground (
        arith,
        base_config_lem host k opts base based,
        min_or_default_range table k "remote.tls" opts good,
      )

  -- Where remote.tls.verify is on, and sysroots is on or there is no client certificate with its
  -- key, remote.tls.ca plays no part: the roots are the system's pool with sysroots on, and not set
  -- with sysroots off.
  pub root_cas-config_remote_ignored :
      (conf : TlsConfig C P)
      → config_remote table host k ≡ ok (some conf)
      → k.bool "remote.tls.verify" ≡ true
      → (k.bool "remote.tls.sysroots" ≡ true) ⊎ (has_client_pair host k ≡ false)
      → conf.root_cas ≡ (if k.bool "remote.tls.sysroots" then host.system_pool else none)
  unfolding set_system_roots set_skip_verify base_config with_options system_ca_pool
  root_cas-config_remote_ignored conf h verify why =
      let (opts, base, conf', good, based, rooted, finished) = config_remote_parts conf h in
      ground arith

  -- Where sysroots is off and there is a client certificate with its key,
  -- the roots are exactly the certificates of the file remote.tls.ca.
  pub root_cas-config_remote_file :
      (conf : TlsConfig C P)
      → config_remote table host k ≡ ok (some conf)
      → k.bool "remote.tls.sysroots" ≡ false
      → has_client_pair host k ≡ true
      → (pem : List ℕ) × (pool : P) × (host.read_file (k.string "remote.tls.ca") ≡ some pem)
        × (host.append_certs host.new_pool pem ≡ some pool)
        × (conf.root_cas ≡ some pool)
  unfolding set_system_roots set_skip_verify base_config
  root_cas-config_remote_file conf h off pair =
      let (opts, base, conf', good, based, rooted, finished) = config_remote_parts conf h in
      let (pem, pool, reads, appends, root) =
        root_cas-load_config_from_files host k opts (k.string "remote.tls.cert")
          (k.string "remote.tls.key") (k.string "remote.tls.ca") base (ground arith) in
      (pem, pool, reads, appends, ground arith)
