-- ===== src/Tls/Server/Laws.antt =====
-- What a listener that internal/tls/server.go configures promises.
use tlspxy.Common.{
  ◌≤◌, codes, str_eq, eq_iff, Bool, true, false, not, ◌||◌, Option, none, some, if◌then◌else◌, ◌≡◌,
  arith, ◌⊎◌, inl, inr, Bool-cases,
}
use tlspxy.Common.Result.{Result-cases, ok}
use tlspxy.Config.Koanf.{Koanf}
use tlspxy.Tls.Versions.{CipherTable, version_tls10, version_tls12, parse_tls_version}
use tlspxy.Tls.Options.{TlsOptions, parse_alpn, parse_tls_options}
use tlspxy.Tls.CertStore.{CertStore}
use tlspxy.Tls.Options.Laws.{min_or_default_range}
use tlspxy.Tls.Host.{
  min_or_default, Host, TlsConfig, no_client_cert, require_any_client_cert,
  require_and_verify_client_cert, from_store, autocert, with_options,
}
use tlspxy.Tls.Server.{
  Listener, plain, over_tls, set_client_auth, letsencrypt_config, set_client_cas, files_config,
  select_config, get_server_config, config_server,
}

abbrev asks_for_files : Koanf → Bool
asks_for_files k =
    not (str_eq (k.string "server.tls.cert") "") || not (str_eq (k.string "server.tls.key") "")

module _ {C P : Type 0} (table : CipherTable) (host : Host C P) (k : Koanf) where
  -- Of a configured listener: the options parse, and the switch takes one of its cases.
  config_server_cases :
      {l : Listener C P} {store : Option (CertStore C)}
      → config_server table host k ≡ ok (l, store)
      → (opts : TlsOptions) × (parse_tls_options table k "server.tls" ≡ ok opts)
        × (((k.bool "server.tls.letsencrypt.enable" ≡ true)
              × (l ≡ over_tls (set_client_auth k (letsencrypt_config k opts)))
              × (store ≡ none))
            ⊎ ((k.bool "server.tls.letsencrypt.enable" ≡ false)
                × ((r : TlsConfig C P × CertStore C) × (files_config host k opts ≡ ok r)
                    × (l ≡ over_tls (set_client_auth k r.0))
                    × (store ≡ some r.1)))
            ⊎ ((k.bool "server.tls.letsencrypt.enable" ≡ false)
                × (str_eq (k.string "server.tls.cert") "" ≡ true)
                × (str_eq (k.string "server.tls.key") "" ≡ true)
                × (l ≡ plain)
                × (store ≡ none)))
  unfolding config_server get_server_config select_config
  config_server_cases {l} {store} h = elim (Result-cases (parse_tls_options table k "server.tls")) [
    | inr (e, bad) ↦ absurd (ground arith)
    | inl (opts, good) ↦ elim (Result-cases (files_config host k opts)) [
      | inl (r, files) ↦ elim (Bool-cases (k.bool "server.tls.letsencrypt.enable")) [
        | inl auto ↦ (opts, good, inl (auto, ground arith, ground arith))
        | inr manual ↦ elim (Bool-cases (asks_for_files k)) [
          | inl asked ↦ (opts, good, inr (inl (manual, (r, files, ground arith, ground arith))))
          | inr plaintext ↦ (
            opts,
            good,
            inr (inr (manual, ground arith, ground arith, ground arith, ground arith)),
          )
        ]
      ]
      | inr (e, files) ↦ (opts, good, ground arith)
    ]
  ]

  -- The listener is plaintext only if Let's Encrypt is off and neither a certificate nor a key is
  -- set; there is then no certificate store.
  pub config_server-plain :
      {store : Option (CertStore C)}
      → config_server table host k ≡ ok (plain, store)
      → (k.bool "server.tls.letsencrypt.enable" ≡ false)
        × (k.string "server.tls.cert" ≡ "")
        × (k.string "server.tls.key" ≡ "")
        × (store ≡ none)
  config_server-plain {store} h = ground (
    arith,
    config_server_cases h,
    eq_iff (k.string "server.tls.cert") "",
    eq_iff (k.string "server.tls.key") "",
  )

  files_config_lem :
      (opts : TlsOptions) (r : TlsConfig C P × CertStore C)
      → files_config host k opts ≡ ok r
      → (r.0.min_version ≡ min_or_default opts.min_version)
        × (r.0.max_version ≡ opts.max_version)
        × (r.0.client_auth ≡ no_client_cert)
        × (r.0.insecure_skip_verify ≡ false)
        × (r.0.get_certificate ≡ from_store)
  unfolding files_config set_client_cas with_options
  files_config_lem opts r h = ground arith

  -- A TLS listener never goes below TLS 1.0, nor below TLS 1.2 unless server.tls.minversion asks
  -- for it, and demands client certificates exactly as configured, verify before require.
  pub config_server_tls :
      {conf : TlsConfig C P} {store : Option (CertStore C)}
      → config_server table host k ≡ ok (over_tls conf, store)
      → (version_tls10 ≤ conf.min_version)
        × ((version_tls12 ≤ conf.min_version)
            ⊎ (parse_tls_version (codes (k.string "server.tls.minversion")) ≡ ok conf.min_version))
        × (conf.insecure_skip_verify ≡ false)
        × (conf.client_auth ≡ (
            if k.bool "server.tls.verify"
            then require_and_verify_client_cert
            else if k.bool "server.tls.require"
            then require_any_client_cert
            else no_client_cert))
  unfolding set_client_auth letsencrypt_config with_options
  config_server_tls {conf} {store} h =
      let (opts, good, cases) = config_server_cases h in
      let range = min_or_default_range table k "server.tls" opts good in
      elim cases [
        | inl auto ↦ ground (arith, range)
        | inr (inl (manual, (r, files, l, s))) ↦
            ground (arith, range, files_config_lem opts r files)
        | inr (inr none_asked) ↦ ground arith
      ]

  pub config_server_versions :
      {conf : TlsConfig C P} {store : Option (CertStore C)} (opts : TlsOptions)
      → config_server table host k ≡ ok (over_tls conf, store)
      → parse_tls_options table k "server.tls" ≡ ok opts
      → (conf.min_version ≡ min_or_default opts.min_version) × (conf.max_version ≡ opts.max_version)
  unfolding set_client_auth letsencrypt_config with_options
  config_server_versions {conf} {store} opts h parses =
      let (opts', good, cases) = config_server_cases h in
      let same : opts' ≡ opts = cc in
      elim cases [
        | inl auto ↦ ground (arith, same)
        | inr (inl (manual, (r, files, l, s))) ↦
            ground (arith, same, files_config_lem opts' r files)
        | inr (inr none_asked) ↦ ground arith
      ]

  -- With Let's Encrypt the listener, if it is configured, asks an autocert.Manager for its
  -- certificates, has no store to reload, and offers the protocols of server.tls.alpn and no
  -- others.
  pub config_server_letsencrypt :
      {l : Listener C P} {store : Option (CertStore C)}
      → k.bool "server.tls.letsencrypt.enable" ≡ true
      → config_server table host k ≡ ok (l, store)
      → (conf : TlsConfig C P) × (l ≡ over_tls conf)
        × (store ≡ none)
        × (conf.get_certificate
            ≡ autocert
                (k.string "server.tls.letsencrypt.domain")
                (k.string "server.tls.letsencrypt.email")
                (k.string "server.tls.letsencrypt.cachedir"))
        × (conf.next_protos ≡ parse_alpn (codes (k.string "server.tls.alpn")))
  unfolding set_client_auth letsencrypt_config with_options parse_tls_options
  config_server_letsencrypt {l} {store} on h =
      let (opts, good, cases) = config_server_cases h in
      elim cases [
        | inl auto ↦ (
          set_client_auth k (letsencrypt_config k opts),
          auto.1,
          auto.2,
          ground arith,
          ground arith,
        )
        | inr manual ↦ absurd (ground arith)
      ]
