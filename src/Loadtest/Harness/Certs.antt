-- ===== src/Loadtest/Harness/Certs.antt =====
-- The TLS that the harness of internal/loadtest/harness.go sets up between its client, its proxy and its
-- backend.
use tlspxy.Common.{false, ◌≡◌, arith, some, if◌then◌else◌, inl, inr, length}
use tlspxy.Common.Result.{ok, Result-cases}
use tlspxy.Tls.Versions.{version_tls12}
use tlspxy.Tls.CertStore.{new_cert_store}
use tlspxy.Tls.Host.{Host, TlsConfig, no_client_cert, require_and_verify_client_cert, from_store}
use tlspxy.Loadtest.Harness.{
  HarnessConfig, Net, DialConfig, tls12, load_ca, load_pair, add_client_cert, build_client_tls_conf,
  build_remote_tls_conf, require_client_cert, wrap_with_server_tls,
}

module _ {C P : Type 0} (host : Host C P) (net : Net) (cfg : HarnessConfig) where
  -- A dialled connection that is verified, by the certificates of the file ca.crt.
  abbrev pub IsVerifying : DialConfig C P → Type 0
  IsVerifying d =
      (d.conf.insecure_skip_verify ≡ false)
      × (d.conf.min_version ≡ version_tls12)
      × (d.server_name ≡ "localhost")
      × (pool : P) × (load_ca host net (net.join cfg.cert_dir "ca.crt") ≡ ok pool)
      × (d.conf.root_cas ≡ some pool)

  build_remote_tls_conf-IsVerifying :
      (d : DialConfig C P) → build_remote_tls_conf host net cfg ≡ ok d → IsVerifying d
  unfolding build_remote_tls_conf tls12
  build_remote_tls_conf-IsVerifying d e =
      elim (Result-cases (load_ca host net (net.join cfg.cert_dir "ca.crt"))) [
        | inr bad ↦ ground (arith, bad.1, e)
        | inl pool ↦ (
          ground (arith, pool.1, e),
          ground (arith, pool.1, e),
          ground (arith, pool.1, e),
          pool.0,
          pool.1,
          ground (arith, pool.1, e),
        )
      ]

  -- A client certificate is loaded where the proxy asks for one.
  add_client_cert_lem :
      (conf conf' : TlsConfig C P)
      → add_client_cert host net cfg conf ≡ ok conf'
      → (conf'.insecure_skip_verify ≡ conf.insecure_skip_verify)
        × (conf'.min_version ≡ conf.min_version)
        × (conf'.root_cas ≡ conf.root_cas)
        × (length conf'.certificates ≡ (if cfg.mutual_tls then 1 else length conf.certificates))
  unfolding add_client_cert
  add_client_cert_lem conf conf' e =
      elim (Result-cases (
        load_pair host net (net.join cfg.cert_dir "client.crt")
          (net.join cfg.cert_dir "client.key"))) [
            | inr bad ↦ ground (arith, bad.1, e)
            | inl pair ↦ ground (arith, pair.1, e)
          ]

  build_client_tls_conf-IsVerifying :
      (d : DialConfig C P)
      → build_client_tls_conf host net cfg ≡ ok d
      → IsVerifying d × (length d.conf.certificates ≡ (if cfg.mutual_tls then 1 else 0))
  unfolding build_client_tls_conf tls12
  build_client_tls_conf-IsVerifying d e =
      elim (Result-cases (load_ca host net (net.join cfg.cert_dir "ca.crt"))) [
        | inr bad ↦ ground (arith, bad.1, e)
        | inl pool ↦
            elim (Result-cases
              (add_client_cert host net cfg (record tls12 { root_cas = some pool.0 }))) [
                | inr bad ↦ ground (arith, pool.1, bad.1, e)
                | inl conf ↦
                    let same =
                      add_client_cert_lem (record tls12 { root_cas = some pool.0 }) conf.0 conf.1 in
                    (
                      (
                        ground (arith, pool.1, conf.1, e, same),
                        ground (arith, pool.1, conf.1, e, same),
                        ground (arith, pool.1, conf.1, e, same),
                        pool.0,
                        pool.1,
                        ground (arith, pool.1, conf.1, e, same),
                      ),
                      ground (arith, pool.1, conf.1, e, same),
                    )
              ]
      ]

  -- The proxy's listener serves the store's certificates.
  abbrev pub IsServing : TlsConfig C P → Type 0
  IsServing conf =
      (conf.get_certificate ≡ from_store)
      × (conf.min_version ≡ version_tls12)
      × (conf.client_auth
          ≡ (if cfg.mutual_tls then require_and_verify_client_cert else no_client_cert))

  require_client_cert_lem :
      (conf conf' : TlsConfig C P)
      → require_client_cert host net cfg conf ≡ ok conf'
      → conf.client_auth ≡ no_client_cert
      → (conf'.get_certificate ≡ conf.get_certificate)
        × (conf'.min_version ≡ conf.min_version)
        × (conf'.client_auth
            ≡ (if cfg.mutual_tls then require_and_verify_client_cert else no_client_cert))
  unfolding require_client_cert
  require_client_cert_lem conf conf' e none_yet =
      elim (Result-cases (load_ca host net (net.join cfg.cert_dir "ca.crt"))) [
        | inr bad ↦ ground (arith, bad.1, e, none_yet)
        | inl pool ↦ ground (arith, pool.1, e, none_yet)
      ]

  wrap_with_server_tls-IsServing :
      (conf : TlsConfig C P) → (wrap_with_server_tls host net cfg).1 ≡ ok conf → IsServing conf
  unfolding wrap_with_server_tls tls12
  wrap_with_server_tls-IsServing conf e =
      elim (Result-cases (
        new_cert_store host.load_key_pair (net.join cfg.cert_dir "proxy.crt")
          (net.join cfg.cert_dir "proxy.key"))) [
            | inr bad ↦ ground (arith, bad.1, e)
            | inl cs ↦ ground (
              arith,
              cs.1,
              e,
              require_client_cert_lem (record tls12 { get_certificate = from_store }) conf,
            )
          ]

  -- Client and proxy verify whom they dial by the certificates of ca.crt, the proxy serves those of its
  -- store, each from TLS 1.2 on, and asks for a client certificate, which the client then has, exactly
  -- for mutual TLS.
  pub harness_configs :
      (client remote : DialConfig C P) (server : TlsConfig C P)
      → build_client_tls_conf host net cfg ≡ ok client
      → build_remote_tls_conf host net cfg ≡ ok remote
      → (wrap_with_server_tls host net cfg).1 ≡ ok server
      → IsVerifying client
        × IsVerifying remote
        × IsServing server
        × (length client.conf.certificates ≡ (if cfg.mutual_tls then 1 else 0))
  harness_configs client remote server ec er es =
      let c = build_client_tls_conf-IsVerifying client ec in
      (
        c.0,
        build_remote_tls_conf-IsVerifying remote er,
        wrap_with_server_tls-IsServing server es,
        c.1,
      )
