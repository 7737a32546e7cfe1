-- ===== src/Tls/Server.antt =====
-- internal/tls/server.go: the TLS configuration of the listener.
pub mod Laws
use tlspxy.Common.{
  ℕ, String, str_eq, Bool, true, false, not, ◌&&◌, ◌||◌, List, [], ◌∷◌, Option, none, some,
  if◌then◌else◌,
}
use tlspxy.Common.Result.{Result, ok, err, map_err, ◌>>=◌}
use tlspxy.Config.Koanf.{Koanf}
use tlspxy.Tls.Versions.{OptionError, CipherTable}
use tlspxy.Tls.Options.{TlsOptions, parse_tls_options}
use tlspxy.Tls.CertStore.{
  CertStore, StoreError, SniError, SniCertEntry, parse_sni_config, new_cert_store, add_sni_certs,
}
use tlspxy.Tls.Host.{
  Host, TlsConfig, CaError, ClientAuth, require_any_client_cert, require_and_verify_client_cert,
  autocert, from_store, with_options, system_ca_pool, append_ca_file,
}

pub data ServerError : Type 0 where
  bad_options : OptionError → ServerError
  bad_store : StoreError → ServerError
  bad_sni : SniError → ServerError
  bad_ca : CaError → ServerError

-- The listener that the server accepts on.
pub data Listener (C P : Type 0) : Type 0 where
  plain : Listener C P
  over_tls : TlsConfig C P → Listener C P

module _ {C P : Type 0} where
  -- loadCAPool.
  unfoldable pub load_ca_pool : Host C P → String → Bool → Result CaError P
  unfolding system_ca_pool append_ca_file
  load_ca_pool host ca load_system_roots = do
    pool ← if load_system_roots then system_ca_pool host else ok host.new_pool
    if str_eq ca "" then ok pool else append_ca_file host ca pool

  -- 'verify' overrides 'require'.
  unfoldable pub set_client_auth : Koanf → TlsConfig C P → TlsConfig C P
  set_client_auth k conf =
      let conf' =
        if k.bool "server.tls.require"
        then record conf { client_auth = require_any_client_cert }
        else conf in
      if k.bool "server.tls.verify"
      then record conf' { client_auth = require_and_verify_client_cert }
      else conf'

  -- The case of Let's Encrypt.
  unfoldable pub letsencrypt_config : Koanf → TlsOptions → TlsConfig C P
  letsencrypt_config k opts = record (with_options opts) {
    get_certificate =
        autocert (k.string "server.tls.letsencrypt.domain")
          (k.string "server.tls.letsencrypt.email") (k.string "server.tls.letsencrypt.cachedir");
  }

  -- `if ca != "" { … }`: the pool serves client verification.
  unfoldable pub set_client_cas :
      Host C P → String → TlsConfig C P → Result ServerError (TlsConfig C P)
  set_client_cas host ca conf = if str_eq ca "" then ok conf else do
    pool ← map_err bad_ca (load_ca_pool host ca false)
    ok (record conf { client_cas = some pool; root_cas = some pool })

  -- The case of certificate files.
  unfoldable pub files_config :
      Host C P → Koanf → TlsOptions → Result ServerError (TlsConfig C P × CertStore C)
  files_config host k opts = do
    store ←
        map_err bad_store (
          new_cert_store host.load_key_pair (k.string "server.tls.cert")
            (k.string "server.tls.key"))
    entries ← map_err bad_sni (parse_sni_config k)
    store' ← map_err bad_store (add_sni_certs host.load_key_pair store entries)
    conf ←
        set_client_cas host (k.string "server.tls.ca")
          (record (with_options opts) { get_certificate = from_store })
    ok (conf, store')

  -- The switch of GetServerConfig, and the client authentication after it: the config is nil,
  -- `none`, where no TLS is configured.
  unfoldable pub select_config :
      Host C P
      → Koanf
      → TlsOptions
      → Result ServerError (Option (TlsConfig C P) × Option (CertStore C))
  select_config host k opts =
      if k.bool "server.tls.letsencrypt.enable"
      then ok (some (set_client_auth k (letsencrypt_config k opts)), none)
      else if not (str_eq (k.string "server.tls.cert") "")
          || not (str_eq (k.string "server.tls.key") "")
      then (do r ← files_config host k opts; ok (some (set_client_auth k r.0), some r.1))
      else ok (none, none)

  -- GetServerConfig.
  unfoldable pub get_server_config :
      CipherTable
      → Host C P
      → Koanf
      → Result ServerError (Option (TlsConfig C P) × Option (CertStore C))
  get_server_config table host k = do
    opts ← map_err bad_options (parse_tls_options table k "server.tls")
    select_config host k opts

  -- ConfigServer.
  unfoldable pub config_server :
      CipherTable → Host C P → Koanf → Result ServerError (Listener C P × Option (CertStore C))
  config_server table host k = do
    r ← get_server_config table host k
    elim r.0 [ none ↦ ok (plain, none) | some conf ↦ ok (over_tls conf, r.1) ]
