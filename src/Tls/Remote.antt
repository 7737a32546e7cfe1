-- ===== src/Tls/Remote.antt =====
-- internal/tls/remote.go, and LoadConfigFromFiles of internal/tls/tls.go: the TLS configuration of
-- the connections to the backend.
pub mod Laws
use tlspxy.Common.{
  ℕ, String, str_eq, Bool, true, false, not, ◌&&◌, ◌||◌, List, [], ◌∷◌, Option, none, some,
  if◌then◌else◌,
}
use tlspxy.Common.Result.{Result, ok, err, map_err, guard, or_err, ◌>>=◌, ◌>>◌}
use tlspxy.Config.Koanf.{Koanf}
use tlspxy.Tls.Versions.{OptionError, CipherTable}
use tlspxy.Tls.Options.{TlsOptions, parse_tls_options}
use tlspxy.Tls.Host.{Host, TlsConfig, CaError, with_options, system_ca_pool, append_ca_file}

pub data RemoteError : Type 0 where
  bad_options : OptionError → RemoteError
  no_such_file : RemoteError
  bad_key_pair : RemoteError
  no_ca_source : RemoteError
  bad_ca : CaError → RemoteError

module _ {C P : Type 0} where
  -- LoadConfigFromFiles(cert, key, ca, loadSystemRoots, opts).
  unfoldable pub load_config_from_files :
      Host C P → String → String → String → Bool → TlsOptions → Result RemoteError (TlsConfig C P)
  load_config_from_files host cert key ca load_system_roots opts = do
    guard (host.exists cert && host.exists key) no_such_file
    pair ← or_err (host.load_key_pair cert key) bad_key_pair
    guard (not (str_eq ca "") || load_system_roots) no_ca_source
    roots ← map_err bad_ca (if load_system_roots then system_ca_pool host else ok host.new_pool)
    pool ← map_err bad_ca (if str_eq ca "" then ok roots else append_ca_file host ca roots)
    ok (record (with_options opts) {
      client_cas = some pool;
      root_cas = some pool;
      certificates = pair ∷ [];
    })

  -- The first part of ConfigRemote: nil, `none`, where the backend is plaintext.
  unfoldable pub base_config :
      Host C P → Koanf → TlsOptions → Result RemoteError (Option (TlsConfig C P))
  base_config host k opts =
      let cert = k.string "remote.tls.cert" in
      let key = k.string "remote.tls.key" in
      if host.exists cert && host.exists key
      then (do
        conf ←
            load_config_from_files host cert key (k.string "remote.tls.ca")
              (k.bool "remote.tls.sysroots") opts
        ok (some conf))
      else if k.bool "remote.tls.enable"
      then ok (some (with_options opts))
      else ok none

  -- `if doVerify && useSysRoots && tlsConf != nil { … }`.
  unfoldable pub set_system_roots :
      Host C P → Koanf → TlsConfig C P → Result RemoteError (TlsConfig C P)
  set_system_roots host k conf =
      if k.bool "remote.tls.verify" && k.bool "remote.tls.sysroots"
      then (do
        pool ← map_err bad_ca (system_ca_pool host)
        ok (record conf { root_cas = some pool; client_cas = some pool }))
      else ok conf

  unfoldable pub set_skip_verify : Koanf → TlsConfig C P → TlsConfig C P
  set_skip_verify k conf =
      if k.bool "remote.tls.verify" then conf else record conf { insecure_skip_verify = true }

  -- ConfigRemote. Its caller drops the config where there is an error.
  unfoldable pub config_remote :
      CipherTable → Host C P → Koanf → Result RemoteError (Option (TlsConfig C P))
  config_remote table host k = do
    opts ← map_err bad_options (parse_tls_options table k "remote.tls")
    base ← base_config host k opts
    elim base [
      | none ↦ ok none
      | some conf ↦ do conf' ← set_system_roots host k conf; ok (some (set_skip_verify k conf'))
    ]
