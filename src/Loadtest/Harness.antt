-- ===== src/Loadtest/Harness.antt =====
-- TestHarness of internal/loadtest/harness.go: its certificates, listeners and goroutines. The
-- certificates are read by Host, which stands for what internal/tls uses too.
pub mod Setup
pub mod Certs
pub mod Wiring
pub mod Closing
pub mod Leaks
pub mod Accepting
pub mod Director
use tlspxy.Common.{
  ℕ, zero, suc, ◌+◌, String, str_eq, Bool, true, false, List, [], ◌∷◌, Option, none, some, codes,
  if◌then◌else◌,
}
use tlspxy.Common.Result.{Result, ok, err, map_err, or_err, ◌>>=◌}
use tlspxy.Config.Koanf.{ℤ, pos, negsuc}
use tlspxy.Tls.Versions.{version_tls12}
use tlspxy.Tls.CertStore.{CertStore, StoreError, new_cert_store, reload_all}
use tlspxy.Tls.Host.{
  Host, TlsConfig, CaError, require_and_verify_client_cert, no_client_cert, from_store, no_source,
  append_ca_file,
}
use tlspxy.Tls.Server.{Listener, plain, over_tls}

pub record HarnessConfig : Type 0 where
  pub mode : String
  pub server_tls : Bool
  pub remote_tls : Bool
  pub mutual_tls : Bool
  pub max_conns : ℤ
  pub http2 : Bool
  pub cert_dir : String
  pub response_size : ℤ

pub data HarnessError : Type 0 where
  -- Wrapped errors.
  client_tls backend_tls remote_tls proxy_tls : HarnessError → HarnessError
  backend_listen proxy_listen bad_backend_url : HarnessError
  store_failed : StoreError → HarnessError
  loading_ca : CaError → HarnessError
  bad_key_pair : HarnessError
  unsupported_mode : String → HarnessError

-- A config of Go with MinVersion TLS 1.2; all else is the zero value.
unfoldable pub tls12 : {C P : Type 0} → TlsConfig C P
tls12 = record {
  min_version = version_tls12;
  max_version = 0;
  cipher_suites = [];
  next_protos = [];
  get_certificate = no_source;
  certificates = [];
  client_auth = no_client_cert;
  client_cas = none;
  root_cas = none;
  insecure_skip_verify = false;
}

-- A config for dialling, with its ServerName.
pub record DialConfig (C P : Type 0) : Type 0 where
  pub conf : TlsConfig C P
  pub server_name : String

-- filepath.Join of a directory and a file, what net.Listen gives for the backend and for the proxy,
-- the URL of an httptest.Server, and whether url.Parse takes it.
pub record Net : Type 0 where
  pub join : String → String → String
  pub backend_addr : Option String
  pub proxy_addr : Option String
  pub backend_url : String
  pub parses : String → Bool

module _ {C P : Type 0} (host : Host C P) (net : Net) where
  -- loadCAPool: reading the file and parsing it.
  unfoldable pub load_ca : String → Result HarnessError P
  load_ca ca_path = map_err loading_ca (append_ca_file host ca_path host.new_pool)

  unfoldable pub load_pair : String → String → Result HarnessError C
  load_pair cert key = or_err (host.load_key_pair cert key) bad_key_pair

  -- The part of buildClientTLSConf under `if cfg.MutualTLS`.
  unfoldable pub add_client_cert :
      HarnessConfig → TlsConfig C P → Result HarnessError (TlsConfig C P)
  add_client_cert cfg conf =
      if cfg.mutual_tls
      then (do
        cert ← load_pair (net.join cfg.cert_dir "client.crt") (net.join cfg.cert_dir "client.key")
        ok (record conf { certificates = cert ∷ [] }))
      else ok conf

  -- buildClientTLSConf.
  unfoldable pub build_client_tls_conf : HarnessConfig → Result HarnessError (DialConfig C P)
  build_client_tls_conf cfg = do
    pool ← load_ca (net.join cfg.cert_dir "ca.crt")
    conf ← add_client_cert cfg (record tls12 { root_cas = some pool })
    ok (record { conf = conf; server_name = "localhost" })

  -- buildBackendTLSConf.
  unfoldable pub build_backend_tls_conf : HarnessConfig → Result HarnessError (TlsConfig C P)
  build_backend_tls_conf cfg = do
    cert ← load_pair (net.join cfg.cert_dir "server.crt") (net.join cfg.cert_dir "server.key")
    pool ← load_ca (net.join cfg.cert_dir "ca.crt")
    ok (record tls12 { certificates = cert ∷ []; client_cas = some pool })

  -- buildRemoteTLSConf.
  unfoldable pub build_remote_tls_conf : HarnessConfig → Result HarnessError (DialConfig C P)
  build_remote_tls_conf cfg = do
    pool ← load_ca (net.join cfg.cert_dir "ca.crt")
    ok (record { conf = record tls12 { root_cas = some pool }; server_name = "localhost" })

  -- The part of wrapWithServerTLS under `if cfg.MutualTLS`.
  unfoldable pub require_client_cert :
      HarnessConfig → TlsConfig C P → Result HarnessError (TlsConfig C P)
  require_client_cert cfg conf =
      if cfg.mutual_tls
      then (do
        pool ← load_ca (net.join cfg.cert_dir "ca.crt")
        ok (record conf { client_cas = some pool; client_auth = require_and_verify_client_cert }))
      else ok conf

  -- wrapWithServerTLS: the store that the harness keeps, and the config of the listener.
  unfoldable pub wrap_with_server_tls :
      HarnessConfig → Option (CertStore C) × Result HarnessError (TlsConfig C P)
  wrap_with_server_tls cfg =
      elim (new_cert_store host.load_key_pair (net.join cfg.cert_dir "proxy.crt")
        (net.join cfg.cert_dir "proxy.key")) [
          | err e ↦ (none, err (store_failed e))
          | ok cs ↦
              (some cs, require_client_cert cfg (record tls12 { get_certificate = from_store }))
        ]

-- A listener, a server, or the context: not there yet, running, or ended.
pub data Life : Type 0 where
  unset running ended : Life

-- The goroutines that Close waits for.
pub data Goroutine : Type 0 where
  echo_loop proxy_loop backend_closer serve_loop : Goroutine

-- TestHarness, and what runs in it: the config of the backend's listener (`none` for plaintext), of the
-- proxy's, of the connections between them, the backend of httptest, and the size of the body that
-- this one answers with.
pub record TestHarness (C P : Type 0) : Type 0 where
  pub proxy_addr : String
  pub client_tls_conf : Option (DialConfig C P)
  pub cert_store : Option (CertStore C)
  pub backend_ln : Life
  pub proxy_ln : Life
  pub context : Life
  pub srv : Life
  pub wg : List Goroutine
  pub backend_conf : Option (TlsConfig C P)
  pub proxy_listener : Listener C P
  pub remote_tls_conf : Option (DialConfig C P)
  pub http_backend : Life
  pub response_body : ℕ

-- cfg.MaxConns > 0 gives a channel of that capacity.
unfoldable pub conn_limit : ℤ → Option ℕ
conn_limit (pos zero) = none
conn_limit (pos (suc n)) = some (suc n)
conn_limit (negsuc n) = none

-- The length of the response body: "ok" where no size is given.
unfoldable pub response_length : ℤ → ℕ
response_length (pos zero) = 2
response_length (pos (suc n)) = suc n
response_length (negsuc n) = 2

-- The harness after a method, and its error.
abbrev pub After : Type 0 → Type 0 → Type 0
After C P = TestHarness C P × Option HarnessError

module _ {C P : Type 0} where
  -- context.WithCancel, and `&TestHarness{}`.
  abbrev pub empty_harness : TestHarness C P
  empty_harness = record {
    proxy_addr = "";
    client_tls_conf = none;
    cert_store = none;
    backend_ln = unset;
    proxy_ln = unset;
    context = running;
    srv = unset;
    wg = [];
    backend_conf = none;
    proxy_listener = plain;
    remote_tls_conf = none;
    http_backend = unset;
    response_body = 0;
  }

  abbrev pub cancel : TestHarness C P → TestHarness C P
  cancel h = record h { context = ended }
