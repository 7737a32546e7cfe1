-- ===== src/Tls/Host.antt =====
-- What internal/tls takes from the operating system and from Go's crypto packages, as parameters,
-- and the configuration `tls.Config` that it fills in. Certificates and pools are opaque.
use tlspxy.Common.{ℕ, String, Bool, false, List, [], Option, none, some, if◌then◌else◌, ◌==◌}
use tlspxy.Common.Result.{Result, ok, err}
use tlspxy.Tls.Versions.{version_tls12}
use tlspxy.Tls.Options.{TlsOptions}
use tlspxy.Tls.CertStore.{Loader}

-- os.Stat, os.ReadFile, tls.LoadX509KeyPair, x509.SystemCertPool, x509.NewCertPool and
-- AppendCertsFromPEM (`none` where it returns false).
pub record Host (C P : Type 0) : Type 0 where
  pub exists : String → Bool
  pub read_file : String → Option (List ℕ)
  pub load_key_pair : Loader C
  pub system_pool : Option P
  pub new_pool : P
  pub append_certs : P → List ℕ → Option P

pub data ClientAuth : Type 0 where
  no_client_cert require_any_client_cert require_and_verify_client_cert : ClientAuth

-- The callback GetCertificate: none, that of an autocert.Manager for a domain, or the store's.
pub data CertSource : Type 0 where
  no_source : CertSource
  autocert : String → String → String → CertSource
  from_store : CertSource

pub record TlsConfig (C P : Type 0) : Type 0 where
  pub min_version : ℕ
  pub max_version : ℕ
  pub cipher_suites : List ℕ
  pub next_protos : List (List ℕ)
  pub get_certificate : CertSource
  pub certificates : List C
  pub client_auth : ClientAuth
  pub client_cas : Option P
  pub root_cas : Option P
  pub insecure_skip_verify : Bool

-- `minV := opts.MinVersion; if minV == 0 { minV = VersionTLS12 }`.
abbrev pub min_or_default : ℕ → ℕ
min_or_default v = if v == 0 then version_tls12 else v

-- A config with the versions, suites and protocols of the options; all else is Go's zero value. An
-- option that is not set is the zero value too, so that the tests `!= 0` and `!= nil` change nothing.
unfoldable pub with_options : {C P : Type 0} → TlsOptions → TlsConfig C P
with_options opts = record {
  min_version = min_or_default opts.min_version;
  max_version = opts.max_version;
  cipher_suites = opts.cipher_suites;
  next_protos = opts.next_protos;
  get_certificate = no_source;
  certificates = [];
  client_auth = no_client_cert;
  client_cas = none;
  root_cas = none;
  insecure_skip_verify = false;
}

pub data CaError : Type 0 where
  no_system_pool : CaError
  unreadable_ca : CaError
  no_certs_in_ca : CaError

module _ {C P : Type 0} where
  -- SystemCAPool.
  unfoldable pub system_ca_pool : Host C P → Result CaError P
  system_ca_pool host = elim host.system_pool [ none ↦ err no_system_pool | some pool ↦ ok pool ]

  -- Reading a CA file into a pool.
  unfoldable pub append_ca_file : Host C P → String → P → Result CaError P
  append_ca_file host ca pool = elim (host.read_file ca) [
    | none ↦ err unreadable_ca
    | some pem ↦ elim (host.append_certs pool pem) [
      | none ↦ err no_certs_in_ca
      | some pool' ↦ ok pool'
    ]
  ]
