-- ===== src/Examples/Config.antt =====
-- Configurations of an HTTPS listener and of a TLS backend.
use tlspxy.Common.{
  ℕ, ◌+◌, ◌≤◌, ◌<◌, ◌≡◌, refl, arith, ◌⊎◌, ◌↔◌, inr, String, str_eq, codes, Bool, true, false, not,
  ◌||◌, List, [], Option, none, some, if◌then◌else◌, trim_space, trim_left, is_space, split,
}
use tlspxy.Common.Result.{ok}
use tlspxy.Config.Koanf.{pos, absent, Koanf, set_string}
use tlspxy.Config.Validate.{
  Env, validate_config, check_first_part, check_addresses, check_server_tls, check_remote_tls,
  check_url, check_duration, normalize_level, folds_to_warning, check_second_part, check_http2,
  check_version, check_suites, check_proxy_protocol, check_version_order,
}
use tlspxy.Config.Validate.Accepts.{IsValidConfig, normalized, validate_config_iff}
use tlspxy.Config.Validate.Consequences.{validated_version_gap}
use tlspxy.Config.Validate.Protocol.{validated_proxy_header}
use tlspxy.Service.Logging.{linux, LogTargets}
use tlspxy.Proxy.Header.{NetText, other_addr}
use tlspxy.Proxy.Header.Text.{proxy_header}
use tlspxy.Tls.Versions.{
  CipherTable, parse_tls_version, named, known_suites, add_suites, suite_ids, parse_cipher_suites,
  version_tls10, version_tls12,
}
use tlspxy.Tls.Options.{parse_alpn, parse_tls_options}
use tlspxy.Tls.Host.{
  Host, TlsConfig, no_client_cert, require_any_client_cert, require_and_verify_client_cert,
  autocert, no_source, with_options, system_ca_pool, append_ca_file,
}
use tlspxy.Tls.CertStore.{CertStore}
use tlspxy.Startup.Http.Settings.{IsWeb}
use tlspxy.Tls.Server.{
  plain, over_tls, config_server, get_server_config, select_config, set_client_auth,
  letsencrypt_config,
}
use tlspxy.Tls.Server.Laws.{config_server_tls, config_server_letsencrypt}
use tlspxy.Tls.Remote.{
  config_remote, base_config, load_config_from_files, set_system_roots, set_skip_verify,
}
use tlspxy.Tls.Remote.Laws.{root_cas-config_remote_ignored}

abbrev pub table : CipherTable
table = record { secure = []; insecure = [] }

abbrev pub env : Env
env = record {
  resolves = λ s. true;
  parse_url = λ s. some (record { scheme = "https"; host = "backend" });
  parse_duration = λ s. some (pos 10);
  set_succeeds = true;
}

-- Numbers stand for certificates and for pools.
abbrev pub host : Host ℕ ℕ
host = record {
  exists = λ path. not (str_eq path "");
  read_file = λ path. some [];
  load_key_pair = λ cert key. some 1;
  system_pool = some 2;
  new_pool = 3;
  append_certs = λ pool pem. some (pool + 10);
}

abbrev pub bare : Koanf
bare = record { string = λ key. ""; bool = λ key. false; int = λ key. pos 0; get = λ key. absent }

-- Let's Encrypt, a maximum of TLS 1.1, and the level "warning".
abbrev edge : Koanf
edge = record bare {
  string = λ key.
      if str_eq key "server.type"
      then "https"
      else if str_eq key "remote.addr"
      then "https://backend"
      else if str_eq key "server.tls.letsencrypt.domain"
      then "a.test"
      else if str_eq key "server.tls.maxversion"
      then "1.1"
      else if str_eq key "remote.timeouts.dial"
      then "10s"
      else if str_eq key "log.level"
      then "WARNING"
      else "";
  bool = λ key. str_eq key "server.tls.letsencrypt.enable";
}

abbrev edge_normalized : Koanf
unfolding set_string
edge_normalized = set_string edge "log.level" "warn"

edge_validates : validate_config env table edge ≡ ok edge_normalized
unfolding validate_config check_first_part check_addresses check_server_tls check_remote_tls
    check_url check_duration normalize_level folds_to_warning check_second_part check_http2
    check_version check_suites check_proxy_protocol check_version_order set_string edge_normalized
    parse_tls_version trim_space trim_left is_space split named known_suites add_suites suite_ids
    parse_cipher_suites
edge_validates = refl

validate_config_iff_example :
    (validate_config env table edge ≡ ok edge_normalized)
    ↔ (IsValidConfig env table edge × (edge_normalized ≡ normalized edge))
validate_config_iff_example = validate_config_iff env table edge edge_normalized

abbrev edge_listener : TlsConfig ℕ ℕ
edge_listener = record {
  min_version = version_tls12;
  max_version = 0x0302;
  cipher_suites = [];
  next_protos = [];
  get_certificate = autocert "a.test" "" "";
  certificates = [];
  client_auth = no_client_cert;
  client_cas = none;
  root_cas = none;
  insecure_skip_verify = false;
}

abbrev no_certs : Option (CertStore ℕ)
no_certs = none

edge_letsencrypt : edge_normalized.bool "server.tls.letsencrypt.enable" ≡ true
unfolding edge_normalized set_string
edge_letsencrypt = refl

edge_https : IsWeb edge_normalized
unfolding edge_normalized set_string
edge_https = inr refl

edge_listens : config_server table host edge_normalized ≡ ok (over_tls edge_listener, none)
unfolding config_server get_server_config select_config set_client_auth letsencrypt_config
    with_options edge_normalized parse_tls_options parse_tls_version trim_space trim_left is_space
    split named known_suites add_suites suite_ids parse_cipher_suites
edge_listens = refl

one_one_parses :
    parse_tls_version (codes (edge_normalized.string "server.tls.maxversion")) ≡ ok 0x0302
unfolding parse_tls_version trim_space edge_normalized
one_one_parses = refl

edge_minimum : edge_normalized.string "server.tls.minversion" ≡ ""
unfolding set_string edge_normalized
edge_minimum = refl

validated_version_gap_example :
    (edge_listener.max_version ≡ 0x0302) × (0x0302 < edge_listener.min_version)
validated_version_gap_example =
    validated_version_gap env table edge host edge_normalized 0x0302 edge_validates edge_minimum
      one_one_parses (omega arith) (omega arith) edge_listens

config_server_letsencrypt_example :
    (conf : TlsConfig ℕ ℕ) × (over_tls edge_listener ≡ over_tls conf)
    × (no_certs ≡ none)
    × (conf.get_certificate
        ≡ autocert
            (edge_normalized.string "server.tls.letsencrypt.domain")
            (edge_normalized.string "server.tls.letsencrypt.email")
            (edge_normalized.string "server.tls.letsencrypt.cachedir"))
    × (conf.next_protos ≡ parse_alpn (codes (edge_normalized.string "server.tls.alpn")))
config_server_letsencrypt_example =
    config_server_letsencrypt table host edge_normalized edge_letsencrypt edge_listens

config_server_tls_example :
    (version_tls10 ≤ edge_listener.min_version)
    × ((version_tls12 ≤ edge_listener.min_version)
        ⊎ (parse_tls_version (codes (edge_normalized.string "server.tls.minversion"))
            ≡ ok edge_listener.min_version))
    × (edge_listener.insecure_skip_verify ≡ false)
    × (edge_listener.client_auth ≡ (
        if edge_normalized.bool "server.tls.verify"
        then require_and_verify_client_cert
        else if edge_normalized.bool "server.tls.require"
        then require_any_client_cert
        else no_client_cert))
config_server_tls_example = config_server_tls table host edge_normalized edge_listens

abbrev no_store : Option (CertStore ℕ)
no_store = none

bare_listens : config_server table host bare ≡ ok (plain, none)
unfolding config_server get_server_config select_config set_client_auth letsencrypt_config
    with_options edge_normalized parse_tls_options parse_tls_version trim_space trim_left is_space
    split named known_suites add_suites suite_ids parse_cipher_suites
bare_listens = refl

bare_dials : config_remote table host bare ≡ ok none
unfolding config_remote base_config load_config_from_files set_system_roots set_skip_verify
    append_ca_file system_ca_pool with_options parse_tls_options parse_tls_version trim_space
    trim_left is_space split named known_suites add_suites suite_ids parse_cipher_suites
bare_dials = refl

-- A backend whose certificate is to be checked by one CA, with the host's roots or without.
abbrev with_ca : Bool → String → Koanf
with_ca roots pair = record bare {
  string = λ key.
      if str_eq key "remote.tls.ca"
      then "/ca.crt"
      else if str_eq key "remote.tls.cert"
      then pair
      else if str_eq key "remote.tls.key"
      then pair
      else "";
  bool = λ key.
      if str_eq key "remote.tls.sysroots"
      then roots
      else str_eq key "remote.tls.verify" || str_eq key "remote.tls.enable";
}

abbrev dialled : Option ℕ → Option ℕ → List ℕ → TlsConfig ℕ ℕ
dialled roots cas pairs = record edge_listener {
  max_version = 0;
  get_certificate = no_source;
  certificates = pairs;
  client_cas = cas;
  root_cas = roots;
}

ca_dials : config_remote table host (with_ca false "") ≡ ok (some (dialled none none []))
unfolding config_remote base_config load_config_from_files set_system_roots set_skip_verify
    append_ca_file system_ca_pool with_options parse_tls_options parse_tls_version trim_space
    trim_left is_space split named known_suites add_suites suite_ids parse_cipher_suites
ca_dials = refl

root_cas-config_remote_ignored_example :
    (dialled none none []).root_cas
    ≡ (if (with_ca false "").bool "remote.tls.sysroots" then some 2 else none)
root_cas-config_remote_ignored_example =
    root_cas-config_remote_ignored table host (with_ca false "") (dialled none none []) ca_dials
      refl (inr refl)

abbrev pub targets : LogTargets
targets = record { platform = linux; dials = λ addr. true; opens = λ path. false }

abbrev address_texts : NetText
address_texts = record {
  split_host_port = λ s. none;
  parse_ip = λ s. none;
  scan_int = λ s. none;
  ip6_text = λ ip. [];
}

validated_proxy_header_example :
    (header : List ℕ) × (proxy_header address_texts
        (edge_normalized.string "remote.proxyprotocol")
        (other_addr "a")
        (other_addr "b")
      ≡ ok header)
validated_proxy_header_example =
    validated_proxy_header env table edge edge_normalized address_texts (other_addr "a")
      (other_addr "b") edge_validates
