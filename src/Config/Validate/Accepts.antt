-- ===== src/Config/Validate/Accepts.antt =====
-- What ValidateConfig (internal/config/config.go) accepts, and what its callers may rely on.
use tlspxy.Common.{
  ℕ, ◌≤◌, String, true, false, List, none, codes, if◌then◌else◌, ◌≡◌, ◌≢◌, ◌↔◌, ◌⊎◌, inl, inr,
  arith, Bool-cases,
}
use tlspxy.Common.Result.{ok}
use tlspxy.Config.Koanf.{Koanf, set_string}
use tlspxy.Tls.Versions.{CipherTable, parse_tls_version, parse_cipher_suites}
use tlspxy.Config.Validate.{
  Env, or_text, server_type, check_addresses, check_server_tls, check_remote_tls, check_url,
  check_duration, duration_keys, check_each, check_first_part, check_second_part, check_http2,
  check_version, version_keys, suite_keys, check_suites, check_proxy_protocol, check_version_order,
  version_or_zero, folds_to_warning, normalize_level, validate_config,
}
use tlspxy.Config.Validate.Checks.{
  Passes, SetTogether, All, check_each_iff, All-map, IsHttpUrl, check_addresses_iff, check_url_iff,
  check_duration_iff, check_server_tls_iff, check_remote_tls_iff, check_http2_iff,
  check_version_iff, check_suites_iff, check_proxy_protocol_iff, check_version_order_iff,
}

-- The version of a key: 0, the default, where nothing is set.
abbrev pub version_of : Koanf → String → ℕ
version_of k key = version_or_zero (parse_tls_version (codes (k.string key)))

-- A configuration that the program can run with.
pub record IsValidConfig (env : Env) (table : CipherTable) (k : Koanf) : Type 0 where
  pub type : (server_type k ≡ "tcp") ⊎ (server_type k ≡ "http") ⊎ (server_type k ≡ "https")
  pub remote : k.string "remote.addr" ≢ ""
  pub listens : env.resolves (or_text (k.string "server.addr") ":9898") ≡ true
  pub server_pair : SetTogether (k.string "server.tls.cert") (k.string "server.tls.key")
  pub domain :
      (k.bool "server.tls.letsencrypt.enable" ≡ false)
      ⊎ (k.string "server.tls.letsencrypt.domain" ≢ "")
  pub https_tls :
      (server_type k ≢ "https")
      ⊎ (k.string "server.tls.cert" ≢ "")
      ⊎ (k.bool "server.tls.letsencrypt.enable" ≡ true)
  pub remote_pair : SetTogether (k.string "remote.tls.cert") (k.string "remote.tls.key")
  pub remote_tls :
      (k.bool "remote.tls.enable" ≡ true)
      ⊎ ((k.string "remote.tls.cert" ≡ "")
          × (k.string "remote.tls.key" ≡ "")
          × (k.string "remote.tls.ca" ≡ ""))
  pub remote_url :
      ((server_type k ≢ "http") × (server_type k ≢ "https"))
      ⊎ IsHttpUrl env (k.string "remote.addr")
  pub durations :
      All (λ key. (k.string key ≡ "") ⊎ (env.parse_duration (k.string key) ≢ none)) duration_keys
  pub level : (folds_to_warning (k.string "log.level") ≡ false) ⊎ (env.set_succeeds ≡ true)
  pub http2 : (k.bool "server.http2" ≡ false) ⊎ (server_type k ≢ "tcp")
  pub versions :
      All
        (λ key. (k.string key ≡ "") ⊎ ((v : ℕ) × (parse_tls_version (codes (k.string key)) ≡ ok v)))
        version_keys
  pub suites :
      All
        (λ key.
          (k.string key ≡ "")
          ⊎ ((ids : List ℕ) × (parse_cipher_suites table (codes (k.string key)) ≡ ok ids)))
        suite_keys
  pub proxy_protocol :
      (k.string "remote.proxyprotocol" ≡ "")
      ⊎ ((server_type k ≡ "tcp")
          × ((k.string "remote.proxyprotocol" ≡ "v1") ⊎ (k.string "remote.proxyprotocol" ≡ "v2")))
  pub server_order :
      (k.string "server.tls.minversion" ≡ "")
      ⊎ (k.string "server.tls.maxversion" ≡ "")
      ⊎ (version_of k "server.tls.minversion" ≤ version_of k "server.tls.maxversion")
  pub remote_order :
      (k.string "remote.tls.minversion" ≡ "")
      ⊎ (k.string "remote.tls.maxversion" ≡ "")
      ⊎ (version_of k "remote.tls.minversion" ≤ version_of k "remote.tls.maxversion")

-- The log level "warning", in any case of its letters, is spelled "warn".
abbrev pub normalized : Koanf → Koanf
normalized k =
    if folds_to_warning (k.string "log.level") then set_string k "log.level" "warn" else k

first_part_iff :
    (env : Env) (k : Koanf)
    → Passes (check_first_part env k) ↔ (
        Passes (check_addresses env k)
        × Passes (check_server_tls k)
        × Passes (check_remote_tls k)
        × Passes (check_url env k)
        × Passes (check_each (check_duration env k) duration_keys))
unfolding check_first_part
first_part_iff env k = ground arith

second_part_iff :
    (table : CipherTable) (k : Koanf)
    → Passes (check_second_part table k) ↔ (
        Passes (check_http2 k)
        × Passes (check_each (check_version k) version_keys)
        × Passes (check_each (check_suites table k) suite_keys)
        × Passes (check_proxy_protocol k)
        × Passes (check_version_order k "server.tls")
        × Passes (check_version_order k "remote.tls"))
unfolding check_second_part
second_part_iff table k = ground arith

second_part-normalized :
    (table : CipherTable) (k : Koanf)
    → check_second_part table (normalized k) ≡ check_second_part table k
unfolding check_second_part check_http2 check_version check_suites check_proxy_protocol
    check_version_order set_string
second_part-normalized table k = elim (Bool-cases (folds_to_warning (k.string "log.level"))) [
  | inl warning ↦ rw warning
  | inr other ↦ rw other
]

module _ (env : Env) (table : CipherTable) (k : Koanf) where
  validate_config_parts :
      (k' : Koanf)
      → (validate_config env table k ≡ ok k') ↔ (
          Passes (check_first_part env k)
          × ((folds_to_warning (k.string "log.level") ≡ false) ⊎ (env.set_succeeds ≡ true))
          × Passes (check_second_part table k)
          × (k' ≡ normalized k))
  unfolding validate_config normalize_level
  validate_config_parts k' = elim (Bool-cases (folds_to_warning (k.string "log.level"))) [
    | inl warning ↦ ground (arith, second_part-normalized table k)
    | inr other ↦ ground (arith, second_part-normalized table k)
  ]

  IsValidConfig-iff :
      (Passes (check_first_part env k)
        × ((folds_to_warning (k.string "log.level") ≡ false) ⊎ (env.set_succeeds ≡ true))
        × Passes (check_second_part table k))
      ↔ IsValidConfig env table k
  IsValidConfig-iff = (
    λ passes.
        let (first, level, second) = passes in
        let (addresses, server, remote, url, durations) = (first_part_iff env k).0 first in
        let (http2, versions, suites, proxy, server_order, remote_order) =
          (second_part_iff table k).0 second in
        let (type, remote_addr, listens) = (check_addresses_iff env k).0 addresses in
        let (server_pair, domain, https_tls) = (check_server_tls_iff k).0 server in
        let (remote_pair, remote_tls) = (check_remote_tls_iff k).0 remote in
        record {
          type = type;
          remote = remote_addr;
          listens = listens;
          server_pair = server_pair;
          domain = domain;
          https_tls = https_tls;
          remote_pair = remote_pair;
          remote_tls = remote_tls;
          remote_url = (check_url_iff env k).0 url;
          durations =
              All-map (λ key. (check_duration_iff env k key).0) duration_keys
                ((check_each_iff (check_duration env k) duration_keys).0 durations);
          level = level;
          http2 = (check_http2_iff k).0 http2;
          versions =
              All-map (λ key. (check_version_iff k key).0) version_keys
                ((check_each_iff (check_version k) version_keys).0 versions);
          suites =
              All-map (λ key. (check_suites_iff k table key).0) suite_keys
                ((check_each_iff (check_suites table k) suite_keys).0 suites);
          proxy_protocol = (check_proxy_protocol_iff k).0 proxy;
          server_order = (check_version_order_iff k "server.tls").0 server_order;
          remote_order = (check_version_order_iff k "remote.tls").0 remote_order;
        },
    λ v. (
      (first_part_iff env k).1 (
        (check_addresses_iff env k).1 (v.type, v.remote, v.listens),
        (check_server_tls_iff k).1 (v.server_pair, v.domain, v.https_tls),
        (check_remote_tls_iff k).1 (v.remote_pair, v.remote_tls),
        (check_url_iff env k).1 v.remote_url,
        (check_each_iff (check_duration env k) duration_keys).1
            (All-map (λ key. (check_duration_iff env k key).1) duration_keys v.durations),
      ),
      v.level,
      (second_part_iff table k).1 (
        (check_http2_iff k).1 v.http2,
        (check_each_iff (check_version k) version_keys).1
            (All-map (λ key. (check_version_iff k key).1) version_keys v.versions),
        (check_each_iff (check_suites table k) suite_keys).1
            (All-map (λ key. (check_suites_iff k table key).1) suite_keys v.suites),
        (check_proxy_protocol_iff k).1 v.proxy_protocol,
        (check_version_order_iff k "server.tls").1 v.server_order,
        (check_version_order_iff k "remote.tls").1 v.remote_order,
      ),
    ),
  )

  -- ValidateConfig accepts exactly the configurations of IsValidConfig, and changes nothing but the
  -- spelling of the log level "warning".
  pub validate_config_iff :
      (k' : Koanf)
      → (validate_config env table k ≡ ok k') ↔ (IsValidConfig env table k × (k' ≡ normalized k))
  validate_config_iff k' = (
    λ accepted.
        let (first, level, second, same) = (validate_config_parts k').0 accepted in
        (IsValidConfig-iff.0 (first, level, second), same),
    λ valid.
        let (first, level, second) = IsValidConfig-iff.1 valid.0 in
        (validate_config_parts k').1 (first, level, second, valid.1),
  )
