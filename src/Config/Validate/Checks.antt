-- ===== src/Config/Validate/Checks.antt =====
-- What each check of ValidateConfig (internal/config/config.go) accepts, in plain terms.
use tlspxy.Common.{
  ℕ, ◌≤◌, String, str_eq, str_append, eq_iff, true, false, ◌||◌, List, [], ◌∷◌, none, some, codes,
  ◌≡◌, ◌≢◌, ◌↔◌, ◌⊎◌, inl, inr, refl, arith, Bool-cases, Option-cases,
}
use tlspxy.Common.Result.{Result, Result-cases, ok}
use tlspxy.Config.Koanf.{Koanf}
use tlspxy.Tls.Versions.{CipherTable, parse_tls_version, parse_cipher_suites}
use tlspxy.Config.Validate.{
  Env, Url, ConfigError, or_text, server_type, check_addresses, check_server_tls, check_remote_tls,
  check_url, check_duration, check_each, check_http2, check_version, check_suites,
  check_proxy_protocol, check_version_order, version_or_zero,
}

abbrev pub Passes : Result ConfigError (Unit {0}) → Type 0
Passes r = r ≡ ok tt

-- Both are set, or neither is.
abbrev pub SetTogether : String → String → Type 0
SetTogether s t = (s ≡ "") ↔ (t ≡ "")

-- Nothing is set, or what is set satisfies P.
abbrev pub EmptyOr : String → Type 0 → Type 0
EmptyOr s P = (s ≡ "") ⊎ P

abbrev pub All : (String → Type 0) → List String → Type 0
All P [] = Unit
All P (key ∷ keys) = P key × All P keys

pub check_each_iff :
    (check : String → Result ConfigError (Unit {0})) (keys : List String)
    → Passes (check_each check keys) ↔ All (λ key. Passes (check key)) keys
check_each_iff check [] = (λ p. tt, λ p. refl)
check_each_iff check (key ∷ keys) =
    let rest = check_each_iff check keys in
    elim (Result-cases (check key)) [
      | inl (tt, passes) ↦
          (λ p. (ground arith, rest.0 (ground arith)), λ p. ground (arith, rest.1 p.1))
      | inr (e, fails) ↦ (λ p. absurd (ground arith), λ p. absurd (ground arith))
    ]

pub All-map :
    {P Q : String → Type 0} (f : (key : String) → P key → Q key) (keys : List String)
    → All P keys
    → All Q keys
All-map f [] all = tt
All-map f (key ∷ keys) all = (f key all.0, All-map f keys all.1)

-- The URL of an HTTP backend has a scheme and a host.
pub record IsHttpUrl (env : Env) (text : String) : Type 0 where
  pub url : Url
  pub parses : env.parse_url text ≡ some url
  pub scheme : url.scheme ≢ ""
  pub host : url.host ≢ ""

module _ (env : Env) (k : Koanf) where
  pub check_addresses_iff : Passes (check_addresses env k) ↔ (
      ((server_type k ≡ "tcp") ⊎ (server_type k ≡ "http") ⊎ (server_type k ≡ "https"))
      × (k.string "remote.addr" ≢ "")
      × (env.resolves (or_text (k.string "server.addr") ":9898") ≡ true))
  unfolding check_addresses
  check_addresses_iff = ground (
    arith,
    eq_iff (server_type k) "tcp",
    eq_iff (server_type k) "http",
    eq_iff (server_type k) "https",
    eq_iff (k.string "remote.addr") "",
  )

  pub check_url_iff : Passes (check_url env k) ↔ (
      ((server_type k ≢ "http") × (server_type k ≢ "https"))
      ⊎ IsHttpUrl env (k.string "remote.addr"))
  unfolding check_url
  check_url_iff = elim (Option-cases (env.parse_url (k.string "remote.addr"))) [
    | inl bad ↦ ground (arith, eq_iff (server_type k) "http", eq_iff (server_type k) "https")
    | inr (u, good) ↦ (
      λ p. elim (Bool-cases (str_eq (server_type k) "http" || str_eq (server_type k) "https")) [
        | inl web ↦ inr (record {
          url = u;
          parses = good;
          scheme = ground (arith, eq_iff u.scheme "");
          host = ground (arith, eq_iff u.host "");
        })
        | inr raw ↦
            inl (ground (arith, eq_iff (server_type k) "http", eq_iff (server_type k) "https"))
      ],
      λ p. elim p [
        | inl (a, b) ↦ ground (arith, eq_iff (server_type k) "http", eq_iff (server_type k) "https")
        | inr web ↦ ground (arith, web.parses, eq_iff u.scheme "", eq_iff u.host "")
      ],
    )
  ]

  pub check_duration_iff :
      (key : String)
      → Passes (check_duration env k key)
        ↔ ((k.string key ≡ "") ⊎ (env.parse_duration (k.string key) ≢ none))
  unfolding check_duration
  check_duration_iff key = ground (arith, eq_iff (k.string key) "")

module _ (k : Koanf) where
  pub check_server_tls_iff : Passes (check_server_tls k) ↔ (
      SetTogether (k.string "server.tls.cert") (k.string "server.tls.key")
      × ((k.bool "server.tls.letsencrypt.enable" ≡ false)
          ⊎ (k.string "server.tls.letsencrypt.domain" ≢ ""))
      × ((server_type k ≢ "https")
          ⊎ (k.string "server.tls.cert" ≢ "")
          ⊎ (k.bool "server.tls.letsencrypt.enable" ≡ true)))
  unfolding check_server_tls
  check_server_tls_iff = ground (
    arith,
    eq_iff (k.string "server.tls.cert") "",
    eq_iff (k.string "server.tls.key") "",
    eq_iff (k.string "server.tls.letsencrypt.domain") "",
    eq_iff (server_type k) "https",
  )

  pub check_remote_tls_iff : Passes (check_remote_tls k) ↔ (
      SetTogether (k.string "remote.tls.cert") (k.string "remote.tls.key")
      × ((k.bool "remote.tls.enable" ≡ true)
          ⊎ ((k.string "remote.tls.cert" ≡ "")
              × (k.string "remote.tls.key" ≡ "")
              × (k.string "remote.tls.ca" ≡ ""))))
  unfolding check_remote_tls
  check_remote_tls_iff = ground (
    arith,
    eq_iff (k.string "remote.tls.cert") "",
    eq_iff (k.string "remote.tls.key") "",
    eq_iff (k.string "remote.tls.ca") "",
  )

  pub check_http2_iff :
      Passes (check_http2 k) ↔ ((k.bool "server.http2" ≡ false) ⊎ (server_type k ≢ "tcp"))
  unfolding check_http2
  check_http2_iff = ground (arith, eq_iff (server_type k) "tcp")

  pub check_version_iff :
      (key : String)
      → Passes (check_version k key)
        ↔ ((k.string key ≡ "") ⊎ ((v : ℕ) × (parse_tls_version (codes (k.string key)) ≡ ok v)))
  unfolding check_version
  check_version_iff key = elim (Result-cases (parse_tls_version (codes (k.string key)))) [
    | inl (v, good) ↦ (λ p. inr (v, good), λ p. ground (arith, eq_iff (k.string key) ""))
    | inr (e, bad) ↦ ground (arith, eq_iff (k.string key) "")
  ]

  pub check_suites_iff :
      (table : CipherTable) (key : String)
      → Passes (check_suites table k key) ↔ (
          (k.string key ≡ "")
          ⊎ ((ids : List ℕ) × (parse_cipher_suites table (codes (k.string key)) ≡ ok ids)))
  unfolding check_suites
  check_suites_iff table key =
      elim (Result-cases (parse_cipher_suites table (codes (k.string key)))) [
        | inl (v, good) ↦ (λ p. inr (v, good), λ p. ground (arith, eq_iff (k.string key) ""))
        | inr (e, bad) ↦ ground (arith, eq_iff (k.string key) "")
      ]

  pub check_proxy_protocol_iff : Passes (check_proxy_protocol k) ↔ (
      (k.string "remote.proxyprotocol" ≡ "")
      ⊎ ((server_type k ≡ "tcp")
          × ((k.string "remote.proxyprotocol" ≡ "v1") ⊎ (k.string "remote.proxyprotocol" ≡ "v2"))))
  unfolding check_proxy_protocol
  check_proxy_protocol_iff = ground (
    arith,
    eq_iff (server_type k) "tcp",
    eq_iff (k.string "remote.proxyprotocol") "",
    eq_iff (k.string "remote.proxyprotocol") "v1",
    eq_iff (k.string "remote.proxyprotocol") "v2",
  )

  pub check_version_order_iff :
      (prefix : String)
      → Passes (check_version_order k prefix) ↔ (
          (k.string (str_append prefix ".minversion") ≡ "")
          ⊎ (k.string (str_append prefix ".maxversion") ≡ "")
          ⊎ (version_or_zero
                (parse_tls_version (codes (k.string (str_append prefix ".minversion"))))
              ≤ version_or_zero
                  (parse_tls_version (codes (k.string (str_append prefix ".maxversion"))))))
  unfolding check_version_order
  check_version_order_iff prefix = ground (
    arith,
    eq_iff (k.string (str_append prefix ".minversion")) "",
    eq_iff (k.string (str_append prefix ".maxversion")) "",
  )
