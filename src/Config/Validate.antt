-- ===== src/Config/Validate.antt =====
-- internal/config/config.go: ValidateConfig and Duration. What Go's libraries decide about an
-- address, a URL and a duration is a parameter.
pub mod Checks
pub mod Accepts
pub mod Consequences
pub mod Protocol
use tlspxy.Common.{
  ℕ, ◌+◌, String, str_eq, str_append, Bool, true, false, not, ◌&&◌, ◌||◌, List, [], ◌∷◌, map,
  Option, none, some, codes, text_eq, leb, if◌then◌else◌,
}
use tlspxy.Common.Result.{Result, ok, err, guard, map_err, or_err, ◌>>=◌, ◌>>◌}
use tlspxy.Config.Koanf.{ℤ, pos, Koanf, set_string}
use tlspxy.Tls.Versions.{OptionError, CipherTable, parse_tls_version, parse_cipher_suites}

-- The parts of url.URL that are read.
pub record Url : Type 0 where
  pub scheme : String
  pub host : String

-- net.ResolveTCPAddr, url.Parse, time.ParseDuration (in nanoseconds), and whether k.Set succeeds.
pub record Env : Type 0 where
  pub resolves : String → Bool
  pub parse_url : String → Option Url
  pub parse_duration : String → Option ℤ
  pub set_succeeds : Bool

pub data ConfigError : Type 0 where
  bad_server_type remote_addr_required bad_server_addr : ConfigError
  server_key_required server_cert_required domain_required https_needs_tls : ConfigError
  remote_key_required remote_cert_required remote_tls_disabled : ConfigError
  bad_url url_incomplete : ConfigError
  bad_duration : String → ConfigError
  normalizing_log_level http2_needs_http : ConfigError
  bad_version bad_suites : String → OptionError → ConfigError
  bad_proxy_protocol proxy_protocol_needs_tcp : ConfigError
  min_above_max : String → ConfigError

-- `if s == "" { s = fallback }`.
abbrev pub or_text : String → String → String
or_text s fallback = if str_eq s "" then fallback else s

abbrev pub server_type : Koanf → String
server_type k = or_text (k.string "server.type") "tcp"

abbrev pub is_set : Koanf → String → Bool
is_set k key = not (str_eq (k.string key) "")

-- 1 to 3: the type and the addresses.
unfoldable pub check_addresses : Env → Koanf → Result ConfigError (Unit {0})
check_addresses env k = do
  guard
      (str_eq (server_type k) "tcp"
        || str_eq (server_type k) "http"
        || str_eq (server_type k) "https")
      bad_server_type
  guard (is_set k "remote.addr") remote_addr_required
  guard (env.resolves (or_text (k.string "server.addr") ":9898")) bad_server_addr

-- 4 and 5: the TLS of the server.
unfoldable pub check_server_tls : Koanf → Result ConfigError (Unit {0})
check_server_tls k =
    let cert = is_set k "server.tls.cert" in
    let key = is_set k "server.tls.key" in
    let auto = k.bool "server.tls.letsencrypt.enable" in
    do
      guard (not (cert && not key)) server_key_required
      guard (not (key && not cert)) server_cert_required
      guard (not (auto && not (is_set k "server.tls.letsencrypt.domain"))) domain_required
      guard (not (str_eq (server_type k) "https" && not cert && not auto)) https_needs_tls

-- The TLS of the backend.
unfoldable pub check_remote_tls : Koanf → Result ConfigError (Unit {0})
check_remote_tls k =
    let cert = is_set k "remote.tls.cert" in
    let key = is_set k "remote.tls.key" in
    do
      guard (not (cert && not key)) remote_key_required
      guard (not (key && not cert)) remote_cert_required
      guard (k.bool "remote.tls.enable" || not (cert || key || is_set k "remote.tls.ca"))
          remote_tls_disabled

-- 6: the URL of an HTTP backend.
unfoldable pub check_url : Env → Koanf → Result ConfigError (Unit {0})
check_url env k =
    if str_eq (server_type k) "http" || str_eq (server_type k) "https"
    then elim (env.parse_url (k.string "remote.addr")) [
      | none ↦ err bad_url
      | some u ↦ guard (not (str_eq u.scheme "" || str_eq u.host "")) url_incomplete
    ]
    else ok tt

-- 7: the durations.
abbrev pub duration_keys : List String
duration_keys =
    "server.timeouts.read" ∷ "server.timeouts.write" ∷ "server.timeouts.idle"
    ∷ "server.timeouts.handshake" ∷ "remote.timeouts.dial" ∷ []

unfoldable pub check_duration : Env → Koanf → String → Result ConfigError (Unit {0})
check_duration env k key =
    if str_eq (k.string key) ""
    then ok tt
    else elim (env.parse_duration (k.string key)) [ none ↦ err (bad_duration key) | some d ↦ ok tt ]

-- A loop that returns the first error.
abbrev pub check_each :
    (String → Result ConfigError (Unit {0})) → List String → Result ConfigError (Unit {0})
check_each check [] = ok tt
check_each check (key ∷ keys) = check key >> check_each check keys

-- strings.EqualFold(s, "warning"): no character beyond ASCII folds to one of its letters.
abbrev pub fold : ℕ → ℕ
fold c = if leb b'A' c && leb c b'Z' then c + 32 else c

unfoldable pub folds_to_warning : String → Bool
folds_to_warning s = text_eq (map fold (codes s)) (codes "warning")

-- 8: "warning" becomes "warn".
unfoldable pub normalize_level : Env → Koanf → Result ConfigError Koanf
normalize_level env k =
    if folds_to_warning (k.string "log.level")
    then (if env.set_succeeds
        then ok (set_string k "log.level" "warn")
        else err normalizing_log_level)
    else ok k

-- 9: HTTP/2 needs an HTTP server.
unfoldable pub check_http2 : Koanf → Result ConfigError (Unit {0})
check_http2 k = guard (not (k.bool "server.http2" && str_eq (server_type k) "tcp")) http2_needs_http

-- 10: the TLS versions.
abbrev pub version_keys : List String
version_keys =
    "server.tls.minversion" ∷ "server.tls.maxversion" ∷ "remote.tls.minversion"
    ∷ "remote.tls.maxversion" ∷ []

unfoldable pub check_version : Koanf → String → Result ConfigError (Unit {0})
check_version k key =
    if str_eq (k.string key) ""
    then ok tt
    else map_err (bad_version key) (parse_tls_version (codes (k.string key))) >>= λ v. ok tt

-- 11: the cipher suites.
abbrev pub suite_keys : List String
suite_keys = "server.tls.ciphersuites" ∷ "remote.tls.ciphersuites" ∷ []

unfoldable pub check_suites : CipherTable → Koanf → String → Result ConfigError (Unit {0})
check_suites table k key =
    if str_eq (k.string key) ""
    then ok tt
    else map_err (bad_suites key) (parse_cipher_suites table (codes (k.string key))) >>= λ ids.
        ok tt

-- 12a: the PROXY protocol.
unfoldable pub check_proxy_protocol : Koanf → Result ConfigError (Unit {0})
check_proxy_protocol k =
    let pp = k.string "remote.proxyprotocol" in
    do
      guard (str_eq pp "" || str_eq pp "v1" || str_eq pp "v2") bad_proxy_protocol
      guard (not (not (str_eq pp "") && not (str_eq (server_type k) "tcp")))
          proxy_protocol_needs_tcp

-- `v, _ := ParseTLSVersion(s)`.
abbrev pub version_or_zero : Result OptionError ℕ → ℕ
version_or_zero (ok v) = v
version_or_zero (err e) = 0

-- 12: the minimum is not above the maximum, where both are set.
unfoldable pub check_version_order : Koanf → String → Result ConfigError (Unit {0})
check_version_order k prefix =
    let lowest = k.string (str_append prefix ".minversion") in
    let highest = k.string (str_append prefix ".maxversion") in
    guard
      (str_eq lowest ""
        || str_eq highest ""
        || leb (version_or_zero (parse_tls_version (codes lowest)))
            (version_or_zero (parse_tls_version (codes highest))))
      (min_above_max prefix)

-- The checks before the log level is normalized.
unfoldable pub check_first_part : Env → Koanf → Result ConfigError (Unit {0})
check_first_part env k = do
  check_addresses env k
  check_server_tls k
  check_remote_tls k
  check_url env k
  check_each (check_duration env k) duration_keys

-- The checks after it.
unfoldable pub check_second_part : CipherTable → Koanf → Result ConfigError (Unit {0})
check_second_part table k = do
  check_http2 k
  check_each (check_version k) version_keys
  check_each (check_suites table k) suite_keys
  check_proxy_protocol k
  check_each (check_version_order k) ("server.tls" ∷ "remote.tls" ∷ [])

-- ValidateConfig returns the configuration as it leaves it. With an error the program ends.
unfoldable pub validate_config : Env → CipherTable → Koanf → Result ConfigError Koanf
validate_config env table k = do
  check_first_part env k
  k' ← normalize_level env k
  check_second_part table k'
  ok k'

-- Duration: 0 where nothing is set, or where the text does not parse.
unfoldable pub duration : Env → Koanf → String → ℤ
duration env k key =
    if str_eq (k.string key) ""
    then pos 0
    else elim (env.parse_duration (k.string key)) [ none ↦ pos 0 | some d ↦ d ]
