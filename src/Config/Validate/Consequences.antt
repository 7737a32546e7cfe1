-- ===== src/Config/Validate/Consequences.antt =====
-- What the rest of the program may rely on once ValidateConfig (internal/config/config.go) has
-- accepted a configuration.
use tlspxy.Common.{
  ℕ, ◌≤◌, ◌<◌, String, str_eq, str_append, eq_iff, List, [], Option, none, some, codes, trim_space,
  ◌≡◌, ◌≢◌, ◌⊎◌, inl, inr, refl, arith, Bool-cases, Option-cases,
}
use tlspxy.Common.Result.{ok}
use tlspxy.Config.Koanf.{pos, Koanf, set_string}
use tlspxy.Tls.Versions.{CipherTable, version_tls12, parse_tls_version, parse_cipher_suites}
use tlspxy.Tls.Options.{TlsOptions, parse_alpn, parse_tls_options}
use tlspxy.Tls.Host.{Host, TlsConfig}
use tlspxy.Tls.Server.{over_tls, config_server}
use tlspxy.Tls.Server.Laws.{config_server_versions}
use tlspxy.Tls.Options.Laws.{parse_tls_options_lem}
use tlspxy.Tls.CertStore.{CertStore}
use tlspxy.Config.Validate.{
  Env, duration_keys, version_or_zero, folds_to_warning, validate_config, duration,
}
use tlspxy.Config.Validate.Checks.{All, All-map}
use tlspxy.Config.Validate.Accepts.{IsValidConfig, normalized, validate_config_iff}

-- The two sides that have TLS options.
data Side : Type 0 where
  server_side remote_side : Side

abbrev prefix : Side → String
prefix server_side = "server.tls"
prefix remote_side = "remote.tls"

empty_version : parse_tls_version (codes "") ≡ ok 0
unfolding parse_tls_version trim_space
empty_version = refl

empty_suites : (table : CipherTable) → parse_cipher_suites table (codes "") ≡ ok []
unfolding parse_cipher_suites trim_space
empty_suites table = refl

version_parses :
    (s : String)
    → (s ≡ "") ⊎ ((v : ℕ) × (parse_tls_version (codes s) ≡ ok v))
    → (v : ℕ) × (parse_tls_version (codes s) ≡ ok v)
version_parses s (inl blank) = (0, rw blank empty_version)
version_parses s (inr p) = p

suites_parse :
    (table : CipherTable) (s : String)
    → (s ≡ "") ⊎ ((ids : List ℕ) × (parse_cipher_suites table (codes s) ≡ ok ids))
    → (ids : List ℕ) × (parse_cipher_suites table (codes s) ≡ ok ids)
suites_parse table s (inl blank) = ([], rw blank (empty_suites table))
suites_parse table s (inr p) = p

parse_tls_options-normalized :
    (table : CipherTable) (k : Koanf) (side : Side)
    → parse_tls_options table (normalized k) (prefix side) ≡ parse_tls_options table k (prefix side)
unfolding parse_tls_options set_string
parse_tls_options-normalized table k side =
    elim (Bool-cases (folds_to_warning (k.string "log.level"))) [
      | inl warning ↦ rw warning (both side)
      | inr other ↦ rw other
    ]
  where
    both :
        (s : Side)
        → parse_tls_options table (set_string k "log.level" "warn") (prefix s)
          ≡ parse_tls_options table k (prefix s)
    both server_side = refl
    both remote_side = refl

in_order :
    (s t : String) {lo hi n m : ℕ}
    → parse_tls_version (codes s) ≡ ok lo
    → parse_tls_version (codes t) ≡ ok hi
    → n ≡ lo
    → m ≡ hi
    → (s ≡ "")
      ⊎ (t ≡ "")
      ⊎ (version_or_zero (parse_tls_version (codes s))
          ≤ version_or_zero (parse_tls_version (codes t)))
    → (s ≡ "") ⊎ (t ≡ "") ⊎ (n ≤ m)
in_order s t e₁ e₂ p q (inl blank) = inl blank
in_order s t e₁ e₂ p q (inr (inl blank)) = inr (inl blank)
in_order s t e₁ e₂ p q (inr (inr order)) = inr (inr (ground arith))

options_parse :
    (table : CipherTable) (k : Koanf) (p : String) {lowest highest : ℕ} {ids : List ℕ}
    → parse_tls_version (codes (k.string (str_append p ".minversion"))) ≡ ok lowest
    → parse_tls_version (codes (k.string (str_append p ".maxversion"))) ≡ ok highest
    → parse_cipher_suites table (codes (k.string (str_append p ".ciphersuites"))) ≡ ok ids
    → (opts : TlsOptions) × (parse_tls_options table k p ≡ ok opts)
      × (opts.min_version ≡ lowest)
      × (opts.max_version ≡ highest)
unfolding parse_tls_options
options_parse table k p {lowest} {highest} {ids} lo hi suites = (
  record {
    min_version = lowest;
    max_version = highest;
    cipher_suites = ids;
    next_protos = parse_alpn (codes (k.string (str_append p ".alpn")));
  },
  ground arith,
  refl,
  refl,
)

-- Duration of a key tells what the text says.
abbrev pub DurationIsExact : Env → Koanf → String → Type 0
DurationIsExact env k key =
    ((k.string key ≡ "") × (duration env k key ≡ pos 0))
    ⊎ (env.parse_duration (k.string key) ≡ some (duration env k key))

duration_exact :
    (env : Env) (k : Koanf) (key : String)
    → (k.string key ≡ "") ⊎ (env.parse_duration (k.string key) ≢ none)
    → DurationIsExact env k key
unfolding duration
duration_exact env k key h = elim (Bool-cases (str_eq (k.string key) "")) [
  | inl blank ↦ inl ((eq_iff (k.string key) "").0 blank, rw blank)
  | inr set ↦ elim (Option-cases (env.parse_duration (k.string key))) [
    | inl bad ↦ absurd (ground (arith, eq_iff (k.string key) ""))
    | inr (d, good) ↦ inr (ground arith)
  ]
]

durations-normalized :
    (env : Env) (k : Koanf)
    → All (DurationIsExact env k) duration_keys
    → All (DurationIsExact env (normalized k)) duration_keys
unfolding duration set_string
durations-normalized env k all = elim (Bool-cases (folds_to_warning (k.string "log.level"))) [
  | inl warning ↦ rw warning all
  | inr other ↦ rw other all
]

module _ (env : Env) (table : CipherTable) (k : Koanf) where
  valid_options :
      (side : Side)
      → IsValidConfig env table k
      → (opts : TlsOptions) × (parse_tls_options table k (prefix side) ≡ ok opts)
        × ((k.string (str_append (prefix side) ".minversion") ≡ "")
            ⊎ (k.string (str_append (prefix side) ".maxversion") ≡ "")
            ⊎ (opts.min_version ≤ opts.max_version))
  valid_options server_side v =
      let (lo, e₁) = version_parses (k.string "server.tls.minversion") v.versions.0 in
      let (hi, e₂) = version_parses (k.string "server.tls.maxversion") v.versions.1.0 in
      let (ids, e₃) = suites_parse table (k.string "server.tls.ciphersuites") v.suites.0 in
      let (opts, good, lowest, highest) = options_parse table k "server.tls" e₁ e₂ e₃ in
      (
        opts,
        good,
        in_order (k.string "server.tls.minversion") (k.string "server.tls.maxversion") e₁ e₂ lowest
            highest v.server_order,
      )
  valid_options remote_side v =
      let (lo, e₁) = version_parses (k.string "remote.tls.minversion") v.versions.1.1.0 in
      let (hi, e₂) = version_parses (k.string "remote.tls.maxversion") v.versions.1.1.1.0 in
      let (ids, e₃) = suites_parse table (k.string "remote.tls.ciphersuites") v.suites.1.0 in
      let (opts, good, lowest, highest) = options_parse table k "remote.tls" e₁ e₂ e₃ in
      (
        opts,
        good,
        in_order (k.string "remote.tls.minversion") (k.string "remote.tls.maxversion") e₁ e₂ lowest
            highest v.remote_order,
      )

  -- After validation the TLS options of both sides parse, and a minimum and a maximum that are both
  -- set are in order.
  validated_options :
      (k' : Koanf) (side : Side)
      → validate_config env table k ≡ ok k'
      → (opts : TlsOptions) × (parse_tls_options table k' (prefix side) ≡ ok opts)
        × ((k.string (str_append (prefix side) ".minversion") ≡ "")
            ⊎ (k.string (str_append (prefix side) ".maxversion") ≡ "")
            ⊎ (opts.min_version ≤ opts.max_version))
  validated_options k' side accepted =
      let (valid, same) = (validate_config_iff env table k k').0 accepted in
      let (opts, good, order) = valid_options side valid in
      (opts, rw (same, parse_tls_options-normalized table k side) good, order)

  -- After validation Duration returns, for each of the five keys, 0 where nothing is set, and else
  -- exactly what the text parses to.
  pub validated_duration :
      (k' : Koanf)
      → validate_config env table k ≡ ok k'
      → All (DurationIsExact env k') duration_keys
  validated_duration k' accepted =
      let (valid, same) = (validate_config_iff env table k k').0 accepted in
      rw same
        (durations-normalized env k (All-map (duration_exact env k) duration_keys valid.durations))

  -- Where server.tls.minversion is not set and server.tls.maxversion is below TLS 1.2, a validated
  -- configuration gives a TLS listener a minimum above its maximum.
  pub validated_version_gap :
      {C P : Type 0} (host : Host C P) (k' : Koanf) (v : ℕ) {conf : TlsConfig C P}
      {store : Option (CertStore C)}
      → validate_config env table k ≡ ok k'
      → k'.string "server.tls.minversion" ≡ ""
      → parse_tls_version (codes (k'.string "server.tls.maxversion")) ≡ ok v
      → 0 < v
      → v < version_tls12
      → config_server table host k' ≡ ok (over_tls conf, store)
      → (conf.max_version ≡ v) × (v < conf.min_version)
  validated_version_gap host k' v accepted unset max set low h =
      let (opts, good, order) = validated_options k' server_side accepted in
      let facts = parse_tls_options_lem table k' "server.tls" opts good in
      ground (
        arith,
        config_server_versions table host k' opts h good,
        facts,
        empty_version,
        rw unset at facts.0,
      )
