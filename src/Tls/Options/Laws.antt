-- ===== src/Tls/Options/Laws.antt =====
-- What ParseTLSOptions of internal/tls/tls.go returns.
use tlspxy.Common.{String, str_append, codes, ◌≡◌, arith, ◌≤◌, ◌⊎◌}
use tlspxy.Common.Result.{ok}
use tlspxy.Config.Koanf.{Koanf}
use tlspxy.Tls.Versions.{
  CipherTable, parse_tls_version, parse_cipher_suites, version_tls10, version_tls12,
}
use tlspxy.Tls.Versions.Laws.{parse_tls_version_range}
use tlspxy.Tls.Options.{TlsOptions, parse_tls_options}
use tlspxy.Tls.Host.{min_or_default}

module _ (table : CipherTable) (k : Koanf) (prefix : String) (opts : TlsOptions) where
  pub parse_tls_options_lem :
      parse_tls_options table k prefix ≡ ok opts
      → (parse_tls_version (codes (k.string (str_append prefix ".minversion")))
          ≡ ok opts.min_version)
        × (parse_tls_version (codes (k.string (str_append prefix ".maxversion")))
            ≡ ok opts.max_version)
        × (parse_cipher_suites table (codes (k.string (str_append prefix ".ciphersuites")))
            ≡ ok opts.cipher_suites)
  unfolding parse_tls_options
  parse_tls_options_lem h = ground arith

  pub min_or_default_range :
      parse_tls_options table k prefix ≡ ok opts
      → (version_tls10 ≤ min_or_default opts.min_version)
        × ((version_tls12 ≤ min_or_default opts.min_version)
            ⊎ (parse_tls_version (codes (k.string (str_append prefix ".minversion")))
                ≡ ok (min_or_default opts.min_version)))
  min_or_default_range h =
      let facts = parse_tls_options_lem h in
      ground (
        arith,
        facts,
        parse_tls_version_range (codes (k.string (str_append prefix ".minversion")))
            opts.min_version facts.0,
      )
