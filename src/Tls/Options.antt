-- ===== src/Tls/Options.antt =====
-- internal/tls/tls.go: the version, cipher suite and ALPN settings of one side (TLSOptions).
pub mod Laws
use tlspxy.Common.{
  ℕ, Bool, true, false, String, str_append, List, [], ◌∷◌, codes, trim_space, split, if◌then◌else◌,
}
use tlspxy.Common.Result.{Result, ok, err, ◌>>=◌}
use tlspxy.Config.Koanf.{Koanf}
use tlspxy.Tls.Versions.{OptionError, CipherTable, is_empty, parse_tls_version, parse_cipher_suites}

-- Go's zero and nil, which mean "not set", are 0 and the empty list.
pub record TlsOptions : Type 0 where
  pub min_version : ℕ
  pub max_version : ℕ
  pub cipher_suites : List ℕ
  pub next_protos : List (List ℕ)

-- The loop over the ALPN fields; blank ones are dropped.
unfoldable pub protocols : List (List ℕ) → List (List ℕ)
protocols [] = []
protocols (field ∷ fields) =
    let p = trim_space field in let rest = protocols fields in if is_empty p then rest else p ∷ rest

unfoldable pub parse_alpn : List ℕ → List (List ℕ)
unfolding protocols
parse_alpn text =
    let alpn = trim_space text in if is_empty alpn then [] else protocols (split b',' alpn)

-- ParseTLSOptions. Every caller drops the options where there is an error.
unfoldable pub parse_tls_options : CipherTable → Koanf → String → Result OptionError TlsOptions
unfolding parse_alpn
parse_tls_options table k prefix = do
  lowest ← parse_tls_version (codes (k.string (str_append prefix ".minversion")))
  highest ← parse_tls_version (codes (k.string (str_append prefix ".maxversion")))
  suites ← parse_cipher_suites table (codes (k.string (str_append prefix ".ciphersuites")))
  ok (record {
    min_version = lowest;
    max_version = highest;
    cipher_suites = suites;
    next_protos = parse_alpn (codes (k.string (str_append prefix ".alpn")));
  })
