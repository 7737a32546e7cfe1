-- ===== src/Tls/Versions.antt =====
-- internal/tls/versions.go: the names of TLS versions and of cipher suites. Text is walked as its
-- code points. The cipher suites that Go's crypto/tls lists are a parameter.
pub mod Laws
use tlspxy.Common.{
  ℕ, Bool, true, false, List, [], ◌∷◌, ◌++◌, map, Option, none, some, codes, text_eq, trim_space,
  split, if◌then◌else◌,
}
use tlspxy.Common.Result.{Result, ok, err, or_err, ◌>>=◌}

pub data OptionError : Type 0 where
  unknown_version : List ℕ → OptionError
  unknown_cipher_suite : List ℕ → OptionError

abbrev pub version_tls10 : ℕ
version_tls10 = 0x0301

abbrev pub version_tls11 : ℕ
version_tls11 = 0x0302

abbrev pub version_tls12 : ℕ
version_tls12 = 0x0303

abbrev pub version_tls13 : ℕ
version_tls13 = 0x0304

-- m[name] in a map from names; the newest entry of a name stands first.
unfoldable pub named : List ℕ → List (List ℕ × ℕ) → Option ℕ
named name [] = none
named name ((key, id) ∷ rest) = if text_eq name key then some id else named name rest

abbrev pub tls_version_names : List (List ℕ × ℕ)
tls_version_names =
    (codes "1.0", version_tls10)
    ∷ (codes "1.1", version_tls11)
    ∷ (codes "1.2", version_tls12)
    ∷ (codes "1.3", version_tls13)
    ∷ []

abbrev pub is_empty {ℓ} : {A : Type ℓ} → List A → Bool
is_empty [] = true
is_empty (x ∷ xs) = false

-- ParseTLSVersion: 0 stands for the default.
unfoldable pub parse_tls_version : List ℕ → Result OptionError ℕ
unfolding named
parse_tls_version text =
    let s = trim_space text in
    if is_empty s then ok 0 else or_err (named s tls_version_names) (unknown_version s)

-- cryptotls.CipherSuites() and cryptotls.InsecureCipherSuites(): names and ids.
pub record CipherTable : Type 0 where
  pub secure : List (List ℕ × ℕ)
  pub insecure : List (List ℕ × ℕ)

-- `for _, cs := range suites { known[cs.Name] = cs.ID }`.
unfoldable pub add_suites : List (List ℕ × ℕ) → List (List ℕ × ℕ) → List (List ℕ × ℕ)
add_suites known [] = known
add_suites known (cs ∷ suites) = add_suites (cs ∷ known) suites

unfoldable pub known_suites : CipherTable → List (List ℕ × ℕ)
unfolding add_suites
known_suites table = add_suites (add_suites [] table.secure) table.insecure

-- The loop over the fields; blank ones are skipped.
unfoldable pub suite_ids : List (List ℕ × ℕ) → List (List ℕ) → Result OptionError (List ℕ)
suite_ids known [] = ok []
suite_ids known (field ∷ fields) =
    let name = trim_space field in
    let rest = suite_ids known fields in
    if is_empty name
    then rest
    else do id ← or_err (named name known) (unknown_cipher_suite name); ids ← rest; ok (id ∷ ids)

-- ParseCipherSuites. Go's nil slice is the empty list.
unfoldable pub parse_cipher_suites : CipherTable → List ℕ → Result OptionError (List ℕ)
unfolding known_suites suite_ids
parse_cipher_suites table text =
    let s = trim_space text in
    if is_empty s then ok [] else suite_ids (known_suites table) (split b',' s)

-- ValidCipherSuiteNames.
unfoldable pub valid_cipher_suite_names : CipherTable → List (List ℕ)
valid_cipher_suite_names table = map (λ cs. cs.0) table.secure ++ map (λ cs. cs.0) table.insecure
