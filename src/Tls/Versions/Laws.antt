-- ===== src/Tls/Versions/Laws.antt =====
-- What the parsers of internal/tls/versions.go accept.
use tlspxy.Common.{
  ℕ, ◌≤◌, ◌≡◌, refl, ◌⊎◌, inl, inr, ◌↔◌, List, [], ◌∷◌, map, some, trim_space, split, if◌then◌else◌,
  arith, Bool-cases, Option-cases,
}
use tlspxy.Common.Result.{Result-cases, ok, or_err}
use tlspxy.Tls.Versions.{
  unknown_version, named, tls_version_names, is_empty, parse_tls_version, version_tls10,
  version_tls13, CipherTable, suite_ids, known_suites, parse_cipher_suites,
}

named_range :
    (s : List ℕ) (v : ℕ)
    → named s tls_version_names ≡ some v
    → (version_tls10 ≤ v) × (v ≤ version_tls13)
unfolding named
named_range s v h = ground arith

-- A version that is accepted is either the default, 0, and then the text is blank, or one of TLS 1.0
-- to TLS 1.3.
pub parse_tls_version_range :
    (text : List ℕ) (v : ℕ)
    → parse_tls_version text ≡ ok v
    → ((v ≡ 0) × (trim_space text ≡ [])) ⊎ ((version_tls10 ≤ v) × (v ≤ version_tls13))
unfolding parse_tls_version
parse_tls_version_range text v h = version (trim_space text) h
  where
    version :
        (s : List ℕ)
        → (if is_empty s then ok 0 else or_err (named s tls_version_names) (unknown_version s))
          ≡ ok v
        → ((v ≡ 0) × (s ≡ [])) ⊎ ((version_tls10 ≤ v) × (v ≤ version_tls13))
    version [] e = inl (ground arith, refl)
    version (c ∷ s) e = elim (Option-cases (named (c ∷ s) tls_version_names)) [
      | inl n ↦ ground arith
      | inr (w, n) ↦ inr (ground (arith, named_range (c ∷ s) w))
    ]

-- The names that a comma-separated text lists: its fields, trimmed, without the blank ones.
abbrev pub listed : List (List ℕ) → List (List ℕ)
listed [] = []
listed (field ∷ fields) =
    let rest = listed fields in
    if is_empty (trim_space field) then rest else trim_space field ∷ rest

suite_ids_lem :
    (known : List (List ℕ × ℕ)) (fields : List (List ℕ)) (ids : List ℕ)
    → suite_ids known fields ≡ ok ids
    → map (λ name. named name known) (listed fields) ≡ map some ids
unfolding suite_ids
suite_ids_lem known [] ids h = ground arith
suite_ids_lem known (field ∷ fields) ids h = elim (Result-cases (suite_ids known fields)) [
  | inl (found, e) ↦ ground (arith, suite_ids_lem known fields found)
  | inr (x, e) ↦ ground arith
]

listed_ids :
    (known : List (List ℕ × ℕ)) (fields : List (List ℕ)) (ids : List ℕ)
    → map (λ name. named name known) (listed fields) ≡ map some ids
    → suite_ids known fields ≡ ok ids
unfolding suite_ids
listed_ids known [] [] h = refl
listed_ids known [] (id ∷ ids) h = ground arith
listed_ids known (field ∷ fields) [] h = ground (arith, listed_ids known fields [])
listed_ids known (field ∷ fields) (id ∷ ids) h = elim (Bool-cases (is_empty (trim_space field))) [
  | inl blank ↦ ground (arith, listed_ids known fields (id ∷ ids))
  | inr name ↦ ground (arith, listed_ids known fields ids)
]

-- A text is read as the cipher suites `ids` exactly when these are, in order, the ids of the names
-- that it lists, each of them known.
pub parse_cipher_suites_iff :
    (table : CipherTable) (text ids : List ℕ)
    → (parse_cipher_suites table text ≡ ok ids) ↔ (
        map (λ name. named name (known_suites table)) (listed (split b',' (trim_space text)))
        ≡ map some ids)
unfolding parse_cipher_suites split trim_space
parse_cipher_suites_iff table text ids = read (trim_space text)
  where
    read :
        (s : List ℕ)
        → ((if is_empty s then ok [] else suite_ids (known_suites table) (split b',' s)) ≡ ok ids)
          ↔ (map (λ name. named name (known_suites table)) (listed (split b',' s)) ≡ map some ids)
    read [] = (
      suite_ids_lem (known_suites table) ([] ∷ []) ids,
      listed_ids (known_suites table) ([] ∷ []) ids,
    )
    read (c ∷ s) = (
      suite_ids_lem (known_suites table) (split b',' (c ∷ s)) ids,
      listed_ids (known_suites table) (split b',' (c ∷ s)) ids,
    )
