-- ===== src/Tls/CertStore/Reload.antt =====
-- When a reload reports an error, and what a reload without one amounts to.
use mathlib.Core.List.{append-nil, append_assoc}
use tlspxy.Common.{
  String, str_eq, Bool, true, false, List, [], ◌∷◌, ◌++◌, Option, none, some, lookup, insert,
  lookup-insert, ◌≡◌, refl, arith, ◌∙◌, ◌||◌, Option-cases, inl, inr,
}
use tlspxy.Common.Result.{ok}
use tlspxy.Tls.CertStore.{
  SniCertEntry, CertStore, StoreError, reloading, reloading_sni, Loader, get_certificate,
  add_sni_cert, add_sni_certs, new_cert_store, load_cert_store, reload, reload_entry,
  reload_entries, reload_all,
}
use tlspxy.Tls.CertStore.Lookup.{or_else, last_loaded, served, get_certificate-reload_all}

-- The error of the first entry whose files do not load.
abbrev pub failed_entry : {C : Type 0} → Loader C → List SniCertEntry → Option StoreError
failed_entry load [] = none
failed_entry load (e ∷ entries) = elim (load e.cert_path e.key_path) [
  | none ↦ some (reloading_sni e.hostname)
  | some cert ↦ failed_entry load entries
]

abbrev or_error : Option StoreError → Option StoreError → Option StoreError
or_error (some f) later = some f
or_error none later = later

abbrev pub has_host : String → List SniCertEntry → Bool
has_host host [] = false
has_host host (e ∷ entries) = str_eq e.hostname host || has_host host entries

abbrev pub is_some : {A : Type 0} → Option A → Bool
is_some none = false
is_some (some a) = true

abbrev with_entry : {C : Type 0} → CertStore C → SniCertEntry → C → CertStore C
with_entry cs e cert = record cs {
  certs = insert e.hostname cert cs.certs;
  sni_entries = cs.sni_entries ++ e ∷ [];
}

abbrev empty_store : {C : Type 0} → CertStore C → C → CertStore C
empty_store cs cert = record cs { default_cert = cert; certs = []; sni_entries = [] }

-- The map holds a certificate for exactly the hosts of the entries.
abbrev pub IsConsistent : {C : Type 0} → CertStore C → Type 0
IsConsistent cs = (host : String) → is_some (lookup host cs.certs) ≡ has_host host cs.sni_entries

pub has_host-append :
    (host : String) (xs ys : List SniCertEntry)
    → has_host host (xs ++ ys) ≡ (has_host host xs || has_host host ys)
has_host-append host [] ys = refl
has_host-append host (e ∷ xs) ys = ground (arith, has_host-append host xs ys)

module _ {C : Type 0} (load : Loader C) where
  error-reload_entries :
      (entries : List SniCertEntry) (s : CertStore C × Option StoreError)
      → (reload_entries load entries s).1 ≡ or_error s.1 (failed_entry load entries)
  unfolding reload_entries reload_entry
  error-reload_entries [] s = ground arith
  error-reload_entries (e ∷ entries) s =
      ground (arith, error-reload_entries entries (reload_entry load e s))

  -- ReloadAll returns the first error in the order default certificate, then the entries, and none
  -- exactly when every pair of files loads; it tries every entry all the same.
  pub error-reload_all :
      (cs : CertStore C)
      → (reload_all load cs).1 ≡ elim (load cs.cert_path cs.key_path) [
        | none ↦ some reloading
        | some cert ↦ failed_entry load cs.sni_entries
      ]
  unfolding reload_all reload
  error-reload_all cs =
      ground (arith, error-reload_entries (reload load cs).0.sni_entries (reload load cs))

  pub last_loaded-has_host :
      (host : String) (entries : List SniCertEntry)
      → has_host host entries ≡ false
      → last_loaded load host entries ≡ none
  last_loaded-has_host host [] h = refl
  last_loaded-has_host host (e ∷ entries) h = ground (arith, last_loaded-has_host host entries)

  pub has_host-last_loaded :
      (host : String) (entries : List SniCertEntry)
      → failed_entry load entries ≡ none
      → is_some (last_loaded load host entries) ≡ has_host host entries
  has_host-last_loaded host [] h = refl
  has_host-last_loaded host (e ∷ entries) h = ground (arith, has_host-last_loaded host entries)

  pub lookup-add_sni_certs :
      (host : String) (entries : List SniCertEntry) (cs cs' : CertStore C)
      → add_sni_certs load cs entries ≡ ok cs'
      → (lookup host cs'.certs ≡ or_else (last_loaded load host entries) (lookup host cs.certs))
        × (cs'.default_cert ≡ cs.default_cert)
        × (cs'.sni_entries ≡ cs.sni_entries ++ entries)
        × (failed_entry load entries ≡ none)
  unfolding add_sni_certs add_sni_cert
  lookup-add_sni_certs host [] cs cs' h = ground (arith, append-nil cs.sni_entries)
  lookup-add_sni_certs host (e ∷ entries) cs cs' h =
      elim (Option-cases (load e.cert_path e.key_path)) [
        | inl failed ↦ ground arith
        | inr (cert, loads) ↦ ground (
          arith,
          lookup-add_sni_certs host entries (with_entry cs e cert) cs',
          lookup-insert e.hostname host cert cs.certs,
          append_assoc cs.sni_entries (e ∷ []) entries,
        )
      ]

  add_sni_certs_total :
      (entries : List SniCertEntry) (cs : CertStore C)
      → failed_entry load entries ≡ none
      → (cs' : CertStore C) × (add_sni_certs load cs entries ≡ ok cs')
  unfolding add_sni_certs add_sni_cert
  add_sni_certs_total [] cs h = (cs, refl)
  add_sni_certs_total (e ∷ entries) cs h = elim (Option-cases (load e.cert_path e.key_path)) [
    | inl failed ↦ ground arith
    | inr (cert, loads) ↦
        let (cs', added) = add_sni_certs_total entries (with_entry cs e cert) (ground arith) in
        (cs', ground arith)
  ]

  loaded_or_old :
      (host : String) (cs : CertStore C)
      → IsConsistent cs
      → failed_entry load cs.sni_entries ≡ none
      → or_else (last_loaded load host cs.sni_entries) (lookup host cs.certs)
        ≡ last_loaded load host cs.sni_entries
  loaded_or_old host cs consistent all =
      ground (arith, has_host-last_loaded host cs.sni_entries all, consistent host)

  served-add_sni_certs :
      (cs : CertStore C) (cert : C) (fresh : CertStore C)
      → IsConsistent cs
      → load cs.cert_path cs.key_path ≡ some cert
      → add_sni_certs load (empty_store cs cert) cs.sni_entries ≡ ok fresh
      → (hello : Option String) → served load cs hello ≡ get_certificate fresh hello
  unfolding get_certificate lookup
  served-add_sni_certs cs cert fresh consistent loads added none =
      ground (arith, lookup-add_sni_certs "" cs.sni_entries (empty_store cs cert) fresh added)
  served-add_sni_certs cs cert fresh consistent loads added (some name) =
      let facts = lookup-add_sni_certs name cs.sni_entries (empty_store cs cert) fresh added in
      ground (arith, facts, loaded_or_old name cs consistent facts.3)

  -- After a ReloadAll of a store whose hosts are those of its entries that returned no error, every
  -- handshake gets what a store newly loaded from the same paths and entries serves; such a store
  -- does load.
  pub reload_all-load_cert_store :
      (cs : CertStore C)
      → IsConsistent cs
      → (reload_all load cs).1 ≡ none
      → (fresh : CertStore C) × (load_cert_store load cs.cert_path cs.key_path cs.sni_entries
          ≡ ok fresh)
        × ((hello : Option String)
            → get_certificate (reload_all load cs).0 hello ≡ get_certificate fresh hello)
  unfolding load_cert_store new_cert_store
  reload_all-load_cert_store cs consistent fine =
      elim (Option-cases (load cs.cert_path cs.key_path)) [
        | inl failed ↦ absurd (ground (arith, error-reload_all cs))
        | inr (cert, loads) ↦
            let (fresh, added) =
              add_sni_certs_total cs.sni_entries (empty_store cs cert)
                (ground (arith, error-reload_all cs)) in
            (
              fresh,
              ground arith,
              λ hello.
                  (get_certificate-reload_all load cs hello).0
                  ∙ served-add_sni_certs cs cert fresh consistent loads added hello,
            )
      ]
