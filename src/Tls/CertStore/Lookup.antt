-- ===== src/Tls/CertStore/Lookup.antt =====
-- What a certificate store serves after a reload, told for one server name at a time.
use tlspxy.Common.{
  String, str_eq, List, [], ◌∷◌, Option, none, some, lookup, lookup-insert, if◌then◌else◌, ◌≡◌,
  refl, arith, Option-cases, inl, inr,
}
use tlspxy.Tls.CertStore.{
  SniCertEntry, CertStore, StoreError, Loader, get_certificate, or_default, reload, reload_entry,
  reload_entries, reload_all,
}

abbrev pub or_else : {C : Type 0} → Option C → Option C → Option C
or_else (some c) old = some c
or_else none old = old

-- The certificate of the last entry of a host whose files load.
abbrev pub last_loaded : {C : Type 0} → Loader C → String → List SniCertEntry → Option C
last_loaded load host [] = none
last_loaded load host (e ∷ entries) =
    or_else (last_loaded load host entries)
      (if str_eq e.hostname host then load e.cert_path e.key_path else none)

-- What is served after a reload: the newest certificate that loads, or else the one before.
abbrev pub served : {C : Type 0} → Loader C → CertStore C → Option String → C
served load cs none = or_default cs.default_cert (load cs.cert_path cs.key_path)
served load cs (some name) =
    let default = or_default cs.default_cert (load cs.cert_path cs.key_path) in
    if str_eq name ""
    then default
    else or_default default (or_else (last_loaded load name cs.sni_entries) (lookup name cs.certs))

module _ {C : Type 0} (load : Loader C) where
  lookup-reload_entry :
      (host : String) (e : SniCertEntry) (s : CertStore C × Option StoreError)
      → lookup host (reload_entry load e s).0.certs
        ≡ or_else
            (if str_eq e.hostname host then load e.cert_path e.key_path else none)
            (lookup host s.0.certs)
  unfolding reload_entry
  lookup-reload_entry host e s = elim (Option-cases (load e.cert_path e.key_path)) [
    | inl failed ↦ ground arith
    | inr (cert, loads) ↦ ground (arith, lookup-insert e.hostname host cert s.0.certs)
  ]

  pub lookup-reload_entries :
      (host : String) (entries : List SniCertEntry) (s : CertStore C × Option StoreError)
      → lookup host (reload_entries load entries s).0.certs
        ≡ or_else (last_loaded load host entries) (lookup host s.0.certs)
  unfolding reload_entries
  lookup-reload_entries host [] s = refl
  lookup-reload_entries host (e ∷ entries) s = ground (
    arith,
    lookup-reload_entry host e s,
    lookup-reload_entries host entries (reload_entry load e s),
  )

  pub reload_entries_frame :
      (entries : List SniCertEntry) (s : CertStore C × Option StoreError)
      → let t = (reload_entries load entries s).0 in
        (t.default_cert ≡ s.0.default_cert)
        × (t.cert_path ≡ s.0.cert_path)
        × (t.key_path ≡ s.0.key_path)
        × (t.sni_entries ≡ s.0.sni_entries)
  unfolding reload_entries reload_entry
  reload_entries_frame [] s = ground arith
  reload_entries_frame (e ∷ entries) s =
      ground (arith, reload_entries_frame entries (reload_entry load e s))

  -- After ReloadAll each handshake gets the newest certificate that loads for it, and the one that
  -- it had where none loads; the paths and entries stay as they are.
  pub get_certificate-reload_all :
      (cs : CertStore C) (hello : Option String)
      → (get_certificate (reload_all load cs).0 hello ≡ served load cs hello)
        × ((reload_all load cs).0.cert_path ≡ cs.cert_path)
        × ((reload_all load cs).0.key_path ≡ cs.key_path)
        × ((reload_all load cs).0.sni_entries ≡ cs.sni_entries)
  unfolding reload_all reload get_certificate
  get_certificate-reload_all cs none =
      ground (arith, reload_entries_frame (reload load cs).0.sni_entries (reload load cs))
  get_certificate-reload_all cs (some name) = ground (
    arith,
    reload_entries_frame (reload load cs).0.sni_entries (reload load cs),
    lookup-reload_entries name (reload load cs).0.sni_entries (reload load cs),
  )
