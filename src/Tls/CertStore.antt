-- ===== src/Tls/CertStore.antt =====
-- internal/tls/certstore.go: the certificates that a server chooses from by SNI, and their reload.
-- `LoadX509KeyPair` of Go's crypto/tls is a parameter: what the files hold at one moment. The
-- lock is not modelled: each operation holds it for its whole access, so it runs as one step.
pub mod Lookup
pub mod Reload
pub mod Hosts
use tlspxy.Common.{
  ℕ, zero, suc, String, str_eq, Bool, true, false, List, [], ◌∷◌, ◌++◌, Option, none, some, lookup,
  insert, if◌then◌else◌,
}
use tlspxy.Common.Result.{Result, ok, err, or_err, ◌>>=◌}
use tlspxy.Config.Koanf.{
  Koanf, Value, absent, str, boolean, int, list, object, Items, nil, cons, Fields, end, field,
}

pub record SniCertEntry : Type 0 where
  pub hostname : String
  pub cert_path : String
  pub key_path : String

pub record CertStore (C : Type 0) : Type 0 where
  pub default_cert : C
  pub certs : List (String × C)
  pub cert_path : String
  pub key_path : String
  pub sni_entries : List SniCertEntry

pub data StoreError : Type 0 where
  loading : StoreError
  loading_sni : String → StoreError
  reloading : StoreError
  reloading_sni : String → StoreError

-- LoadX509KeyPair(certPath, keyPath); `none` is its error.
abbrev pub Loader : Type 0 → Type 0
Loader C = String → String → Option C

-- `if firstErr == nil { firstErr = err }`.
abbrev pub first : Option StoreError → StoreError → Option StoreError
first none e = some e
first (some f) e = some f

module _ {C : Type 0} where
  unfoldable pub new_cert_store : Loader C → String → String → Result StoreError (CertStore C)
  new_cert_store load cert_path key_path = do
    cert ← or_err (load cert_path key_path) loading
    ok (record {
      default_cert = cert;
      certs = [];
      cert_path = cert_path;
      key_path = key_path;
      sni_entries = [];
    })

  abbrev pub or_default : C → Option C → C
  or_default c none = c
  or_default c (some d) = d

  -- GetCertificate. `none` is a nil ClientHelloInfo, `some ""` one with no server name.
  unfoldable pub get_certificate : CertStore C → Option String → C
  get_certificate cs none = cs.default_cert
  get_certificate cs (some name) =
      if str_eq name "" then cs.default_cert else or_default cs.default_cert (lookup name cs.certs)

  -- A method returns the store and its error.
  unfoldable pub add_sni_cert :
      Loader C → CertStore C → SniCertEntry → CertStore C × Option StoreError
  add_sni_cert load cs e = elim (load e.cert_path e.key_path) [
    | none ↦ (cs, some (loading_sni e.hostname))
    | some cert ↦ (
      record cs { certs = insert e.hostname cert cs.certs; sni_entries = cs.sni_entries ++ e ∷ [] },
      none,
    )
  ]

  unfoldable pub reload : Loader C → CertStore C → CertStore C × Option StoreError
  reload load cs = elim (load cs.cert_path cs.key_path) [
    | none ↦ (cs, some reloading)
    | some cert ↦ (record cs { default_cert = cert }, none)
  ]

  -- One round of the loop of ReloadAll: a failed load keeps the certificate and goes on.
  unfoldable pub reload_entry :
      Loader C → SniCertEntry → CertStore C × Option StoreError → CertStore C × Option StoreError
  reload_entry load e (cs, first_err) = elim (load e.cert_path e.key_path) [
    | none ↦ (cs, first first_err (reloading_sni e.hostname))
    | some cert ↦ (record cs { certs = insert e.hostname cert cs.certs }, first_err)
  ]

  unfoldable pub reload_entries :
      Loader C
      → List SniCertEntry
      → CertStore C × Option StoreError
      → CertStore C × Option StoreError
  reload_entries load [] s = s
  reload_entries load (e ∷ entries) s = reload_entries load entries (reload_entry load e s)

  -- ReloadAll goes over a copy of the entries.
  unfoldable pub reload_all : Loader C → CertStore C → CertStore C × Option StoreError
  reload_all load cs =
      let (cs', first_err) = reload load cs in reload_entries load cs'.sni_entries (cs', first_err)

module _ {C : Type 0} where
  -- The loop of GetServerConfig (internal/tls/server.go) over the configured entries: the first
  -- error ends it.
  unfoldable pub add_sni_certs :
      Loader C → CertStore C → List SniCertEntry → Result StoreError (CertStore C)
  unfolding add_sni_cert
  add_sni_certs load cs [] = ok cs
  add_sni_certs load cs (e ∷ entries) =
      let added = add_sni_cert load cs e in
      let rest = add_sni_certs load added.0 entries in
      elim added.1 [ none ↦ rest | some problem ↦ err problem ]

  -- The store that a server starts with.
  unfoldable pub load_cert_store :
      Loader C → String → String → List SniCertEntry → Result StoreError (CertStore C)
  unfolding new_cert_store add_sni_certs
  load_cert_store load cert_path key_path entries = do
    cs ← new_cert_store load cert_path key_path
    add_sni_certs load cs entries

-- m[key].(string): the empty text where the key is missing or holds no text.
abbrev pub as_string : Value → String
as_string (str s) = s
as_string absent = ""
as_string (boolean b) = ""
as_string (int n) = ""
as_string (list items) = ""
as_string (object fields) = ""

unfoldable pub text_field : String → Fields → String
text_field key end = ""
text_field key (field j v fields) = if str_eq j key then as_string v else text_field key fields

pub data SniError : Type 0 where
  expected_map : ℕ → SniError
  hostname_required : ℕ → SniError
  cert_required : ℕ → SniError
  key_required : ℕ → SniError

unfoldable pub parse_sni_item : ℕ → Value → Result SniError SniCertEntry
unfolding text_field
parse_sni_item i (object m) =
    let hostname = text_field "hostname" m in
    let cert_path = text_field "cert" m in
    let key_path = text_field "key" m in
    if str_eq hostname ""
    then err (hostname_required i)
    else if str_eq cert_path ""
    then err (cert_required i)
    else if str_eq key_path ""
    then err (key_required i)
    else ok (record { hostname = hostname; cert_path = cert_path; key_path = key_path })
parse_sni_item i _ = err (expected_map i)

unfoldable pub parse_sni_items : ℕ → Items → Result SniError (List SniCertEntry)
unfolding parse_sni_item
parse_sni_items i nil = ok []
parse_sni_items i (cons item items) = do
  entry ← parse_sni_item i item
  entries ← parse_sni_items (suc i) items
  ok (entry ∷ entries)

-- What ParseSNIConfig does with `k.Get("server.tls.sni")`: what is no list counts as no entry.
unfoldable pub parse_sni_value : Value → Result SniError (List SniCertEntry)
unfolding parse_sni_items
parse_sni_value (list items) = parse_sni_items zero items
parse_sni_value _ = ok []

unfoldable pub parse_sni_config : Koanf → Result SniError (List SniCertEntry)
unfolding parse_sni_value
parse_sni_config k = parse_sni_value (k.get "server.tls.sni")
