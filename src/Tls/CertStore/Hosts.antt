-- ===== src/Tls/CertStore/Hosts.antt =====
-- The hosts of the map of certificates over the life of a store.
use tlspxy.Common.{String, List, [], ◌∷◌, lookup, lookup-insert, ◌≡◌, arith, Option-cases, inl, inr}
use tlspxy.Common.Result.{ok}
use tlspxy.Tls.CertStore.{
  SniCertEntry, CertStore, Loader, add_sni_cert, new_cert_store, load_cert_store, reload,
  reload_all,
}
use tlspxy.Tls.CertStore.Lookup.{lookup-reload_entries, reload_entries_frame}
use tlspxy.Tls.CertStore.Reload.{
  IsConsistent, has_host-append, last_loaded-has_host, has_host-last_loaded, lookup-add_sni_certs,
}

-- What happens to a store while the server runs, each load with what the files hold by then.
pub data StoreOp (C : Type 0) : Type 0 where
  add_sni : Loader C → SniCertEntry → StoreOp C
  reload_default : Loader C → StoreOp C
  reload_everything : Loader C → StoreOp C

module _ {C : Type 0} where
  unfoldable pub run_op : StoreOp C → CertStore C → CertStore C
  run_op (add_sni load e) cs = (add_sni_cert load cs e).0
  run_op (reload_default load) cs = (reload load cs).0
  run_op (reload_everything load) cs = (reload_all load cs).0

  unfoldable pub run_ops : List (StoreOp C) → CertStore C → CertStore C
  unfolding run_op
  run_ops [] cs = cs
  run_ops (op ∷ ops) cs = run_ops ops (run_op op cs)

  reload_all-IsConsistent :
      (load : Loader C) (cs : CertStore C) → IsConsistent cs → IsConsistent (reload_all load cs).0
  unfolding reload_all reload
  reload_all-IsConsistent load cs h host = ground (
    arith,
    h host,
    last_loaded-has_host load host cs.sni_entries,
    lookup-reload_entries load host (reload load cs).0.sni_entries (reload load cs),
    reload_entries_frame load (reload load cs).0.sni_entries (reload load cs),
  )

  add_sni_cert-IsConsistent :
      (load : Loader C) (e : SniCertEntry) (cs : CertStore C)
      → IsConsistent cs
      → IsConsistent (add_sni_cert load cs e).0
  unfolding add_sni_cert
  add_sni_cert-IsConsistent load e cs h host = elim (Option-cases (load e.cert_path e.key_path)) [
    | inl failed ↦ ground (arith, h host)
    | inr (cert, loads) ↦ ground (
      arith,
      h host,
      lookup-insert e.hostname host cert cs.certs,
      has_host-append host cs.sni_entries (e ∷ []),
    )
  ]

  run_op-IsConsistent :
      (op : StoreOp C) (cs : CertStore C) → IsConsistent cs → IsConsistent (run_op op cs)
  unfolding run_op reload
  run_op-IsConsistent (add_sni load e) cs h = add_sni_cert-IsConsistent load e cs h
  run_op-IsConsistent (reload_default load) cs h = λ host. ground (arith, h host)
  run_op-IsConsistent (reload_everything load) cs h = reload_all-IsConsistent load cs h

  run_ops-keeps :
      (ops : List (StoreOp C)) (cs : CertStore C) → IsConsistent cs → IsConsistent (run_ops ops cs)
  unfolding run_ops
  run_ops-keeps [] cs h = h
  run_ops-keeps (op ∷ ops) cs h = run_ops-keeps ops (run_op op cs) (run_op-IsConsistent op cs h)

  load_cert_store-IsConsistent :
      (load : Loader C) (cert_path key_path : String) (entries : List SniCertEntry)
      (cs : CertStore C)
      → load_cert_store load cert_path key_path entries ≡ ok cs
      → IsConsistent cs
  unfolding load_cert_store new_cert_store lookup
  load_cert_store-IsConsistent load cert_path key_path entries cs h host =
      elim (Option-cases (load cert_path key_path)) [
        | inl failed ↦ ground arith
        | inr (cert, loads) ↦
            let start : CertStore C = record {
              default_cert = cert;
              certs = [];
              cert_path = cert_path;
              key_path = key_path;
              sni_entries = [];
            } in
            let facts = lookup-add_sni_certs load host entries start cs (ground arith) in
            ground (arith, facts, has_host-last_loaded load host entries facts.3)
      ]

  -- From a loaded store, whatever is added and reloaded and whatever the files hold by then, the
  -- map of certificates has exactly the hosts of the entries.
  pub run_ops-IsConsistent :
      (load : Loader C) (cert_path key_path : String) (entries : List SniCertEntry)
      (cs : CertStore C) (ops : List (StoreOp C))
      → load_cert_store load cert_path key_path entries ≡ ok cs
      → IsConsistent (run_ops ops cs)
  run_ops-IsConsistent load cert_path key_path entries cs ops h =
      run_ops-keeps ops cs (load_cert_store-IsConsistent load cert_path key_path entries cs h)
