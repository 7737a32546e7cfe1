-- ===== src/Examples/Certs.antt =====
-- A store with a default certificate and one for "a.test", over files that hold numbers as their
-- certificates.
use tlspxy.Common.{
  ℕ, String, str_eq, true, false, [], ◌∷◌, Option, none, some, if◌then◌else◌, ◌≡◌, refl, lookup,
  insert, ◌+◌,
}
use tlspxy.Common.Result.{ok}
use tlspxy.Tls.CertStore.{
  SniCertEntry, CertStore, Loader, new_cert_store, add_sni_certs, add_sni_cert, load_cert_store,
  reload, reload_entry, reload_entries, reload_all, get_certificate,
}
use tlspxy.Tls.CertStore.Lookup.{served, get_certificate-reload_all}
use tlspxy.Tls.CertStore.Reload.{IsConsistent, reload_all-load_cert_store}
use tlspxy.Tls.CertStore.Hosts.{reload_everything, run_ops, run_ops-IsConsistent}
use tlspxy.Tls.Watcher.{
  PathOps, FsEvent, Watcher, watch, relevant_event, cert_file_paths, absolute_paths, absolute,
  entry_paths, parent_dirs, Watches, here, next, event, on_event,
}
use tlspxy.Tls.Watcher.Debounce.{
  any_relevant, on_events, window_open, relevants, reload_after_burst,
}

abbrev entry : SniCertEntry
entry = record { hostname = "a.test"; cert_path = "/certs/a.crt"; key_path = "/certs/a.key" }

-- The files at the start, and after the certificate of "a.test" was replaced.
abbrev old_files : Loader ℕ
old_files cert key = if str_eq cert "/certs/d.crt" then some 1 else some 2

abbrev new_files : Loader ℕ
new_files cert key = if str_eq cert "/certs/d.crt" then some 1 else some 3

-- A moment when the certificate of "a.test" is missing.
abbrev broken_files : Loader ℕ
broken_files cert key = if str_eq cert "/certs/d.crt" then some 4 else none

abbrev store : CertStore ℕ
store = record {
  default_cert = 1;
  certs = ("a.test", 2) ∷ [];
  cert_path = "/certs/d.crt";
  key_path = "/certs/d.key";
  sni_entries = entry ∷ [];
}

store_loads : load_cert_store old_files "/certs/d.crt" "/certs/d.key" (entry ∷ []) ≡ ok store
unfolding load_cert_store new_cert_store add_sni_certs add_sni_cert insert
store_loads = refl

store-IsConsistent : IsConsistent store
unfolding run_ops
store-IsConsistent =
    run_ops-IsConsistent old_files "/certs/d.crt" "/certs/d.key" (entry ∷ []) store [] store_loads

new_reload_succeeds : (reload_all new_files store).1 ≡ none
unfolding reload_all reload reload_entries reload_entry insert
new_reload_succeeds = refl

run_ops-IsConsistent_example : IsConsistent (run_ops (reload_everything broken_files ∷ []) store)
run_ops-IsConsistent_example =
    run_ops-IsConsistent old_files "/certs/d.crt" "/certs/d.key" (entry ∷ []) store
      (reload_everything broken_files ∷ []) store_loads

reload_all-load_cert_store_example :
    (fresh : CertStore ℕ) × (load_cert_store new_files "/certs/d.crt" "/certs/d.key" (entry ∷ [])
      ≡ ok fresh)
    × ((hello : Option String)
        → get_certificate (reload_all new_files store).0 hello ≡ get_certificate fresh hello)
reload_all-load_cert_store_example =
    reload_all-load_cert_store new_files store store-IsConsistent new_reload_succeeds

get_certificate-reload_all_example :
    (get_certificate (reload_all broken_files store).0 (some "a.test")
      ≡ served broken_files store (some "a.test"))
    × ((reload_all broken_files store).0.cert_path ≡ "/certs/d.crt")
    × ((reload_all broken_files store).0.key_path ≡ "/certs/d.key")
    × ((reload_all broken_files store).0.sni_entries ≡ entry ∷ [])
get_certificate-reload_all_example = get_certificate-reload_all broken_files store (some "a.test")

-- The certificate is kept where its files do not load.
served_kept : served broken_files store (some "a.test") ≡ 2
unfolding lookup
served_kept = refl

abbrev paths : PathOps
paths = record {
  abs = λ p. some p;
  clean = λ p. p;
  dir = λ p. if str_eq p "/tmp/x" then "/tmp" else "/certs";
}

abbrev at_key : FsEvent
at_key = record { name = "/certs/a.key"; create = false }

abbrev swap : FsEvent
swap = record { name = "/certs/..data"; create = true }

abbrev elsewhere : FsEvent
elsewhere = record { name = "/tmp/x"; create = true }

abbrev idle : Watcher ℕ
unfolding watch
idle = watch paths store

one_event : Watches paths (watch paths store) (on_event paths swap (watch paths store))
unfolding watch
one_event = next here (event (watch paths store) swap refl)

swap_relevant : any_relevant paths idle (elsewhere ∷ swap ∷ []) ≡ true
unfolding watch relevant_event cert_file_paths absolute_paths absolute entry_paths parent_dirs
swap_relevant = refl

idle_running : idle.stopped ≡ false
unfolding watch
idle_running = refl

abbrev burst_over : Watcher ℕ
burst_over = on_events paths (elsewhere ∷ swap ∷ []) idle

burst_running : burst_over.stopped ≡ false
unfolding watch on_event relevant_event cert_file_paths absolute_paths absolute entry_paths
    parent_dirs
burst_running = refl

nothing_yet : Watches paths burst_over burst_over
nothing_yet = here

nothing_since : relevants paths nothing_yet ≡ 0
unfolding relevants nothing_yet
nothing_since = refl

reload_after_burst_example :
    (burst_over ≡ window_open paths idle)
    × (burst_over.reloads ≡ (if burst_over.timer_active then idle.reloads else idle.reloads + 1))
    × ((v : Watcher ℕ) × Watches paths burst_over v
        × (v.timer_active ≡ false)
        × (v.reloads ≡ idle.reloads + 1)
        × (v.store ≡ (
            if burst_over.timer_active
            then (reload_all new_files idle.store).0
            else burst_over.store)))
reload_after_burst_example =
    reload_after_burst paths new_files idle (elsewhere ∷ swap ∷ []) swap_relevant nothing_yet
      nothing_since burst_running
