-- ===== src/Startup/Laws.antt =====
-- What the start of main.go promises: it fails closed.
use tlspxy.Common.{◌≡◌, arith, str_eq, false, Option, none, some, ◌⊎◌, Option-cases, inl, inr}
use tlspxy.Common.Result.{Result-cases, ok}
use tlspxy.Config.Koanf.{Koanf}
use tlspxy.Config.Sources.{get_config, parse_config_paths}
use tlspxy.Config.Validate.{validate_config}
use tlspxy.Config.Validate.Accepts.{IsValidConfig, validate_config_iff}
use tlspxy.Tls.CertStore.{CertStore}
use tlspxy.Tls.Host.{TlsConfig}
use tlspxy.Tls.Server.{Listener, config_server}
use tlspxy.Tls.Remote.{config_remote}
use tlspxy.Startup.{
  Surroundings, Outcome, serves_tcp, serves_http, choose_server, watch_certs, set_up_tls,
  set_up_metrics, set_up_listener, run_loaded, run_main,
}

-- What is served, if anything is.
abbrev pub served_with :
    {C P : Type 0}
    → Outcome C P
    → Option (Listener C P × Option (CertStore C) × Option (TlsConfig C P))
served_with (serves_tcp l store remote) = some (l, store, remote)
served_with (serves_http l store remote) = some (l, store, remote)
served_with _ = none

module _ {C P : Type 0} (s : Surroundings C P) where
  choose_server_lem :
      (k : Koanf) (l : Listener C P) (store : Option (CertStore C))
      (remote : Option (TlsConfig C P))
      → (served_with (choose_server s k l store remote) ≡ none)
        ⊎ (served_with (choose_server s k l store remote) ≡ some (l, store, remote))
  unfolding choose_server
  choose_server_lem k l store remote = ground arith

  tls_served :
      (k : Koanf) (l : Listener C P) (store : Option (CertStore C))
      (remote : Option (TlsConfig C P))
      → served_with (set_up_tls s k) ≡ some (l, store, remote)
      → (config_server s.table s.host k ≡ ok (l, store))
        × (config_remote s.table s.host k ≡ ok remote)
        × (watch_certs s k store ≡ none)
  unfolding set_up_tls
  tls_served k l store remote h = elim (Result-cases (config_server s.table s.host k)) [
    | inr (e, failed) ↦ absurd (ground (arith, failed))
    | inl ((l', store'), listens) ↦ elim (Result-cases (config_remote s.table s.host k)) [
      | inr (e, failed) ↦ absurd (ground (arith, listens, failed))
      | inl (remote', dials) ↦ elim (Option-cases (watch_certs s k store')) [
        | inr (e, failed) ↦ absurd (ground (arith, listens, dials, failed))
        | inl watches ↦
            ground (arith, listens, dials, watches, choose_server_lem k l' store' remote')
      ]
    ]
  ]

  listener_served :
      (k : Koanf) (l : Listener C P) (store : Option (CertStore C))
      (remote : Option (TlsConfig C P))
      → served_with (set_up_listener s k) ≡ some (l, store, remote)
      → (served_with (set_up_tls s k) ≡ some (l, store, remote))
        × (str_eq (k.string "server.addr") "" ≡ false)
  unfolding set_up_listener set_up_metrics
  listener_served k l store remote h = ground arith

  loaded_served :
      (k : Koanf) (l : Listener C P) (store : Option (CertStore C))
      (remote : Option (TlsConfig C P))
      → served_with (run_loaded s k) ≡ some (l, store, remote)
      → (k' : Koanf) × (validate_config s.env s.table k ≡ ok k')
        × (served_with (set_up_listener s k') ≡ some (l, store, remote))
  unfolding run_loaded
  loaded_served k l store remote h = elim (Result-cases (validate_config s.env s.table k)) [
    | inr (e, failed) ↦ absurd (ground (arith, failed))
    | inl (k', accepted) ↦ (k', accepted, ground (arith, accepted))
  ]

  -- The configuration after the environment variables and the flags.
  abbrev pub layered : Koanf → Koanf
  layered loaded = s.load_flags (s.load_env_vars loaded)

  main_served :
      (l : Listener C P) (store : Option (CertStore C)) (remote : Option (TlsConfig C P))
      → served_with (run_main s) ≡ some (l, store, remote)
      → (loaded : Koanf) × (get_config s.store s.files s.dirname (parse_config_paths s.args)
          ≡ ok loaded)
        × (served_with (run_loaded s (layered loaded)) ≡ some (l, store, remote))
  unfolding run_main
  main_served l store remote h =
      elim (Result-cases (get_config s.store s.files s.dirname (parse_config_paths s.args))) [
        | inr (e, failed) ↦ absurd (ground (arith, failed))
        | inl (loaded, found) ↦ (loaded, found, ground (arith, found))
      ]

  -- If main serves, by TCP or HTTP, then GetConfig has succeeded, the configuration with
  -- environment variables and flags is valid, the listener with its certificates and the TLS of the
  -- backend are what ConfigServer and ConfigRemote make of it without an error, the watcher of the
  -- certificates, where it is asked for, has started, and server.addr is not empty.
  pub run_main-served :
      (l : Listener C P) (store : Option (CertStore C)) (remote : Option (TlsConfig C P))
      → served_with (run_main s) ≡ some (l, store, remote)
      → (loaded : Koanf) × (k : Koanf) × (get_config s.store s.files s.dirname
            (parse_config_paths s.args)
          ≡ ok loaded)
        × IsValidConfig s.env s.table (layered loaded)
        × (validate_config s.env s.table (layered loaded) ≡ ok k)
        × (config_server s.table s.host k ≡ ok (l, store))
        × (config_remote s.table s.host k ≡ ok remote)
        × (watch_certs s k store ≡ none)
        × (str_eq (k.string "server.addr") "" ≡ false)
  run_main-served l store remote h =
      let (loaded, found, runs) = main_served l store remote h in
      let (k, accepted, listens) = loaded_served (layered loaded) l store remote runs in
      let (tls, addr) = listener_served k l store remote listens in
      let (server, backend, watched) = tls_served k l store remote tls in
      let valid = ((validate_config_iff s.env s.table (layered loaded) k).0 accepted).0 in
      (loaded, k, found, valid, accepted, server, backend, watched, addr)
