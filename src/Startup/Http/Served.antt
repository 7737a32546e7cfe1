-- ===== src/Startup/Http/Served.antt =====
-- The HTTP server that main.go comes to, from the command line on.
use tlspxy.Common.{◌≡◌, ap, arith, eq_iff, Bool, true, false, Option, some, inl, inr, Option-cases}
use tlspxy.Common.Result.{Result-cases, ok}
use tlspxy.Config.Koanf.{Koanf}
use tlspxy.Config.Sources.{get_config, parse_config_paths}
use tlspxy.Config.Validate.{validate_config}
use tlspxy.Tls.CertStore.{CertStore}
use tlspxy.Tls.Host.{TlsConfig}
use tlspxy.Tls.Server.{Listener, config_server}
use tlspxy.Tls.Remote.{config_remote}
use tlspxy.Startup.{
  Surroundings, Outcome, serves_http, choose_server, watch_certs, set_up_tls, set_up_metrics,
  set_up_listener, run_loaded, run_main,
}
use tlspxy.Startup.Laws.{served_with, layered, run_main-served}
use tlspxy.Startup.Http.{HttpServer, Http2, http_setup}
use tlspxy.Startup.Http.Settings.{IsWeb, HasSettings, http_setup-validated}

abbrev over_http : {C P : Type 0} → Outcome C P → Bool
over_http (serves_http l store remote) = true
over_http _ = false

module _ {C P : Type 0} (s : Surroundings C P) where
  choose_server-IsWeb :
      (k : Koanf) (l : Listener C P) (store : Option (CertStore C))
      (remote : Option (TlsConfig C P))
      → over_http (choose_server s k l store remote) ≡ true
      → IsWeb k
  unfolding choose_server
  choose_server-IsWeb k l store remote h =
      ground
        (arith, eq_iff (k.string "server.type") "http", eq_iff (k.string "server.type") "https")

  set_up_tls-IsWeb : (k : Koanf) → over_http (set_up_tls s k) ≡ true → IsWeb k
  unfolding set_up_tls
  set_up_tls-IsWeb k h = elim (Result-cases (config_server s.table s.host k)) [
    | inr (e, failed) ↦ absurd (ground (arith, failed))
    | inl ((l, store), listens) ↦ elim (Result-cases (config_remote s.table s.host k)) [
      | inr (e, failed) ↦ absurd (ground (arith, listens, failed))
      | inl (remote, dials) ↦ elim (Option-cases (watch_certs s k store)) [
        | inr (e, failed) ↦ absurd (ground (arith, listens, dials, failed))
        | inl watches ↦
            choose_server-IsWeb k l store remote (ground (arith, listens, dials, watches))
      ]
    ]
  ]

  set_up_listener-IsWeb : (k : Koanf) → over_http (set_up_listener s k) ≡ true → IsWeb k
  unfolding set_up_listener set_up_metrics
  set_up_listener-IsWeb k h = set_up_tls-IsWeb k (ground arith)

  run_loaded-IsWeb :
      (k k' : Koanf)
      → validate_config s.env s.table k ≡ ok k'
      → over_http (run_loaded s k) ≡ true
      → IsWeb k'
  unfolding run_loaded
  run_loaded-IsWeb k k' accepted h = set_up_listener-IsWeb k' (ground (arith, accepted))

  -- If main serves HTTP, then for some configuration that GetConfig, the environment variables, the
  -- flags and ValidateConfig give without an error, the listener with its certificates is what
  -- ConfigServer makes of it, and the server, which is set up from it and from the TLS of the
  -- backend, has the backend, the timeouts, the limit and the HTTP/2 setting of that configuration,
  -- whatever the two http2 packages do.
  pub run_main-HasSettings :
      (ops : Http2) {l : Listener C P} {store : Option (CertStore C)}
      {remote : Option (TlsConfig C P)}
      → run_main s ≡ serves_http l store remote
      → (loaded : Koanf) × (k : Koanf) × (srv : HttpServer C P) × (get_config s.store s.files
            s.dirname
            (parse_config_paths s.args)
          ≡ ok loaded)
        × (validate_config s.env s.table (layered s loaded) ≡ ok k)
        × (config_server s.table s.host k ≡ ok (l, store))
        × (http_setup s.env ops k remote ≡ some srv)
        × HasSettings s.env k remote srv
  unfolding run_main
  run_main-HasSettings ops {l} {store} {remote} h =
      let (loaded, k, found, valid, accepted, server, backend, watched, addr) =
        run_main-served s l store remote (ap served_with h) in
      let web = run_loaded-IsWeb (layered s loaded) k accepted (ground (arith, found)) in
      let (srv, made, has, same) =
        http_setup-validated s.env s.table ops (layered s loaded) k remote "" accepted web in
      (loaded, k, srv, found, accepted, server, made, has)
