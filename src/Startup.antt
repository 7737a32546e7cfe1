-- ===== src/Startup.antt =====
-- The start of main.go: what the program loads, checks and sets up, in order, and how it ends or what
-- it serves. The reads of environment variables and flags into koanf are parameters, and so is
-- whether the system lets it listen.
pub mod Laws
pub mod Exits
pub mod Handlers
pub mod Http
pub mod Shutdown
pub mod Serving
use tlspxy.Common.{
  ℕ, String, str_eq, Bool, true, false, not, ◌&&◌, ◌||◌, List, [], ◌∷◌, Option, none, some,
  if◌then◌else◌,
}
use tlspxy.Common.Result.{Result, ok, err}
use tlspxy.Config.Koanf.{Koanf}
use tlspxy.Config.Sources.{Text, FileSystem, ConfigStore, LoadError, parse_config_paths, get_config}
use tlspxy.Config.Validate.{Url, Env, ConfigError, validate_config}
use tlspxy.Tls.Versions.{CipherTable, is_empty}
use tlspxy.Tls.CertStore.{CertStore}
use tlspxy.Tls.Watcher.{PathOps, WatchError, start_watch}
use tlspxy.Tls.Host.{Host, TlsConfig}
use tlspxy.Tls.Server.{ServerError, Listener, config_server}
use tlspxy.Tls.Remote.{RemoteError, config_remote}
use tlspxy.Service.Metrics.{init, new_metrics, panics, listen_error, serving, start_server}
use tlspxy.Service.Logging.{LogTargets, Configured, configured, exits, configure}

-- The command line, and what surrounds the program. `flags_given` is flag.NFlag() != 0.
pub record Surroundings (C P : Type 0) : Type 0 where
  pub args : List Text
  pub dirname : Text
  pub files : FileSystem
  pub store : ConfigStore Koanf
  pub load_env_vars : Koanf → Koanf
  pub load_flags : Koanf → Koanf
  pub flags_given : Bool
  pub env : Env
  pub table : CipherTable
  pub host : Host C P
  pub targets : LogTargets
  -- Whether a pattern suits http.ServeMux.
  pub valid_pattern : String → Bool
  pub listens : String → Bool
  pub watcher_created : Bool
  pub watches : String → Bool
  pub paths : PathOps

-- The ends of the program before it serves, and what it serves.
pub data Outcome (C P : Type 0) : Type 0 where
  config_failed : LoadError → Outcome C P
  prints_help prints_config : Outcome C P
  invalid : ConfigError → Outcome C P
  logging_failed metrics_panics metrics_failed no_server_addr unresolved_addr listen_failed :
      Outcome C P
  server_tls_failed : ServerError → Outcome C P
  remote_tls_failed : RemoteError → Outcome C P
  watch_failed : WatchError → Outcome C P
  no_remote_addr bad_remote_url unknown_server_type : Outcome C P
  serves_tcp serves_http :
      Listener C P → Option (CertStore C) → Option (TlsConfig C P) → Outcome C P

module _ {C P : Type 0} (s : Surroundings C P) where
  -- The switch on server.type.
  unfoldable pub choose_server :
      Koanf → Listener C P → Option (CertStore C) → Option (TlsConfig C P) → Outcome C P
  choose_server k listener store remote =
      let type = k.string "server.type" in
      if str_eq type "tcp"
      then (if str_eq (k.string "remote.addr") ""
          then no_remote_addr
          else serves_tcp listener store remote)
      else if str_eq type "http" || str_eq type "https"
      then elim (s.env.parse_url (k.string "remote.addr")) [
        | none ↦ bad_remote_url
        | some u ↦ serves_http listener store remote
      ]
      else unknown_server_type

  -- The watcher of the certificates, if there are any and it is asked for.
  unfoldable pub watch_certs : Koanf → Option (CertStore C) → Option WatchError
  watch_certs k none = none
  watch_certs k (some store) =
      if k.bool "server.tls.autoreload"
      then elim (start_watch s.watcher_created s.watches s.paths store) [
        | ok w ↦ none
        | err e ↦ some e
      ]
      else none

  -- From the TLS of the listener on.
  unfoldable pub set_up_tls : Koanf → Outcome C P
  set_up_tls k = elim (config_server s.table s.host k) [
    | err e ↦ server_tls_failed e
    | ok (listener, store) ↦ elim (config_remote s.table s.host k) [
      | err e ↦ remote_tls_failed e
      | ok remote ↦ elim (watch_certs k store) [
        | some e ↦ watch_failed e
        | none ↦ choose_server k listener store remote
      ]
    ]
  ]

  -- The metrics, if they are enabled: the end that they lead to, if any.
  unfoldable pub set_up_metrics : Koanf → Option (Outcome C P)
  set_up_metrics k = if not (k.bool "metrics.enable") then none else elim (init new_metrics) [
    | none ↦ some metrics_panics
    | some m ↦
        elim (start_server s.valid_pattern s.listens (k.string "metrics.addr")
          (k.string "metrics.path")) [
            | panics ↦ some metrics_panics
            | listen_error ↦ some metrics_failed
            | serving ↦ none
          ]
  ]

  -- From the metrics on.
  unfoldable pub set_up_listener : Koanf → Outcome C P
  set_up_listener k =
      let addr = k.string "server.addr" in
      elim (set_up_metrics k) [
        | some end ↦ end
        | none ↦
            if str_eq addr ""
            then no_server_addr
            else if not (s.env.resolves addr)
            then unresolved_addr
            else if not (s.listens addr)
            then listen_failed
            else set_up_tls k
      ]

  -- From ValidateConfig on.
  unfoldable pub run_loaded : Koanf → Outcome C P
  run_loaded k = elim (validate_config s.env s.table k) [
    | err e ↦ invalid e
    | ok k' ↦ if k'.bool "validate" then prints_config else elim (configure s.targets k') [
      | exits ↦ logging_failed
      | configured level dest ↦ set_up_listener k'
    ]
  ]

  -- main.
  unfoldable pub run_main : Outcome C P
  run_main =
      let config_paths = parse_config_paths s.args in
      elim (get_config s.store s.files s.dirname config_paths) [
        | err e ↦ config_failed e
        | ok loaded ↦
            let k = s.load_flags (s.load_env_vars loaded) in
            if str_eq (k.string "remote.addr") "" && is_empty config_paths && not s.flags_given
            then prints_help
            else run_loaded k
      ]
