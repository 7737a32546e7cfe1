-- ===== src/Examples/Main.antt =====
-- The program with a plaintext TCP proxy, and with an empty server.type.
use tlspxy.Common.{
  ◌≡◌, refl, String, str_eq, [], Option, none, some, if◌then◌else◌, is_space, trim_left, trim_space,
  true, false,
}
use tlspxy.Common.Result.{ok}
use tlspxy.Config.Koanf.{Koanf, set_string}
use tlspxy.Config.Sources.{
  FileSystem, parse_config_paths, load_configs_from_dir, load_extra_paths, get_config,
}
use tlspxy.Config.Validate.{
  check_first_part, check_addresses, check_server_tls, check_remote_tls, check_url, check_duration,
  normalize_level, folds_to_warning, check_second_part, check_http2, check_version, check_suites,
  check_proxy_protocol, check_version_order, validate_config,
}
use tlspxy.Config.Validate.Accepts.{IsValidConfig}
use tlspxy.Tls.Versions.{parse_tls_version, parse_cipher_suites}
use tlspxy.Tls.Options.{parse_tls_options}
use tlspxy.Tls.CertStore.{CertStore}
use tlspxy.Tls.Host.{TlsConfig}
use tlspxy.Tls.Server.{plain, get_server_config, select_config, config_server}
use tlspxy.Tls.Remote.{base_config, config_remote}
use tlspxy.Service.Metrics.{init, new_metrics, must_register, metric_names, start_server}
use tlspxy.Service.Logging.{level_of, log_dest, configure}
use tlspxy.Startup.{
  Surroundings, serves_http, metrics_panics, watch_certs, choose_server, set_up_tls, set_up_metrics,
  set_up_listener, run_loaded, run_main, unknown_server_type,
}
use tlspxy.Startup.Http.{HttpServer, Http2, http_setup}
use tlspxy.Startup.Http.Settings.{HasSettings}
use tlspxy.Startup.Http.Served.{run_main-HasSettings}
use tlspxy.Startup.Laws.{served_with, layered, run_main-served}
use tlspxy.Startup.Exits.{serves_nothing, run_loaded-exits}
use tlspxy.Examples.Config.{table, env, bare, targets}

abbrev pub of_type : String → Koanf
of_type type = record bare {
  string = λ key.
      if str_eq key "server.type"
      then type
      else if str_eq key "server.addr"
      then ":9898"
      else if str_eq key "remote.addr"
      then "backend:1"
      else "";
}

abbrev no_files : FileSystem
no_files = record {
  read_dir = λ dir. none;
  stat = λ path. none;
  open_file = λ path. none;
  join = λ dir name. name;
}

abbrev around : Surroundings String String
around = record {
  args = [];
  dirname = [];
  files = no_files;
  store = record { defaults = some (of_type "tcp"); load_yaml = λ k path. none };
  load_env_vars = λ k. k;
  load_flags = λ k. k;
  flags_given = false;
  env = env;
  table = table;
  host = record {
    exists = λ path. false;
    read_file = λ path. none;
    load_key_pair = λ cert key. none;
    system_pool = none;
    new_pool = "";
    append_certs = λ pool pem. none;
  };
  targets = targets;
  valid_pattern = λ path. false;
  listens = λ addr. true;
  watcher_created = true;
  watches = λ dir. true;
  paths = record { abs = λ p. none; clean = λ p. p; dir = λ p. p };
}

abbrev no_store : Option (CertStore String)
no_store = none

abbrev no_remote : Option (TlsConfig String String)
no_remote = none

around_serves : served_with (run_main around) ≡ some (plain, no_store, no_remote)
unfolding run_main run_loaded set_up_listener set_up_metrics set_up_tls watch_certs choose_server
    get_config load_extra_paths load_configs_from_dir parse_config_paths validate_config
    check_first_part check_addresses check_server_tls check_remote_tls check_url check_duration
    normalize_level folds_to_warning check_second_part check_http2 check_version check_suites
    check_proxy_protocol check_version_order set_string parse_tls_version trim_space trim_left
    is_space parse_cipher_suites configure level_of log_dest config_server get_server_config
    select_config config_remote base_config parse_tls_options
around_serves = refl

abbrev around_web : Surroundings String String
around_web = record around {
  store = record { defaults = some (of_type "http"); load_yaml = λ k path. none };
}

around_web_serves : run_main around_web ≡ serves_http plain no_store no_remote
unfolding run_main run_loaded set_up_listener set_up_metrics set_up_tls watch_certs choose_server
    get_config load_extra_paths load_configs_from_dir parse_config_paths validate_config
    check_first_part check_addresses check_server_tls check_remote_tls check_url check_duration
    normalize_level folds_to_warning check_second_part check_http2 check_version check_suites
    check_proxy_protocol check_version_order set_string parse_tls_version trim_space trim_left
    is_space parse_cipher_suites configure level_of log_dest config_server get_server_config
    select_config config_remote base_config parse_tls_options
around_web_serves = refl

abbrev http2_fails : Http2
http2_fails = record { configures_server = false; configures_transport = false }

run_main-HasSettings_example :
    (loaded : Koanf) × (k : Koanf) × (srv : HttpServer String String) × (get_config around_web.store
        no_files []
        (parse_config_paths [])
      ≡ ok loaded)
    × (validate_config env table (layered around_web loaded) ≡ ok k)
    × (config_server table around_web.host k ≡ ok (plain, no_store))
    × (http_setup env http2_fails k no_remote ≡ some srv)
    × HasSettings env k no_remote srv
run_main-HasSettings_example = run_main-HasSettings around_web http2_fails around_web_serves

run_main-served_example :
    (loaded : Koanf) × (k : Koanf) × (get_config around.store no_files [] (parse_config_paths [])
      ≡ ok loaded)
    × IsValidConfig env table (layered around loaded)
    × (validate_config env table (layered around loaded) ≡ ok k)
    × (config_server table around.host k ≡ ok (plain, no_store))
    × (config_remote table around.host k ≡ ok no_remote)
    × (watch_certs around k no_store ≡ none)
    × (str_eq (k.string "server.addr") "" ≡ false)
run_main-served_example = run_main-served around plain no_store no_remote around_serves

untyped_ends : serves_nothing around (run_loaded around (of_type "")) ≡ true
unfolding run_loaded set_up_listener set_up_metrics set_up_tls watch_certs choose_server
    validate_config check_first_part check_addresses check_server_tls check_remote_tls check_url
    check_duration normalize_level folds_to_warning check_second_part check_http2 check_version
    check_suites check_proxy_protocol check_version_order set_string parse_tls_version trim_space
    trim_left is_space parse_cipher_suites configure level_of log_dest config_server
    get_server_config select_config config_remote base_config parse_tls_options
untyped_ends = refl

run_loaded-exits_example :
    ((of_type "").string "server.type" ≡ "")
    × (run_loaded around (of_type "") ≡ unknown_server_type)
    × IsValidConfig around.env around.table (of_type "")
run_loaded-exits_example = run_loaded-exits around (of_type "") untyped_ends

-- A path of the metrics without a slash passes the validation, and main panics.
abbrev slashless : Koanf
slashless = record (of_type "tcp") {
  bool = λ key. str_eq key "metrics.enable";
  string = λ key. if str_eq key "metrics.path" then "metrics" else (of_type "tcp").string key;
}

slashless_panics : run_loaded around slashless ≡ metrics_panics
unfolding run_loaded set_up_listener set_up_metrics validate_config check_first_part check_addresses
    check_server_tls check_remote_tls check_url check_duration normalize_level folds_to_warning
    check_second_part check_http2 check_version check_suites check_proxy_protocol
    check_version_order set_string parse_tls_version trim_space trim_left is_space
    parse_cipher_suites configure level_of log_dest init new_metrics must_register metric_names
    start_server
slashless_panics = refl
