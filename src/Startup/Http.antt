-- ===== src/Startup/Http.antt =====
-- The HTTP branch of main.go: the transport to the backend, the handler and the server. Go's net/http
-- and its http2 package are parameters: what they do with the settings is not modelled.
pub mod Settings
pub mod Served
use tlspxy.Common.{String, str_eq, Bool, true, false, ◌&&◌, Option, none, some, if◌then◌else◌, ◌==◌}
use tlspxy.Config.Koanf.{ℤ, pos, negsuc, Koanf}
use tlspxy.Config.Validate.{Url, Env, duration}
use tlspxy.Tls.Host.{TlsConfig}
use tlspxy.Proxy.Rewrite.{Answer, forwarded, check_middleware}
use tlspxy.Limit.Http.{Hook, new_hook}

-- http.Transport; a timeout of 0 is no bound.
pub record BackendTransport (C P : Type 0) : Type 0 where
  pub dial_timeout : ℤ
  pub tls_client_config : Option (TlsConfig C P)
  pub tls_handshake_timeout : ℤ
  pub response_header_timeout : ℤ
  pub idle_conn_timeout : ℤ
  pub http2 : Bool

-- http.Server with its handler: the reverse proxy to `target`, behind the health check where there is
-- one.
pub record HttpServer (C P : Type 0) : Type 0 where
  pub target : Url
  pub trust_xff : Bool
  pub show_content : Bool
  pub transport : BackendTransport C P
  pub healthcheck : Option String
  pub read_timeout : ℤ
  pub write_timeout : ℤ
  pub idle_timeout : ℤ
  -- The ConnState hook; `none` where there is no limit.
  pub limit : Option Hook
  pub http2 : Bool

-- Whether http2.ConfigureServer and http2.ConfigureTransport succeed: an error of theirs is logged.
pub record Http2 : Type 0 where
  pub configures_server : Bool
  pub configures_transport : Bool

-- `if maxConns := …; maxConns > 0 { … srv.ConnState = … }`.
unfoldable pub limit_hook : ℤ → Option Hook
limit_hook (pos n) = if n == 0 then none else some (new_hook n)
limit_hook (negsuc n) = none

module _ {C P : Type 0} (env : Env) where
  unfoldable pub backend_transport : Koanf → Option (TlsConfig C P) → BackendTransport C P
  backend_transport k remote = record {
    dial_timeout = duration env k "remote.timeouts.dial";
    tls_client_config = remote;
    tls_handshake_timeout = duration env k "remote.timeouts.dial";
    response_header_timeout = duration env k "server.timeouts.read";
    idle_conn_timeout = duration env k "server.timeouts.idle";
    http2 = false;
  }

  -- `if k.Bool("server.http2") { … }`.
  unfoldable pub configure_http2 : Http2 → Koanf → HttpServer C P → HttpServer C P
  configure_http2 ops k srv =
      if k.bool "server.http2"
      then record srv {
        http2 = ops.configures_server;
        transport = record srv.transport { http2 = ops.configures_transport };
      }
      else srv

  -- The server with its handler, before HTTP/2.
  unfoldable pub new_http_server : Koanf → Option (TlsConfig C P) → Url → HttpServer C P
  new_http_server k remote target =
      let path = k.string "server.healthcheck" in
      record {
        target = target;
        trust_xff = k.bool "server.trustxff";
        show_content = k.bool "log.contents";
        transport = backend_transport k remote;
        healthcheck = if str_eq path "" then none else some path;
        read_timeout = duration env k "server.timeouts.read";
        write_timeout = duration env k "server.timeouts.write";
        idle_timeout = duration env k "server.timeouts.idle";
        limit = limit_hook (k.int "server.maxconns");
        http2 = false;
      }

  -- The branch up to Serve; `none` where remote.addr does not parse.
  unfoldable pub http_setup : Http2 → Koanf → Option (TlsConfig C P) → Option (HttpServer C P)
  http_setup ops k remote = elim (env.parse_url (k.string "remote.addr")) [
    | none ↦ none
    | some target ↦ some (configure_http2 ops k (new_http_server k remote target))
  ]

-- Who answers a request for a path.
unfoldable pub answer_of : {C P : Type 0} → HttpServer C P → String → Answer
answer_of srv path = elim srv.healthcheck [
  | none ↦ forwarded
  | some health ↦ check_middleware health path
]
