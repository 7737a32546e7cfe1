-- ===== src/Loadtest/Harness/Setup.antt =====
-- NewHarness, setupTCP, setupHTTP, Close and TriggerReload of internal/loadtest/harness.go, step by step.
use tlspxy.Common.{String, str_eq, Bool, true, false, ◌||◌, ◌∷◌, Option, none, some, if◌then◌else◌}
use tlspxy.Common.Result.{ok, err}
use tlspxy.Tls.CertStore.{reload_all}
use tlspxy.Tls.Host.{Host}
use tlspxy.Tls.Server.{over_tls}
use tlspxy.Loadtest.Harness.{
  HarnessConfig, client_tls, backend_tls, remote_tls, proxy_tls, backend_listen, proxy_listen,
  bad_backend_url, unsupported_mode, Net, build_client_tls_conf, build_backend_tls_conf,
  build_remote_tls_conf, wrap_with_server_tls, Life, unset, running, ended, Goroutine, echo_loop,
  proxy_loop, backend_closer, serve_loop, TestHarness, response_length, After, empty_harness,
  cancel,
}

-- `if err != nil { return err }` between two steps.
infixl 5 ◌>>>◌
abbrev pub ◌>>>◌ : {C P : Type 0} → After C P → (TestHarness C P → After C P) → After C P
(h, none) >>> f = f h
(h, some e) >>> f = (h, some e)

module _ {C P : Type 0} where
  -- `cancel(); return nil, err`.
  unfoldable pub cancel_on_error : After C P → After C P
  cancel_on_error (h, none) = (h, none)
  cancel_on_error (h, some e) = (cancel h, some e)

  unfoldable pub go : Goroutine → TestHarness C P → After C P
  go g h = (record h { wg = g ∷ h.wg }, none)

module _ {C P : Type 0} (host : Host C P) (net : Net) (cfg : HarnessConfig) where
  -- The backend's listener.
  unfoldable pub listen_backend : TestHarness C P → After C P
  listen_backend h = elim net.backend_addr [
    | none ↦ (h, some backend_listen)
    | some addr ↦ (record h { backend_ln = running }, none)
  ]

  -- `if cfg.RemoteTLS { … }`, on the side of the backend.
  unfoldable pub wrap_backend : TestHarness C P → After C P
  wrap_backend h =
      if cfg.remote_tls
      then elim (build_backend_tls_conf host net cfg) [
        | err e ↦ (h, some (backend_tls e))
        | ok conf ↦ (record h { backend_conf = some conf }, none)
      ]
      else (h, none)

  unfoldable pub listen_proxy : TestHarness C P → After C P
  listen_proxy h = elim net.proxy_addr [
    | none ↦ (h, some proxy_listen)
    | some addr ↦ (record h { proxy_ln = running }, none)
  ]

  -- `if cfg.ServerTLS { … }`: the store stays where the rest fails.
  unfoldable pub wrap_proxy : TestHarness C P → After C P
  wrap_proxy h =
      let wrapped = wrap_with_server_tls host net cfg in
      if cfg.server_tls
      then elim wrapped.1 [
        | err e ↦ (record h { cert_store = wrapped.0 }, some (proxy_tls e))
        | ok conf ↦ (record h { cert_store = wrapped.0; proxy_listener = over_tls conf }, none)
      ]
      else (h, none)

  -- h.ProxyAddr of the listener that is there.
  unfoldable pub set_proxy_addr : TestHarness C P → After C P
  set_proxy_addr h = elim net.proxy_addr [
    | none ↦ (h, none)
    | some addr ↦ (record h { proxy_addr = addr }, none)
  ]

  -- `if cfg.RemoteTLS { … }`, on the side of the proxy.
  unfoldable pub set_remote : TestHarness C P → After C P
  set_remote h =
      if cfg.remote_tls
      then elim (build_remote_tls_conf host net cfg) [
        | err e ↦ (h, some (remote_tls e))
        | ok conf ↦ (record h { remote_tls_conf = some conf }, none)
      ]
      else (h, none)

  unfoldable pub setup_tcp : TestHarness C P → After C P
  setup_tcp h =
      listen_backend h
      >>> wrap_backend
      >>> go echo_loop
      >>> listen_proxy
      >>> wrap_proxy
      >>> set_proxy_addr
      >>> set_remote
      >>> go proxy_loop

  -- httptest.NewServer.
  unfoldable pub start_http_backend : TestHarness C P → After C P
  start_http_backend h =
      (record h { http_backend = running; response_body = response_length cfg.response_size }, none)

  unfoldable pub parse_backend_url : TestHarness C P → After C P
  parse_backend_url h = if net.parses net.backend_url then (h, none) else (h, some bad_backend_url)

  unfoldable pub create_server : TestHarness C P → After C P
  create_server h = (record h { srv = running }, none)

  unfoldable pub setup_http : TestHarness C P → After C P
  setup_http h =
      start_http_backend h
      >>> go backend_closer
      >>> parse_backend_url
      >>> listen_proxy
      >>> wrap_proxy
      >>> set_proxy_addr
      >>> create_server
      >>> go serve_loop

  -- The client's config, if the proxy has TLS.
  unfoldable pub set_client : TestHarness C P → After C P
  set_client h =
      if cfg.server_tls
      then elim (build_client_tls_conf host net cfg) [
        | err e ↦ (h, some (client_tls e))
        | ok conf ↦ (record h { client_tls_conf = some conf }, none)
      ]
      else (h, none)

  -- The switch on the mode.
  unfoldable pub setup : TestHarness C P → After C P
  setup h =
      if str_eq cfg.mode "tcp"
      then setup_tcp h
      else if str_eq cfg.mode "http"
      then setup_http h
      else (h, some (unsupported_mode cfg.mode))

  -- NewHarness. What it has made stays behind an error, although its caller does not get it.
  unfoldable pub new_harness : After C P
  new_harness = cancel_on_error (set_client empty_harness >>> setup)

-- `if x != nil { x.Close() }`.
abbrev pub close_life : Life → Life
close_life unset = unset
close_life running = ended
close_life ended = ended

abbrev pub is_ended : Life → Bool
is_ended unset = false
is_ended running = false
is_ended ended = true

module _ {C P : Type 0} where
  -- Close, up to its wait.
  unfoldable pub close : TestHarness C P → TestHarness C P
  close h = record h {
    context = ended;
    proxy_ln = close_life h.proxy_ln;
    backend_ln = close_life h.backend_ln;
    srv = close_life h.srv;
  }

  -- Whether a goroutine comes to its end: Accept fails once its listener is closed, Serve returns once
  -- its listener or its server is, and the closer waits for the context.
  unfoldable pub ends : Goroutine → TestHarness C P → Bool
  ends echo_loop h = is_ended h.backend_ln
  ends proxy_loop h = is_ended h.proxy_ln
  ends backend_closer h = is_ended h.context
  ends serve_loop h = is_ended h.proxy_ln || is_ended h.srv

  -- TriggerReload: whether it returns without an error.
  unfoldable pub trigger_reload :
      (String → String → Option C) → TestHarness C P → TestHarness C P × Bool
  trigger_reload load h = elim h.cert_store [
    | none ↦ (h, false)
    | some cs ↦
        let r = reload_all load cs in
        (record h { cert_store = some r.0 }, (elim r.1 [ none ↦ true | some e ↦ false ]))
  ]
