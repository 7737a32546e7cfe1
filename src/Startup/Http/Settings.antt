-- ===== src/Startup/Http/Settings.antt =====
-- The settings of the HTTP server that main.go starts from a valid configuration.
use tlspxy.Common.{
  ◌≡◌, refl, ap, ◌∙◌, arith, String, str_eq, false, Option, some, ◌⊎◌, inl, inr, Bool-cases,
}
use tlspxy.Common.Result.{ok}
use tlspxy.Config.Koanf.{ℤ, pos, Koanf, set_string}
use tlspxy.Config.Validate.{Url, duration_keys, Env, folds_to_warning, duration, validate_config}
use tlspxy.Config.Validate.Checks.{IsHttpUrl, All}
use tlspxy.Config.Validate.Accepts.{IsValidConfig, normalized, validate_config_iff}
use tlspxy.Config.Validate.Consequences.{DurationIsExact, validated_duration}
use tlspxy.Tls.Versions.{CipherTable}
use tlspxy.Tls.Host.{TlsConfig}
use tlspxy.Startup.Http.{
  HttpServer, Http2, limit_hook, backend_transport, new_http_server, configure_http2, http_setup,
}

-- A timeout is 0 where the text is empty, and else what the text parses to.
abbrev pub IsTimeout : Env → String → ℤ → Type 0
IsTimeout env text d = ((text ≡ "") × (d ≡ pos 0)) ⊎ (env.parse_duration text ≡ some d)

abbrev pub IsWeb : Koanf → Type 0
IsWeb k = (k.string "server.type" ≡ "http") ⊎ (k.string "server.type" ≡ "https")

pub record HasSettings {C P : Type 0} (env : Env) (k : Koanf) (remote : Option (TlsConfig C P))
    (srv : HttpServer C P) : Type 0 where
  pub target : env.parse_url (k.string "remote.addr") ≡ some srv.target
  pub read : IsTimeout env (k.string "server.timeouts.read") srv.read_timeout
  pub write : IsTimeout env (k.string "server.timeouts.write") srv.write_timeout
  pub idle : IsTimeout env (k.string "server.timeouts.idle") srv.idle_timeout
  pub dial : IsTimeout env (k.string "remote.timeouts.dial") srv.transport.dial_timeout
  pub response :
      IsTimeout env (k.string "server.timeouts.read") srv.transport.response_header_timeout
  pub backend_tls : srv.transport.tls_client_config ≡ remote
  pub limit : srv.limit ≡ limit_hook (k.int "server.maxconns")
  pub http2 : k.bool "server.http2" ≡ false → srv.http2 ≡ false

web_url :
    (env : Env) (table : CipherTable) (k : Koanf)
    → IsWeb k
    → IsValidConfig env table k
    → IsHttpUrl env (k.string "remote.addr")
web_url env table k (inl http) valid = elim valid.remote_url [
  | inl other ↦ absurd (other.0 (rw http refl))
  | inr url ↦ url
]
web_url env table k (inr https) valid = elim valid.remote_url [
  | inl other ↦ absurd (other.1 (rw https refl))
  | inr url ↦ url
]

normalized_text :
    (k : Koanf) (key : String)
    → str_eq "log.level" key ≡ false
    → (normalized k).string key ≡ k.string key
unfolding set_string
normalized_text k key other = elim (Bool-cases (folds_to_warning (k.string "log.level"))) [
  | inl warning ↦ ground (arith, warning)
  | inr none_given ↦ ground (arith, none_given)
]

validated_url :
    (env : Env) (table : CipherTable) (k k' : Koanf)
    → validate_config env table k ≡ ok k'
    → IsWeb k'
    → IsHttpUrl env (k'.string "remote.addr")
validated_url env table k k' accepted web =
    let (valid, same) = (validate_config_iff env table k k').0 accepted in
    let type : k'.string "server.type" ≡ k.string "server.type" =
      ap (λ c. c.string "server.type") same ∙ normalized_text k "server.type" refl in
    let addr : k'.string "remote.addr" ≡ k.string "remote.addr" =
      ap (λ c. c.string "remote.addr") same ∙ normalized_text k "remote.addr" refl in
    rw addr (web_url env table k (ground (arith, web, type)) valid)

module _ {C P : Type 0} (env : Env) (table : CipherTable) (ops : Http2) where
  new_http_server_lem :
      (k : Koanf) (remote : Option (TlsConfig C P)) (u : Url)
      → env.parse_url (k.string "remote.addr") ≡ some u
      → All (DurationIsExact env k) duration_keys
      → HasSettings env k remote (new_http_server env k remote u)
  unfolding new_http_server backend_transport
  new_http_server_lem k remote u parses exact = record {
    target = parses;
    read = exact.0;
    write = exact.1.0;
    idle = exact.1.1.0;
    dial = exact.1.1.1.1.0;
    response = exact.0;
    backend_tls = refl;
    limit = refl;
    http2 = λ off. refl;
  }

  configure_http2_lem :
      (k : Koanf) (remote : Option (TlsConfig C P)) (srv : HttpServer C P)
      → HasSettings env k remote srv
      → HasSettings env k remote (configure_http2 env ops k srv)
  unfolding configure_http2
  configure_http2_lem k remote srv has = elim (Bool-cases (k.bool "server.http2")) [
    | inl on ↦ rw on (record {
      target = has.target;
      read = has.read;
      write = has.write;
      idle = has.idle;
      dial = has.dial;
      response = has.response;
      backend_tls = has.backend_tls;
      limit = has.limit;
      http2 = λ off. absurd (ground (arith, on, off));
    })
    | inr off ↦ rw off has
  ]

  -- A valid configuration of an HTTP server is set up, whatever the two http2 packages do: with the
  -- parsed address of the backend, the TLS of the backend that it is given, the timeouts of the
  -- configuration, the limit of connections if server.maxconns is positive, and no HTTP/2 unless
  -- server.http2 asks for it. But server.timeouts.handshake, whatever its text, changes nothing.
  pub http_setup-validated :
      (k k' : Koanf) (remote : Option (TlsConfig C P)) (text : String)
      → validate_config env table k ≡ ok k'
      → IsWeb k'
      → (srv : HttpServer C P) × (http_setup env ops k' remote ≡ some srv)
        × HasSettings env k' remote srv
        × (http_setup env ops (set_string k' "server.timeouts.handshake" text) remote ≡ some srv)
  unfolding http_setup configure_http2 new_http_server backend_transport duration set_string
  http_setup-validated k k' remote text accepted web =
      let url = validated_url env table k k' accepted web in
      let timeouts = validated_duration env table k k' accepted in
      let made = new_http_server env k' remote url.url in
      (
        configure_http2 env ops k' made,
        ground (arith, url.parses),
        configure_http2_lem k' remote made
            (new_http_server_lem k' remote url.url url.parses timeouts),
        ground (arith, url.parses),
      )
