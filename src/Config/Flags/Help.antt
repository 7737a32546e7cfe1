-- ===== src/Config/Flags/Help.antt =====
-- The help of internal/config/config.go: flagDesc and helpGroups.
use tlspxy.Common.{String, List, [], ◌∷◌}

-- flagDesc.
unfoldable pub flag_desc : List (String × String)
flag_desc =
    ("config", "Path to config file or directory")
    ∷ ("validate", "Validate configuration and print resolved values, then exit")
    ∷ ("server-addr", "Listen address (host:port)")
    ∷ ("server-type", "Proxy mode: tcp, http, or https")
    ∷ ("server-healthcheck", "Health check path (HTTP mode only, e.g. /healthz)")
    ∷ ("server-maxconns", "Max concurrent connections (0 = unlimited)")
    ∷ (
      "server-trustxff",
      "Trust and append inbound X-Forwarded-For (only enable behind a trusted upstream proxy)",
    )
    ∷ ("server-timeouts-read", "Read timeout per connection (e.g. 30s, 5m)")
    ∷ ("server-timeouts-write", "Write timeout per connection (e.g. 30s, 5m)")
    ∷ ("server-timeouts-idle", "Idle timeout before closing connection (e.g. 5m, 1h)")
    ∷ ("server-timeouts-handshake", "Client TLS handshake timeout, TLS mode only (e.g. 10s)")
    ∷ ("server-tls-cert", "Path to server TLS certificate")
    ∷ ("server-tls-key", "Path to server TLS private key")
    ∷ ("server-tls-ca", "Path to CA cert for client verification")
    ∷ ("server-tls-require", "Require client certificates")
    ∷ (
      "server-tls-autoreload", "Watch cert/key files and reload automatically on change (fsnotify)",
    )
    ∷ ("server-tls-verify", "Require and verify client certificates")
    ∷ ("server-tls-minversion", "Minimum TLS version (1.0, 1.1, 1.2, 1.3)")
    ∷ ("server-tls-maxversion", "Maximum TLS version (1.0, 1.1, 1.2, 1.3)")
    ∷ ("server-tls-ciphersuites", "Comma-separated TLS cipher suite names")
    ∷ ("server-tls-alpn", "Comma-separated ALPN protocols (e.g. h2,http/1.1)")
    ∷ ("server-tls-letsencrypt-enable", "Enable automatic Let's Encrypt certificates")
    ∷ ("server-tls-letsencrypt-domain", "Domain for the Let's Encrypt certificate")
    ∷ ("server-tls-letsencrypt-cachedir", "Certificate cache directory")
    ∷ ("server-http2", "Enable HTTP/2 support (http/https modes only)")
    ∷ ("remote-addr", "Backend address (host:port for TCP, URL for HTTP)")
    ∷ (
      "remote-proxyprotocol",
      "Send HAProxy PROXY protocol header to backend: '', v1, or v2 (TCP mode only)",
    )
    ∷ ("remote-timeouts-dial", "Backend dial (connection establishment) timeout (e.g. 10s)")
    ∷ ("remote-tls-enable", "Use TLS when connecting to the backend")
    ∷ ("remote-tls-verify", "Verify backend TLS certificate")
    ∷ ("remote-tls-cert", "Client certificate for backend mTLS")
    ∷ ("remote-tls-key", "Client key for backend mTLS")
    ∷ ("remote-tls-ca", "Custom CA cert for backend verification")
    ∷ ("remote-tls-sysroots", "Include system CA roots for backend")
    ∷ ("remote-tls-minversion", "Minimum TLS version for backend")
    ∷ ("remote-tls-maxversion", "Maximum TLS version for backend")
    ∷ ("remote-tls-ciphersuites", "Comma-separated cipher suites for backend")
    ∷ ("remote-tls-alpn", "Comma-separated ALPN protocols for backend")
    ∷ ("log-level", "Log level: debug, info, warn, error")
    ∷ ("log-contents", "Log proxied data content (use with caution)")
    ∷ ("log-destination", "Log output: stdout, file path, or syslog://address")
    ∷ ("metrics-enable", "Enable Prometheus metrics endpoint")
    ∷ ("metrics-addr", "Metrics server listen address (host:port)")
    ∷ ("metrics-path", "Metrics endpoint path")
    ∷ []

pub record FlagGroup : Type 0 where
  pub name : String
  pub flags : List String

unfoldable pub help_groups : List FlagGroup
help_groups =
    record { name = "General"; flags = "config" ∷ "validate" ∷ [] }
    ∷ record {
      name = "Server";
      flags =
          "server-addr" ∷ "server-type" ∷ "server-healthcheck" ∷ "server-maxconns"
          ∷ "server-trustxff" ∷ "server-http2" ∷ "server-timeouts-read" ∷ "server-timeouts-write"
          ∷ "server-timeouts-idle" ∷ "server-timeouts-handshake" ∷ [];
    }
    ∷ record {
      name = "Server TLS";
      flags =
          "server-tls-cert" ∷ "server-tls-key" ∷ "server-tls-ca" ∷ "server-tls-require"
          ∷ "server-tls-verify" ∷ "server-tls-autoreload" ∷ "server-tls-minversion"
          ∷ "server-tls-maxversion" ∷ "server-tls-ciphersuites" ∷ "server-tls-alpn"
          ∷ "server-tls-letsencrypt-enable" ∷ "server-tls-letsencrypt-domain"
          ∷ "server-tls-letsencrypt-cachedir" ∷ [];
    }
    ∷ record {
      name = "Remote";
      flags =
          "remote-addr" ∷ "remote-proxyprotocol" ∷ "remote-timeouts-dial" ∷ "remote-tls-enable"
          ∷ "remote-tls-verify" ∷ "remote-tls-cert" ∷ "remote-tls-key" ∷ "remote-tls-ca"
          ∷ "remote-tls-sysroots" ∷ "remote-tls-minversion" ∷ "remote-tls-maxversion"
          ∷ "remote-tls-ciphersuites" ∷ "remote-tls-alpn" ∷ [];
    }
    ∷ record { name = "Logging"; flags = "log-level" ∷ "log-contents" ∷ "log-destination" ∷ [] }
    ∷ record { name = "Metrics"; flags = "metrics-enable" ∷ "metrics-addr" ∷ "metrics-path" ∷ [] }
    ∷ []
