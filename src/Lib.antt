-- ===== src/Lib.antt =====
-- tlspxy is a proxy that terminates TLS, for TCP and for HTTP. main.go loads and validates a
-- configuration, sets up the TLS of the listener (internal/tls) and of the backend, and then
-- accepts connections: each TCP connection is copied in both directions by two pipes
-- (internal/proxy), up to a limit of connections, while certificates are reloaded on a signal
-- or when their files change.
--
-- The files, and what they model:
--
-- - Common: tests, lists, texts as code points, association lists, Go's (value, error) as
--   Result; Common/Merges has the interleavings of any sequences of steps.
-- - Config/Sources: ParseConfigPaths, GetConfig and the loading of files of
--   internal/config/config.go.
-- - Config/Defaults, Config/Flags, Config/Maps: internal/config/defaults.go; flags, variables
--   and help, and CombineMaps and IsCfgFile, of internal/config/config.go.
-- - Config/Koanf, Config/Validate: the getters of the configuration object; ValidateConfig and
--   Duration of internal/config/config.go.
-- - Tls/Versions, Tls/Options, Tls/Host: internal/tls/versions.go and internal/tls/tls.go, and
--   what they take from Go's crypto packages.
-- - Tls/CertStore, Tls/Watcher: internal/tls/certstore.go and internal/tls/watcher.go.
-- - Tls/Server, Tls/Remote: internal/tls/server.go and internal/tls/remote.go.
-- - Proxy/Counter, Proxy/Gauge, Proxy/Pipe, Proxy/Join: Counter, the gauge of connections,
--   TCPProxy.err and Pipe, and SingleJoiningSlash of internal/proxy/tcp.go.
-- - Proxy/Start: TCPProxy.Start of internal/proxy/tcp.go, around the pipes.
-- - Proxy/Pipe/Operations, Proxy/Start/Operations: the same as sequences of steps on the
--   counter and the metrics that all connections share, where the goroutines of a connection,
--   and the connections, run at the same time.
-- - Proxy/Header: internal/proxy/proxyproto.go.
-- - Proxy/Transport, Proxy/Rewrite: internal/proxy/http.go, internal/proxy/rewrite.go and
--   internal/health/health.go.
-- - Limit/Tcp, Limit/Http: the accept loop and the ConnState hook of main.go, and the hook of
--   internal/loadtest/harness.go.
-- - Service: internal/signal/signal.go, internal/logging/logging.go and
--   internal/metrics/metrics.go.
-- - Startup: the start of main.go, from the loading of the configuration to the switch on
--   server.type; its handlers of signals, and the channel that they come through
--   (Startup/Handlers), the settings of the HTTP server (Startup/Http), the ends of both
--   servers (Startup/Shutdown), and the accept loop with the connections that it has started,
--   all running beside each other (Startup/Serving).
-- - Loadtest: the load test of cmd/loadtest/main.go and internal/loadtest: its statistics,
--   generators, reports, harness and scenarios.
-- - Examples: the theorems at concrete inputs.
--
-- State is passed explicitly; what runs concurrently is a list of events or a relation between
-- states, so that the theorems hold for every order. Only the digits of a number and the way up
-- to the module root are on fuel: one more than the number, which is more than it has digits,
-- and one more than the path has characters, which is more than it has parents; a loop over the
-- network recurses on the outcomes of its calls, and stands still where these end. Go's
-- integers are natural numbers where they cannot be negative, with the wrap of uint64 and
-- uint16 written out.
--
-- The operating system, and Go's net, crypto/tls, time and fsnotify, are parameters (Env, Host,
-- PathOps, NetText, FileSystem, RewriteOps, Net, World, Paths, FloatOps for float64, of which
-- only the sign of a percentile's index is used, and a Loader for pairs of files). A metric of
-- Prometheus, a float64, is the whole number that has been added to it. Log lines, Go's flag
-- package and koanf are not modelled.
mod Common
pub mod Config
pub mod Tls
pub mod Proxy
pub mod Limit
pub mod Service
pub mod Startup
pub mod Loadtest
mod Examples
