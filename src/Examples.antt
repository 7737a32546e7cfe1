-- ===== src/Examples.antt =====
-- The theorems at concrete configurations, files, events and bytes.
mod Config
mod Certs
mod Proxy
mod Limit
mod Connections
mod Traffic
mod Serving
mod Startup
mod Main
mod Shutdown
mod Flags
mod Loadtest
