-- ===== src/Tls.antt =====
-- TLS on both sides of the proxy: internal/tls.
pub mod Versions
pub mod Options
pub mod CertStore
pub mod Watcher
pub mod Host
pub mod Server
pub mod Remote
