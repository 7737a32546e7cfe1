-- ===== src/Proxy.antt =====
-- The proxy itself: internal/proxy.
pub mod Join
pub mod Header
pub mod Counter
pub mod Gauge
pub mod Pipe
pub mod Start
pub mod Transport
pub mod Rewrite
