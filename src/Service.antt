-- ===== src/Service.antt =====
-- The services around the proxies: the handlers of signals, logging and the metrics.
pub mod Signals
pub mod Logging
pub mod Metrics
