-- ===== src/Limit.antt =====
-- The limit on connections, server.maxconns: main.go, and the load test harness.
pub mod Tcp
pub mod Http
