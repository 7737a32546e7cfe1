-- ===== src/Loadtest.antt =====
-- The load test of cmd/loadtest and internal/loadtest: its statistics, generators, reports, harness and
-- scenarios.
pub mod Float
pub mod Stats
pub mod Generator
pub mod Report
pub mod Harness
pub mod Scenario
pub mod Command
