-- ===== src/Scenarios.antt =====
-- apps/api/app/scenarios: shocks on a valued portfolio, and the comparison before and after.
pub mod Types
pub mod Comparison
pub mod Benchmark
pub mod Tests
