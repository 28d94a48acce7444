-- ===== src/Analytics.antt =====
-- apps/api/app/analytics: returns, drawdowns, comparison with a benchmark and attribution.
pub mod Types
pub mod Statistics
pub mod Engine
pub mod Growth
pub mod Drawdowns
pub mod Tests
pub mod Totality
