-- ===== src/Portfolio.antt =====
-- apps/api/app/portfolio: reconstruction of a portfolio from its ledger.
pub mod Types
pub mod Validation
pub mod Replay
pub mod Effects
pub mod Holdings
pub mod Cash
pub mod Tests
pub mod Engine
