-- ===== src/Risk.antt =====
-- apps/api/app/risk: risk policies and the statistics of a portfolio.
pub mod Types
pub mod Policy
pub mod Breaches
pub mod Engine
pub mod Totality
pub mod Service
pub mod Recording
pub mod Tests
