-- ===== src/Exposures.antt =====
-- apps/api/app/exposures: how a portfolio is spread over instruments and categories.
pub mod Types
pub mod Engine
pub mod Sums
pub mod Largest
pub mod Tests
