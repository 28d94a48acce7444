-- ===== src/Valuation.antt =====
-- apps/api/app/valuation: the value of a portfolio at the quotes of a moment, and its profit.
pub mod Types
pub mod Engine
pub mod Realized
pub mod Totals
pub mod Profit
pub mod Kept
pub mod Reversals
pub mod Tests
