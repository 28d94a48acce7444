-- ===== src/Snapshots.antt =====
-- apps/api/app/snapshots: what the ledger hands to the portfolio engine.
pub mod Transactions
pub mod Evidence
pub mod Tests
