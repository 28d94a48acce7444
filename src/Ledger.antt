-- ===== src/Ledger.antt =====
-- apps/api/app/ledger: the transaction ledger.
pub mod Types
pub mod Command
pub mod Validation
pub mod Store
pub mod Service
pub mod Idempotence
pub mod Rows
pub mod Keys
pub mod Accepted
pub mod Tests
