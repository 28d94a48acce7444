-- ===== src/MarketData.antt =====
-- apps/api/app/market_data: prices from providers, and quotes.
pub mod Types
pub mod Store
pub mod Service
pub mod Ingestion
pub mod Identity
pub mod Quotes
pub mod Tests
