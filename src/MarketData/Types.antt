-- ===== src/MarketData/Types.antt =====
-- apps/api/app/market_data/types.py and errors.py. The metadata of a source are a text.
use hawk_fund_investment_int.Prelude.{ℕ, Option, List, Text}
use hawk_fund_investment_int.Clock.{Datetime}

pub data IdentifierScheme : Type 0 where
  ticker figi cusip isin provider_scheme : IdentifierScheme

pub data PriceType : Type 0 where
  close adjusted_close : PriceType

pub data MarketDataBatchStatus : Type 0 where
  received completed completed_with_conflicts failed : MarketDataBatchStatus

pub data PriceIngestionStatus : Type 0 where
  inserted duplicate conflict : PriceIngestionStatus

pub data FreshnessStatus : Type 0 where
  fresh stale : FreshnessStatus

pub record PriceRequest : Type 0 where
  pub identifiers : List Text
  pub start : Datetime
  pub end : Datetime
  pub price_type : PriceType

pub record ProviderPrice (D : Type 0) : Type 0 where
  pub identifier : Text
  pub observed_at : Datetime
  pub price : D
  pub currency : Text
  pub price_type : PriceType
  pub source_metadata : Option Text

-- The age is in microseconds, those of `age_seconds`.
pub record PriceQuote (D : Type 0) : Type 0 where
  pub observation_id : ℕ
  pub instrument_id : ℕ
  pub provider : Text
  pub price_type : PriceType
  pub observed_at : Datetime
  pub received_at : Datetime
  pub price : D
  pub currency : Text
  pub source_identifier : Text
  pub freshness : FreshnessStatus
  pub age : ℕ
  pub source_metadata : Text

pub record PriceIngestionResult : Type 0 where
  pub identifier : Text
  pub status : PriceIngestionStatus
  pub observation_id : Option ℕ
  pub conflict_id : Option ℕ

pub record BatchIngestionResult : Type 0 where
  pub batch_id : ℕ
  pub inserted_count : ℕ
  pub duplicate_count : ℕ
  pub conflict_count : ℕ
  pub results : List PriceIngestionResult

-- The messages of `InvalidPriceObservation`, `MissingPriceError` and `UnknownSecurityIdentifier`.
pub data MarketDataError : Type 0 where
  naive_timestamp end_precedes_start negative_max_age : MarketDataError
  nonpositive_price not_usd no_identifier : MarketDataError
  missing_price : ℕ → MarketDataError
  unknown_identifier : Text → Text → MarketDataError
