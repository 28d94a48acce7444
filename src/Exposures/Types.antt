-- ===== src/Exposures/Types.antt =====
-- apps/api/app/exposures/types.py and errors.py.
use hawk_fund_investment_int.Prelude.{ℕ, Option, List, Text}
use hawk_fund_investment_int.Clock.{Datetime}

pub record InstrumentClassification : Type 0 where
  pub instrument_id : ℕ
  pub sector : Text
  pub asset_class : Text
  pub geography : Text
  pub effective_from : Option Datetime
  pub effective_to : Option Datetime

pub record PositionExposureInput (D : Type 0) : Type 0 where
  pub instrument_id : ℕ
  pub market_value : D

pub record PositionWeight (D : Type 0) : Type 0 where
  pub instrument_id : ℕ
  pub market_value : D
  pub weight : D

pub record CategoryExposure (D : Type 0) : Type 0 where
  pub category : Text
  pub market_value : D
  pub weight : D

-- A warning names the instrument that has no classification.
pub record ExposureResult (D : Type 0) : Type 0 where
  pub portfolio_value : D
  pub cash_value : D
  pub position_weights : List (PositionWeight D)
  pub sector_exposure : List (CategoryExposure D)
  pub asset_allocation : List (CategoryExposure D)
  pub geographic_exposure : List (CategoryExposure D)
  pub top_holdings : List (PositionWeight D)
  pub largest_position_weight : D
  pub herfindahl_index : D
  pub warnings : List ℕ

-- The messages of `ExposureError`.
pub data ExposureError : Type 0 where
  negative_value bad_top_n no_portfolio_value : ExposureError
