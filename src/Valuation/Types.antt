-- ===== src/Valuation/Types.antt =====
-- apps/api/app/valuation/types.py and errors.py.
use hawk_fund_investment_int.Prelude.{ℕ, Option, List, Text}
use hawk_fund_investment_int.Clock.{Datetime}
use hawk_fund_investment_int.MarketData.Types.{PriceQuote}
use hawk_fund_investment_int.Portfolio.Types.{CostBasisStatus, Warning}

pub record PositionValuation (D : Type 0) : Type 0 where
  pub account_id : ℕ
  pub instrument_id : ℕ
  pub quantity : D
  pub price : D
  pub market_value : D
  pub cost_basis : Option D
  pub unrealized_pnl : Option D
  pub cost_basis_status : CostBasisStatus
  pub quote : PriceQuote D

-- A warning of the portfolio, a sale with no realized profit, or a stale price.
pub data ValuationWarning : Type 0 where
  of_portfolio : Warning → ValuationWarning
  unavailable_pnl : ℕ → ValuationWarning
  stale_price : ℕ → Datetime → ValuationWarning

pub record ValuationResult (D : Type 0) : Type 0 where
  pub fund_id : ℕ
  pub as_of : Datetime
  pub currency : Text
  pub cash_value : D
  pub securities_value : D
  pub portfolio_value : D
  pub unrealized_pnl : Option D
  pub realized_pnl : Option D
  pub positions : List (PositionValuation D)
  pub warnings : List ValuationWarning
  pub reconstruction_input_hash : Text

pub record RealizedPnlResult (D : Type 0) : Type 0 where
  pub amount : Option D
  pub warnings : List ValuationWarning

-- The messages of `MissingValuationPrice`, with the instrument.
pub data ValuationError : Type 0 where
  no_price : ℕ → ValuationError
  currency_mismatch : ℕ → ValuationError
