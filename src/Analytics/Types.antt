-- ===== src/Analytics/Types.antt =====
-- apps/api/app/analytics/types.py and errors.py.
use hawk_fund_investment_int.Prelude.{ℕ, Option, List, Outcome, raised, ok, if◌then◌else◌}
use hawk_fund_investment_int.Number.{Decimal, nil_amount, ◌⊘◌, ◌≺◌, ◌≈◌}
use hawk_fund_investment_int.Clock.{Datetime}

pub record ValueObservation (D : Type 0) : Type 0 where
  pub observed_at : Datetime
  pub value : D
  pub external_flow : D

pub record ReturnObservation (D : Type 0) : Type 0 where
  pub observed_at : Datetime
  pub period_return : D
  pub cumulative_return : D

pub record DrawdownObservation (D : Type 0) : Type 0 where
  pub observed_at : Datetime
  pub drawdown : D

pub record AttributionInput (D : Type 0) : Type 0 where
  pub instrument_id : ℕ
  pub beginning_weight : D
  pub security_return : D

pub record AttributionResult (D : Type 0) : Type 0 where
  pub instrument_id : ℕ
  pub contribution : D

pub record AnalyticsResult (D : Type 0) : Type 0 where
  pub returns : List (ReturnObservation D)
  pub drawdowns : List (DrawdownObservation D)
  pub total_return : D
  pub annualized_volatility : Option D
  pub annualized_sharpe : Option D
  pub maximum_drawdown : D

pub record BenchmarkComparison (D : Type 0) : Type 0 where
  pub aligned_count : ℕ
  pub portfolio_total_return : D
  pub benchmark_total_return : D
  pub excess_total_return : D
  pub tracking_error : Option D
  pub beta : Option D

-- The messages of `AnalyticsError`; `TypeError` of a comparison between a value with a zone and one
-- without; and the signals of `decimal` for a quotient by zero and the root of a negative number.
pub data AnalyticsError : Type 0 where
  no_returns bad_periods no_alignment negative_weight excess_weight : AnalyticsError
  no_values repeated_timestamp naive_timestamp nonpositive_value : AnalyticsError
  type_error invalid_operation : AnalyticsError

abbrev pub Raises : Type 0 → Type 0
Raises A = Outcome AnalyticsError A

module _ {D : Type 0} ⦃d : Decimal D⦄ where
  abbrev pub divide : D → D → Raises D
  divide x y = if y ≈ nil_amount then raised invalid_operation else ok (x ⊘ y)

  abbrev pub square_root : D → Raises D
  square_root x = if x ≺ nil_amount then raised invalid_operation else ok (d.sqrt x)
