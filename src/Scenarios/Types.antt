-- ===== src/Scenarios/Types.antt =====
-- apps/api/app/scenarios/types.py. The metadata of a source are a text.
use hawk_fund_investment_int.Prelude.{ℕ, Option, List, Text}
use hawk_fund_investment_int.Int.Defs.{ℤ}
use hawk_fund_investment_int.Clock.{Datetime}
use hawk_fund_investment_int.Exposures.Types.{ExposureResult}
use hawk_fund_investment_int.Exposures.Engine.{Classifications}
use hawk_fund_investment_int.Risk.Types.{PolicyEvaluationItem, RiskResult}
use hawk_fund_investment_int.Valuation.Types.{ValuationResult}

pub data ScenarioKind : Type 0 where
  hypothetical historical : ScenarioKind

pub data ShockTargetType : Type 0 where
  security market sector rate factor : ShockTargetType

pub data ShockUnit : Type 0 where
  relative_return yield_change factor_move : ShockUnit

pub record ScenarioShock (D : Type 0) : Type 0 where
  pub id : ℕ
  pub target_type : ShockTargetType
  pub target : Text
  pub magnitude : D
  pub unit : ShockUnit
  pub sequence : ℤ

pub record ScenarioDefinition (D : Type 0) : Type 0 where
  pub id : ℕ
  pub fund_id : ℕ
  pub name : Text
  pub version : ℤ
  pub kind : ScenarioKind
  pub shocks : List (ScenarioShock D)
  pub source_metadata : Text

pub record ShockContribution (D : Type 0) : Type 0 where
  pub shock_id : ℕ
  pub target_type : ShockTargetType
  pub target : Text
  pub return_impact : D

pub record ScenarioPositionResult (D : Type 0) : Type 0 where
  pub instrument_id : ℕ
  pub baseline_price : D
  pub projected_price : D
  pub baseline_market_value : D
  pub projected_market_value : D
  pub return_impact : D
  pub pnl_impact : D
  pub contributions : List (ShockContribution D)

-- A warning names the shock and the instrument that it has skipped.
pub record ScenarioResult (D : Type 0) : Type 0 where
  pub definition : ScenarioDefinition D
  pub as_of : Datetime
  pub baseline : ValuationResult D
  pub projected : ValuationResult D
  pub positions : List (ScenarioPositionResult D)
  pub pnl_impact : D
  pub portfolio_return_impact : D
  pub warnings : List (ℕ × ℕ)
  pub canonical_input_hash : Text
  pub classifications : Classifications

pub record ExposureChange (D : Type 0) : Type 0 where
  pub dimension : Text
  pub category : Text
  pub before_weight : D
  pub after_weight : D
  pub change : D

pub record RiskChange (D : Type 0) : Type 0 where
  pub metric : Text
  pub before_value : Option D
  pub after_value : Option D
  pub change : Option D

pub record BeforeAfterResult (D : Type 0) : Type 0 where
  pub scenario : ScenarioResult D
  pub baseline_exposure : ExposureResult D
  pub projected_exposure : ExposureResult D
  pub exposure_changes : List (ExposureChange D)
  pub baseline_risk : RiskResult D
  pub projected_risk : RiskResult D
  pub risk_changes : List (RiskChange D)
  pub baseline_policy : List (PolicyEvaluationItem D)
  pub projected_policy : List (PolicyEvaluationItem D)
