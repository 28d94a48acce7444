-- ===== src/Risk/Types.antt =====
-- apps/api/app/risk/policy.py and types.py: the rules of a policy, their evaluations and the
-- statistics of a portfolio.
use hawk_fund_investment_int.Prelude.{ℕ, Option, Text}
use hawk_fund_investment_int.Analytics.Types.{AnalyticsError}

pub data PolicyOperator : Type 0 where
  at_most at_least : PolicyOperator

pub data PolicyEvaluationStatus : Type 0 where
  pass breach unavailable : PolicyEvaluationStatus

pub data PolicyRuleSeverity : Type 0 where
  blocking warning : PolicyRuleSeverity

pub record PolicyRuleInput (D : Type 0) : Type 0 where
  pub rule_id : ℕ
  pub metric_key : Text
  pub operator : PolicyOperator
  pub threshold : D
  pub unit : Text
  pub explanation_template : Text

-- The explanation of an item is the text that it is written from: the sentence on a metric that is
-- not there, or the template with the values that are put in it.
pub data Explanation (D : Type 0) : Type 0 where
  missing : (metric : Text) → (threshold : D) → (unit : Text) → Explanation D
  filled :
      (template metric : Text) → (observed threshold breach : D) → (unit : Text) → Explanation D

pub record PolicyEvaluationItem (D : Type 0) : Type 0 where
  pub rule_id : ℕ
  pub metric_key : Text
  pub status : PolicyEvaluationStatus
  pub observed_value : Option D
  pub threshold : D
  pub breach_amount : Option D
  pub unit : Text
  pub explanation : Explanation D

pub record RiskResult (D : Type 0) : Type 0 where
  pub observation_count : ℕ
  pub confidence_level : D
  pub annualized_volatility : Option D
  pub beta : Option D
  pub value_at_risk_return : D
  pub expected_shortfall_return : D
  pub value_at_risk_amount : D
  pub expected_shortfall_amount : D
  pub tracking_error : Option D
  pub largest_position_weight : D
  pub herfindahl_index : D

-- The messages of `RiskError`; an index that is out of range; and what the statistics of
-- analytics/engine.py raise, the signals of `decimal` among it.
pub data RiskError : Type 0 where
  no_returns no_portfolio_value bad_confidence not_aligned : RiskError
  naive_timestamp foreign_policy not_effective index_error : RiskError
  statistics : AnalyticsError → RiskError
