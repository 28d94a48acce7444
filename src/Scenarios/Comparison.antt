-- ===== src/Scenarios/Comparison.antt =====
-- apps/api/app/scenarios/comparison.py: `BeforeAfterEngine`.
use hawk_fund_investment_int.Prelude.{
  not, Option, none, some, List, [], ◌∷◌, ◌++◌, map, Outcome, ok, raised, ◌>>=◌, select, any,
  text_eq, text_lt, codes, Text,
}
use hawk_fund_investment_int.Prelude.Order.{sorted}
use hawk_fund_investment_int.Number.{Decimal, nil_amount, ◌⊖◌}
use hawk_fund_investment_int.Int.Defs.{ℤ}
use hawk_fund_investment_int.Dict.{Dict, get_or}
use hawk_fund_investment_int.Valuation.Types.{ValuationResult}
use hawk_fund_investment_int.Exposures.Types.{
  PositionExposureInput, CategoryExposure, ExposureResult, ExposureError,
}
use hawk_fund_investment_int.Exposures.Engine.{Classifications}
use hawk_fund_investment_int.Exposures.Engine as Exposure
use hawk_fund_investment_int.Risk.Types.{RiskResult, RiskError, PolicyRuleInput}
use hawk_fund_investment_int.Risk.Policy.{weights_by_category, portfolio_risk_metrics, evaluate}
use hawk_fund_investment_int.Risk.Engine as Risk
use hawk_fund_investment_int.Scenarios.Types.{
  ScenarioResult, ExposureChange, RiskChange, BeforeAfterResult,
}

-- What the two engines raise.
pub data ComparisonError : Type 0 where
  of_exposure : ExposureError → ComparisonError
  of_risk : RiskError → ComparisonError

abbrev pub Raises : Type 0 → Type 0
Raises A = Outcome ComparisonError A

abbrev pub exposed : {A : Type 0} → Outcome ExposureError A → Raises A
exposed (ok a) = ok a
exposed (raised e) = raised (of_exposure e)

abbrev pub risked : {A : Type 0} → Outcome RiskError A → Raises A
risked (ok a) = ok a
risked (raised e) = raised (of_risk e)

-- `first.keys() | second.keys()`
abbrev pub all_keys : {D : Type 0} → Dict Text D → Dict Text D → List Text
all_keys first second =
    let keys = map (λ e. e.0) first in
    keys ++ select (λ k. not (any (text_eq k) keys)) (map (λ e. e.0) second)

module _ {D : Type 0} ⦃d : Decimal D⦄ where
  abbrev pub change_of : Text → Dict Text D → Dict Text D → Text → ExposureChange D
  change_of dimension first second category =
      let before = get_or text_eq category nil_amount first in
      let after = get_or text_eq category nil_amount second in
      record {
        dimension = dimension;
        category = category;
        before_weight = before;
        after_weight = after;
        change = after ⊖ before;
      }

  unfoldable pub dimension_changes :
      Text → List (CategoryExposure D) → List (CategoryExposure D) → List (ExposureChange D)
  unfolding sorted
  dimension_changes dimension before after =
      let first = weights_by_category [] before in
      let second = weights_by_category [] after in
      map (change_of dimension first second) (sorted text_lt (all_keys first second))

  abbrev pub exposure_changes : ExposureResult D → ExposureResult D → List (ExposureChange D)
  exposure_changes before after =
      dimension_changes (codes "sector") before.sector_exposure after.sector_exposure
      ++ (dimension_changes (codes "asset_class") before.asset_allocation after.asset_allocation
          ++ dimension_changes (codes "geography") before.geographic_exposure
              after.geographic_exposure)

  abbrev pub difference : Option D → Option D → Option D
  difference (some first) (some second) = some (second ⊖ first)
  difference _ _ = none

  abbrev pub risk_change : Text → Option D → Option D → RiskChange D
  risk_change metric first second = record {
    metric = metric;
    before_value = first;
    after_value = second;
    change = difference first second;
  }

  abbrev pub risk_changes : RiskResult D → RiskResult D → List (RiskChange D)
  risk_changes before after =
      risk_change (codes "volatility") before.annualized_volatility after.annualized_volatility
      ∷ risk_change (codes "beta") before.beta after.beta
      ∷ risk_change (codes "var_return") (some before.value_at_risk_return)
          (some after.value_at_risk_return)
      ∷ risk_change (codes "expected_shortfall_return") (some before.expected_shortfall_return)
          (some after.expected_shortfall_return)
      ∷ risk_change (codes "tracking_error") before.tracking_error after.tracking_error
      ∷ risk_change (codes "largest_position_weight") (some before.largest_position_weight)
          (some after.largest_position_weight)
      ∷ risk_change (codes "herfindahl_index") (some before.herfindahl_index)
          (some after.herfindahl_index)
      ∷ []

  abbrev pub inputs_of : ValuationResult D → List (PositionExposureInput D)
  inputs_of v =
      map (λ p. record { instrument_id = p.instrument_id; market_value = p.market_value })
        v.positions

  unfoldable pub compare :
      ScenarioResult D
      → Classifications
      → List D
      → List D
      → List (PolicyRuleInput D)
      → D
      → D
      → ℤ
      → ℤ
      → Raises (BeforeAfterResult D)
  unfolding Exposure.calculate Risk.calculate portfolio_risk_metrics evaluate dimension_changes
  compare scenario classes returns benchmark rules benchmark_return confidence periods top_n = do
    before ← exposed (
        Exposure.calculate (inputs_of scenario.baseline) scenario.baseline.cash_value classes top_n)
    after ← exposed (
        Exposure.calculate (inputs_of scenario.projected) scenario.projected.cash_value classes
          top_n)
    baseline ← risked (
        Risk.calculate returns benchmark scenario.baseline.portfolio_value before confidence
          periods)
    projected ← risked (
        Risk.calculate (returns ++ scenario.portfolio_return_impact ∷ [])
          (benchmark ++ benchmark_return ∷ []) scenario.projected.portfolio_value after confidence
          periods)
    ok (record {
      scenario = scenario;
      baseline_exposure = before;
      projected_exposure = after;
      exposure_changes = exposure_changes before after;
      baseline_risk = baseline;
      projected_risk = projected;
      risk_changes = risk_changes baseline projected;
      baseline_policy = evaluate rules (portfolio_risk_metrics before baseline);
      projected_policy = evaluate rules (portfolio_risk_metrics after projected);
    })
