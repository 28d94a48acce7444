-- ===== src/Risk/Policy.antt =====
-- apps/api/app/risk/policy.py: `PolicyEngine.evaluate`, `exposure_metrics` and
-- `portfolio_risk_metrics`.
use hawk_fund_investment_int.Prelude.{
  Bool, Option, none, some, List, [], ◌∷◌, ◌++◌, map, ltb, if◌then◌else◌, Text, text_eq, codes,
}
use hawk_fund_investment_int.Prelude.Order.{sorted}
use hawk_fund_investment_int.Number.{Decimal, nil_amount, ◌⊖◌, ◌≺◌, maximum}
use hawk_fund_investment_int.Dict.{Dict, lookup, insert}
use hawk_fund_investment_int.Exposures.Types.{CategoryExposure, ExposureResult}
use hawk_fund_investment_int.Risk.Types.{
  PolicyOperator, at_most, at_least, PolicyEvaluationStatus, pass, breach, unavailable,
  PolicyRuleInput, PolicyEvaluationItem, missing, filled, RiskResult,
}

abbrev pub status_of : Bool → PolicyEvaluationStatus
status_of breached = if breached then breach else pass

module _ {D : Type 0} ⦃d : Decimal D⦄ where
  -- `amount`
  abbrev pub amount_of : PolicyOperator → D → D → D
  amount_of at_most observed threshold = observed ⊖ threshold
  amount_of at_least observed threshold = threshold ⊖ observed

  -- One turn of the loop of `evaluate`, on the metric that is looked up.
  abbrev pub item_of : PolicyRuleInput D → Option D → PolicyEvaluationItem D
  item_of rule none = record {
    rule_id = rule.rule_id;
    metric_key = rule.metric_key;
    status = unavailable;
    observed_value = none;
    threshold = rule.threshold;
    breach_amount = none;
    unit = rule.unit;
    explanation = missing rule.metric_key rule.threshold rule.unit;
  }
  item_of rule (some observed) =
      let amount = amount_of rule.operator observed rule.threshold in
      let breached = nil_amount ≺ amount in
      record {
        rule_id = rule.rule_id;
        metric_key = rule.metric_key;
        status = status_of breached;
        observed_value = some observed;
        threshold = rule.threshold;
        breach_amount = some (if breached then maximum amount nil_amount else nil_amount);
        unit = rule.unit;
        explanation =
            filled rule.explanation_template rule.metric_key observed rule.threshold
              (maximum amount nil_amount) rule.unit;
      }

  abbrev pub rule_lt : PolicyRuleInput D → PolicyRuleInput D → Bool
  rule_lt p q = ltb p.rule_id q.rule_id

  abbrev pub evaluate_rule : Dict Text D → PolicyRuleInput D → PolicyEvaluationItem D
  evaluate_rule metrics rule = item_of rule (lookup text_eq rule.metric_key metrics)

  unfoldable pub evaluate : List (PolicyRuleInput D) → Dict Text D → List (PolicyEvaluationItem D)
  unfolding sorted
  evaluate rules metrics = map (evaluate_rule metrics) (sorted rule_lt rules)

  -- `{item.category: item.weight for item in rows}`
  abbrev pub weights_by_category : Dict Text D → List (CategoryExposure D) → Dict Text D
  weights_by_category dict [] = dict
  weights_by_category dict (c ∷ cs) =
      weights_by_category (insert text_eq c.category c.weight dict) cs

  -- `metrics.update({f"{prefix}{key}": value ...})`
  abbrev pub update_with : Text → Dict Text D → Dict Text D → Dict Text D
  update_with prefix metrics [] = metrics
  update_with prefix metrics ((key, value) ∷ rest) =
      update_with prefix (insert text_eq (prefix ++ key) value metrics) rest

  unfoldable pub exposure_metrics : Dict Text D → Dict Text D → Dict Text D → D → D → Dict Text D
  exposure_metrics sector asset_class geography largest herfindahl =
      let metrics =
        (codes "concentration.largest_position_weight", largest)
        ∷ (codes "concentration.herfindahl_index", herfindahl)
        ∷ [] in
      let with_sector = update_with (codes "sector.") metrics sector in
      let with_asset_class = update_with (codes "asset_class.") with_sector asset_class in
      update_with (codes "geography.") with_asset_class geography

  -- `if value is not None`
  abbrev pub insert_some : Text → Option D → Dict Text D → Dict Text D
  insert_some key none metrics = metrics
  insert_some key (some value) metrics = insert text_eq key value metrics

  unfoldable pub portfolio_risk_metrics : ExposureResult D → RiskResult D → Dict Text D
  unfolding exposure_metrics
  portfolio_risk_metrics exposure risk =
      let exposed =
        exposure_metrics (weights_by_category [] exposure.sector_exposure)
          (weights_by_category [] exposure.asset_allocation)
          (weights_by_category [] exposure.geographic_exposure) exposure.largest_position_weight
          exposure.herfindahl_index in
      let volatile = insert_some (codes "risk.volatility") risk.annualized_volatility exposed in
      let sloped = insert_some (codes "risk.beta") risk.beta volatile in
      let tracked = insert_some (codes "risk.tracking_error") risk.tracking_error sloped in
      let valued = insert text_eq (codes "risk.var_return") risk.value_at_risk_return tracked in
      insert text_eq (codes "risk.expected_shortfall_return") risk.expected_shortfall_return valued
