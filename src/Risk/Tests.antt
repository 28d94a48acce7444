-- ===== src/Risk/Tests.antt =====
-- A policy of three rules, one on a metric that is not there, and three returns.
use hawk_fund_investment_int.Clock.{Datetime}
use hawk_fund_investment_int.Risk.Types.PolicyRuleSeverity.{blocking}
use hawk_fund_investment_int.Risk.Service.{HashPayload, RiskPolicy, Tables, evaluate_and_record}
use hawk_fund_investment_int.Risk.Recording.{
  AreRecorded, evaluate_and_record_again, evaluate_and_record-items,
}
use hawk_fund_investment_int.Prelude.{
  ℕ, ◌+◌, ◌==◌, select, Outcome, ok, some, ◌≡◌, refl, true, false, [], ◌∷◌, List, raised, codes,
  Text, ◌⊎◌, any, Succeeds, arith,
}
use hawk_fund_investment_int.Prelude.Order.{sorted}
use mathlib.Core.List.{Permᴰ}
use hawk_fund_investment_int.Int.Defs.{◌/ℤ◌, ◌*ℤ◌}
use hawk_fund_investment_int.Int.{ℤ, pos, negsuc, whole, whole-IsOrdered, whole-IsExact}
use hawk_fund_investment_int.Int.Hundredths.{hundredths, hundredths-IsOrdered, hundredths-IsRounded}
use hawk_fund_investment_int.Dict.{Dict}
use hawk_fund_investment_int.Exposures.Types.{ExposureResult}
use hawk_fund_investment_int.Analytics.Types.{invalid_operation}
use hawk_fund_investment_int.Risk.Types.{
  at_most, at_least, PolicyRuleInput, PolicyEvaluationItem, RiskError, statistics,
}
use hawk_fund_investment_int.Risk.Policy.{rule_lt, evaluate}
use hawk_fund_investment_int.Risk.Breaches.{AreJudged, evaluate-AreJudged}
use hawk_fund_investment_int.Risk.Engine.{calculate}
use hawk_fund_investment_int.Risk.Totality.{is_loss, calculate-outcome}

abbrev limit : PolicyRuleInput ℤ
limit = record {
  rule_id = 7;
  metric_key = codes "risk.beta";
  operator = at_most;
  threshold = pos 2;
  unit = codes "x";
  explanation_template = codes "{metric}";
}

abbrev floor : PolicyRuleInput ℤ
floor = record {
  rule_id = 3;
  metric_key = codes "cash";
  operator = at_least;
  threshold = pos 5;
  unit = codes "x";
  explanation_template = codes "{metric}";
}

abbrev rules : List (PolicyRuleInput ℤ)
rules = limit ∷ floor ∷ []

abbrev metrics : Dict Text ℤ
metrics = (codes "risk.beta", pos 4) ∷ []

evaluate-AreJudged_example :
    AreJudged metrics (evaluate rules metrics) (sorted rule_lt rules)
    × (evaluate (floor ∷ limit ∷ []) metrics ≡ evaluate rules metrics)
evaluate-AreJudged_example =
    evaluate-AreJudged whole-IsOrdered whole-IsExact metrics
      (Permᴰ.swap {a = limit} {b = floor} refl refl) ((omega arith, tt), (tt, tt))

abbrev exposure : ExposureResult ℤ
exposure = record {
  portfolio_value = pos 1000;
  cash_value = pos 0;
  position_weights = [];
  sector_exposure = [];
  asset_allocation = [];
  geographic_exposure = [];
  top_holdings = [];
  largest_position_weight = pos 0;
  herfindahl_index = pos 0;
  warnings = [];
}

abbrev returns : List ℤ
returns = pos 4 ∷ negsuc 2 ∷ pos 1 ∷ []

calculate-outcome_example :
    (any (is_loss ⦃d = hundredths⦄) returns ≡ true
      × Succeeds (calculate ⦃d = hundredths⦄ returns [] (pos 1000) exposure (pos 95) (pos 252)))
    ⊎ (any (is_loss ⦃d = hundredths⦄) returns ≡ false
        × calculate ⦃d = hundredths⦄ returns [] (pos 1000) exposure (pos 95) (pos 252)
          ≡ raised (statistics invalid_operation))
calculate-outcome_example =
    calculate-outcome ⦃d = hundredths⦄ hundredths-IsOrdered hundredths-IsRounded returns []
      (pos 1000) exposure (pos 95) 251 refl

abbrev digest : HashPayload ℤ → Text
digest p = p.policy_id ∷ p.version

abbrev at : ℕ → Datetime
at n = record { instant = n; aware = true }

-- A column that keeps whole tens.
abbrev tens : ℤ → ℤ
tens x = (x /ℤ pos 10) *ℤ pos 10

abbrev policy : RiskPolicy
policy = record { id = 1; fund_id = 2; effective_from = at 10; effective_to = some (at 99) }

abbrev tables : Tables ℤ
tables = record {
  policies = policy ∷ [];
  rules =
      record { policy_id = 1; rule = limit; severity = blocking }
      ∷ record { policy_id = 1; rule = floor; severity = blocking }
      ∷ [];
  evaluations = [];
  items = [];
}

abbrev call : Outcome RiskError ((ℕ × List (PolicyEvaluationItem ℤ)) × Tables ℤ)
call = evaluate_and_record digest tens 8 (λ n. n + 20) 2 1 (at 40) metrics (at 50) tables

abbrev outcome : (ℕ × List (PolicyEvaluationItem ℤ)) × Tables ℤ
outcome = elim call [ ok r ↦ r | raised _ ↦ ((0, []), tables) ]

call-eq-ok : call ≡ ok outcome
unfolding evaluate_and_record
call-eq-ok = refl

evaluate_and_record_again_example :
    evaluate_and_record digest tens 9 (λ n. n + 30) 2 1 (at 40) metrics (at 60) outcome.1
    ≡ ok outcome
evaluate_and_record_again_example =
    evaluate_and_record_again digest tens 8 (λ n. n + 20) 2 1 (at 40) metrics (at 50) tables 9
      (λ n. n + 30) (at 60) {r = outcome} call-eq-ok refl

evaluate_and_record-items_example :
    (outcome.0.0 ≡ 8)
    × AreRecorded tens metrics
        (select (λ i. i.evaluation_id == 8) outcome.1.items)
        (sorted rule_lt rules)
evaluate_and_record-items_example =
    evaluate_and_record-items digest tens 8 (λ n. n + 20) 2 1 (at 40) metrics (at 50) tables
      whole-IsOrdered whole-IsExact {r = outcome} call-eq-ok refl tt
