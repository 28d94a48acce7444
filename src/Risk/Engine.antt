-- ===== src/Risk/Engine.antt =====
-- apps/api/app/risk/engine.py: `RiskEngine.calculate`.
use hawk_fund_investment_int.Prelude.{
  ℕ, ◌-◌, not, ◌&&◌, Option, none, List, [], ◌∷◌, map, Outcome, ok, raised, ◌>>=◌, ◌>>◌, raise_if,
  require, length, select, get_elem?, is_empty, ◌==◌,
}
use hawk_fund_investment_int.Prelude.Order.{sorted}
use hawk_fund_investment_int.Number.{
  Decimal, nil_amount, unit_amount, ◌⊖◌, ◌⊗◌, ◌≺◌, ◌≼◌, maximum, total,
}
use hawk_fund_investment_int.Int.Defs.{ℤ, pos, pos_part}
use hawk_fund_investment_int.Exposures.Types.{ExposureResult}
use hawk_fund_investment_int.Analytics.Types.{Raises, divide}
use hawk_fund_investment_int.Analytics.Statistics.{annualized_stddev, beta, zip_with}
use hawk_fund_investment_int.Risk.Types.{
  RiskResult, RiskError, no_returns, no_portfolio_value, bad_confidence, not_aligned, index_error,
  statistics,
}

-- What the statistics raise passes through.
abbrev pub pass_on : {A : Type 0} → Raises A → Outcome RiskError A
pass_on (ok a) = ok a
pass_on (raised e) = raised (statistics e)

-- `max(0, rank - 1)`
abbrev pub index_of : ℤ → ℕ
index_of rank = pos_part rank - 1

module _ {D : Type 0} ⦃d : Decimal D⦄ where
  unfoldable pub losses_of : List D → List D
  unfolding sorted
  losses_of returns = sorted d.lt (map d.neg returns)

  -- `max(ZERO, losses[max(0, rank - 1)])`
  abbrev pub value_at_risk : D → List D → Outcome RiskError D
  value_at_risk confidence losses = do
    let rank = d.ceil (confidence ⊗ d.of_int (pos (length losses)))
    loss ← require (get_elem? losses (index_of rank)) index_error
    ok (maximum nil_amount loss)

  abbrev pub tail_of : D → List D → List D
  tail_of least losses = select (λ x. least ≼ x) losses

  abbrev pub expected_shortfall : D → List D → Outcome RiskError D
  expected_shortfall least losses = do
    let tail = tail_of least losses
    average ← pass_on (divide (total tail) (d.of_int (pos (length tail))))
    ok (maximum nil_amount average)

  -- `tracking` and `portfolio_beta`
  unfoldable pub against : List D → List D → ℤ → Outcome RiskError (Option D × Option D)
  unfolding annualized_stddev beta
  against returns [] periods = ok (none, none)
  against returns (b ∷ bs) periods = do
    tracking ← pass_on (annualized_stddev (zip_with (λ p q. p ⊖ q) returns (b ∷ bs)) periods)
    slope ← pass_on (beta returns (b ∷ bs))
    ok (tracking, slope)

  abbrev pub check_inputs : List D → List D → D → D → Outcome RiskError (Unit {0})
  check_inputs returns benchmark portfolio_value confidence =
      raise_if (is_empty returns) no_returns
      >> (raise_if (portfolio_value ≼ nil_amount) no_portfolio_value
          >> (raise_if (not (nil_amount ≺ confidence && confidence ≺ unit_amount)) bad_confidence
              >> raise_if (not (is_empty benchmark) && not (length benchmark == length returns))
                  not_aligned))

  abbrev pub result_of :
      List D → D → ExposureResult D → D → D → D → Option D × Option D → Option D → RiskResult D
  result_of returns portfolio_value exposure confidence var shortfall (tracking, slope) volatility =
      record {
        observation_count = length returns;
        confidence_level = confidence;
        annualized_volatility = volatility;
        beta = slope;
        value_at_risk_return = var;
        expected_shortfall_return = shortfall;
        value_at_risk_amount = portfolio_value ⊗ var;
        expected_shortfall_amount = portfolio_value ⊗ shortfall;
        tracking_error = tracking;
        largest_position_weight = exposure.largest_position_weight;
        herfindahl_index = exposure.herfindahl_index;
      }

  unfoldable pub calculate :
      List D → List D → D → ExposureResult D → D → ℤ → Outcome RiskError (RiskResult D)
  unfolding losses_of against annualized_stddev
  calculate returns benchmark portfolio_value exposure confidence periods = do
    check_inputs returns benchmark portfolio_value confidence
    let losses = losses_of returns
    var ← value_at_risk confidence losses
    shortfall ← expected_shortfall var losses
    relative ← against returns benchmark periods
    volatility ← pass_on (annualized_stddev returns periods)
    ok (result_of returns portfolio_value exposure confidence var shortfall relative volatility)
