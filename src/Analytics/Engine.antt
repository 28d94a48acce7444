-- ===== src/Analytics/Engine.antt =====
-- apps/api/app/analytics/engine.py: `AnalyticsEngine`.
use hawk_fund_investment_int.Prelude.{
  Bool, false, not, ◌||◌, Option, none, some, List, [], ◌∷◌, map, ok, raised, ◌>>=◌, ◌>>◌, raise_if,
  length, is_empty, any, select, ltb, if◌then◌else◌,
}
use hawk_fund_investment_int.Prelude.Order.{sorted}
use hawk_fund_investment_int.Number.{
  Decimal, nil_amount, unit_amount, ◌⊕◌, ◌⊖◌, ◌⊗◌, ◌⊘◌, ◌≺◌, ◌≼◌, ◌≈◌, minimum, total,
}
use hawk_fund_investment_int.Int.Defs.{ℤ}
use hawk_fund_investment_int.Clock.{Datetime, before, is_mixed, same_moment}
use hawk_fund_investment_int.Dict.{Dict, insert, get_or}
use hawk_fund_investment_int.Analytics.Types.{
  ValueObservation, ReturnObservation, DrawdownObservation, AttributionInput, AttributionResult,
  AnalyticsResult, BenchmarkComparison, no_alignment, negative_weight, excess_weight, no_values,
  repeated_timestamp, naive_timestamp, nonpositive_value, type_error, Raises, divide, square_root,
}
use hawk_fund_investment_int.Analytics.Statistics.{
  mean, sample_stddev, annualized_stddev, scaled, zip_with, compound, beta,
}

-- `len({item.observed_at ...}) != len(ordered)`
abbrev pub moments_repeat : List Datetime → Bool
moments_repeat [] = false
moments_repeat (t ∷ ts) = any (same_moment t) ts || moments_repeat ts

-- The lists and the growth that the loop of `analyze` builds.
pub record Growth (D : Type 0) : Type 0 where
  pub returns : List (ReturnObservation D)
  pub drawdowns : List (DrawdownObservation D)
  pub growth : D

module _ {D : Type 0} ⦃d : Decimal D⦄ where
  abbrev pub moments : List (ValueObservation D) → List Datetime
  moments xs = map (λ x. x.observed_at) xs

  abbrev pub check_values : List (ValueObservation D) → Raises (Unit {0})
  check_values [] = ok tt
  check_values (x ∷ xs) =
      let rest = check_values xs in
      raise_if (not x.observed_at.aware) naive_timestamp
      >> (raise_if (x.value ≼ nil_amount) nonpositive_value >> rest)

  -- `_values`
  unfoldable pub ordered_values : List (ValueObservation D) → Raises (List (ValueObservation D))
  unfolding sorted
  ordered_values observations = do
    raise_if (is_mixed (moments observations)) type_error
    let ordered = sorted (λ x y. before x.observed_at y.observed_at) observations
    raise_if (is_empty ordered) no_values
    raise_if (moments_repeat (moments ordered)) repeated_timestamp
    check_values ordered
    ok ordered

  abbrev pub period_return_of : ValueObservation D → ValueObservation D → D
  period_return_of previous x = (x.value ⊖ x.external_flow) ⊘ previous.value ⊖ unit_amount

  -- The loop of `analyze`, behind the observation `previous`.
  unfoldable pub follow_growth : ValueObservation D → D → D → List (ValueObservation D) → Growth D
  follow_growth previous growth peak [] = record { returns = []; drawdowns = []; growth = growth }
  follow_growth previous growth peak (x ∷ xs) =
      let period = period_return_of previous x in
      let next = growth ⊗ (unit_amount ⊕ period) in
      let top = if peak ≺ next then next else peak in
      let rest = follow_growth x next top xs in
      record {
        returns =
            record {
              observed_at = x.observed_at;
              period_return = period;
              cumulative_return = next ⊖ unit_amount;
            }
            ∷ rest.returns;
        drawdowns =
            record { observed_at = x.observed_at; drawdown = next ⊘ top ⊖ unit_amount }
            ∷ rest.drawdowns;
        growth = rest.growth;
      }

  abbrev pub series_of : List (ReturnObservation D) → List D
  series_of rs = map (λ r. r.period_return) rs

  abbrev pub sharpe_ratio : List D → D → ℤ → D → Raises (Option D)
  sharpe_ratio series risk_free periods deviation = if deviation ≈ nil_amount then ok none else do
    period_rf ← divide risk_free (d.of_int periods)
    average ← mean series
    root ← square_root (d.of_int periods)
    ratio ← divide ((average ⊖ period_rf) ⊗ root) deviation
    ok (some ratio)

  abbrev pub sharpe_of : List D → D → ℤ → Option D → Raises (Option D)
  sharpe_of series risk_free periods none = ok none
  sharpe_of series risk_free periods (some deviation) =
      sharpe_ratio series risk_free periods deviation

  -- `min((item.drawdown for item in drawdowns), default=ZERO)` of a list that begins with a zero
  abbrev pub least : D → List (DrawdownObservation D) → D
  least low [] = low
  least low (x ∷ xs) = least (minimum low x.drawdown) xs

  abbrev pub result_of : ValueObservation D → Growth D → Option D → Option D → AnalyticsResult D
  result_of first run volatility sharpe = record {
    returns = run.returns;
    drawdowns = record { observed_at = first.observed_at; drawdown = nil_amount } ∷ run.drawdowns;
    total_return = run.growth ⊖ unit_amount;
    annualized_volatility = volatility;
    annualized_sharpe = sharpe;
    maximum_drawdown = least nil_amount run.drawdowns;
  }

  abbrev pub analyze_ordered : List (ValueObservation D) → ℤ → D → Raises (AnalyticsResult D)
  analyze_ordered [] periods risk_free = raised no_values
  analyze_ordered (first ∷ rest) periods risk_free = do
    let run = follow_growth first unit_amount unit_amount rest
    let series = series_of run.returns
    deviation ← sample_stddev series
    volatility ← scaled deviation periods
    sharpe ← sharpe_of series risk_free periods deviation
    ok (result_of first run volatility sharpe)

  unfoldable pub analyze : List (ValueObservation D) → ℤ → D → Raises (AnalyticsResult D)
  unfolding ordered_values follow_growth mean sample_stddev
  analyze observations periods risk_free = do
    ordered ← ordered_values observations
    analyze_ordered ordered periods risk_free

  -- `{item.observed_at: item.period_return for item in returns}`
  abbrev pub by_moment : Dict Datetime D → List (ReturnObservation D) → Dict Datetime D
  by_moment dict [] = dict
  by_moment dict (r ∷ rs) = by_moment (insert same_moment r.observed_at r.period_return dict) rs

  abbrev pub has_moment : Dict Datetime D → Datetime → Bool
  has_moment dict t = any (λ e. same_moment t e.0) dict

  unfoldable pub aligned : Dict Datetime D → Dict Datetime D → List Datetime
  unfolding sorted
  aligned portfolio benchmark =
      sorted before (select (has_moment benchmark) (map (λ e. e.0) portfolio))

  abbrev pub values_at : Dict Datetime D → List Datetime → List D
  values_at dict ts = map (λ t. get_or same_moment t nil_amount dict) ts

  unfoldable pub compare_returns :
      List (ReturnObservation D) → List (ReturnObservation D) → ℤ → Raises (BenchmarkComparison D)
  unfolding aligned compound annualized_stddev beta
  compare_returns portfolio_returns benchmark_returns periods = do
    let portfolio = by_moment [] portfolio_returns
    let benchmark = by_moment [] benchmark_returns
    let timestamps = aligned portfolio benchmark
    raise_if (is_mixed timestamps) type_error
    raise_if (is_empty timestamps) no_alignment
    let p = values_at portfolio timestamps
    let b = values_at benchmark timestamps
    tracking ← annualized_stddev (zip_with (λ x y. x ⊖ y) p b) periods
    slope ← beta p b
    ok (record {
      aligned_count = length timestamps;
      portfolio_total_return = compound p;
      benchmark_total_return = compound b;
      excess_total_return = compound p ⊖ compound b;
      tracking_error = tracking;
      beta = slope;
    })

  abbrev pub contribution_of : AttributionInput D → AttributionResult D
  contribution_of x = record {
    instrument_id = x.instrument_id;
    contribution = x.beginning_weight ⊗ x.security_return;
  }

  unfoldable pub attribute : List (AttributionInput D) → Raises (List (AttributionResult D))
  unfolding sorted
  attribute rows = do
    raise_if (any (λ x. x.beginning_weight ≺ nil_amount) rows) negative_weight
    raise_if (unit_amount ≺ total (map (λ x. x.beginning_weight) rows)) excess_weight
    ok (map contribution_of (sorted (λ x y. ltb x.instrument_id y.instrument_id) rows))
