-- ===== src/Scenarios/Benchmark.antt =====
-- A comparison wants a benchmark.
use hawk_fund_investment_int.Prelude.{
  ◌≡◌, false, not, ◌&&◌, List, [], ◌∷◌, ◌++◌, Outcome, ok, raised, raise_if, raise_if-eq-ok,
  after_ok, length, length-append, is_ok, is_ok-false, is_empty, arith, ◌==◌,
}
use hawk_fund_investment_int.Number.{Decimal, nil_amount, unit_amount, ◌≺◌, ◌≼◌}
use hawk_fund_investment_int.Int.Defs.{ℤ}
use hawk_fund_investment_int.Exposures.Types.{ExposureResult}
use hawk_fund_investment_int.Exposures.Engine.{Classifications}
use hawk_fund_investment_int.Exposures.Engine as Exposure
use hawk_fund_investment_int.Risk.Types.{
  RiskResult, RiskError, PolicyRuleInput, no_returns, no_portfolio_value, bad_confidence,
  not_aligned,
}
use hawk_fund_investment_int.Risk.Engine.{check_inputs}
use hawk_fund_investment_int.Risk.Engine as Risk
use hawk_fund_investment_int.Scenarios.Types.{ScenarioResult, BeforeAfterResult}
use hawk_fund_investment_int.Scenarios.Comparison.{exposed, risked, inputs_of, compare}

risked-ok : {A : Type 0} (call : Outcome RiskError A) {a : A} → risked call ≡ ok a → call ≡ ok a
risked-ok (ok b) h = cc
risked-ok (raised e) h = cc

module _ {D : Type 0} ⦃d : Decimal D⦄ where
  -- What the checks say of the lengths.
  checked-lengths :
      (returns benchmark : List D) (portfolio_value confidence : D) {u : Unit {0}}
      → check_inputs returns benchmark portfolio_value confidence ≡ ok u
      → (is_empty returns ≡ false)
        × ((not (is_empty benchmark) && not (length benchmark == length returns)) ≡ false)
  checked-lengths returns benchmark portfolio_value confidence h =
      after_ok (raise_if (is_empty returns) no_returns) _ h λ _ e h1.
        after_ok (raise_if (portfolio_value ≼ nil_amount) no_portfolio_value) _ h1 λ _ _ h2.
          after_ok
            (raise_if (not (nil_amount ≺ confidence && confidence ≺ unit_amount)) bad_confidence) _
            h2 λ _ _ h3. (raise_if-eq-ok _ no_returns e, raise_if-eq-ok _ not_aligned h3)

  calculate-lengths :
      (returns benchmark : List D) (portfolio_value : D) (exposure : ExposureResult D)
      (confidence : D) (periods : ℤ) {r : RiskResult D}
      → risked (Risk.calculate returns benchmark portfolio_value exposure confidence periods) ≡ ok r
      → (is_empty returns ≡ false)
        × ((not (is_empty benchmark) && not (length benchmark == length returns)) ≡ false)
  unfolding Risk.calculate
  calculate-lengths returns benchmark portfolio_value exposure confidence periods h =
      after_ok (check_inputs returns benchmark portfolio_value confidence) _ (risked-ok _ h)
        λ _ e _. checked-lengths returns benchmark portfolio_value confidence e

  one_too_few :
      (returns : List D) (impact move : D)
      → is_empty returns ≡ false
      → (not (is_empty (move ∷ [])) && not (length (move ∷ []) == length (returns ++ impact ∷ [])))
        ≡ false
      → ⊥
  one_too_few [] impact move h k = cc
  one_too_few (x ∷ xs) impact move h k = let size = length-append xs (impact ∷ []) in ground arith

  never_compared :
      (scenario : ScenarioResult D) (classes : Classifications) (returns : List D)
      (rules : List (PolicyRuleInput D)) (benchmark_return confidence : D) (periods top_n : ℤ)
      (r : BeforeAfterResult D)
      → ¬ (
          compare scenario classes returns [] rules benchmark_return confidence periods top_n
          ≡ ok r)
  unfolding compare
  never_compared scenario classes returns rules benchmark_return confidence periods top_n r h =
      let impact = scenario.portfolio_return_impact in
      after_ok
        (exposed (
          Exposure.calculate (inputs_of scenario.baseline) scenario.baseline.cash_value classes
            top_n))
        _ h
        λ before _ h1.
          after_ok
            (exposed (
              Exposure.calculate (inputs_of scenario.projected) scenario.projected.cash_value
                classes top_n))
            _ h1
            λ after _ h2.
              after_ok
                (risked (
                  Risk.calculate returns [] scenario.baseline.portfolio_value before confidence
                    periods))
                _ h2
                λ _ first h3.
                  after_ok
                    (risked (
                      Risk.calculate (returns ++ impact ∷ []) (benchmark_return ∷ [])
                        scenario.projected.portfolio_value after confidence periods))
                    _ h3
                    λ _ second _.
                      one_too_few returns impact benchmark_return
                        (calculate-lengths returns [] scenario.baseline.portfolio_value before
                          confidence periods first).0
                        (calculate-lengths (returns ++ impact ∷ []) (benchmark_return ∷ [])
                          scenario.projected.portfolio_value after confidence periods second).1

  -- A comparison with no benchmark returns raises, whatever else it is given: the projection adds
  -- the benchmark's return of the scenario to them, and one return is not aligned with two or more.
  pub compare-no_benchmark :
      (scenario : ScenarioResult D) (classes : Classifications) (returns : List D)
      (rules : List (PolicyRuleInput D)) (benchmark_return confidence : D) (periods top_n : ℤ)
      → is_ok (compare scenario classes returns [] rules benchmark_return confidence periods top_n)
        ≡ false
  compare-no_benchmark scenario classes returns rules benchmark_return confidence periods top_n =
      is_ok-false _
        (never_compared scenario classes returns rules benchmark_return confidence periods top_n)
