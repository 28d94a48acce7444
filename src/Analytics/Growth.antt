-- ===== src/Analytics/Growth.antt =====
-- The returns of a series compound to its total return.
use hawk_fund_investment_int.Prelude.{
  ℕ, zero, suc, ◌≡◌, refl, sym, ap, List, [], ◌∷◌, ok, length, take, get_elem?, Option, some,
  after_ok, ok-injective, subst, if◌then◌else◌,
}
use mathlib.Core.Option.{some-injective}
use hawk_fund_investment_int.Number.{Decimal, unit_amount, ◌⊕◌, ◌⊖◌, ◌⊗◌, ◌≺◌}
use hawk_fund_investment_int.Int.Defs.{ℤ}
use hawk_fund_investment_int.Analytics.Types.{ValueObservation, ReturnObservation, AnalyticsResult}
use hawk_fund_investment_int.Analytics.Statistics.{grow, compound, sample_stddev, scaled}
use hawk_fund_investment_int.Analytics.Engine.{
  period_return_of, series_of, follow_growth, sharpe_of, ordered_values, result_of, analyze_ordered,
  analyze,
}

module _ {D : Type 0} ⦃d : Decimal D⦄ where
  growth-grow :
      (previous : ValueObservation D) (growth peak : D) (xs : List (ValueObservation D))
      → let run = follow_growth previous growth peak xs in
        (run.growth ≡ grow growth (series_of run.returns))
        × (length run.drawdowns ≡ length run.returns)
        × (length run.returns ≡ length xs)
  unfolding follow_growth
  growth-grow previous growth peak [] = (refl, refl, refl)
  growth-grow previous growth peak (x ∷ xs) =
      let next = growth ⊗ (unit_amount ⊕ period_return_of previous x) in
      let (sum, drawn, rows) = growth-grow x next (if peak ≺ next then next else peak) xs in
      (sum, ap suc drawn, ap suc rows)

  cumulative-grow :
      (previous : ValueObservation D) (growth peak : D) (xs : List (ValueObservation D)) (n : ℕ)
      {r : ReturnObservation D}
      → get_elem? (follow_growth previous growth peak xs).returns n ≡ some r
      → r.cumulative_return
        ≡ grow growth (series_of (take (suc n) (follow_growth previous growth peak xs).returns))
          ⊖ unit_amount
  unfolding follow_growth
  cumulative-grow previous growth peak [] n h = cc
  cumulative-grow previous growth peak (x ∷ xs) zero h =
      ap (λ (q : ReturnObservation D). q.cumulative_return) (sym (some-injective _ _ h))
  cumulative-grow previous growth peak (x ∷ xs) (suc n) h =
      let next = growth ⊗ (unit_amount ⊕ period_return_of previous x) in
      cumulative-grow x next (if peak ≺ next then next else peak) xs n h

  -- What is returned of values in order.
  pub analyze_ordered-eq-ok :
      (first : ValueObservation D) (rest : List (ValueObservation D)) (periods : ℤ) (risk_free : D)
      {r : AnalyticsResult D}
      → analyze_ordered (first ∷ rest) periods risk_free ≡ ok r
      → (volatility : Option D) × (sharpe : Option D) × (result_of first
            (follow_growth first unit_amount unit_amount rest)
            volatility
            sharpe
          ≡ r)
  unfolding follow_growth sample_stddev
  analyze_ordered-eq-ok first rest periods risk_free h =
      let run = follow_growth first unit_amount unit_amount rest in
      let series = series_of run.returns in
      after_ok (sample_stddev series) _ h λ deviation _ h1.
        after_ok (scaled deviation periods) _ h1 λ volatility _ h2.
          after_ok (sharpe_of series risk_free periods deviation) _ h2
            λ sharpe _ h3. (volatility, sharpe, ok-injective h3)

  -- What a result says of its own returns and drawdowns.
  abbrev IsCompounded : ℕ → ReturnObservation D → AnalyticsResult D → Type 0
  IsCompounded n x r =
      (r.total_return ≡ compound (series_of r.returns))
      × (length r.drawdowns ≡ suc (length r.returns))
      × (get_elem? r.returns n ≡ some x
          → x.cumulative_return ≡ compound (series_of (take (suc n) r.returns)))

  result_of-IsCompounded :
      (first : ValueObservation D) (rest : List (ValueObservation D)) (volatility sharpe : Option D)
      (n : ℕ) (x : ReturnObservation D)
      → IsCompounded n x
          (result_of first (follow_growth first unit_amount unit_amount rest) volatility sharpe)
  unfolding follow_growth compound
  result_of-IsCompounded first rest volatility sharpe n x =
      let run = growth-grow first unit_amount unit_amount rest in
      (
        ap (λ x. x ⊖ unit_amount) run.0,
        ap suc run.1,
        λ h. cumulative-grow first unit_amount unit_amount rest n h,
      )

  analyze_ordered-IsCompounded :
      (ordered : List (ValueObservation D)) (periods : ℤ) (risk_free : D) (n : ℕ)
      (x : ReturnObservation D) {r : AnalyticsResult D}
      → analyze_ordered ordered periods risk_free ≡ ok r
      → IsCompounded n x r
  analyze_ordered-IsCompounded [] periods risk_free n x h = cc
  analyze_ordered-IsCompounded (first ∷ rest) periods risk_free n x h =
      let (volatility, sharpe, q) = analyze_ordered-eq-ok first rest periods risk_free h in
      subst (IsCompounded n x) q (result_of-IsCompounded first rest volatility sharpe n x)

  -- A successful call returns the compound of its period returns as the total return, and one
  -- drawdown more than returns; and the cumulative return in each row is the compound of the period
  -- returns up to that row.
  pub analyze-compound :
      (observations : List (ValueObservation D)) (periods : ℤ) (risk_free : D) (n : ℕ)
      {x : ReturnObservation D} {r : AnalyticsResult D}
      → analyze observations periods risk_free ≡ ok r
      → get_elem? r.returns n ≡ some x
      → (r.total_return ≡ compound (series_of r.returns))
        × (length r.drawdowns ≡ suc (length r.returns))
        × (x.cumulative_return ≡ compound (series_of (take (suc n) r.returns)))
  unfolding analyze
  analyze-compound observations periods risk_free n {x} h at =
      after_ok (ordered_values observations) _ h λ ordered _ e.
        let (total, drawn, rows) = analyze_ordered-IsCompounded ordered periods risk_free n x e in
        (total, drawn, rows at)
