-- ===== src/Exposures/Largest.antt =====
-- The largest position weight is the largest.
use hawk_fund_investment_int.Prelude.{
  ◌≡◌, false, not, ◌&&◌, ◌||◌, List, [], ◌∷◌, map, ok, arith, ltb, All, any, ok-injective, after_ok,
  raise_if, if◌then◌else◌,
}
use hawk_fund_investment_int.Prelude.Order.{Apart, IsOrder, sorted-Apart}
use hawk_fund_investment_int.Number.{Decimal, IsOrdered, nil_amount, ◌≺◌, ◌≼◌}
use hawk_fund_investment_int.Int.Defs.{ℤ, pos, ltb_ℤ}
use hawk_fund_investment_int.Exposures.Types.{
  PositionExposureInput, PositionWeight, ExposureResult, negative_value, bad_top_n,
  no_portfolio_value,
}
use hawk_fund_investment_int.Exposures.Engine.{
  Classifications, weight_of, weight_lt, largest_of, weights_of, exposure_of, value_of, calculate,
}

module _ {D : Type 0} ⦃d : Decimal D⦄ (laws : IsOrdered D) where
  weight_lt-eq :
      (v w : PositionWeight D)
      → weight_lt v w ≡ (
          if not (w.weight ≺ v.weight) && not (v.weight ≺ w.weight)
          then ltb v.instrument_id w.instrument_id
          else w.weight ≺ v.weight)
  weight_lt-eq v w = rw (
    laws.eq_iff (d.neg v.weight) (d.neg w.weight),
    laws.lt-neg v.weight w.weight,
    laws.lt-neg w.weight v.weight,
  )

  weight_lt-IsOrder : IsOrder (weight_lt {D = D})
  weight_lt-IsOrder = record {
    asymm = λ v w.
        rw (weight_lt-eq v w, weight_lt-eq w v)
          (λ h. ground (arith, laws.lt_asymm v.weight w.weight, laws.lt_asymm w.weight v.weight));
    trans = λ u v w.
        rw (weight_lt-eq v u, weight_lt-eq w v, weight_lt-eq w u)
          (λ h k. ground (
            arith,
            laws.le_trans u.weight v.weight w.weight,
            laws.le_trans w.weight v.weight u.weight,
            laws.le_trans v.weight w.weight u.weight,
            laws.le_trans u.weight w.weight v.weight,
            laws.le_trans w.weight u.weight v.weight,
            laws.le_trans v.weight u.weight w.weight,
            laws.lt_asymm u.weight v.weight,
            laws.lt_asymm v.weight w.weight,
            laws.lt_asymm u.weight w.weight,
          ));
  }

  not_lighter : (v w : PositionWeight D) → weight_lt w v ≡ false → (v.weight ≺ w.weight) ≡ false
  not_lighter v w = rw (weight_lt-eq w v) (λ h. ground arith)

  All-not_lighter :
      (v : PositionWeight D) (ws : List (PositionWeight D))
      → All (λ w. weight_lt w v ≡ false) ws
      → All (λ w. (v.weight ≺ w.weight) ≡ false) ws
  All-not_lighter v [] h = tt
  All-not_lighter v (w ∷ ws) h = (not_lighter v w h.0, All-not_lighter v ws h.1)

  largest_of_head :
      (ws : List (PositionWeight D))
      → Apart (λ v w. weight_lt w v ≡ false) ws
      → All (λ w. (largest_of ws ≺ w.weight) ≡ false) ws
  largest_of_head [] h = tt
  largest_of_head (w ∷ ws) h = (laws.lt_irrefl w.weight, All-not_lighter w ws h.0)

  -- No position has a larger weight than the largest position weight, and the positions are listed
  -- in the order of `weight_lt`, the larger weight first and equal weights by identifier.
  pub calculate-largest :
      (rows : List (PositionExposureInput D)) (cash : D) (classes : Classifications) (top_n : ℤ)
      {r : ExposureResult D}
      → calculate rows cash classes top_n ≡ ok r
      → All (λ w. (r.largest_position_weight ≺ w.weight) ≡ false) r.position_weights
        × Apart (λ v w. weight_lt w v ≡ false) r.position_weights
  unfolding calculate exposure_of weights_of
  calculate-largest rows cash classes top_n h =
      after_ok
        (raise_if (cash ≺ nil_amount || any (λ p. p.market_value ≺ nil_amount) rows) negative_value)
        _ h
        λ _ _ h1. after_ok (raise_if (not (ltb_ℤ (pos 0) top_n)) bad_top_n) _ h1 λ _ _ h2.
          after_ok (raise_if (value_of cash rows ≼ nil_amount) no_portfolio_value) _ h2 λ _ _ h3.
            let order =
              sorted-Apart weight_lt weight_lt-IsOrder
                (map (weight_of (value_of cash rows)) rows) in
            rw (← ok-injective h3)
              (largest_of_head (weights_of (value_of cash rows) rows) order, order)
