-- ===== src/Governance/Liquidity/Tests.antt =====
-- Two positions, one of which can be sold within the horizon.
use hawk_fund_investment_int.Prelude.{◌≡◌, refl, true, some, List, [], ◌∷◌, ok, raised, All, none}
use hawk_fund_investment_int.Number.{total_from}
use hawk_fund_investment_int.Int.Hundredths.{hundredths}
use hawk_fund_investment_int.Int.{ℤ, pos, whole, whole-IsOrdered}
use hawk_fund_investment_int.Governance.Liquidity.{
  PositionLiquidityInput, LiquidityResult, is_within, calculate,
}
use hawk_fund_investment_int.Governance.Liquidity.Bounds.{calculate-liquid, calculate-maximum}

abbrev rows : List (PositionLiquidityInput ℤ)
rows =
    record { instrument_id = 9; market_value = pos 60; average_daily_volume_value = some (pos 10) }
    ∷ record {
      instrument_id = 4;
      market_value = pos 30;
      average_daily_volume_value = some (pos 15);
    }
    ∷ []

abbrev nothing : LiquidityResult ℤ
nothing = record {
  cash_weight = pos 0;
  liquid_within_horizon_weight = pos 0;
  maximum_days_to_liquidate = none;
  positions = [];
  warnings = [];
}

abbrev result : LiquidityResult ℤ
result = elim (calculate rows (pos 10) (pos 100) (pos 1) (pos 5)) [ ok r ↦ r | raised _ ↦ nothing ]

run : calculate rows (pos 10) (pos 100) (pos 1) (pos 5) ≡ ok result
unfolding calculate
run = refl

longest : result.maximum_days_to_liquidate ≡ some (pos 6)
unfolding calculate
longest = refl

-- In hundredths, half of the volume a day: the first position takes six days and the second four,
-- and the third has no volume.
abbrev halves : List (PositionLiquidityInput ℤ)
halves =
    record {
      instrument_id = 9;
      market_value = pos 6000;
      average_daily_volume_value = some (pos 2000);
    }
    ∷ record {
      instrument_id = 4;
      market_value = pos 3000;
      average_daily_volume_value = some (pos 1500);
    }
    ∷ record { instrument_id = 5; market_value = pos 100; average_daily_volume_value = none }
    ∷ []

abbrev at_half : LiquidityResult ℤ
at_half = elim (calculate ⦃d = hundredths⦄ halves (pos 900) (pos 10000) (pos 50) (pos 400)) [
  | ok r ↦ r
  | raised _ ↦ nothing
]

half_runs : calculate ⦃d = hundredths⦄ halves (pos 900) (pos 10000) (pos 50) (pos 400) ≡ ok at_half
unfolding calculate
half_runs = refl

liquid_weight : at_half.liquid_within_horizon_weight ≡ pos 39
unfolding calculate
liquid_weight = refl

calculate-liquid_example :
    (at_half.liquid_within_horizon_weight
      ≡ hundredths.div (total_from ⦃d = hundredths⦄ (pos 900) (pos 3000 ∷ [])) (pos 10000))
    × (at_half.warnings ≡ 5 ∷ [])
calculate-liquid_example =
    calculate-liquid ⦃d = hundredths⦄ halves (pos 900) (pos 10000) (pos 50) (pos 400) {r = at_half}
      half_runs

calculate-maximum_example : All (λ p. is_within (pos 6) p.days_to_liquidate ≡ true) result.positions
calculate-maximum_example =
    calculate-maximum whole-IsOrdered rows (pos 10) (pos 100) (pos 1) (pos 5) {r = result}
      {most = pos 6} run longest
