-- ===== src/Analytics/Tests.antt =====
-- Three values at three moments, with no roots to take of whole numbers.
use hawk_fund_investment_int.Prelude.{
  ℕ, ◌≡◌, refl, true, false, [], ◌∷◌, List, ok, raised, suc, length, some, All, take,
}
use hawk_fund_investment_int.Number.{total_from}
use hawk_fund_investment_int.Int.{ℤ, pos, negsuc, whole}
use hawk_fund_investment_int.Int.Hundredths.{hundredths, hundredths-IsOrdered}
use mathlib.Core.List.{Mem}
use hawk_fund_investment_int.Clock.{Datetime}
use hawk_fund_investment_int.Analytics.Types.{ValueObservation, ReturnObservation, AnalyticsResult}
use hawk_fund_investment_int.Analytics.Statistics.{compound}
use hawk_fund_investment_int.Analytics.Engine.{series_of, analyze}
use hawk_fund_investment_int.Analytics.Growth.{analyze-compound}
use hawk_fund_investment_int.Analytics.Drawdowns.{
  AllAt, IsDrawdownAt, drawdowns_of, analyze-maximum_drawdown,
}

abbrev at : ℕ → Datetime
at n = record { instant = n; aware = true }

abbrev observations : List (ValueObservation ℤ)
observations =
    record { observed_at = at 2; value = pos 40; external_flow = pos 0 }
    ∷ record { observed_at = at 1; value = pos 10; external_flow = pos 0 }
    ∷ record { observed_at = at 3; value = pos 80; external_flow = pos 0 }
    ∷ []

abbrev second : ReturnObservation ℤ
second = record { observed_at = at 3; period_return = pos 1; cumulative_return = pos 7 }

abbrev result : AnalyticsResult ℤ
result = record {
  returns =
      record { observed_at = at 2; period_return = pos 3; cumulative_return = pos 3 } ∷ second ∷ [];
  drawdowns =
      record { observed_at = at 1; drawdown = pos 0 }
      ∷ record { observed_at = at 2; drawdown = pos 0 }
      ∷ record { observed_at = at 3; drawdown = pos 0 }
      ∷ [];
  total_return = pos 7;
  annualized_volatility = some (pos 1);
  annualized_sharpe = some (pos 2);
  maximum_drawdown = pos 0;
}

run : analyze observations (pos 1) (pos 0) ≡ ok result
unfolding analyze total_from
run = refl

analyze-compound_example :
    (result.total_return ≡ compound (series_of result.returns))
    × (length result.drawdowns ≡ suc (length result.returns))
    × (second.cumulative_return ≡ compound (series_of (take 2 result.returns)))
analyze-compound_example =
    analyze-compound observations (pos 1) (pos 0) 1 {x = second} {r = result} run refl

-- In hundredths, a fall by half and a rise to four fifths of the first value.
abbrev falling : List (ValueObservation ℤ)
falling =
    record { observed_at = at 1; value = pos 1000; external_flow = pos 0 }
    ∷ record { observed_at = at 2; value = pos 500; external_flow = pos 0 }
    ∷ record { observed_at = at 3; value = pos 800; external_flow = pos 0 }
    ∷ []

abbrev fallen : AnalyticsResult ℤ
fallen = elim (analyze ⦃d = hundredths⦄ falling (pos 1) (pos 0)) [ ok r ↦ r | raised _ ↦ result ]

fall : analyze ⦃d = hundredths⦄ falling (pos 1) (pos 0) ≡ ok fallen
unfolding analyze total_from
fall = refl

deepest : fallen.maximum_drawdown ≡ negsuc 49
unfolding analyze total_from
deepest = refl

analyze-maximum_drawdown_example :
    AllAt (IsDrawdownAt ⦃d = hundredths⦄ fallen) fallen.drawdowns
    × Mem fallen.maximum_drawdown (drawdowns_of ⦃d = hundredths⦄ fallen)
    × (hundredths.lt (pos 0) fallen.maximum_drawdown ≡ false)
    × All (λ x. hundredths.lt x.drawdown fallen.maximum_drawdown ≡ false) fallen.drawdowns
analyze-maximum_drawdown_example =
    analyze-maximum_drawdown ⦃d = hundredths⦄ hundredths-IsOrdered falling (pos 1) (pos 0)
      {r = fallen} fall
