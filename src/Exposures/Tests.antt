-- ===== src/Exposures/Tests.antt =====
-- Two positions, one of them with a classification, and cash.
use hawk_fund_investment_int.Prelude.{◌≡◌, refl, false, [], ◌∷◌, List, map, ok, codes, none, All}
use hawk_fund_investment_int.Prelude.Order.{Apart}
use hawk_fund_investment_int.Number.{◌⊕◌, ◌≺◌, total, total_from}
use hawk_fund_investment_int.Int.{ℤ, pos, whole, whole-IsOrdered, whole-IsExact}
use hawk_fund_investment_int.Exposures.Types.{PositionExposureInput, ExposureResult}
use hawk_fund_investment_int.Exposures.Engine.{
  Classifications, cash_label, unclassified, weight_lt, calculate,
}
use hawk_fund_investment_int.Exposures.Sums.{calculate-totals}
use hawk_fund_investment_int.Exposures.Largest.{calculate-largest}

abbrev rows : List (PositionExposureInput ℤ)
rows =
    record { instrument_id = 4; market_value = pos 10 }
    ∷ record { instrument_id = 5; market_value = pos 30 }
    ∷ []

abbrev classes : Classifications
classes =
    (
      4,
      record {
        instrument_id = 4;
        sector = codes "Energy";
        asset_class = codes "Equity";
        geography = codes "US";
        effective_from = none;
        effective_to = none;
      },
    )
    ∷ []

abbrev result : ExposureResult ℤ
result = record {
  portfolio_value = pos 45;
  cash_value = pos 5;
  position_weights =
      record { instrument_id = 4; market_value = pos 10; weight = pos 0 }
      ∷ record { instrument_id = 5; market_value = pos 30; weight = pos 0 }
      ∷ [];
  sector_exposure =
      record { category = unclassified; market_value = pos 30; weight = pos 0 }
      ∷ record { category = codes "Energy"; market_value = pos 10; weight = pos 0 }
      ∷ record { category = cash_label; market_value = pos 5; weight = pos 0 }
      ∷ [];
  asset_allocation =
      record { category = unclassified; market_value = pos 30; weight = pos 0 }
      ∷ record { category = codes "Equity"; market_value = pos 10; weight = pos 0 }
      ∷ record { category = cash_label; market_value = pos 5; weight = pos 0 }
      ∷ [];
  geographic_exposure =
      record { category = unclassified; market_value = pos 30; weight = pos 0 }
      ∷ record { category = codes "US"; market_value = pos 10; weight = pos 0 }
      ∷ record { category = cash_label; market_value = pos 5; weight = pos 0 }
      ∷ [];
  top_holdings = record { instrument_id = 4; market_value = pos 10; weight = pos 0 } ∷ [];
  largest_position_weight = pos 0;
  herfindahl_index = pos 0;
  warnings = 5 ∷ [];
}

run : calculate rows (pos 5) classes (pos 1) ≡ ok result
unfolding calculate total_from
run = refl

calculate-totals_example :
    (result.portfolio_value ≡ pos 5 ⊕ total (map (λ p. p.market_value) rows))
    × (total (map (λ c. c.market_value) result.sector_exposure) ≡ result.portfolio_value)
    × (total (map (λ c. c.market_value) result.asset_allocation) ≡ result.portfolio_value)
    × (total (map (λ c. c.market_value) result.geographic_exposure) ≡ result.portfolio_value)
calculate-totals_example =
    calculate-totals whole-IsExact rows (pos 5) classes (pos 1) {r = result} run

calculate-largest_example :
    All (λ w. (result.largest_position_weight ≺ w.weight) ≡ false) result.position_weights
    × Apart (λ v w. weight_lt w v ≡ false) result.position_weights
calculate-largest_example =
    calculate-largest whole-IsOrdered rows (pos 5) classes (pos 1) {r = result} run
