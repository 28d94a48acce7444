-- ===== src/Scenarios/Tests.antt =====
-- A scenario with no shock, compared with no benchmark.
use hawk_fund_investment_int.Int.Hundredths.{hundredths}
use hawk_fund_investment_int.Prelude.{List, ◌≡◌, false, [], ◌∷◌, codes, is_ok}
use hawk_fund_investment_int.Int.{ℤ, pos, negsuc, whole}
use hawk_fund_investment_int.Valuation.Tests.{valued}
use hawk_fund_investment_int.Scenarios.Types.{hypothetical, ScenarioDefinition, ScenarioResult}
use hawk_fund_investment_int.Scenarios.Comparison.{compare}
use hawk_fund_investment_int.Scenarios.Benchmark.{compare-no_benchmark}

abbrev definition : ScenarioDefinition ℤ
definition = record {
  id = 1;
  fund_id = 1;
  name = codes "calm";
  version = pos 1;
  kind = hypothetical;
  shocks = [];
  source_metadata = [];
}

abbrev scenario : ScenarioResult ℤ
scenario = record {
  definition = definition;
  as_of = valued.as_of;
  baseline = valued;
  projected = valued;
  positions = [];
  pnl_impact = pos 0;
  portfolio_return_impact = pos 0;
  warnings = [];
  canonical_input_hash = [];
  classifications = [];
}

abbrev returns : List ℤ
returns = negsuc 2 ∷ pos 4 ∷ []

compare-no_benchmark_example :
    is_ok (compare ⦃d = hundredths⦄ scenario [] returns [] [] (pos 0) (pos 95) (pos 252) (pos 10))
    ≡ false
compare-no_benchmark_example =
    compare-no_benchmark ⦃d = hundredths⦄ scenario [] returns [] (pos 0) (pos 95) (pos 252) (pos 10)
