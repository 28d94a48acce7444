-- ===== src/Valuation/Tests.antt =====
-- The portfolio of the ledger's examples at one quote, and the profit of its reversed sale.
use hawk_fund_investment_int.Prelude.{
  ◌≡◌, refl, true, false, ◌⊎◌, none, some, [], ◌∷◌, map, ok, raised, all, any, is_none, codes,
}
use mathlib.Core.List.{Permᴰ}
use hawk_fund_investment_int.Number.{◌⊕◌, total}
use hawk_fund_investment_int.Int.{ℤ, pos, whole, whole-IsExact}
use hawk_fund_investment_int.MarketData.Types.PriceType.{close}
use hawk_fund_investment_int.MarketData.Types.FreshnessStatus.{stale}
use hawk_fund_investment_int.Portfolio.Types.{LedgerTransaction, PortfolioState}
use hawk_fund_investment_int.Portfolio.Engine.{reconstruct}
use hawk_fund_investment_int.Portfolio.Validation.{usd, validate_one}
use hawk_fund_investment_int.Portfolio.Tests.{
  at_time, cutoff, no_hash, state, ledger, shuffled, deposit, purchase, sale, undo,
}
use hawk_fund_investment_int.Valuation.Types.{ValuationResult, RealizedPnlResult, ValuationError}
use hawk_fund_investment_int.Valuation.Engine.{Quotes, value, result_of}
use hawk_fund_investment_int.Valuation.Totals.{has_price, AreValued, value-outcome}
use hawk_fund_investment_int.Valuation.Profit.{costs, value-unrealized}
use hawk_fund_investment_int.Valuation.Realized.{PnlRun, pnl_loop, calculate}
use hawk_fund_investment_int.Valuation.Reversals.{calculate-perm, IsTakenBack, pnl_loop-takes_back}

abbrev quotes : Quotes ℤ
quotes =
    (
      4,
      record {
        observation_id = 1;
        instrument_id = 4;
        provider = codes "feed";
        price_type = close;
        observed_at = at_time 1;
        received_at = at_time 2;
        price = pos 30;
        currency = usd;
        source_identifier = codes "X";
        freshness = stale;
        age = 5;
        source_metadata = [];
      },
    )
    ∷ []

abbrev no_profit : RealizedPnlResult ℤ
no_profit = record { amount = some (pos 0); warnings = [] }

value-outcome_example :
    (all (has_price state.currency quotes) state.positions ≡ true
      × ((r : ValuationResult ℤ) × (value state quotes no_profit ≡ ok r)
          × AreValued state.currency quotes state.positions r.positions
          × (r.portfolio_value ≡ state.cash ⊕ total (map (λ v. v.market_value) r.positions))))
    ⊎ (all (has_price state.currency quotes) state.positions ≡ false
        × ((e : ValuationError) × (value state quotes no_profit ≡ raised e)))
value-outcome_example = value-outcome state quotes no_profit

abbrev pub valued : ValuationResult ℤ
valued = elim (value state quotes no_profit) [
  | ok r ↦ r
  | raised _ ↦ result_of state no_profit ([], [])
]

run : value state quotes no_profit ≡ ok valued
unfolding value
run = refl

value-unrealized_example :
    (any (λ v. is_none v.cost_basis) valued.positions ≡ true × (valued.unrealized_pnl ≡ none))
    ⊎ ((profit : ℤ) × (any (λ v. is_none v.cost_basis) valued.positions ≡ false)
        × (valued.unrealized_pnl ≡ some profit)
        × (profit ⊕ total (costs valued.positions) ≡ valued.securities_value))
value-unrealized_example = value-unrealized whole-IsExact state quotes no_profit {r = valued} run

abbrev before_sale : PnlRun ℤ
before_sale = record {
  prefix = deposit ∷ purchase ∷ [];
  effects = [];
  sum = pos 9;
  active_unknown_sales = 8 ∷ [];
  notes = [];
}

-- Money comes in between the sale and its reversal.
abbrev between : LedgerTransaction ℤ
between = record deposit { id = 77 }

abbrev after_undo : PnlRun ℤ
after_undo = elim (pnl_loop no_hash 1 none (sale ∷ between ∷ undo ∷ []) before_sale) [
  | ok r ↦ r
  | raised _ ↦ before_sale
]

undone : pnl_loop no_hash 1 none (sale ∷ between ∷ undo ∷ []) before_sale ≡ ok after_undo
unfolding pnl_loop validate_one
undone = refl

pnl_loop-takes_back_example :
    (sold : PnlRun ℤ) × (before : PnlRun ℤ) × (prior : PortfolioState ℤ) × (reconstruct no_hash 1
        before_sale.prefix sale.effective_at none
      ≡ ok prior)
    × (pnl_loop no_hash 1 none (sale ∷ []) before_sale ≡ ok sold)
    × (pnl_loop no_hash 1 none (sale ∷ between ∷ []) before_sale ≡ ok before)
    × IsTakenBack no_hash sale prior before_sale sold before after_undo
pnl_loop-takes_back_example =
    pnl_loop-takes_back no_hash 1 none sale undo (between ∷ []) before_sale {after = after_undo}
      refl refl refl (refl, tt) undone

calculate-perm_example :
    calculate no_hash 1 shuffled cutoff none ≡ calculate no_hash 1 ledger cutoff none
calculate-perm_example =
    calculate-perm no_hash 1 {ts = ledger} {us = shuffled} cutoff none (Permᴰ.swap refl refl)
      ((refl, (refl, (refl, tt))), ((refl, (refl, tt)), ((refl, tt), (tt, tt))))
