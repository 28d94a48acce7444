-- ===== src/Valuation/Engine.antt =====
-- apps/api/app/valuation/engine.py: `ValuationEngine.value`.
use hawk_fund_investment_int.Prelude.{
  present, ℕ, not, Option, none, some, List, [], ◌∷◌, ◌++◌, map, Outcome, ok, ◌>>=◌, ◌>>◌, raise_if,
  require, any, is_none, text_eq, ◌==◌, if◌then◌else◌, Text,
}
use hawk_fund_investment_int.Number.{Decimal, ◌⊕◌, ◌⊖◌, ◌⊗◌, total}
use hawk_fund_investment_int.Dict.{Dict, lookup}
use hawk_fund_investment_int.MarketData.Types.{FreshnessStatus, fresh, stale, PriceQuote}
use hawk_fund_investment_int.Portfolio.Types.{PositionState, PortfolioState}
use hawk_fund_investment_int.Valuation.Types.{
  PositionValuation, ValuationWarning, of_portfolio, stale_price, ValuationResult,
  RealizedPnlResult, ValuationError, no_price, currency_mismatch,
}

abbrev pub Raises : Type 0 → Type 0
Raises A = Outcome ValuationError A

-- The warning that one position adds.
abbrev pub stale_warning : {D : Type 0} → FreshnessStatus → ℕ → PriceQuote D → List ValuationWarning
stale_warning fresh instrument quote = []
stale_warning stale instrument quote = stale_price instrument quote.observed_at ∷ []

abbrev pub Quotes : Type 0 → Type 0
Quotes D = Dict ℕ (PriceQuote D)

module _ {D : Type 0} ⦃d : Decimal D⦄ where
  -- `None if total_cost_basis is None else market_value - total_cost_basis`
  abbrev pub unrealized_of : D → Option D → Option D
  unrealized_of value none = none
  unrealized_of value (some cost) = some (value ⊖ cost)

  abbrev pub valuation_of : PositionState D → PriceQuote D → PositionValuation D
  valuation_of p quote = record {
    account_id = p.account_id;
    instrument_id = p.instrument_id;
    quantity = p.quantity;
    price = quote.price;
    market_value = p.quantity ⊗ quote.price;
    cost_basis = p.total_cost_basis;
    unrealized_pnl = unrealized_of (p.quantity ⊗ quote.price) p.total_cost_basis;
    cost_basis_status = p.cost_basis_status;
    quote = quote;
  }

  abbrev pub quote_for : Text → Quotes D → PositionState D → Raises (PriceQuote D)
  quote_for currency quotes p = do
    quote ← require (lookup ◌==◌ p.instrument_id quotes) (no_price p.instrument_id)
    raise_if (not (text_eq quote.currency currency)) (currency_mismatch p.instrument_id)
    ok quote

  -- The loop of `value`: the valuations and the warnings that it appends.
  unfoldable pub value_positions :
      Text
      → Quotes D
      → List (PositionState D)
      → Raises (List (PositionValuation D) × List ValuationWarning)
  value_positions currency quotes [] = ok ([], [])
  value_positions currency quotes (p ∷ ps) =
      let rest = value_positions currency quotes ps in
      quote_for currency quotes p >>= λ quote. rest >>= λ r.
      ok (valuation_of p quote ∷ r.0, stale_warning quote.freshness p.instrument_id quote ++ r.1)

  abbrev pub unrealized_values : List (PositionValuation D) → List (Option D)
  unrealized_values rows = map (λ v. v.unrealized_pnl) rows

  abbrev pub total_unrealized : List (PositionValuation D) → Option D
  total_unrealized rows =
      if any is_none (unrealized_values rows)
      then none
      else some (total (present (unrealized_values rows)))

  abbrev pub securities_of : List (PositionValuation D) → D
  securities_of rows = total (map (λ v. v.market_value) rows)

  abbrev pub result_of :
      PortfolioState D
      → RealizedPnlResult D
      → List (PositionValuation D) × List ValuationWarning
      → ValuationResult D
  result_of state realized (rows, warnings) = record {
    fund_id = state.fund_id;
    as_of = state.metadata.as_of;
    currency = state.currency;
    cash_value = state.cash;
    securities_value = securities_of rows;
    portfolio_value = state.cash ⊕ securities_of rows;
    unrealized_pnl = total_unrealized rows;
    realized_pnl = realized.amount;
    positions = rows;
    warnings = (map of_portfolio state.warnings ++ realized.warnings) ++ warnings;
    reconstruction_input_hash = state.metadata.canonical_input_hash;
  }

  unfoldable pub value :
      PortfolioState D → Quotes D → RealizedPnlResult D → Raises (ValuationResult D)
  unfolding value_positions
  value state quotes realized = do
    r ← value_positions state.currency quotes state.positions
    ok (result_of state realized r)
