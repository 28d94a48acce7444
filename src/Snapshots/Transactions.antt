-- ===== src/Snapshots/Transactions.antt =====
-- apps/api/app/snapshots/service.py: `_domain_transaction`, `_ledger` and `_as_utc`, by which the rows
-- of the ledger become transactions of the engine. `HistoricalValuationService._transactions`
-- (valuation/service.py) makes the same ones.
use hawk_fund_investment_int.Prelude.{ℕ, ◌&&◌, Option, List, map, select, ◌==◌}
use hawk_fund_investment_int.Clock.{utc}
use hawk_fund_investment_int.Ledger.Store.{Transaction, Store}
use hawk_fund_investment_int.Portfolio.Types.{LedgerTransaction}
use hawk_fund_investment_int.Portfolio.Engine.{in_account}

module _ {D : Type 0} where
  unfoldable pub domain_transaction : Transaction D → LedgerTransaction D
  unfolding utc
  domain_transaction t = record {
    id = t.id;
    fund_id = t.command.fund_id;
    account_id = t.command.account_id;
    transaction_type = t.command.transaction_type;
    effective_at = utc t.command.effective_at;
    recorded_at = utc t.command.recorded_at;
    source = t.command.source;
    external_id = t.command.external_id;
    instrument_id = t.command.instrument_id;
    quantity = t.command.quantity;
    unit_price = t.command.unit_price;
    amount = t.command.amount;
    fees = t.command.fees;
    currency = t.command.currency;
    trade_date = t.command.trade_date;
    settlement_date = t.command.settlement_date;
    reverses_transaction_id = t.command.reverses_transaction_id;
  }

  -- The transactions of a fund, or of one of its accounts.
  unfoldable pub ledger_of : ℕ → Option ℕ → Store D → List (LedgerTransaction D)
  ledger_of fund account s = map domain_transaction (
      select (λ t. (t.command.fund_id == fund) && in_account account t.command.account_id)
        s.transactions)
