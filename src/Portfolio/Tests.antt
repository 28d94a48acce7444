-- ===== src/Portfolio/Tests.antt =====
-- Runs of `PortfolioEngine.reconstruct` on a small ledger: a deposit, a purchase, a sale and the
-- reversal of the sale.
use mathlib.Core.List.{Permᴰ}
use hawk_fund_investment_int.Prelude.{
  ℕ, ◌≡◌, refl, true, none, some, List, [], ◌∷◌, ◌++◌, ok, All, Text, map,
}
use hawk_fund_investment_int.Int.{ℤ, pos, whole, whole-IsOrdered, whole-IsExact}
use hawk_fund_investment_int.Clock.{Datetime}
use hawk_fund_investment_int.Ledger.Types.{TransactionType}
use hawk_fund_investment_int.Ledger.Types.TransactionType.{buy, sell, cash_deposit, reversal}
use hawk_fund_investment_int.Portfolio.Types.{LedgerTransaction, PortfolioState, known}
use hawk_fund_investment_int.Portfolio.Validation.{usd, validate_one, validate_scope_and_timestamps}
use hawk_fund_investment_int.Portfolio.Engine.{Payload, reconstruct, engine_version}
use hawk_fund_investment_int.Portfolio.Replay.{
  chosen, reconstruct-perm, reconstruct-append_excluded,
}
use hawk_fund_investment_int.Portfolio.Cash.{flows}
use hawk_fund_investment_int.Portfolio.Cash.Conservation.{reconstruct-cash}
use hawk_fund_investment_int.Number.{total}
use hawk_fund_investment_int.Portfolio.Holdings.{reconstruct-IsReported, IsReported}

abbrev pub at_time : ℕ → Datetime
at_time n = record { instant = n; aware = true }

abbrev blank : ℕ → TransactionType → LedgerTransaction ℤ
blank id kind = record {
  id = id;
  fund_id = 1;
  account_id = 7;
  transaction_type = kind;
  effective_at = at_time id;
  recorded_at = at_time id;
  source = [];
  external_id = [];
  instrument_id = none;
  quantity = none;
  unit_price = none;
  amount = none;
  fees = pos 0;
  currency = usd;
  trade_date = none;
  settlement_date = none;
  reverses_transaction_id = none;
}

abbrev pub deposit : LedgerTransaction ℤ
deposit = record (blank 1 cash_deposit) { amount = some (pos 1000) }

abbrev trade : ℕ → TransactionType → ℤ → ℤ → LedgerTransaction ℤ
trade id kind quantity price = record (blank id kind) {
  instrument_id = some 4;
  quantity = some quantity;
  unit_price = some price;
  fees = pos 1;
  trade_date = some 1;
  settlement_date = some 2;
}

abbrev pub purchase : LedgerTransaction ℤ
purchase = trade 2 buy (pos 10) (pos 20)

abbrev pub sale : LedgerTransaction ℤ
sale = trade 3 sell (pos 4) (pos 25)

abbrev pub undo : LedgerTransaction ℤ
undo = record (blank 5 reversal) { reverses_transaction_id = some 3 }

abbrev pub ledger : List (LedgerTransaction ℤ)
ledger = deposit ∷ purchase ∷ sale ∷ undo ∷ []

abbrev pub shuffled : List (LedgerTransaction ℤ)
shuffled = purchase ∷ deposit ∷ sale ∷ undo ∷ []

-- Later than every cutoff below.
abbrev late : List (LedgerTransaction ℤ)
late = (trade 9 buy (pos 1) (pos 1)) ∷ []

abbrev pub no_hash : Payload ℤ → Text
no_hash _ = []

abbrev pub cutoff : Datetime
cutoff = at_time 6

abbrev pub state : PortfolioState ℤ
state = record {
  fund_id = 1;
  account_id = none;
  currency = usd;
  cash = pos 799;
  cash_by_account = record { account_id = 7; currency = usd; amount = pos 799 } ∷ [];
  positions =
      record {
        account_id = 7;
        instrument_id = 4;
        quantity = pos 10;
        total_cost_basis = some (pos 201);
        average_cost = some (pos 20);
        cost_basis_status = known;
        source_transaction_ids = 2 ∷ 3 ∷ 5 ∷ [];
      }
      ∷ [];
  warnings = [];
  metadata = record {
    as_of = cutoff;
    calculation_version = engine_version;
    canonical_input_hash = [];
    applied_transaction_count = 4;
    applied_transaction_ids = 1 ∷ 2 ∷ 3 ∷ 5 ∷ [];
    last_applied_transaction_id = some 5;
  };
}

run : reconstruct no_hash 1 ledger cutoff none ≡ ok state
unfolding reconstruct validate_one
run = refl

reconstruct-perm_example : reconstruct no_hash 1 shuffled cutoff none ≡ ok state
reconstruct-perm_example =
    reconstruct-perm no_hash 1 {ts = ledger} {us = shuffled} cutoff none {s = state}
      (Permᴰ.swap refl refl) run

reconstruct-IsReported_example : All IsReported state.positions
reconstruct-IsReported_example =
    reconstruct-IsReported whole-IsOrdered no_hash 1 ledger cutoff none {s = state} run

late_valid : validate_scope_and_timestamps 1 (ledger ++ late) ≡ ok tt
unfolding validate_scope_and_timestamps validate_one
late_valid = refl

reconstruct-append_excluded_example : reconstruct no_hash 1 (ledger ++ late) cutoff none ≡ ok state
reconstruct-append_excluded_example =
    reconstruct-append_excluded no_hash 1 ledger late cutoff none {s = state} (refl, tt) late_valid
      run

reconstruct-cash_example :
    (state.cash ≡ total (map (λ b. b.amount) state.cash_by_account))
    × (state.cash ≡ total (flows [] (chosen cutoff none ledger)))
reconstruct-cash_example =
    reconstruct-cash whole-IsExact no_hash 1 ledger cutoff none {s = state} run
