-- ===== src/Snapshots/Tests.antt =====
-- The ledger of one deposit, handed to the engine.
use hawk_fund_investment_int.Prelude.{◌≡◌, none, ok}
use hawk_fund_investment_int.Ledger.Tests.{once, once-IsAccepted}
use hawk_fund_investment_int.Portfolio.Validation.{validate_scope_and_timestamps}
use hawk_fund_investment_int.Snapshots.Transactions.{ledger_of}
use hawk_fund_investment_int.Snapshots.Evidence.{ledger_of-validate}
use hawk_fund_investment_int.Int.{whole}

ledger_of-validate_example : validate_scope_and_timestamps 1 (ledger_of 1 none once) ≡ ok tt
ledger_of-validate_example = ledger_of-validate 1 none once once-IsAccepted
