-- ===== src/Ledger/Types.antt =====
-- apps/api/app/ledger/types.py: the kinds of transaction and their statuses.
use hawk_fund_investment_int.Prelude.{Bool, true, false}

pub data TransactionType : Type 0 where
  buy sell cash_deposit cash_withdrawal dividend fee : TransactionType
  opening_cash opening_position reversal : TransactionType

pub data TransactionStatus : Type 0 where
  posted reversed : TransactionStatus

abbrev pub is_reversal : TransactionType → Bool
is_reversal TransactionType.reversal = true
is_reversal _ = false
