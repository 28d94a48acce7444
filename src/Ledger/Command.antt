-- ===== src/Ledger/Command.antt =====
-- apps/api/app/ledger/commands.py and errors.py: the command that creates a transaction, its
-- economic payload and the ways in which it is rejected.
use hawk_fund_investment_int.Prelude.{ℕ, Option, Text}
use hawk_fund_investment_int.Clock.{Datetime}
use hawk_fund_investment_int.Dict.{Dict}
use hawk_fund_investment_int.Ledger.Types.{TransactionType}

pub record CreateTransaction (D : Type 0) : Type 0 where
  pub fund_id : ℕ
  pub account_id : ℕ
  pub transaction_type : TransactionType
  pub effective_at : Datetime
  pub recorded_at : Datetime
  pub source : Text
  pub external_id : Text
  pub instrument_id : Option ℕ
  pub quantity : Option D
  pub unit_price : Option D
  pub amount : Option D
  pub fees : D
  pub currency : Text
  pub trade_date : Option ℕ
  pub settlement_date : Option ℕ
  pub import_batch_id : Option ℕ
  pub created_by_user_id : Option ℕ
  pub reverses_transaction_id : Option ℕ
  pub correction_command_id : Option ℕ
  pub description : Option Text
  pub source_metadata : Option (Dict Text Text)

-- What `economic_payload` keeps of the canonical payload: every field but the six it excludes.
pub record EconomicPayload (D : Type 0) : Type 0 where
  pub fund_id : ℕ
  pub account_id : ℕ
  pub transaction_type : TransactionType
  pub effective_at : Datetime
  pub source : Text
  pub external_id : Text
  pub instrument_id : Option ℕ
  pub quantity : Option D
  pub unit_price : Option D
  pub amount : Option D
  pub fees : D
  pub currency : Text
  pub trade_date : Option ℕ
  pub settlement_date : Option ℕ
  pub reverses_transaction_id : Option ℕ

unfoldable pub economic_payload : {D : Type 0} → CreateTransaction D → EconomicPayload D
economic_payload c = record {
  fund_id = c.fund_id;
  account_id = c.account_id;
  transaction_type = c.transaction_type;
  effective_at = c.effective_at;
  source = c.source;
  external_id = c.external_id;
  instrument_id = c.instrument_id;
  quantity = c.quantity;
  unit_price = c.unit_price;
  amount = c.amount;
  fees = c.fees;
  currency = c.currency;
  trade_date = c.trade_date;
  settlement_date = c.settlement_date;
  reverses_transaction_id = c.reverses_transaction_id;
}

-- The fields that the messages of `TransactionValidationError` name.
pub data Field : Type 0 where
  quantity_field unit_price_field amount_field : Field
  instrument_field reverses_field : Field

pub data ValidationFault : Type 0 where
  not_usd naive_timestamps missing_identity description_too_long : ValidationFault
  not_positive missing not_allowed : Field → ValidationFault
  negative_fees fees_not_allowed : ValidationFault
  batch_required author_required : ValidationFault
  unknown_batch foreign_batch : ValidationFault

pub data OpeningFault : Type 0 where
  cash_not_first position_not_first : OpeningFault

pub data ReversalFault : Type 0 where
  unknown_target targets_reversal other_scope already_reversed : ReversalFault

pub data LedgerError : Type 0 where
  validation : ValidationFault → LedgerError
  opening : OpeningFault → LedgerError
  bad_reversal : ReversalFault → LedgerError
