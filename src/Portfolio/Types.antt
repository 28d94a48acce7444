-- ===== src/Portfolio/Types.antt =====
-- apps/api/app/portfolio/types.py and errors.py: the records that the engine reads and returns.
-- Identifiers are UUIDs, read as their 128-bit numbers: the texts of two UUIDs compare as these do.
use hawk_fund_investment_int.Prelude.{ℕ, Option, List, Text}
use hawk_fund_investment_int.Clock.{Datetime}
use hawk_fund_investment_int.Ledger.Types.{TransactionType}

pub record LedgerTransaction (D : Type 0) : Type 0 where
  pub id : ℕ
  pub fund_id : ℕ
  pub account_id : ℕ
  pub transaction_type : TransactionType
  pub effective_at : Datetime
  pub recorded_at : Datetime
  pub source : Text
  pub external_id : Text
  pub instrument_id : Option ℕ
  pub quantity : Option D
  pub unit_price : Option D
  pub amount : Option D
  pub fees : D
  pub currency : Text
  pub trade_date : Option ℕ
  pub settlement_date : Option ℕ
  pub reverses_transaction_id : Option ℕ

pub data CostBasisStatus : Type 0 where
  known unknown : CostBasisStatus

pub record CashBalance (D : Type 0) : Type 0 where
  pub account_id : ℕ
  pub currency : Text
  pub amount : D

pub record PositionState (D : Type 0) : Type 0 where
  pub account_id : ℕ
  pub instrument_id : ℕ
  pub quantity : D
  pub total_cost_basis : Option D
  pub average_cost : Option D
  pub cost_basis_status : CostBasisStatus
  pub source_transaction_ids : List ℕ

pub record ReconstructionMetadata : Type 0 where
  pub as_of : Datetime
  pub calculation_version : Text
  pub canonical_input_hash : Text
  pub applied_transaction_count : ℕ
  pub applied_transaction_ids : List ℕ
  pub last_applied_transaction_id : Option ℕ

pub data Warning : Type 0 where
  negative_cash : ℕ → Warning
  unknown_cost_basis : ℕ → ℕ → Warning

pub record PortfolioState (D : Type 0) : Type 0 where
  pub fund_id : ℕ
  pub account_id : Option ℕ
  pub currency : Text
  pub cash : D
  pub cash_by_account : List (CashBalance D)
  pub positions : List (PositionState D)
  pub warnings : List Warning
  pub metadata : ReconstructionMetadata

-- The messages of `InvalidEngineInput`.
pub data InputFault : Type 0 where
  naive_as_of foreign_fund naive_timestamp not_usd : InputFault
  duplicate_id negative_fees : ℕ → InputFault
  amount_required quantity_required price_required instrument_required : ℕ → InputFault
  trade_fields cash_fields dividend_fields fee_fields : ℕ → InputFault
  opening_position_fields reversal_fields : ℕ → InputFault
  unsupported_type : InputFault

-- The messages of `InvalidReversalError`.
pub data ReversalFault : Type 0 where
  target_required not_applied already_reversed : ℕ → ReversalFault
  targets_reversal other_account absent_uncertainty : ReversalFault

pub data EngineError : Type 0 where
  invalid_input : InputFault → EngineError
  invalid_reversal : ReversalFault → EngineError
  negative_holding negative_cost_basis : ℕ → EngineError
  -- `KeyError`, which the dict of balances raises on a missing account
  key_missing : ℕ → EngineError
