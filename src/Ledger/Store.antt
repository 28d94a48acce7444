-- ===== src/Ledger/Store.antt =====
-- apps/api/app/ledger/repository.py and the tables of models.py that the ledger writes: the rows
-- that a session holds, and the queries of `TransactionRepository`. A query that takes one row
-- takes the first that fits.
use hawk_fund_investment_int.Prelude.{
  ℕ, Bool, true, false, ◌&&◌, Option, some, List, [], ◌∷◌, ◌++◌, find, any, text_eq, option_eq,
  ◌==◌, if◌then◌else◌, Text,
}
use hawk_fund_investment_int.Clock.{Datetime}
use hawk_fund_investment_int.Ledger.Types.{
  TransactionType, TransactionStatus, posted, reversed, is_reversal,
}
use hawk_fund_investment_int.Ledger.Types.TransactionType.{buy, sell, opening_position, reversal}
use hawk_fund_investment_int.Ledger.Command.{CreateTransaction}

-- A row of `transactions`: the columns that are copied from the command, and the three that the
-- service sets.
pub record Transaction (D : Type 0) : Type 0 where
  pub id : ℕ
  pub command : CreateTransaction D
  pub normalized_payload_hash : Text
  pub status : TransactionStatus

-- The columns of `import_batches` that the ledger reads and writes.
pub record ImportBatch : Type 0 where
  pub id : ℕ
  pub fund_id : ℕ
  pub source : Text
  pub conflict_count : ℕ

pub record ImportConflict (D : Type 0) : Type 0 where
  pub id : ℕ
  pub fund_id : ℕ
  pub import_batch_id : ℕ
  pub existing_transaction_id : ℕ
  pub source : Text
  pub external_id : Text
  pub existing_payload_hash : Text
  pub incoming_payload_hash : Text
  pub incoming_payload : CreateTransaction D
  pub detected_at : Datetime

pub record Store (D : Type 0) : Type 0 where
  pub transactions : List (Transaction D)
  pub batches : List ImportBatch
  pub conflicts : List (ImportConflict D)

-- `cash_types` and `quantity_types`
abbrev pub is_cash_type : TransactionType → Bool
is_cash_type opening_position = false
is_cash_type reversal = false
is_cash_type _ = true

abbrev pub is_quantity_type : TransactionType → Bool
is_quantity_type buy = true
is_quantity_type sell = true
is_quantity_type opening_position = true
is_quantity_type _ = false

abbrev pub is_posted : TransactionStatus → Bool
is_posted posted = true
is_posted reversed = false

module _ {D : Type 0} where
  abbrev pub has_identity : ℕ → Text → Text → Transaction D → Bool
  has_identity fund_id source external_id t =
      (t.command.fund_id == fund_id)
      && text_eq t.command.source source
      && text_eq t.command.external_id external_id

  unfoldable pub by_source_identity : ℕ → Text → Text → Store D → Option (Transaction D)
  by_source_identity fund_id source external_id s =
      find (has_identity fund_id source external_id) s.transactions

  unfoldable pub by_id : ℕ → Store D → Option (Transaction D)
  by_id id s = find (λ t. t.id == id) s.transactions

  unfoldable pub has_posted_cash_activity : ℕ → Store D → Bool
  has_posted_cash_activity account_id s =
      any
        (λ t.
          (t.command.account_id == account_id)
          && is_posted t.status
          && is_cash_type t.command.transaction_type)
        s.transactions

  unfoldable pub has_posted_quantity_activity : ℕ → ℕ → Store D → Bool
  has_posted_quantity_activity account_id instrument_id s =
      any
        (λ t.
          (t.command.account_id == account_id)
          && option_eq t.command.instrument_id (some instrument_id)
          && is_posted t.status
          && is_quantity_type t.command.transaction_type)
        s.transactions

  abbrev pub reverses : ℕ → Transaction D → Bool
  reverses target t =
      is_reversal t.command.transaction_type
      && option_eq t.command.reverses_transaction_id (some target)

  unfoldable pub reversal_for : ℕ → Store D → Option (Transaction D)
  reversal_for target s = find (reverses target) s.transactions

  -- `session.add`
  unfoldable pub add : Transaction D → Store D → Store D
  add t s = record s { transactions = s.transactions ++ t ∷ [] }

  -- `target.status = TransactionStatus.REVERSED`
  abbrev pub mark_reversed : ℕ → List (Transaction D) → List (Transaction D)
  mark_reversed id [] = []
  mark_reversed id (t ∷ ts) =
      (if t.id == id then record t { status = reversed } else t) ∷ mark_reversed id ts
