-- ===== src/Ledger/Tests.antt =====
-- A deposit into an empty ledger, and its reversal.
use hawk_fund_investment_int.Prelude.{
  ℕ, ◌≡◌, refl, true, none, some, [], ◌∷◌, ◌++◌, ok, strip, Text, codes,
}
use hawk_fund_investment_int.Int.{ℤ, pos, whole}
use hawk_fund_investment_int.Clock.{Datetime}
use hawk_fund_investment_int.Ledger.Types.{TransactionType, reversed}
use hawk_fund_investment_int.Ledger.Types.TransactionType.{cash_deposit, reversal}
use hawk_fund_investment_int.Ledger.Command.{CreateTransaction, EconomicPayload}
use hawk_fund_investment_int.Ledger.Validation.{validate_transaction}
use hawk_fund_investment_int.Ledger.Store.{
  Transaction, Store, by_source_identity, by_id, reversal_for,
}
use hawk_fund_investment_int.Ledger.Service.{created, duplicate, result, new_transaction, create}
use hawk_fund_investment_int.Ledger.Idempotence.{create_again}
use hawk_fund_investment_int.Ledger.Keys.{IsKeyed, create-IsKeyed}
use hawk_fund_investment_int.Ledger.Accepted.{IsAccepted, create-IsAccepted}

abbrev at_time : ℕ → Datetime
at_time n = record { instant = n; aware = true }

abbrev command : ℕ → TransactionType → CreateTransaction ℤ
command n kind = record {
  fund_id = 1;
  account_id = 7;
  transaction_type = kind;
  effective_at = at_time n;
  recorded_at = at_time n;
  source = codes "manual";
  external_id = codes "row" ++ n ∷ [];
  instrument_id = none;
  quantity = none;
  unit_price = none;
  amount = none;
  fees = pos 0;
  currency = codes "USD";
  trade_date = none;
  settlement_date = none;
  import_batch_id = none;
  created_by_user_id = some 1;
  reverses_transaction_id = none;
  correction_command_id = none;
  description = none;
  source_metadata = none;
}

abbrev deposit : CreateTransaction ℤ
deposit = record (command 1 cash_deposit) { amount = some (pos 100) }

abbrev undo : CreateTransaction ℤ
undo = record (command 2 reversal) { reverses_transaction_id = some 11 }

abbrev empty : Store ℤ
empty = record { transactions = []; batches = []; conflicts = [] }

abbrev by_identity : EconomicPayload ℤ → Text
by_identity p = p.external_id

abbrev row : Transaction ℤ
row = new_transaction by_identity 11 deposit

abbrev pub once : Store ℤ
once = record empty { transactions = row ∷ [] }

deposit_runs : create by_identity 11 (at_time 5) deposit empty ≡ ok (result created row none, once)
unfolding create validate_transaction strip by_source_identity
deposit_runs = refl

once-IsKeyed : IsKeyed once
once-IsKeyed = record { identities = (tt, tt); targets = (tt, tt) }

abbrev undo_row : Transaction ℤ
undo_row = new_transaction by_identity 12 undo

abbrev twice : Store ℤ
twice = record empty { transactions = record row { status = reversed } ∷ undo_row ∷ [] }

undo_runs : create by_identity 12 (at_time 6) undo once ≡ ok (result created undo_row none, twice)
unfolding create validate_transaction strip by_source_identity by_id reversal_for
undo_runs = refl

create-IsKeyed_example : IsKeyed twice
create-IsKeyed_example =
    create-IsKeyed by_identity 12 (at_time 6) undo once {r = result created undo_row none}
      {s' = twice} once-IsKeyed undo_runs

create_again_example :
    (t : Transaction ℤ) × (create by_identity 13 (at_time 7) undo twice
      ≡ ok (result duplicate t none, twice))
    × (by_source_identity 1 (codes "manual") undo.external_id twice ≡ some t)
    × (t.id ≡ 12)
    × (t.command ≡ undo_row.command)
    × (t.normalized_payload_hash ≡ undo_row.normalized_payload_hash)
create_again_example =
    create_again by_identity 12 13 (at_time 6) (at_time 7) undo once
      {r = result created undo_row none} {s' = twice} undo_runs refl

deposit_valid : validate_transaction row.command ≡ ok tt
unfolding validate_transaction strip
deposit_valid = refl

pub once-IsAccepted : IsAccepted once
once-IsAccepted = record { valid = (deposit_valid, tt); distinct = (tt, tt) }

unused : by_id 12 once ≡ none
unfolding by_id
unused = refl

create-IsAccepted_example : IsAccepted twice
create-IsAccepted_example =
    create-IsAccepted by_identity 12 (at_time 6) undo once {r = result created undo_row none}
      {s' = twice} unused once-IsAccepted undo_runs
