-- ===== src/Portfolio/Validation.antt =====
-- apps/api/app/portfolio/engine.py: `_validate_scope_and_timestamps` and what it calls.
pub mod Accepts
use hawk_fund_investment_int.Prelude.{
  ℕ, Bool, not, ◌||◌, Option, none, some, List, [], ◌∷◌, Outcome, ok, raised, ◌>>◌, raise_if,
  require, contains, codes, text_eq, is_some, ◌==◌, if◌then◌else◌, Text,
}
use hawk_fund_investment_int.Number.{Decimal, nil_amount, ◌≺◌, ◌≼◌, ◌≈◌}
use hawk_fund_investment_int.Ledger.Types.{TransactionType}
use hawk_fund_investment_int.Ledger.Types.TransactionType.{
  buy, sell, cash_deposit, cash_withdrawal, dividend, fee, opening_cash, opening_position, reversal,
}
use hawk_fund_investment_int.Portfolio.Types.{
  LedgerTransaction, EngineError, InputFault, ReversalFault, invalid_input, invalid_reversal,
}

abbrev pub usd : Text
usd = codes "USD"

abbrev pub Checked : Type 0 → Type 0
Checked A = Outcome EngineError A

module _ {D : Type 0} ⦃d : Decimal D⦄ where
  -- `value is None or value <= ZERO` raises, else the value
  abbrev pub positive : Option D → EngineError → Checked D
  positive none e = raised e
  positive (some x) e = if x ≼ nil_amount then raised e else ok x

  abbrev pub required_amount : LedgerTransaction D → Checked D
  required_amount t = positive t.amount (invalid_input (InputFault.amount_required t.id))

  abbrev pub required_quantity : LedgerTransaction D → Checked D
  required_quantity t = positive t.quantity (invalid_input (InputFault.quantity_required t.id))

  abbrev pub required_price : LedgerTransaction D → Checked D
  required_price t = positive t.unit_price (invalid_input (InputFault.price_required t.id))

  abbrev pub required_instrument : LedgerTransaction D → Checked ℕ
  required_instrument t =
      require t.instrument_id (invalid_input (InputFault.instrument_required t.id))

  abbrev pub required_reversal_target : LedgerTransaction D → Checked ℕ
  required_reversal_target t =
      require t.reverses_transaction_id (invalid_reversal (ReversalFault.target_required t.id))

  abbrev pub fees_given : LedgerTransaction D → Bool
  fees_given t = not (t.fees ≈ nil_amount)

  abbrev pub require_no_position_fields : LedgerTransaction D → Checked (Unit {0})
  require_no_position_fields t =
      raise_if
        (is_some t.instrument_id
          || is_some t.quantity
          || is_some t.unit_price
          || is_some t.reverses_transaction_id
          || fees_given t)
        (invalid_input (InputFault.cash_fields t.id))

  abbrev pub validate_trade : LedgerTransaction D → Checked (Unit {0})
  validate_trade t = do
    required_instrument t
    required_quantity t
    required_price t
    raise_if (is_some t.amount || is_some t.reverses_transaction_id)
        (invalid_input (InputFault.trade_fields t.id))

  abbrev pub validate_cash : LedgerTransaction D → Checked (Unit {0})
  validate_cash t = do required_amount t; require_no_position_fields t

  abbrev pub income_fields : LedgerTransaction D → Bool
  income_fields t =
      is_some t.quantity
      || is_some t.unit_price
      || fees_given t
      || is_some t.reverses_transaction_id

  abbrev pub shape_of : TransactionType → LedgerTransaction D → Checked (Unit {0})
  shape_of buy t = validate_trade t
  shape_of sell t = validate_trade t
  shape_of cash_deposit t = validate_cash t
  shape_of cash_withdrawal t = validate_cash t
  shape_of dividend t = do
    required_instrument t
    required_amount t
    raise_if (income_fields t) (invalid_input (InputFault.dividend_fields t.id))
  shape_of fee t = do
    required_amount t
    raise_if (income_fields t) (invalid_input (InputFault.fee_fields t.id))
  shape_of opening_cash t = validate_cash t
  shape_of opening_position t = do
    required_instrument t
    required_quantity t
    raise_if (is_some t.amount || fees_given t || is_some t.reverses_transaction_id)
        (invalid_input (InputFault.opening_position_fields t.id))
  shape_of reversal t = do
    required_reversal_target t
    raise_if
        (is_some t.instrument_id
          || is_some t.quantity
          || is_some t.unit_price
          || is_some t.amount
          || fees_given t)
        (invalid_input (InputFault.reversal_fields t.id))

  unfoldable pub validate_transaction_shape : LedgerTransaction D → Checked (Unit {0})
  validate_transaction_shape t = shape_of t.transaction_type t

  -- The body of the loop of `_validate_scope_and_timestamps`, behind the test for a duplicate.
  unfoldable pub validate_one : ℕ → LedgerTransaction D → Checked (Unit {0})
  unfolding validate_transaction_shape
  validate_one fund_id t = do
    raise_if (not (t.fund_id == fund_id)) (invalid_input InputFault.foreign_fund)
    raise_if (not t.effective_at.aware || not t.recorded_at.aware)
        (invalid_input InputFault.naive_timestamp)
    raise_if (not (text_eq t.currency usd)) (invalid_input InputFault.not_usd)
    raise_if (t.fees ≺ nil_amount) (invalid_input (InputFault.negative_fees t.id))
    validate_transaction_shape t

  -- The loop, from the identifiers seen so far.
  unfoldable pub validate_from : ℕ → List ℕ → List (LedgerTransaction D) → Checked (Unit {0})
  validate_from fund_id seen [] = ok tt
  validate_from fund_id seen (t ∷ ts) =
      let rest = validate_from fund_id (t.id ∷ seen) ts in
      raise_if (contains seen t.id) (invalid_input (InputFault.duplicate_id t.id))
      >> (validate_one fund_id t >> rest)

  unfoldable pub validate_scope_and_timestamps : ℕ → List (LedgerTransaction D) → Checked (Unit {0})
  unfolding validate_from
  validate_scope_and_timestamps fund_id ts = validate_from fund_id [] ts
