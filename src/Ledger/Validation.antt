-- ===== src/Ledger/Validation.antt =====
-- apps/api/app/ledger/validation.py: `validate_transaction`.
use hawk_fund_investment_int.Prelude.{
  Bool, not, ◌&&◌, ◌||◌, Option, none, some, [], Outcome, ok, ◌>>◌, raise_if, strip, is_empty,
  length, ltb, codes, text_eq, is_some, is_none, Text,
}
use hawk_fund_investment_int.Number.{Decimal, nil_amount, ◌≺◌, ◌≼◌, ◌≈◌}
use hawk_fund_investment_int.Ledger.Types.{TransactionType}
use hawk_fund_investment_int.Ledger.Types.TransactionType.{
  buy, sell, cash_deposit, cash_withdrawal, dividend, fee, opening_cash, opening_position, reversal,
}
use hawk_fund_investment_int.Ledger.Command.{
  CreateTransaction, Field, quantity_field, unit_price_field, amount_field, instrument_field,
  reverses_field, ValidationFault, not_usd, naive_timestamps, missing_identity,
  description_too_long, not_positive, missing, not_allowed, negative_fees, fees_not_allowed,
  batch_required, author_required, LedgerError, validation,
}

abbrev pub Checked : Type 0
Checked = Outcome LedgerError (Unit {0})

abbrev pub refuse : Bool → ValidationFault → Checked
refuse test fault = raise_if test (validation fault)

-- `_require` and `_forbid`
abbrev pub demand : {A : Type 0} → Option A → Field → Checked
demand value field = refuse (is_none value) (missing field)

abbrev pub forbid : {A : Type 0} → Option A → Field → Checked
forbid value field = refuse (is_some value) (not_allowed field)

-- `command.description or ""`
abbrev pub text_or_empty : Option Text → Text
text_or_empty none = []
text_or_empty (some t) = t

module _ {D : Type 0} ⦃d : Decimal D⦄ where
  abbrev pub positive_or_none : Option D → Field → Checked
  positive_or_none none field = ok tt
  positive_or_none (some x) field = refuse (x ≼ nil_amount) (not_positive field)

  abbrev pub require_zero_fees : CreateTransaction D → Checked
  require_zero_fees c = refuse (not (c.fees ≈ nil_amount)) fees_not_allowed

  -- `_forbid_trade_fields` as it is called, with `permit_instrument=False`
  abbrev pub forbid_trade_fields : CreateTransaction D → Checked
  forbid_trade_fields c = do
    forbid c.instrument_id instrument_field
    forbid c.quantity quantity_field
    forbid c.unit_price unit_price_field
    forbid c.reverses_transaction_id reverses_field
    require_zero_fees c

  abbrev pub trade_fields : CreateTransaction D → Checked
  trade_fields c = do
    demand c.instrument_id instrument_field
    demand c.quantity quantity_field
    demand c.unit_price unit_price_field
    forbid c.amount amount_field
    forbid c.reverses_transaction_id reverses_field

  abbrev pub cash_fields : CreateTransaction D → Checked
  cash_fields c = demand c.amount amount_field >> forbid_trade_fields c

  abbrev pub income_fields : CreateTransaction D → Checked
  income_fields c = do
    demand c.amount amount_field
    forbid c.quantity quantity_field
    forbid c.unit_price unit_price_field
    forbid c.reverses_transaction_id reverses_field
    require_zero_fees c

  -- The branches on the kind of transaction.
  abbrev pub fields_of : TransactionType → CreateTransaction D → Checked
  fields_of buy c = trade_fields c
  fields_of sell c = trade_fields c
  fields_of cash_deposit c = cash_fields c
  fields_of cash_withdrawal c = cash_fields c
  fields_of dividend c = demand c.instrument_id instrument_field >> income_fields c
  fields_of fee c = income_fields c
  fields_of opening_cash c = cash_fields c
  fields_of opening_position c = do
    demand c.instrument_id instrument_field
    demand c.quantity quantity_field
    forbid c.amount amount_field
    forbid c.reverses_transaction_id reverses_field
    require_zero_fees c
  fields_of reversal c = do
    demand c.reverses_transaction_id reverses_field
    forbid c.instrument_id instrument_field
    forbid c.quantity quantity_field
    forbid c.unit_price unit_price_field
    forbid c.amount amount_field
    require_zero_fees c

  -- The tests before the branches.
  unfoldable pub common_fields : CreateTransaction D → Checked
  common_fields c = do
    refuse (not (text_eq c.currency (codes "USD"))) not_usd
    refuse (not c.effective_at.aware || not c.recorded_at.aware) naive_timestamps
    refuse (is_empty (strip c.source) || is_empty (strip c.external_id)) missing_identity
    refuse (ltb 500 (length (text_or_empty c.description))) description_too_long
    positive_or_none c.quantity quantity_field
    positive_or_none c.unit_price unit_price_field
    positive_or_none c.amount amount_field
    refuse (c.fees ≺ nil_amount) negative_fees

  -- The tests behind the branches.
  unfoldable pub provenance : CreateTransaction D → Checked
  provenance c =
      let manual = text_eq c.source (codes "manual") in
      let imported = not (manual || text_eq c.source (codes "phase1_fixture")) in
      refuse (imported && is_none c.import_batch_id) batch_required
      >> refuse (manual && is_none c.created_by_user_id) author_required

  unfoldable pub validate_transaction : CreateTransaction D → Checked
  unfolding common_fields provenance
  validate_transaction c = do common_fields c; fields_of c.transaction_type c; provenance c
