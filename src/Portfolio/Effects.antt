-- ===== src/Portfolio/Effects.antt =====
-- apps/api/app/portfolio/engine.py: what a transaction does to cash and to a position.
-- `_Position`, `_Effect`, `_apply_original`, `_reversal_effect` and `_apply_position_effect`.
use hawk_fund_investment_int.Prelude.{
  ℕ, Bool, false, not, ◌&&◌, Option, none, some, List, [], ◌∷◌, ◌++◌, ok, raised, ◌>>=◌, ◌>>◌,
  raise_if, require, contains, ◌==◌, if◌then◌else◌,
}
use hawk_fund_investment_int.Number.{Decimal, nil_amount, negate, ◌⊕◌, ◌⊖◌, ◌⊗◌, ◌⊘◌, ◌≺◌, ◌≈◌}
use hawk_fund_investment_int.Int.{ℤ, pos, ◌+ℤ◌, negℤ, eqb_ℤ, ltb_ℤ}
use hawk_fund_investment_int.Dict.{Dict, lookup, get_or, insert, set_default}
use hawk_fund_investment_int.Ledger.Types.{TransactionType, is_reversal}
use hawk_fund_investment_int.Ledger.Types.TransactionType.{
  buy, sell, cash_deposit, cash_withdrawal, dividend, fee, opening_cash, opening_position, reversal,
}
use hawk_fund_investment_int.Portfolio.Types.{
  LedgerTransaction, InputFault, ReversalFault, invalid_input, invalid_reversal, negative_holding,
  negative_cost_basis,
}
use hawk_fund_investment_int.Portfolio.Validation.{
  Checked, required_amount, required_quantity, required_price, required_instrument,
  required_reversal_target,
}

pub record Position (D : Type 0) : Type 0 where
  pub quantity : D
  pub known_cost : D
  pub uncertainty_count : ℤ
  pub source_transaction_ids : List ℕ

pub record Effect (D : Type 0) : Type 0 where
  pub transaction_type : TransactionType
  pub account_id : ℕ
  pub instrument_id : Option ℕ
  pub cash_delta : D
  pub quantity_delta : D
  pub known_cost_delta : D
  pub uncertainty_delta : ℤ

-- Account and instrument.
abbrev pub Key : Type 0
Key = ℕ × ℕ

abbrev pub same_key : Key → Key → Bool
same_key (a, i) (b, j) = (a == b) && (i == j)

abbrev pub Positions : Type 0 → Type 0
Positions D = Dict Key (Position D)

-- `transaction_types.get(target_id) is TransactionType.REVERSAL`
abbrev pub names_reversal : Option TransactionType → Bool
names_reversal none = false
names_reversal (some kind) = is_reversal kind

module _ {D : Type 0} ⦃d : Decimal D⦄ where
  -- `_Position()`
  abbrev pub empty_position : Position D
  empty_position = record {
    quantity = nil_amount;
    known_cost = nil_amount;
    uncertainty_count = pos 0;
    source_transaction_ids = [];
  }

  abbrev pub effect_of : LedgerTransaction D → Option ℕ → D → D → D → ℤ → Effect D
  effect_of t instrument cash quantity cost uncertainty = record {
    transaction_type = t.transaction_type;
    account_id = t.account_id;
    instrument_id = instrument;
    cash_delta = cash;
    quantity_delta = quantity;
    known_cost_delta = cost;
    uncertainty_delta = uncertainty;
  }

  abbrev pub cash_effect : LedgerTransaction D → D → Effect D
  cash_effect t amount = effect_of t none amount nil_amount nil_amount (pos 0)

  abbrev pub buy_effect : LedgerTransaction D → Checked (Effect D)
  buy_effect t = do
    instrument ← required_instrument t
    quantity ← required_quantity t
    price ← required_price t
    let cost = quantity ⊗ price ⊕ t.fees
    ok (effect_of t (some instrument) (negate cost) quantity cost (pos 0))

  -- The cost basis that a sale takes out of a position, and the uncertainty that it adds.
  unfoldable pub basis_removed : LedgerTransaction D → D → Position D → Checked (D × ℤ)
  basis_removed t quantity p =
      if eqb_ℤ p.uncertainty_count (pos 0)
      then (if p.quantity ≈ nil_amount
          then raised (negative_holding t.id)
          else ok (p.known_cost ⊗ quantity ⊘ p.quantity, pos 0))
      else ok ((if quantity ≈ p.quantity then p.known_cost else nil_amount), pos 1)

  unfoldable pub sell_effect : LedgerTransaction D → Positions D → Checked (Effect D)
  unfolding basis_removed
  sell_effect t positions = do
    instrument ← required_instrument t
    quantity ← required_quantity t
    price ← required_price t
    let position = get_or same_key (t.account_id, instrument) empty_position positions
    raise_if (position.quantity ≺ quantity) (negative_holding t.id)
    let sale_cash = quantity ⊗ price ⊖ t.fees
    removed ← basis_removed t quantity position
    ok (effect_of t (some instrument) sale_cash (negate quantity) (negate removed.0) removed.1)

  abbrev pub opening_cost : D → Option D → D × ℤ
  opening_cost quantity none = (nil_amount, pos 1)
  opening_cost quantity (some price) = (quantity ⊗ price, pos 0)

  abbrev pub opening_effect : LedgerTransaction D → Checked (Effect D)
  opening_effect t = do
    instrument ← required_instrument t
    quantity ← required_quantity t
    let cost = opening_cost quantity t.unit_price
    ok (effect_of t (some instrument) nil_amount quantity cost.0 cost.1)

  abbrev pub amount_effect : LedgerTransaction D → Checked (Effect D)
  amount_effect t = do amount ← required_amount t; ok (cash_effect t amount)

  abbrev pub outflow_effect : LedgerTransaction D → Checked (Effect D)
  outflow_effect t = do amount ← required_amount t; ok (cash_effect t (negate amount))

  abbrev pub original_of : TransactionType → LedgerTransaction D → Positions D → Checked (Effect D)
  original_of opening_cash t _ = amount_effect t
  original_of cash_deposit t _ = amount_effect t
  original_of cash_withdrawal t _ = outflow_effect t
  original_of dividend t _ = required_instrument t >> amount_effect t
  original_of fee t _ = outflow_effect t
  original_of buy t _ = buy_effect t
  original_of sell t positions = sell_effect t positions
  original_of opening_position t _ = opening_effect t
  original_of reversal t _ = raised (invalid_input InputFault.unsupported_type)

  unfoldable pub apply_original : LedgerTransaction D → Positions D → Checked (Effect D)
  unfolding sell_effect
  apply_original t positions = original_of t.transaction_type t positions

  abbrev pub negated : Effect D → Effect D
  negated target = record {
    transaction_type = reversal;
    account_id = target.account_id;
    instrument_id = target.instrument_id;
    cash_delta = negate target.cash_delta;
    quantity_delta = negate target.quantity_delta;
    known_cost_delta = negate target.known_cost_delta;
    uncertainty_delta = negℤ target.uncertainty_delta;
  }

  unfoldable pub reversal_effect :
      LedgerTransaction D → Dict ℕ (Effect D) → Dict ℕ TransactionType → List ℕ → Checked (Effect D)
  reversal_effect t effects types reversed_targets = do
    target_id ← required_reversal_target t
    target ←
        require (lookup ◌==◌ target_id effects)
          (invalid_reversal (ReversalFault.not_applied target_id))
    raise_if (names_reversal (lookup ◌==◌ target_id types))
        (invalid_reversal ReversalFault.targets_reversal)
    raise_if (contains reversed_targets target_id)
        (invalid_reversal (ReversalFault.already_reversed target_id))
    raise_if (not (target.account_id == t.account_id))
        (invalid_reversal ReversalFault.other_account)
    ok (negated target)

  -- The position after an effect, with its three guards.
  unfoldable pub moved_position : ℕ → Effect D → Position D → Checked (Position D)
  moved_position id e p =
      let quantity = p.quantity ⊕ e.quantity_delta in
      let cost = p.known_cost ⊕ e.known_cost_delta in
      let uncertainty = p.uncertainty_count +ℤ e.uncertainty_delta in
      raise_if (quantity ≺ nil_amount) (negative_holding id)
      >> (raise_if (cost ≺ nil_amount) (negative_cost_basis id)
          >> (raise_if (ltb_ℤ uncertainty (pos 0))
                (invalid_reversal ReversalFault.absent_uncertainty)
              >> ok (record {
                quantity = quantity;
                known_cost = cost;
                uncertainty_count = uncertainty;
                source_transaction_ids = p.source_transaction_ids ++ id ∷ [];
              })))

  unfoldable pub apply_position_effect : ℕ → Effect D → ℕ → Positions D → Checked (Positions D)
  unfolding moved_position
  apply_position_effect id e instrument positions = do
    let key : Key = (e.account_id, instrument)
    let present = set_default same_key key empty_position positions
    moved ← moved_position id e (get_or same_key key empty_position present)
    ok (insert same_key key moved present)
