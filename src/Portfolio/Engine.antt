-- ===== src/Portfolio/Engine.antt =====
-- apps/api/app/portfolio/engine.py: `PortfolioEngine.reconstruct` and the output of `_positions`
-- and `_warnings`. The SHA-256 of the canonical JSON is a parameter, `digest`, of what it reads.
pub mod Steps
use hawk_fund_investment_int.Prelude.{
  ℕ, Bool, true, false, not, ◌&&◌, ◌||◌, Option, none, some, List, [], ◌∷◌, ◌++◌, map, foldl, ok,
  raised, ◌>>=◌, ◌>>◌, raise_if, select, length, last, ltb, codes, ◌==◌, if◌then◌else◌, Text,
}
use hawk_fund_investment_int.Prelude.Order.{sorted}
use hawk_fund_investment_int.Number.{Decimal, nil_amount, ◌⊕◌, ◌⊘◌, ◌≺◌, ◌≈◌}
use hawk_fund_investment_int.Int.{pos, eqb_ℤ}
use hawk_fund_investment_int.Clock.{Datetime, not_after}
use hawk_fund_investment_int.Dict.{Dict, lookup, insert, set_default}
use hawk_fund_investment_int.Ledger.Types.{TransactionType, is_reversal}
use hawk_fund_investment_int.Portfolio.Types.{
  LedgerTransaction, InputFault, invalid_input, key_missing, CashBalance, PositionState, known,
  unknown, Warning, negative_cash, unknown_cost_basis, PortfolioState,
}
use hawk_fund_investment_int.Portfolio.Validation.{
  Checked, required_reversal_target, validate_scope_and_timestamps, usd,
}
use hawk_fund_investment_int.Portfolio.Effects.{
  Position, Effect, Key, Positions, apply_original, reversal_effect, apply_position_effect,
}

-- The local variables of the loop of `reconstruct`.
pub record Run (D : Type 0) : Type 0 where
  pub cash : Dict ℕ D
  pub positions : Positions D
  pub effects : Dict ℕ (Effect D)
  pub transaction_types : Dict ℕ TransactionType
  pub reversed_targets : List ℕ

-- What the digest is taken of.
pub record Payload (D : Type 0) : Type 0 where
  pub fund_id : ℕ
  pub account_id : Option ℕ
  pub as_of : Datetime
  pub calculation_version : Text
  pub transactions : List (LedgerTransaction D)

abbrev pub engine_version : Text
engine_version = codes "portfolio-reconstruction-v1"

-- Tuples of two and three numbers in order.
abbrev pub pair_lt : ℕ → ℕ → ℕ → ℕ → Bool
pair_lt a b c d = ltb a c || (a == c) && ltb b d

-- `(item.effective_at, item.recorded_at, str(item.id))`
abbrev pub earlier : {D : Type 0} → LedgerTransaction D → LedgerTransaction D → Bool
earlier s t =
    ltb s.effective_at.instant t.effective_at.instant
    || (s.effective_at.instant == t.effective_at.instant)
      && pair_lt s.recorded_at.instant s.id t.recorded_at.instant t.id

-- `account_id is None or transaction.account_id == account_id`
abbrev pub in_account : Option ℕ → ℕ → Bool
in_account none account = true
in_account (some scope) account = account == scope

abbrev pub is_included : {D : Type 0} → Datetime → Option ℕ → LedgerTransaction D → Bool
is_included as_of scope t = not_after t.effective_at as_of && in_account scope t.account_id

-- The texts compare by their prefixes first, `NEGATIVE_CASH` and `UNKNOWN_COST_BASIS`.
abbrev pub warning_lt : Warning → Warning → Bool
warning_lt (negative_cash a) (negative_cash b) = ltb a b
warning_lt (negative_cash _) (unknown_cost_basis _ _) = true
warning_lt (unknown_cost_basis _ _) (negative_cash _) = false
warning_lt (unknown_cost_basis a i) (unknown_cost_basis b j) = pair_lt a i b j

module _ {D : Type 0} ⦃d : Decimal D⦄ where
  abbrev pub start : Run D
  start = record {
    cash = [];
    positions = [];
    effects = [];
    transaction_types = [];
    reversed_targets = [];
  }

  -- `cash[account] += delta`, a `KeyError` where the account has no entry
  unfoldable pub add_cash : ℕ → D → Dict ℕ D → Checked (Dict ℕ D)
  add_cash account delta cash = elim (lookup ◌==◌ account cash) [
    | none ↦ raised (key_missing account)
    | some amount ↦ ok (insert ◌==◌ account (amount ⊕ delta) cash)
  ]

  -- `if effect.instrument_id is not None: self._apply_position_effect(...)`
  abbrev pub update_positions : ℕ → Effect D → Option ℕ → Positions D → Checked (Positions D)
  update_positions id e none positions = ok positions
  update_positions id e (some instrument) positions =
      apply_position_effect id e instrument positions

  -- The two branches before the balances change: a reversal, and any other transaction.
  unfoldable pub reversal_step : LedgerTransaction D → Run D → Checked (Effect D × Run D)
  unfolding reversal_effect
  reversal_step t r = do
    effect ← reversal_effect t r.effects r.transaction_types r.reversed_targets
    target ← required_reversal_target t
    ok (effect, record r { reversed_targets = target ∷ r.reversed_targets })

  unfoldable pub original_step : LedgerTransaction D → Run D → Checked (Effect D × Run D)
  unfolding apply_original
  original_step t r = do
    effect ← apply_original t r.positions
    ok (
      effect,
      record r {
        effects = insert ◌==◌ t.id effect r.effects;
        transaction_types = insert ◌==◌ t.id t.transaction_type r.transaction_types;
      },
    )

  unfoldable pub choose_step : Bool → LedgerTransaction D → Run D → Checked (Effect D × Run D)
  unfolding reversal_step original_step
  choose_step true t r = reversal_step t r
  choose_step false t r = original_step t r

  unfoldable pub settle : ℕ → Effect D → Run D → Checked (Run D)
  unfolding add_cash apply_position_effect
  settle id e r = do
    cash ← add_cash e.account_id e.cash_delta r.cash
    positions ← update_positions id e e.instrument_id r.positions
    ok (record r { cash = cash; positions = positions })

  -- The body of the loop.
  unfoldable pub step : LedgerTransaction D → Run D → Checked (Run D)
  unfolding choose_step settle
  step t r = do
    let opened = record r { cash = set_default ◌==◌ t.account_id nil_amount r.cash }
    taken ← choose_step (is_reversal t.transaction_type) t opened
    settle t.id taken.0 taken.1

  unfoldable pub apply_all : List (LedgerTransaction D) → Run D → Checked (Run D)
  apply_all [] r = ok r
  apply_all (t ∷ ts) r = step t r >>= apply_all ts

  -- One row of `_positions`.
  abbrev pub position_state : Key → Position D → PositionState D
  position_state key p =
      let exact = eqb_ℤ p.uncertainty_count (pos 0) in
      record {
        account_id = key.0;
        instrument_id = key.1;
        quantity = p.quantity;
        total_cost_basis = if exact then some p.known_cost else none;
        average_cost = if exact then some (p.known_cost ⊘ p.quantity) else none;
        cost_basis_status = if exact then known else unknown;
        source_transaction_ids = p.source_transaction_ids;
      }

  abbrev pub key_lt : Key × Position D → Key × Position D → Bool
  key_lt ((a, i), _) ((b, j), _) = pair_lt a i b j

  abbrev pub rows_of : Positions D → List (PositionState D)
  rows_of [] = []
  rows_of ((key, p) ∷ rest) =
      let rows = rows_of rest in
      if p.quantity ≈ nil_amount then rows else position_state key p ∷ rows

  unfoldable pub output_positions : Positions D → List (PositionState D)
  unfolding sorted
  output_positions positions = rows_of (sorted key_lt positions)

  abbrev pub balance_lt : ℕ × D → ℕ × D → Bool
  balance_lt (a, _) (b, _) = ltb a b

  abbrev pub balance_of : ℕ × D → CashBalance D
  balance_of (account, amount) = record { account_id = account; currency = usd; amount = amount }

  unfoldable pub output_cash : Dict ℕ D → List (CashBalance D)
  unfolding sorted
  output_cash cash = map balance_of (sorted balance_lt cash)

  -- `sum(cash.values(), ZERO)`
  unfoldable pub sum_cash : Dict ℕ D → D
  sum_cash cash = foldl (λ total e. total ⊕ e.1) nil_amount cash

  abbrev pub cash_warnings : List (CashBalance D) → List Warning
  cash_warnings [] = []
  cash_warnings (b ∷ bs) =
      let rest = cash_warnings bs in
      if b.amount ≺ nil_amount then negative_cash b.account_id ∷ rest else rest

  abbrev pub basis_warnings : List (PositionState D) → List Warning
  basis_warnings [] = []
  basis_warnings (p ∷ ps) =
      let rest = basis_warnings ps in
      elim p.cost_basis_status [
        | known ↦ rest
        | unknown ↦ unknown_cost_basis p.account_id p.instrument_id ∷ rest
      ]

  unfoldable pub output_warnings : List (CashBalance D) → List (PositionState D) → List Warning
  unfolding sorted
  output_warnings cash positions =
      sorted warning_lt (cash_warnings cash ++ basis_warnings positions)

  module _ (digest : Payload D → Text) where
    -- The result, from the ordered transactions and what the loop has left.
    unfoldable pub assemble :
        ℕ → Option ℕ → Datetime → List (LedgerTransaction D) → Run D → PortfolioState D
    unfolding output_positions output_cash output_warnings sum_cash
    assemble fund_id scope as_of ordered r =
        let positions = output_positions r.positions in
        let balances = output_cash r.cash in
        record {
          fund_id = fund_id;
          account_id = scope;
          currency = usd;
          cash = sum_cash r.cash;
          cash_by_account = balances;
          positions = positions;
          warnings = output_warnings balances positions;
          metadata = record {
            as_of = as_of;
            calculation_version = engine_version;
            canonical_input_hash = digest (record {
              fund_id = fund_id;
              account_id = scope;
              as_of = as_of;
              calculation_version = engine_version;
              transactions = ordered;
            });
            applied_transaction_count = length ordered;
            applied_transaction_ids = map (λ t. t.id) ordered;
            last_applied_transaction_id = last (map (λ t. t.id) ordered);
          };
        }

    -- `reconstruct`
    unfoldable pub reconstruct :
        ℕ → List (LedgerTransaction D) → Datetime → Option ℕ → Checked (PortfolioState D)
    unfolding apply_all step assemble validate_scope_and_timestamps sorted
    reconstruct fund_id supplied as_of scope = do
      raise_if (not as_of.aware) (invalid_input InputFault.naive_as_of)
      validate_scope_and_timestamps fund_id supplied
      let ordered = sorted earlier (select (is_included as_of scope) supplied)
      result ← apply_all ordered start
      ok (assemble fund_id scope as_of ordered result)
