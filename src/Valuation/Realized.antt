-- ===== src/Valuation/Realized.antt =====
-- apps/api/app/valuation/engine.py: `RealizedPnlEngine.calculate`. The digest of the portfolio engine
-- is a parameter. What `reconstruct` raises passes through, and so does the TypeError of comparing a
-- time that has a zone with one that has none: an effective time with the cutoff or, in the sort, the
-- recorded times of two transactions with one effective time.
use hawk_fund_investment_int.Prelude.{
  ℕ, not, Bool, ◌&&◌, Option, none, some, List, [], ◌∷◌, ◌++◌, ok, raised, Outcome, raise_if, any,
  ◌>>=◌, ◌>>◌, find, select, contains, option_eq, is_empty, ◌==◌, if◌then◌else◌, Text,
}
use hawk_fund_investment_int.Prelude.Order.{sorted}
use hawk_fund_investment_int.Number.{Decimal, nil_amount, ◌⊕◌, ◌⊖◌, ◌⊗◌}
use hawk_fund_investment_int.Clock.{Datetime, same_zone, same_instant}
use hawk_fund_investment_int.Dict.{Dict, lookup, insert}
use hawk_fund_investment_int.Ledger.Types.{TransactionType}
use hawk_fund_investment_int.Ledger.Types.TransactionType.{sell, reversal}
use hawk_fund_investment_int.Portfolio.Types.{
  LedgerTransaction, EngineError, CostBasisStatus, known, unknown, PositionState,
}
use hawk_fund_investment_int.Portfolio.Validation.{Checked}
use hawk_fund_investment_int.Portfolio.Engine.{Payload, earlier, is_included, reconstruct}
use hawk_fund_investment_int.Valuation.Types.{ValuationWarning, unavailable_pnl, RealizedPnlResult}

pub data PnlError : Type 0 where
  type_error : PnlError
  of_engine : EngineError → PnlError

abbrev pub from_engine : {A : Type 0} → Checked A → Outcome PnlError A
from_engine (ok a) = ok a
from_engine (raised e) = raised (of_engine e)

-- The variables of the loop; `active_unknown_sales` is a list with no repetition.
pub record PnlRun (D : Type 0) : Type 0 where
  pub prefix : List (LedgerTransaction D)
  pub effects : Dict ℕ (Option D)
  pub sum : D
  pub active_unknown_sales : List ℕ
  pub notes : List ValuationWarning

-- `set.add` and `set.discard`
abbrev pub add_to : ℕ → List ℕ → List ℕ
add_to id ids = if contains ids id then ids else ids ++ id ∷ []

abbrev pub discard : ℕ → List ℕ → List ℕ
discard id ids = select (λ j. not (j == id)) ids

-- `None` where the cost basis is unknown or there is no average cost.
abbrev pub cost_of : {D : Type 0} → CostBasisStatus → Option D → Option D
cost_of known average = average
cost_of unknown average = none

module _ {D : Type 0} ⦃d : Decimal D⦄ where
  abbrev pub meets_cutoff : Datetime → LedgerTransaction D → Bool
  meets_cutoff as_of t = same_zone t.effective_at as_of

  -- The sort compares their recorded times, and cannot.
  abbrev pub clashes : LedgerTransaction D → LedgerTransaction D → Bool
  clashes s t =
      same_instant s.effective_at t.effective_at && not (same_zone s.recorded_at t.recorded_at)

  abbrev pub is_sold : LedgerTransaction D → PositionState D → Bool
  is_sold t p = (p.account_id == t.account_id) && option_eq (some p.instrument_id) t.instrument_id

  abbrev pub effect_at : LedgerTransaction D → D → D → Option D → Option D × List ValuationWarning
  effect_at t quantity unit_price none = (none, unavailable_pnl t.id ∷ [])
  effect_at t quantity unit_price (some average) =
      (some (quantity ⊗ unit_price ⊖ t.fees ⊖ quantity ⊗ average), [])

  -- The effect of a sale out of a position, and the warning that it appends.
  abbrev pub sale_effect :
      LedgerTransaction D
      → Option (PositionState D)
      → Option D
      → Option D
      → Option D × List ValuationWarning
  sale_effect t (some p) (some quantity) (some unit_price) =
      effect_at t quantity unit_price (cost_of p.cost_basis_status p.average_cost)
  sale_effect t _ _ _ = (none, [])

  abbrev pub record_sale :
      LedgerTransaction D → Option D × List ValuationWarning → PnlRun D → PnlRun D
  record_sale t (none, warnings) r = record r {
    effects = insert ◌==◌ t.id none r.effects;
    active_unknown_sales = add_to t.id r.active_unknown_sales;
    notes = r.notes ++ warnings;
  }
  record_sale t (some effect, warnings) r = record r {
    effects = insert ◌==◌ t.id (some effect) r.effects;
    sum = r.sum ⊕ effect;
    notes = r.notes ++ warnings;
  }

  -- `if target in effects`
  abbrev pub take_back : ℕ → Option (Option D) → PnlRun D → PnlRun D
  take_back target none r = r
  take_back target (some none) r = record r {
    active_unknown_sales = discard target r.active_unknown_sales;
  }
  take_back target (some (some effect)) r = record r { sum = r.sum ⊖ effect }

  abbrev pub reverse_sale : Option ℕ → PnlRun D → PnlRun D
  reverse_sale none r = r
  reverse_sale (some target) r = take_back target (lookup ◌==◌ target r.effects) r

  abbrev pub keep_prefix : LedgerTransaction D → PnlRun D → PnlRun D
  keep_prefix t r = record r { prefix = r.prefix ++ t ∷ [] }

  -- `None if active_unknown_sales else total`
  abbrev pub realized_of : PnlRun D → RealizedPnlResult D
  realized_of r = record {
    amount = if is_empty r.active_unknown_sales then some r.sum else none;
    warnings = r.notes;
  }

  module _ (digest : Payload D → Text) where
    abbrev pub pnl_step :
        TransactionType → ℕ → Option ℕ → LedgerTransaction D → PnlRun D → Checked (PnlRun D)
    pnl_step sell fund_id scope t r = do
      prior ← reconstruct digest fund_id r.prefix t.effective_at scope
      let position = find (is_sold t) prior.positions
      ok (record_sale t (sale_effect t position t.quantity t.unit_price) r)
    pnl_step reversal fund_id scope t r = ok (reverse_sale t.reverses_transaction_id r)
    pnl_step _ fund_id scope t r = ok r

    unfoldable pub pnl_loop :
        ℕ → Option ℕ → List (LedgerTransaction D) → PnlRun D → Checked (PnlRun D)
    unfolding reconstruct
    pnl_loop fund_id scope [] r = ok r
    pnl_loop fund_id scope (t ∷ ts) r = pnl_step t.transaction_type fund_id scope t r >>= λ next.
        pnl_loop fund_id scope ts (keep_prefix t next)

    unfoldable pub calculate :
        ℕ
        → List (LedgerTransaction D)
        → Datetime
        → Option ℕ
        → Outcome PnlError (RealizedPnlResult D)
    unfolding pnl_loop sorted
    calculate fund_id supplied as_of scope = do
      raise_if (any (λ t. not (meets_cutoff as_of t)) supplied) type_error
      let eligible = sorted earlier (select (is_included as_of scope) supplied)
      raise_if (any (λ s. any (clashes s) eligible) eligible) type_error
      let start : PnlRun D = record {
        prefix = [];
        effects = [];
        sum = nil_amount;
        active_unknown_sales = [];
        notes = [];
      }
      run ← from_engine (pnl_loop fund_id scope eligible start)
      ok (realized_of run)
