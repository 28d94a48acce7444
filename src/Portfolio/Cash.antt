-- ===== src/Portfolio/Cash.antt =====
-- Where the cash of a reconstructed portfolio comes from: every applied transaction moves it once.
pub mod Balances
pub mod Origins
pub mod Conservation
use mathlib.Core.Option.{some-injective}
use mathlib.Core.Option
use hawk_fund_investment_int.Prelude.{
  require, require-some, Option-cases, ℕ, ◌≡◌, refl, sym, ap, ◌∙◌, subst, Bool, Bool-cases, true,
  false, not, ◌&&◌, inl, inr, Option, none, some, List, [], ◌∷◌, map, foldl, ok, raised, arith,
  Text, >>=-eq-ok, ok-injective, after_ok, ◌==◌, if◌then◌else◌, ◌>>=◌,
}
use hawk_fund_investment_int.Number.{
  Decimal, IsExact, nil_amount, negate, ◌⊕◌, ◌⊖◌, ◌⊗◌, total, total_from,
}
use hawk_fund_investment_int.Number.Sums.{add_right_comm, nought-add, total-cons, total-sorted}
use hawk_fund_investment_int.Clock.{Datetime}
use hawk_fund_investment_int.Dict.{Dict, lookup, insert, set_default}
use hawk_fund_investment_int.Dict.Laws.{lookup-insert}
use hawk_fund_investment_int.Ledger.Types.{TransactionType, is_reversal}
use hawk_fund_investment_int.Ledger.Types.TransactionType.{
  buy, sell, cash_deposit, cash_withdrawal, dividend, fee, opening_cash, opening_position, reversal,
}
use hawk_fund_investment_int.Portfolio.Types.{
  LedgerTransaction, PortfolioState, key_missing, ReversalFault, invalid_reversal,
}
use hawk_fund_investment_int.Portfolio.Validation.{required_reversal_target}
use hawk_fund_investment_int.Prelude.Order.{sorted}
use hawk_fund_investment_int.Portfolio.Effects.{
  Effect, Positions, original_of, apply_original, reversal_effect,
}
use hawk_fund_investment_int.Portfolio.Engine.{
  Payload, Run, original_step, reversal_step, add_cash, sum_cash, balance_of, balance_lt,
  output_cash, choose_step, step, apply_all, start, assemble, reconstruct,
}
use hawk_fund_investment_int.Portfolio.Engine.Steps.{Stepped, step-eq-ok, choose_step-keeps, opened}
use hawk_fund_investment_int.Portfolio.Replay.{chosen, reconstruct-eq-ok}

module _ {D : Type 0} ⦃d : Decimal D⦄ where
  abbrev pub value_or : Option D → D
  value_or none = nil_amount
  value_or (some x) = x

  abbrev pub trade_value : LedgerTransaction D → D
  trade_value t = value_or t.quantity ⊗ value_or t.unit_price

  -- What a transaction that is no reversal pays in.
  abbrev pub direct_flow : TransactionType → LedgerTransaction D → D
  direct_flow opening_cash t = value_or t.amount
  direct_flow cash_deposit t = value_or t.amount
  direct_flow dividend t = value_or t.amount
  direct_flow cash_withdrawal t = negate (value_or t.amount)
  direct_flow fee t = negate (value_or t.amount)
  direct_flow buy t = negate (trade_value t ⊕ t.fees)
  direct_flow sell t = trade_value t ⊖ t.fees
  direct_flow opening_position t = nil_amount
  direct_flow reversal t = nil_amount

  -- The flow of the latest transaction with an identifier that is no reversal.
  abbrev pub find_flow : ℕ → List (LedgerTransaction D) → Option D
  find_flow id [] = none
  find_flow id (t ∷ prior) =
      let rest = find_flow id prior in
      if not (is_reversal t.transaction_type)
      then (if t.id == id then some (direct_flow t.transaction_type t) else rest)
      else rest

  abbrev pub reversed_flow : Option ℕ → List (LedgerTransaction D) → D
  reversed_flow none prior = nil_amount
  reversed_flow (some id) prior = negate (value_or (find_flow id prior))

  -- A reversal takes back what its target paid in.
  abbrev pub flow : List (LedgerTransaction D) → LedgerTransaction D → D
  flow prior t =
      if is_reversal t.transaction_type
      then reversed_flow t.reverses_transaction_id prior
      else direct_flow t.transaction_type t

  -- The flows of a history, behind what has gone before it.
  abbrev pub flows : List (LedgerTransaction D) → List (LedgerTransaction D) → List D
  flows prior [] = []
  flows prior (t ∷ ts) = flow prior t ∷ flows (t ∷ prior) ts

  abbrev pub amounts : Dict ℕ D → List D
  amounts cash = map (λ e. e.1) cash

  -- The effects that the loop keeps are those of the transactions that it has applied.
  abbrev pub Known : Dict ℕ (Effect D) → List (LedgerTransaction D) → Type 0
  Known effects prior =
      (id : ℕ) → Option.map (λ e. e.cash_delta) (lookup ◌==◌ id effects) ≡ find_flow id prior
