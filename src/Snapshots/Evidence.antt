-- ===== src/Snapshots/Evidence.antt =====
-- What the ledger has posted, the portfolio engine accepts.
use hawk_fund_investment_int.Prelude.{
  ℕ, ◌≡◌, Bool, Bool-cases, true, false, ◌&&◌, inl, inr, Option, none, some, List, [], ◌∷◌, ok,
  arith, map, select, All, text_eq, codes, ◌==◌, &&-left, after_ok,
}
use hawk_fund_investment_int.Prelude.Order.{Apart, Apart-select}
use hawk_fund_investment_int.Number.{Decimal, nil_amount, ◌≺◌, ◌≼◌}
use hawk_fund_investment_int.Ledger.Types.{TransactionType}
use hawk_fund_investment_int.Ledger.Types.TransactionType.{
  buy, sell, cash_deposit, cash_withdrawal, dividend, fee, opening_cash, opening_position, reversal,
}
use hawk_fund_investment_int.Ledger.Command.{
  CreateTransaction, Field, quantity_field, unit_price_field, amount_field,
}
use hawk_fund_investment_int.Ledger.Validation.{
  positive_or_none, validate_transaction, common_fields, fields_of,
}
use hawk_fund_investment_int.Ledger.Store.{Transaction, Store}
use hawk_fund_investment_int.Ledger.Accepted.{OtherRow, IsValid, IsAccepted}
use hawk_fund_investment_int.Portfolio.Engine.{in_account}
use hawk_fund_investment_int.Portfolio.Validation.{
  shape_of, validate_one, validate_scope_and_timestamps,
}
use hawk_fund_investment_int.Portfolio.Validation.Accepts.{Passes, Differs, Accepted→validate}
use hawk_fund_investment_int.Snapshots.Transactions.{domain_transaction, ledger_of}

module _ {D : Type 0} ⦃d : Decimal D⦄ where
  abbrev Positive : Option D → Type 0
  Positive none = Unit
  Positive (some x) = (x ≼ nil_amount) ≡ false

  record IsCommon (c : CreateTransaction D) : Type 0 where
    usd : text_eq c.currency (codes "USD") ≡ true
    fees_nonneg : (c.fees ≺ nil_amount) ≡ false
    quantity : Positive c.quantity
    unit_price : Positive c.unit_price
    amount : Positive c.amount

  positive_or_none-Positive : (v : Option D) (f : Field) → positive_or_none v f ≡ ok tt → Positive v
  positive_or_none-Positive none f h = tt
  positive_or_none-Positive (some x) f h = ground arith

  common_fields-IsCommon : (c : CreateTransaction D) → common_fields c ≡ ok tt → IsCommon c
  unfolding common_fields
  common_fields-IsCommon c h = record {
    usd = ground arith;
    fees_nonneg = ground arith;
    quantity = positive_or_none-Positive c.quantity quantity_field (ground arith);
    unit_price = positive_or_none-Positive c.unit_price unit_price_field (ground arith);
    amount = positive_or_none-Positive c.amount amount_field (ground arith);
  }

  shape-of-fields :
      (kind : TransactionType) (t : Transaction D)
      → IsCommon t.command
      → fields_of kind t.command ≡ ok tt
      → shape_of kind (domain_transaction t) ≡ ok tt
  unfolding domain_transaction
  shape-of-fields buy t c h = ground arith
  shape-of-fields sell t c h = ground arith
  shape-of-fields cash_deposit t c h = ground arith
  shape-of-fields cash_withdrawal t c h = ground arith
  shape-of-fields dividend t c h = ground arith
  shape-of-fields fee t c h = ground arith
  shape-of-fields opening_cash t c h = ground arith
  shape-of-fields opening_position t c h = ground arith
  shape-of-fields reversal t c h = ground arith

  -- A row of the fund that the ledger has accepted passes the tests of the engine.
  row-Passes :
      (fund : ℕ) (t : Transaction D)
      → (t.command.fund_id == fund) ≡ true
      → IsValid t
      → Passes fund (domain_transaction t)
  unfolding validate_transaction validate_one domain_transaction
  row-Passes fund t own h = after_ok (common_fields t.command) _ h λ _ common h1.
      after_ok (fields_of t.command.transaction_type t.command) _ h1 λ _ fields _.
        let c = common_fields-IsCommon t.command common in
        rw (own, c.usd, c.fees_nonneg) (shape-of-fields t.command.transaction_type t c fields)

  abbrev of_fund : ℕ → Option ℕ → Transaction D → Bool
  of_fund fund account t = (t.command.fund_id == fund) && in_account account t.command.account_id

  rows-Passes :
      (fund : ℕ) (account : Option ℕ) (ts : List (Transaction D))
      → All IsValid ts
      → All (Passes fund) (map domain_transaction (select (of_fund fund account) ts))
  rows-Passes fund account [] h = tt
  rows-Passes fund account (t ∷ ts) h = elim (Bool-cases (of_fund fund account t)) [
    | inl e ↦ rw e (row-Passes fund t (&&-left _ _ e) h.0, rows-Passes fund account ts h.1)
    | inr e ↦ rw e (rows-Passes fund account ts h.1)
  ]

  map-Differs :
      (t : Transaction D) (ts : List (Transaction D))
      → All (OtherRow t) ts
      → All (Differs (domain_transaction t)) (map domain_transaction ts)
  unfolding domain_transaction
  map-Differs t [] h = tt
  map-Differs t (u ∷ us) h = (h.0, map-Differs t us h.1)

  map-Apart :
      (ts : List (Transaction D)) → Apart OtherRow ts → Apart Differs (map domain_transaction ts)
  map-Apart [] h = tt
  map-Apart (t ∷ ts) h = (map-Differs t ts h.0, map-Apart ts h.1)

  -- The engine's validation accepts the transactions of any fund, or of one of its accounts, of a
  -- ledger whose transactions are all of accepted commands with identifiers of their own.
  pub ledger_of-validate :
      (fund : ℕ) (account : Option ℕ) (s : Store D)
      → IsAccepted s
      → validate_scope_and_timestamps fund (ledger_of fund account s) ≡ ok tt
  unfolding ledger_of
  ledger_of-validate fund account s a = Accepted→validate fund (ledger_of fund account s) (
    rows-Passes fund account s.transactions a.valid,
    map-Apart (select (of_fund fund account) s.transactions)
        (Apart-select OtherRow (of_fund fund account) s.transactions a.distinct),
  )
