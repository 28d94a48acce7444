-- ===== src/Portfolio/Cash/Origins.antt =====
-- What an effect adds to the cash is the flow of its transaction.
use hawk_fund_investment_int.Prelude.{
  require, require-some, ℕ, ◌≡◌, sym, ap, ◌∙◌, subst, Bool-cases, true, false, inl, inr, some, List,
  ◌∷◌, ok, arith, ok-injective, after_ok, ◌==◌,
}
use hawk_fund_investment_int.Number.{Decimal}
use hawk_fund_investment_int.Dict.{Dict, lookup, insert}
use hawk_fund_investment_int.Dict.Laws.{lookup-insert}
use hawk_fund_investment_int.Ledger.Types.{TransactionType, is_reversal}
use hawk_fund_investment_int.Ledger.Types.TransactionType.{
  buy, sell, cash_deposit, cash_withdrawal, dividend, fee, opening_cash, opening_position, reversal,
}
use hawk_fund_investment_int.Portfolio.Types.{LedgerTransaction, ReversalFault, invalid_reversal}
use hawk_fund_investment_int.Portfolio.Validation.{required_reversal_target}
use hawk_fund_investment_int.Portfolio.Effects.{
  Effect, Positions, original_of, apply_original, reversal_effect,
}
use hawk_fund_investment_int.Portfolio.Engine.{Run, original_step, reversal_step, choose_step}
use hawk_fund_investment_int.Portfolio.Cash.{Known, direct_flow, find_flow, reversed_flow, flow}

module _ {D : Type 0} ⦃d : Decimal D⦄ where
  original-flow :
      (kind : TransactionType) (t : LedgerTransaction D) (ps : Positions D) {e : Effect D}
      → original_of kind t ps ≡ ok e
      → e.cash_delta ≡ direct_flow kind t
  unfolding apply_original
  original-flow buy t ps h = ground arith
  original-flow sell t ps h = ground arith
  original-flow cash_deposit t ps h = ground arith
  original-flow cash_withdrawal t ps h = ground arith
  original-flow dividend t ps h = ground arith
  original-flow fee t ps h = ground arith
  original-flow opening_cash t ps h = ground arith
  original-flow opening_position t ps h = ground arith
  original-flow reversal t ps h = cc

  -- What the two branches before the balances change have found out.
  pub record Taken (prior : List (LedgerTransaction D)) (t : LedgerTransaction D) (e : Effect D)
      (s : Run D) : Type 0 where
    pub cash : e.cash_delta ≡ flow prior t
    pub known : Known s.effects (t ∷ prior)

  Known-insert :
      (prior : List (LedgerTransaction D)) (t : LedgerTransaction D) (e : Effect D)
      (effects : Dict ℕ (Effect D))
      → is_reversal t.transaction_type ≡ false
      → e.cash_delta ≡ direct_flow t.transaction_type t
      → Known effects prior
      → Known (insert ◌==◌ t.id e effects) (t ∷ prior)
  Known-insert prior t e effects kind cash k id =
      rw (lookup-insert id t.id e effects, kind)
        (elim (Bool-cases (t.id == id)) [
          | inl same ↦ rw same (ap some cash)
          | inr other ↦ rw other (k id)
        ])

  original-Taken :
      (prior : List (LedgerTransaction D)) (t : LedgerTransaction D) (r : Run D) {e : Effect D}
      {s : Run D}
      → is_reversal t.transaction_type ≡ false
      → Known r.effects prior
      → original_step t r ≡ ok (e, s)
      → Taken prior t e s
  unfolding original_step
  original-Taken prior t r kind k h = after_ok (apply_original t r.positions) _ h λ e got h1.
      let made = ok-injective h1 in
      let own = ap (λ (x : Effect D × Run D). x.0) made in
      let cash = original-flow t.transaction_type t r.positions got in
      record {
        cash = rw kind (ap (λ (x : Effect D). x.cash_delta) (sym own) ∙ cash);
        known =
            subst (λ (x : Run D). Known x.effects (t ∷ prior))
              (ap (λ (x : Effect D × Run D). x.1) made)
              (Known-insert prior t e r.effects kind cash k);
      }

  reversal-flow :
      (prior : List (LedgerTransaction D)) (t : LedgerTransaction D) (r : Run D) {e : Effect D}
      → Known r.effects prior
      → reversal_effect t r.effects r.transaction_types r.reversed_targets ≡ ok e
      → e.cash_delta ≡ reversed_flow t.reverses_transaction_id prior
  unfolding reversal_effect
  reversal-flow prior t r k h = after_ok (required_reversal_target t) _ h λ id given h1.
      after_ok
        (require (lookup ◌==◌ id r.effects) (invalid_reversal (ReversalFault.not_applied id))) _ h1
        λ target found h2.
          let own : t.reverses_transaction_id ≡ some id =
            require-some t.reverses_transaction_id _ given in
          let there : lookup ◌==◌ id r.effects ≡ some target =
            require-some (lookup ◌==◌ id r.effects) _ found in
          let flows : some target.cash_delta ≡ find_flow id prior = rw there at (k id) in
          rw (own, ← flows) (ground arith)

  reversal-Taken :
      (prior : List (LedgerTransaction D)) (t : LedgerTransaction D) (r : Run D) {e : Effect D}
      {s : Run D}
      → is_reversal t.transaction_type ≡ true
      → Known r.effects prior
      → reversal_step t r ≡ ok (e, s)
      → Taken prior t e s
  unfolding reversal_step
  reversal-Taken prior t r kind k h =
      after_ok (reversal_effect t r.effects r.transaction_types r.reversed_targets) _ h λ e got h1.
        after_ok (required_reversal_target t) _ h1 λ target _ h2.
          let made = ok-injective h2 in
          let own = ap (λ (x : Effect D × Run D). x.0) made in
          let kept : Known r.effects (t ∷ prior) = λ id. rw kind (k id) in
          record {
            cash =
                rw kind
                  (ap (λ (x : Effect D). x.cash_delta) (sym own) ∙ reversal-flow prior t r k got);
            known =
                subst (λ (x : Run D). Known x.effects (t ∷ prior))
                  (ap (λ (x : Effect D × Run D). x.1) made) kept;
          }

  pub choose-Taken :
      (prior : List (LedgerTransaction D)) (t : LedgerTransaction D) (r : Run D) {e : Effect D}
      {s : Run D}
      → Known r.effects prior
      → choose_step (is_reversal t.transaction_type) t r ≡ ok (e, s)
      → Taken prior t e s
  unfolding choose_step
  choose-Taken prior t r k h = elim (Bool-cases (is_reversal t.transaction_type)) [
    | inl kind ↦ reversal-Taken prior t r kind k (rw (kind, choose_step) at h)
    | inr kind ↦ original-Taken prior t r kind k (rw (kind, choose_step) at h)
  ]
