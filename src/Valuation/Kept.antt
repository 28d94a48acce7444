-- ===== src/Valuation/Kept.antt =====
-- What the loop of `RealizedPnlEngine.calculate` keeps of a sale: its effect, and its identifier where
-- the profit is unknown.
use hawk_fund_investment_int.Prelude.{
  ℕ, ◌≡◌, refl, sym, ap, ◌∙◌, inl, inr, true, Bool-cases, All, ◌==◌, if◌then◌else◌, false, Option,
  none, some, List, [], ◌∷◌, ◌++◌, ok, after_ok, ok-injective, contains, ==_refl, Text, arith, find,
}
use hawk_fund_investment_int.Number.{Decimal}
use hawk_fund_investment_int.Dict.{lookup}
use hawk_fund_investment_int.Dict.Laws.{lookup-insert}
use hawk_fund_investment_int.Ledger.Types.{TransactionType}
use hawk_fund_investment_int.Ledger.Types.TransactionType.{
  buy, sell, cash_deposit, cash_withdrawal, dividend, fee, opening_cash, opening_position, reversal,
}
use hawk_fund_investment_int.Portfolio.Types.{LedgerTransaction}
use hawk_fund_investment_int.Portfolio.Engine.{Payload, reconstruct}
use hawk_fund_investment_int.Valuation.Types.{ValuationWarning}
use hawk_fund_investment_int.Valuation.Realized.{
  PnlRun, add_to, discard, take_back, is_sold, sale_effect, record_sale, reverse_sale, keep_prefix,
  pnl_step, pnl_loop,
}

module _ {D : Type 0} ⦃d : Decimal D⦄ (digest : Payload D → Text) where
  pub contains-discard : (id : ℕ) (ids : List ℕ) → contains (discard id ids) id ≡ false
  contains-discard id [] = refl
  contains-discard id (j ∷ ids) = ground (arith, contains-discard id ids)

  pub contains-append : (id : ℕ) (ids : List ℕ) → contains (ids ++ id ∷ []) id ≡ true
  contains-append id [] = rw (==_refl id) refl
  contains-append id (j ∷ ids) = rw (contains-append id ids) (ground arith)

  pub contains-add_to : (id : ℕ) (ids : List ℕ) → contains (add_to id ids) id ≡ true
  contains-add_to id ids = elim (Bool-cases (contains ids id)) [
    | inl e ↦ rw e e
    | inr e ↦ rw e (contains-append id ids)
  ]

  -- The effect that is kept of a sale.
  abbrev pub effect_of : ℕ → PnlRun D → Option (Option D)
  effect_of id r = lookup ◌==◌ id r.effects

  pub effect_of-take_back :
      (id target : ℕ) (found : Option (Option D)) (r : PnlRun D)
      → effect_of id (take_back target found r) ≡ effect_of id r
  effect_of-take_back id target none r = refl
  effect_of-take_back id target (some none) r = refl
  effect_of-take_back id target (some (some effect)) r = refl

  pub effect_of-reverse_sale :
      (id : ℕ) (target : Option ℕ) (r : PnlRun D)
      → effect_of id (reverse_sale target r) ≡ effect_of id r
  effect_of-reverse_sale id none r = refl
  effect_of-reverse_sale id (some target) r = effect_of-take_back id target (effect_of target r) r

  pub effect_of-record_sale :
      (id : ℕ) (t : LedgerTransaction D) (out : Option D × List ValuationWarning) (r : PnlRun D)
      → effect_of id (record_sale t out r) ≡ (if t.id == id then some out.0 else effect_of id r)
  effect_of-record_sale id t (none, ws) r = lookup-insert id t.id none r.effects
  effect_of-record_sale id t (some effect, ws) r = lookup-insert id t.id (some effect) r.effects

  -- A step on another transaction keeps the effect of a sale.
  pub pnl_step-effect_of :
      (id fund_id : ℕ) (scope : Option ℕ) (kind : TransactionType) (m : LedgerTransaction D)
      (r : PnlRun D) {next : PnlRun D}
      → (m.id == id) ≡ false
      → pnl_step digest kind fund_id scope m r ≡ ok next
      → effect_of id next ≡ effect_of id r
  pnl_step-effect_of id fund_id scope sell m r other h =
      after_ok (reconstruct digest fund_id r.prefix m.effective_at scope) _ h λ prior _ e.
        let out = sale_effect m (find (is_sold m) prior.positions) m.quantity m.unit_price in
        let kept = effect_of-record_sale id m out r in
        ap (effect_of id) (sym (ok-injective e)) ∙ (rw other at kept)
  pnl_step-effect_of id fund_id scope reversal m r other h =
      ap (effect_of id) (sym (ok-injective h))
      ∙ effect_of-reverse_sale id m.reverses_transaction_id r
  pnl_step-effect_of id fund_id scope buy m r other h = ap (effect_of id) (sym (ok-injective h))
  pnl_step-effect_of id fund_id scope cash_deposit m r other h =
      ap (effect_of id) (sym (ok-injective h))
  pnl_step-effect_of id fund_id scope cash_withdrawal m r other h =
      ap (effect_of id) (sym (ok-injective h))
  pnl_step-effect_of id fund_id scope dividend m r other h =
      ap (effect_of id) (sym (ok-injective h))
  pnl_step-effect_of id fund_id scope fee m r other h = ap (effect_of id) (sym (ok-injective h))
  pnl_step-effect_of id fund_id scope opening_cash m r other h =
      ap (effect_of id) (sym (ok-injective h))
  pnl_step-effect_of id fund_id scope opening_position m r other h =
      ap (effect_of id) (sym (ok-injective h))

  pub pnl_loop-effect_of :
      (id fund_id : ℕ) (scope : Option ℕ) (ms : List (LedgerTransaction D)) (r : PnlRun D)
      {after : PnlRun D}
      → All (λ m. (m.id == id) ≡ false) ms
      → pnl_loop digest fund_id scope ms r ≡ ok after
      → effect_of id after ≡ effect_of id r
  unfolding pnl_loop
  pnl_loop-effect_of id fund_id scope [] r others h = ap (effect_of id) (sym (ok-injective h))
  pnl_loop-effect_of id fund_id scope (m ∷ ms) r others h =
      after_ok (pnl_step digest m.transaction_type fund_id scope m r) _ h λ next e h1.
        pnl_loop-effect_of id fund_id scope ms (keep_prefix m next) others.1 h1
        ∙ pnl_step-effect_of id fund_id scope m.transaction_type m r others.0 e

  pub pnl_loop-append :
      (fund_id : ℕ) (scope : Option ℕ) (xs ys : List (LedgerTransaction D)) (r : PnlRun D)
      {after : PnlRun D}
      → pnl_loop digest fund_id scope (xs ++ ys) r ≡ ok after
      → (mid : PnlRun D) × (pnl_loop digest fund_id scope xs r ≡ ok mid)
        × (pnl_loop digest fund_id scope ys mid ≡ ok after)
  unfolding pnl_loop
  pnl_loop-append fund_id scope [] ys r h = (r, refl, h)
  pnl_loop-append fund_id scope (x ∷ xs) ys r h =
      after_ok (pnl_step digest x.transaction_type fund_id scope x r) _ h λ next e h1.
        let (mid, first, rest) = pnl_loop-append fund_id scope xs ys (keep_prefix x next) h1 in
        (mid, rw e first, rest)
