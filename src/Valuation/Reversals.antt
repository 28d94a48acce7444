-- ===== src/Valuation/Reversals.antt =====
-- The realized profit is that of the set of transactions, and a reversal takes back its sale.
use hawk_fund_investment_int.Prelude.{
  ℕ, not, ◌≡◌, refl, sym, ap, ◌∙◌, ◌⊎◌, inl, inr, true, All, ◌==◌, false, Option, none, some, List,
  [], ◌∷◌, ◌++◌, ok, after_ok, ok-injective, contains, ==_refl, Text, find,
}
use mathlib.Core.Option.{some-injective}
use mathlib.Core.List.{Permᴰ}
use hawk_fund_investment_int.Prelude.Order.{Apart, any-perm}
use hawk_fund_investment_int.Number.{Decimal, ◌⊕◌, ◌⊖◌, ◌⊗◌}
use hawk_fund_investment_int.Clock.{Datetime}
use hawk_fund_investment_int.Ledger.Types.TransactionType.{sell, reversal}
use hawk_fund_investment_int.Portfolio.Types.{
  LedgerTransaction, PositionState, PortfolioState, CostBasisStatus, known, unknown,
}
use hawk_fund_investment_int.Portfolio.Validation.Accepts.{Differs}
use hawk_fund_investment_int.Portfolio.Engine.{Payload, reconstruct}
use hawk_fund_investment_int.Portfolio.Replay.{chosen-perm}
use hawk_fund_investment_int.Valuation.Kept.{
  contains-discard, contains-add_to, effect_of, effect_of-record_sale, pnl_loop-effect_of,
  pnl_loop-append,
}
use hawk_fund_investment_int.Valuation.Types.{ValuationWarning}
use hawk_fund_investment_int.Valuation.Realized.{
  meets_cutoff, PnlRun, is_sold, effect_at, cost_of, sale_effect, record_sale, reverse_sale,
  keep_prefix, pnl_step, pnl_loop, calculate,
}

module _ {D : Type 0} ⦃d : Decimal D⦄ (digest : Payload D → Text) where
  -- The order in which transactions with identifiers of their own are supplied does not matter.
  pub calculate-perm :
      (fund_id : ℕ) {ts us : List (LedgerTransaction D)} (as_of : Datetime) (scope : Option ℕ)
      → Permᴰ ts us
      → Apart Differs ts
      → calculate digest fund_id us as_of scope ≡ calculate digest fund_id ts as_of scope
  unfolding calculate
  calculate-perm fund_id as_of scope perm distinct =
      rw (chosen-perm as_of scope perm distinct, any-perm (λ t. not (meets_cutoff as_of t)) perm)
        refl

  -- The profit of a sale: its proceeds less its fees, less the quantity at an average cost.
  abbrev IsMargin : LedgerTransaction D → D → D → CostBasisStatus → Option D → D → Type 0
  IsMargin t quantity price status cost effect =
      (average : D) × (status ≡ known)
      × (cost ≡ some average)
      × (effect ≡ quantity ⊗ price ⊖ t.fees ⊖ quantity ⊗ average)

  -- The profit is of a position, with the quantity and the price of the sale.
  abbrev IsProfitOf :
      LedgerTransaction D → Option (PositionState D) → Option D → Option D → D → Type 0
  IsProfitOf t position quantity price effect =
      (p : PositionState D) × (q : D) × (x : D) × (position ≡ some p)
      × (quantity ≡ some q)
      × (price ≡ some x)
      × IsMargin t q x p.cost_basis_status p.average_cost effect

  -- The same, of the position that the portfolio has in the instrument and the account of the sale.
  abbrev pub IsProfit : LedgerTransaction D → PortfolioState D → D → Type 0
  IsProfit t prior effect =
      IsProfitOf t (find (is_sold t) prior.positions) t.quantity t.unit_price effect

  effect_at-IsMargin :
      (t : LedgerTransaction D) (quantity price : D) (status : CostBasisStatus) (cost : Option D)
      {effect : D}
      → (effect_at t quantity price (cost_of status cost)).0 ≡ some effect
      → IsMargin t quantity price status cost effect
  effect_at-IsMargin t quantity price known none h = cc
  effect_at-IsMargin t quantity price known (some average) h =
      (average, refl, refl, sym (some-injective _ _ h))
  effect_at-IsMargin t quantity price unknown cost h = cc

  sale_effect-IsProfitOf :
      (t : LedgerTransaction D) (position : Option (PositionState D)) (quantity price : Option D)
      {effect : D}
      → (sale_effect t position quantity price).0 ≡ some effect
      → IsProfitOf t position quantity price effect
  sale_effect-IsProfitOf t none quantity price h = cc
  sale_effect-IsProfitOf t (some p) none price h = cc
  sale_effect-IsProfitOf t (some p) (some q) none h = cc
  sale_effect-IsProfitOf t (some p) (some q) (some x) h =
      (p, q, x, refl, refl, refl, effect_at-IsMargin t q x p.cost_basis_status p.average_cost h)

  -- From before a sale to behind it, and from before its reversal to behind it: a known profit that
  -- was added is subtracted, and an unknown one is no longer awaited.
  abbrev pub IsTakenBack :
      LedgerTransaction D → PortfolioState D → PnlRun D → PnlRun D → PnlRun D → PnlRun D → Type 0
  IsTakenBack t prior start sold before after =
      ((effect : D) × IsProfit t prior effect
        × (sold.sum ≡ start.sum ⊕ effect)
        × (sold.active_unknown_sales ≡ start.active_unknown_sales)
        × (after.sum ≡ before.sum ⊖ effect)
        × (after.active_unknown_sales ≡ before.active_unknown_sales))
      ⊎ ((sold.sum ≡ start.sum)
          × (contains sold.active_unknown_sales t.id ≡ true)
          × (after.sum ≡ before.sum)
          × (contains after.active_unknown_sales t.id ≡ false))

  taken_back :
      (t u : LedgerTransaction D) (prior : PortfolioState D)
      (out : Option D × List ValuationWarning) (r before : PnlRun D)
      → ((effect : D) → out.0 ≡ some effect → IsProfit t prior effect)
      → effect_of digest t.id before ≡ effect_of digest t.id (record_sale t out r)
      → IsTakenBack t prior r
          (keep_prefix t (record_sale t out r))
          before
          (keep_prefix u (reverse_sale (some t.id) before))
  taken_back t u prior (none, ws) r before profit kept =
      let found : effect_of digest t.id before ≡ some none =
        kept ∙ effect_of-record_sale digest t.id t (none, ws) r ∙ rw (==_refl t.id) refl in
      inr (
        rw found (
          refl,
          contains-add_to digest t.id r.active_unknown_sales,
          refl,
          contains-discard digest t.id before.active_unknown_sales,
        ))
  taken_back t u prior (some effect, ws) r before profit kept =
      let found : effect_of digest t.id before ≡ some (some effect) =
        kept ∙ effect_of-record_sale digest t.id t (some effect, ws) r ∙ rw (==_refl t.id) refl in
      inl (rw found (effect, profit effect refl, refl, refl, refl, refl))

  -- A sale, then any other transactions, and then its reversal. Either the sale has added its profit
  -- to the sum, which is its proceeds less its fees, less its quantity at the average cost of the
  -- position in the portfolio of the transactions before it, and the reversal subtracts that same
  -- profit and leaves the sales of unknown profit as they are; or the profit of the sale is unknown,
  -- and the sum stays at both: the sale has put its identifier among those of unknown profit, and
  -- behind the reversal it is not there.
  pub pnl_loop-takes_back :
      (fund_id : ℕ) (scope : Option ℕ) (t u : LedgerTransaction D) (ms : List (LedgerTransaction D))
      (r : PnlRun D) {after : PnlRun D}
      → t.transaction_type ≡ sell
      → u.transaction_type ≡ reversal
      → u.reverses_transaction_id ≡ some t.id
      → All (λ m. (m.id == t.id) ≡ false) ms
      → pnl_loop digest fund_id scope (t ∷ ms ++ u ∷ []) r ≡ ok after
      → (sold : PnlRun D) × (before : PnlRun D) × (prior : PortfolioState D) × (reconstruct digest
            fund_id r.prefix t.effective_at scope
          ≡ ok prior)
        × (pnl_loop digest fund_id scope (t ∷ []) r ≡ ok sold)
        × (pnl_loop digest fund_id scope (t ∷ ms) r ≡ ok before)
        × IsTakenBack t prior r sold before after
  unfolding pnl_loop
  pnl_loop-takes_back fund_id scope t u ms r sale undone target others h =
      after_ok (pnl_step digest t.transaction_type fund_id scope t r) _ h λ mid e h1.
        let (before, ran, last) =
          pnl_loop-append digest fund_id scope ms (u ∷ []) (keep_prefix t mid) h1 in
        after_ok (pnl_step digest u.transaction_type fund_id scope u before) _ last λ end f h2.
          after_ok (reconstruct digest fund_id r.prefix t.effective_at scope) _ (rw sale at e)
            λ prior replayed g.
              let out = sale_effect t (find (is_sold t) prior.positions) t.quantity t.unit_price in
              let made : record_sale t out r ≡ mid = ok-injective g in
              let behind : reverse_sale (some t.id) before ≡ end =
                ok-injective (rw (undone, target) at f) in
              let kept =
                pnl_loop-effect_of digest t.id fund_id scope ms (keep_prefix t mid) others ran
                ∙ ap (effect_of digest t.id) (sym made) in
              (
                keep_prefix t mid,
                before,
                prior,
                replayed,
                rw e refl,
                rw e ran,
                rw (← ok-injective h2, ← behind, ← made)
                    (taken_back t u prior out r before
                      (λ effect q.
                        sale_effect-IsProfitOf t (find (is_sold t) prior.positions) t.quantity
                          t.unit_price q)
                      kept),
              )
