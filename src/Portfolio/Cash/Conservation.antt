-- ===== src/Portfolio/Cash/Conservation.antt =====
-- The cash of a reconstructed portfolio is the sum of the flows of its transactions.
use hawk_fund_investment_int.Prelude.{
  ℕ, ◌≡◌, refl, sym, ap, ◌∙◌, Option, List, [], ◌∷◌, map, foldl, ok, Text, >>=-eq-ok, ok-injective,
}
use hawk_fund_investment_int.Number.{Decimal, IsExact, nil_amount, ◌⊕◌, total, total_from}
use hawk_fund_investment_int.Number.Sums.{nought-add, total-cons, total-sorted}
use hawk_fund_investment_int.Clock.{Datetime}
use hawk_fund_investment_int.Dict.{Dict}
use hawk_fund_investment_int.Ledger.Types.{is_reversal}
use hawk_fund_investment_int.Portfolio.Types.{LedgerTransaction, PortfolioState}
use hawk_fund_investment_int.Prelude.Order.{sorted}
use hawk_fund_investment_int.Portfolio.Engine.{
  Payload, Run, sum_cash, balance_of, balance_lt, output_cash, step, apply_all, start, assemble,
  reconstruct,
}
use hawk_fund_investment_int.Portfolio.Engine.Steps.{step-eq-ok, choose_step-keeps, opened}
use hawk_fund_investment_int.Portfolio.Replay.{chosen, reconstruct-eq-ok}
use hawk_fund_investment_int.Portfolio.Cash.{amounts, Known, flow, flows}
use hawk_fund_investment_int.Portfolio.Cash.Balances.{total-set_default, total-add_cash}
use hawk_fund_investment_int.Portfolio.Cash.Origins.{choose-Taken}

module _ {D : Type 0} ⦃d : Decimal D⦄ where
  module _ (laws : IsExact D) where
    step-flow :
        (prior : List (LedgerTransaction D)) (t : LedgerTransaction D) (r : Run D) {s : Run D}
        → Known r.effects prior
        → step t r ≡ ok s
        → (total (amounts s.cash) ≡ total (amounts r.cash) ⊕ flow prior t)
          × Known s.effects (t ∷ prior)
    step-flow prior t r k h =
        let st = step-eq-ok t r h in
        let taken = choose-Taken prior t (opened t r) k st.chosen in
        let same =
          (choose_step-keeps (is_reversal t.transaction_type) t (opened t r) st.chosen).0 in
        let after = st.settled in
        let sum =
          total-add_cash laws st.effect.account_id st.effect.cash_delta st.taken.cash after.added in
        (
          rw (after.result) (
              sum
              ∙ ap (λ c. total (amounts c) ⊕ st.effect.cash_delta) same
              ∙ ap (λ x. x ⊕ st.effect.cash_delta) (total-set_default laws t.account_id r.cash)
              ∙ ap (λ x. total (amounts r.cash) ⊕ x) taken.cash),
          rw (after.result) taken.known,
        )

    apply_all-flows :
        (ts prior : List (LedgerTransaction D)) (r : Run D) {s : Run D}
        → Known r.effects prior
        → apply_all ts r ≡ ok s
        → total (amounts s.cash) ≡ total (amounts r.cash) ⊕ total (flows prior ts)
    unfolding apply_all total_from
    apply_all-flows [] prior r k h =
        rw (← ok-injective h) (sym (laws.add-nought (total (amounts r.cash))))
    apply_all-flows (t ∷ ts) prior r k h =
        let (mid, first, rest) = >>=-eq-ok (step t r) (apply_all ts) h in
        let (moved, known) = step-flow prior t r k first in
        apply_all-flows ts (t ∷ prior) mid known rest
        ∙ ap (λ x. x ⊕ total (flows (t ∷ prior) ts)) moved
        ∙ laws.add_assoc (total (amounts r.cash)) (flow prior t) (total (flows (t ∷ prior) ts))
        ∙ ap (λ x. total (amounts r.cash) ⊕ x)
            (sym (total-cons laws (flow prior t) (flows (t ∷ prior) ts)))

    foldl-total :
        (acc : D) (cash : Dict ℕ D)
        → foldl (λ sum e. sum ⊕ e.1) acc cash ≡ total_from acc (amounts cash)
    unfolding total_from
    foldl-total acc [] = refl
    foldl-total acc (e ∷ cash) = foldl-total (acc ⊕ e.1) cash

    map-balances : (cash : List (ℕ × D)) → map (λ b. b.amount) (map balance_of cash) ≡ amounts cash
    map-balances [] = refl
    map-balances (e ∷ cash) = ap (λ xs. e.1 ∷ xs) (map-balances cash)

    -- The cash of a reconstructed portfolio is the sum of the balances of its accounts, and of the
    -- flows of the transactions that were applied: what a deposit, a dividend or opening cash pays
    -- in, less withdrawals and fees, less what a purchase costs with its fees, with what a sale
    -- brings after its fees, where a reversal takes back the flow of its target.
    pub reconstruct-cash :
        (digest : Payload D → Text) (fund_id : ℕ) (ts : List (LedgerTransaction D))
        (as_of : Datetime) (scope : Option ℕ) {s : PortfolioState D}
        → reconstruct digest fund_id ts as_of scope ≡ ok s
        → (s.cash ≡ total (map (λ b. b.amount) s.cash_by_account))
          × (s.cash ≡ total (flows [] (chosen as_of scope ts)))
    unfolding reconstruct assemble sum_cash output_cash total_from
    reconstruct-cash digest fund_id ts as_of scope {s} h =
        let (aware, valid, applied) = reconstruct-eq-ok digest fund_id ts as_of scope h in
        let ordered = chosen as_of scope ts in
        let (r, run, out) =
          >>=-eq-ok (apply_all ordered start)
            (λ r. ok (assemble digest fund_id scope as_of ordered r)) applied in
        let sum = apply_all-flows ordered [] start (λ id. refl) run in
        rw (← ok-injective out) (
          foldl-total nil_amount r.cash
              ∙ sym (total-sorted laws balance_lt (λ e. e.1) r.cash)
              ∙ ap (λ xs. total xs) (sym (map-balances (sorted balance_lt r.cash))),
          foldl-total nil_amount r.cash ∙ sum ∙ nought-add laws (total (flows [] ordered)),
        )
