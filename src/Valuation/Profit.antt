-- ===== src/Valuation/Profit.antt =====
-- The unrealized profit is what the securities are worth beyond their cost.
use hawk_fund_investment_int.Prelude.{
  present, All, ◌⊎◌, ◌≡◌, refl, sym, ap, ◌∙◌, Bool-cases, true, false, inl, inr, Option, none, some,
  List, [], ◌∷◌, map, ok, after_ok, ok-injective, any, is_none, Text, arith,
}
use hawk_fund_investment_int.Number.{
  Decimal, IsExact, nil_amount, negate, ◌⊕◌, ◌⊖◌, total, total_from,
}
use hawk_fund_investment_int.Number.Sums.{total-cons, add_left_comm}
use hawk_fund_investment_int.Portfolio.Types.{PositionState, PortfolioState}
use hawk_fund_investment_int.Valuation.Types.{
  ValuationWarning, PositionValuation, ValuationResult, RealizedPnlResult,
}
use hawk_fund_investment_int.Valuation.Engine.{
  Quotes, unrealized_of, quote_for, value_positions, unrealized_values, securities_of, value,
}

module _ {D : Type 0} ⦃d : Decimal D⦄ where
  -- A row has a profit exactly when it has a cost, and then that of its own value and cost.
  abbrev IsOwn : PositionValuation D → Type 0
  IsOwn v = v.unrealized_pnl ≡ unrealized_of v.market_value v.cost_basis

  value_positions-IsOwn :
      (currency : Text) (quotes : Quotes D) (ps : List (PositionState D))
      {r : List (PositionValuation D) × List ValuationWarning}
      → value_positions currency quotes ps ≡ ok r
      → All IsOwn r.0
  unfolding value_positions
  value_positions-IsOwn currency quotes [] h = rw (← ok-injective h) tt
  value_positions-IsOwn currency quotes (p ∷ ps) h =
      after_ok (quote_for currency quotes p) _ h λ quote _ h1.
        after_ok (value_positions currency quotes ps) _ h1
          λ rest e h2. rw (← ok-injective h2) (refl, value_positions-IsOwn currency quotes ps e)

  -- The costs that are known.
  abbrev pub costs : List (PositionValuation D) → List D
  costs rows = present (map (λ v. v.cost_basis) rows)

  is_none-unrealized :
      (value : D) (cost : Option D) → is_none (unrealized_of value cost) ≡ is_none cost
  is_none-unrealized value none = refl
  is_none-unrealized value (some c) = refl

  any-head :
      (v : PositionValuation D) (rows : List (PositionValuation D))
      → any (λ w. is_none w.cost_basis) (v ∷ rows) ≡ false
      → is_none v.cost_basis ≡ false
  any-head v rows h = ground arith

  any-tail :
      (v : PositionValuation D) (rows : List (PositionValuation D))
      → any (λ w. is_none w.cost_basis) (v ∷ rows) ≡ false
      → any (λ w. is_none w.cost_basis) rows ≡ false
  any-tail v rows h = ground arith

  any_unknown :
      (rows : List (PositionValuation D))
      → All IsOwn rows
      → any is_none (unrealized_values rows) ≡ any (λ v. is_none v.cost_basis) rows
  any_unknown [] own = refl
  any_unknown (v ∷ rows) own =
      rw (own.0, is_none-unrealized v.market_value v.cost_basis, any_unknown rows own.1) refl

  module _ (laws : IsExact D) where
    regroup : (u v c t : D) → ((v ⊖ c) ⊕ u) ⊕ (c ⊕ t) ≡ v ⊕ (u ⊕ t)
    regroup u v c t =
        laws.add_assoc (v ⊖ c) u (c ⊕ t)
        ∙ ap (λ x. (v ⊖ c) ⊕ x) (add_left_comm laws u c t)
        ∙ sym (laws.add_assoc (v ⊖ c) c (u ⊕ t))
        ∙ ap (λ x. x ⊕ (u ⊕ t))
            (laws.add_assoc v (negate c) c
              ∙ ap (λ x. v ⊕ x) (laws.add_comm (negate c) c ∙ laws.add-neg c)
              ∙ laws.add-nought v)

    profit-cons :
        (value : D) (cost : Option D) (us cs : List (Option D)) (vs : List D)
        → is_none (unrealized_of value cost) ≡ false
        → total (present us) ⊕ total (present cs) ≡ total vs
        → total (present (unrealized_of value cost ∷ us)) ⊕ total (present (cost ∷ cs))
          ≡ total (value ∷ vs)
    profit-cons value none us cs vs h k = cc
    profit-cons value (some c) us cs vs h k =
        rw
          (
            total-cons laws (value ⊖ c) (present us),
            total-cons laws c (present cs),
            total-cons laws value vs,
          )
          (regroup (total (present us)) value c (total (present cs)) ∙ ap (λ x. value ⊕ x) k)

    rows-profit :
        (rows : List (PositionValuation D))
        → All IsOwn rows
        → any (λ v. is_none v.cost_basis) rows ≡ false
        → total (present (unrealized_values rows)) ⊕ total (costs rows) ≡ securities_of rows
    unfolding total_from
    rows-profit [] own h = laws.add-nought nil_amount
    rows-profit (v ∷ rows) own h =
        let rest = rows-profit rows own.1 (any-tail v rows h) in
        rw own.0 (
          profit-cons v.market_value v.cost_basis (unrealized_values rows)
            (map (λ w. w.cost_basis) rows) (map (λ w. w.market_value) rows)
            (is_none-unrealized v.market_value v.cost_basis ∙ any-head v rows h) rest)

    -- A value has an unrealized profit exactly where every position has a cost, and then the profit
    -- with the costs of the positions is the value of the securities.
    pub value-unrealized :
        (state : PortfolioState D) (quotes : Quotes D) (realized : RealizedPnlResult D)
        {r : ValuationResult D}
        → value state quotes realized ≡ ok r
        → (any (λ v. is_none v.cost_basis) r.positions ≡ true × (r.unrealized_pnl ≡ none))
          ⊎ ((profit : D) × (any (λ v. is_none v.cost_basis) r.positions ≡ false)
              × (r.unrealized_pnl ≡ some profit)
              × (profit ⊕ total (costs r.positions) ≡ r.securities_value))
    unfolding value
    value-unrealized state quotes realized h =
        after_ok (value_positions state.currency quotes state.positions) _ h λ out e h1.
          let rows = out.0 in
          let own = value_positions-IsOwn state.currency quotes state.positions e in
          let same = any_unknown rows own in
          rw (← ok-injective h1) (elim (Bool-cases (any (λ v. is_none v.cost_basis) rows)) [
            | inl k ↦ inl (k, rw (same, k) refl)
            | inr k ↦ inr (
              total (present (unrealized_values rows)),
              k,
              rw (same, k) refl,
              rows-profit rows own k,
            )
          ])
