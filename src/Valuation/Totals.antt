-- ===== src/Valuation/Totals.antt =====
-- When a portfolio has a value, and what the value is made of.
use hawk_fund_investment_int.Prelude.{
  &&-left, &&-right, ◌++◌, ◌≡◌, refl, Bool, Bool-cases, Option-cases, true, false, ◌⊎◌, inl, inr,
  Option, none, some, List, [], ◌∷◌, map, ok, raised, all, text_eq, ◌==◌, Text,
}
use hawk_fund_investment_int.Number.{Decimal, ◌⊕◌, ◌⊗◌, total}
use hawk_fund_investment_int.Dict.{lookup}
use hawk_fund_investment_int.MarketData.Types.{PriceQuote}
use hawk_fund_investment_int.Portfolio.Types.{PositionState, PortfolioState}
use hawk_fund_investment_int.Valuation.Types.{
  PositionValuation, ValuationResult, RealizedPnlResult, ValuationError, ValuationWarning, no_price,
  currency_mismatch,
}
use hawk_fund_investment_int.Valuation.Engine.{
  Quotes, valuation_of, value_positions, stale_warning, result_of, value,
}

module _ {D : Type 0} ⦃d : Decimal D⦄ where
  -- There is a quote of the position, in the currency.
  abbrev pub is_priced : Text → Option (PriceQuote D) → Bool
  is_priced currency none = false
  is_priced currency (some quote) = text_eq quote.currency currency

  abbrev pub has_price : Text → Quotes D → PositionState D → Bool
  has_price currency quotes p = is_priced currency (lookup ◌==◌ p.instrument_id quotes)

  -- The row of a position: the position, at the price that is quoted.
  abbrev pub IsValued : Text → Quotes D → PositionState D → PositionValuation D → Type 0
  IsValued currency quotes p v =
      (quote : PriceQuote D) × (lookup ◌==◌ p.instrument_id quotes ≡ some quote)
      × (text_eq quote.currency currency ≡ true)
      × (v.account_id ≡ p.account_id)
      × (v.instrument_id ≡ p.instrument_id)
      × (v.quantity ≡ p.quantity)
      × (v.price ≡ quote.price)
      × (v.market_value ≡ p.quantity ⊗ quote.price)
      × (v.cost_basis ≡ p.total_cost_basis)

  abbrev pub AreValued :
      Text → Quotes D → List (PositionState D) → List (PositionValuation D) → Type 0
  AreValued currency quotes [] [] = Unit
  AreValued currency quotes (p ∷ ps) (v ∷ vs) =
      IsValued currency quotes p v × AreValued currency quotes ps vs
  AreValued currency quotes _ _ = true ≡ false

  abbrev ValuedTo :
      Text
      → Quotes D
      → List (PositionState D)
      → List (PositionValuation D) × List ValuationWarning
      → Type 0
  ValuedTo currency quotes ps r =
      (value_positions currency quotes ps ≡ ok r) × AreValued currency quotes ps r.0

  priced-some :
      (currency : Text) (o : Option (PriceQuote D))
      → is_priced currency o ≡ true
      → (quote : PriceQuote D) × (o ≡ some quote) × (text_eq quote.currency currency ≡ true)
  priced-some currency none h = cc
  priced-some currency (some quote) h = (quote, refl, h)

  value_positions-priced :
      (currency : Text) (quotes : Quotes D) (ps : List (PositionState D))
      → all (has_price currency quotes) ps ≡ true
      → (r : List (PositionValuation D) × List ValuationWarning) × ValuedTo currency quotes ps r
  unfolding value_positions
  value_positions-priced currency quotes [] h = (([], []), (refl, tt))
  value_positions-priced currency quotes (p ∷ ps) h =
      let front = has_price currency quotes p in
      let later = all (has_price currency quotes) ps in
      let (quote, at, same) =
        priced-some currency (lookup ◌==◌ p.instrument_id quotes) (&&-left front later h) in
      let (r, (went, rows)) = value_positions-priced currency quotes ps (&&-right front later h) in
      (
        (valuation_of p quote ∷ r.0, stale_warning quote.freshness p.instrument_id quote ++ r.1),
        (rw (at, same, went) refl, ((quote, at, same, refl, refl, refl, refl, refl, refl), rows)),
      )

  value_positions-unpriced :
      (currency : Text) (quotes : Quotes D) (ps : List (PositionState D))
      → all (has_price currency quotes) ps ≡ false
      → (e : ValuationError) × (value_positions currency quotes ps ≡ raised e)
  unfolding value_positions
  value_positions-unpriced currency quotes [] h = cc
  value_positions-unpriced currency quotes (p ∷ ps) h =
      elim (Option-cases (lookup ◌==◌ p.instrument_id quotes)) [
        | inl at ↦ (no_price p.instrument_id, rw at refl)
        | inr (quote, at) ↦ elim (Bool-cases (text_eq quote.currency currency)) [
          | inr other ↦ (currency_mismatch p.instrument_id, rw (at, other) refl)
          | inl same ↦
              let (e, went) = value_positions-unpriced currency quotes ps (rw (at, same) at h) in
              (e, rw (at, same, went) refl)
        ]
      ]

  -- A portfolio has a value exactly where every position has a quote in its currency. Then the
  -- value has a row for each position in order, at the price quoted, and is the cash with the market
  -- values of the rows; else an error is raised.
  pub value-outcome :
      (state : PortfolioState D) (quotes : Quotes D) (realized : RealizedPnlResult D)
      → (all (has_price state.currency quotes) state.positions ≡ true
          × ((r : ValuationResult D) × (value state quotes realized ≡ ok r)
              × AreValued state.currency quotes state.positions r.positions
              × (r.portfolio_value ≡ state.cash ⊕ total (map (λ v. v.market_value) r.positions))))
        ⊎ (all (has_price state.currency quotes) state.positions ≡ false
            × ((e : ValuationError) × (value state quotes realized ≡ raised e)))
  unfolding value
  value-outcome state quotes realized =
      elim (Bool-cases (all (has_price state.currency quotes) state.positions)) [
        | inl h ↦
            let (r, (went, rows)) =
              value_positions-priced state.currency quotes state.positions h in
            inl (h, (result_of state realized r, rw went refl, rows, refl))
        | inr h ↦
            let (e, went) = value_positions-unpriced state.currency quotes state.positions h in
            inr (h, (e, rw went refl))
      ]
