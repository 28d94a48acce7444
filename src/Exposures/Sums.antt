-- ===== src/Exposures/Sums.antt =====
-- Each dimension of an exposure adds up to the value of the portfolio.
use hawk_fund_investment_int.Prelude.{
  ◌≡◌, refl, sym, ap, ◌∙◌, Bool-cases, inl, inr, Option-cases, List, [], ◌∷◌, map, ok, ◌==◌,
  text_eq, Text, ok-injective, after_ok, raise_if, any, not, ◌||◌,
}
use hawk_fund_investment_int.Prelude.Order.{sorted}
use hawk_fund_investment_int.Number.{
  Decimal, IsExact, nil_amount, ◌⊕◌, ◌≈◌, ◌≺◌, ◌≼◌, total, total_from,
}
use hawk_fund_investment_int.Number.Sums.{nought-add, total-cons, total-sorted}
use hawk_fund_investment_int.Int.Defs.{ℤ, pos, ltb_ℤ}
use hawk_fund_investment_int.Dict.{Dict, lookup, get_or}
use hawk_fund_investment_int.Dict.Sums.{total-insert-some, total-insert-none}
use hawk_fund_investment_int.Exposures.Types.{
  InstrumentClassification, PositionExposureInput, ExposureResult, negative_value, bad_top_n,
  no_portfolio_value,
}
use hawk_fund_investment_int.Exposures.Engine.{
  Classifications, label_of, cash_label, add_value, collect, with_cash, category_lt, category_of,
  categories, value_of, spread, calculate,
}

module _ {D : Type 0} ⦃d : Decimal D⦄ where
  abbrev values : Dict Text D → List D
  values dict = map (λ e. e.1) dict

  module _ (laws : IsExact D) where
    total-add_value :
        (k : Text) (v : D) (dict : Dict Text D)
        → total (values (add_value k v dict)) ≡ total (values dict) ⊕ v
    unfolding add_value
    total-add_value k v dict = elim (Option-cases (lookup text_eq k dict)) [
      | inl e ↦ rw (e, get_or, nought-add laws v) (total-insert-none text_eq laws k v dict e)
      | inr (a, e) ↦ rw (e, get_or) (total-insert-some text_eq laws k a v dict e)
    ]

    total-collect :
        (classes : Classifications) (dimension : InstrumentClassification → Text)
        (dict : Dict Text D) (rows : List (PositionExposureInput D))
        → total (values (collect classes dimension dict rows))
          ≡ total (values dict) ⊕ total (map (λ p. p.market_value) rows)
    unfolding collect total_from
    total-collect classes dimension dict [] = sym (laws.add-nought (total (values dict)))
    total-collect classes dimension dict (p ∷ ps) =
        let label = label_of dimension (lookup ◌==◌ p.instrument_id classes) in
        let rest = total (map (λ q. q.market_value) ps) in
        total-collect classes dimension (add_value label p.market_value dict) ps
        ∙ ap (λ x. x ⊕ rest) (total-add_value label p.market_value dict)
        ∙ laws.add_assoc (total (values dict)) p.market_value rest
        ∙ ap (λ x. total (values dict) ⊕ x)
            (sym (total-cons laws p.market_value (map (λ q. q.market_value) ps)))

    total-with_cash :
        (cash : D) (dict : Dict Text D)
        → total (values (with_cash cash dict)) ≡ total (values dict) ⊕ cash
    unfolding with_cash
    total-with_cash cash dict = elim (Bool-cases (cash ≈ nil_amount)) [
      | inl e ↦ rw (e) (
          sym (
            ap (λ x. total (values dict) ⊕ x) (laws.eq→one cash nil_amount e)
            ∙ laws.add-nought (total (values dict))))
      | inr e ↦ rw (e) (total-add_value cash_label cash dict)
    ]

    map-category :
        (whole : D) (rows : List (Text × D))
        → map (λ c. c.market_value) (map (category_of whole) rows) ≡ values rows
    map-category whole [] = refl
    map-category whole (e ∷ rows) = ap (λ xs. e.1 ∷ xs) (map-category whole rows)

    spread-total :
        (whole cash : D) (rows : List (PositionExposureInput D)) (classes : Classifications)
        (dimension : InstrumentClassification → Text)
        → total (map (λ c. c.market_value) (spread whole cash rows classes dimension))
          ≡ value_of cash rows
    unfolding spread categories total_from
    spread-total whole cash rows classes dimension =
        let dict = with_cash cash (collect classes dimension [] rows) in
        let sum = total (map (λ p. p.market_value) rows) in
        ap (λ xs. total xs) (map-category whole (sorted category_lt dict))
        ∙ total-sorted laws category_lt (λ e. e.1) dict
        ∙ total-with_cash cash (collect classes dimension [] rows)
        ∙ ap (λ x. x ⊕ cash) (total-collect classes dimension [] rows ∙ nought-add laws sum)
        ∙ laws.add_comm sum cash

    -- In each of the three dimensions the values of the categories add up to the value of the
    -- portfolio, cash included, whichever instruments have a classification; and that value is the
    -- cash with the values of the positions.
    pub calculate-totals :
        (rows : List (PositionExposureInput D)) (cash : D) (classes : Classifications) (top_n : ℤ)
        {r : ExposureResult D}
        → calculate rows cash classes top_n ≡ ok r
        → (r.portfolio_value ≡ cash ⊕ total (map (λ p. p.market_value) rows))
          × (total (map (λ c. c.market_value) r.sector_exposure) ≡ r.portfolio_value)
          × (total (map (λ c. c.market_value) r.asset_allocation) ≡ r.portfolio_value)
          × (total (map (λ c. c.market_value) r.geographic_exposure) ≡ r.portfolio_value)
    unfolding calculate
    calculate-totals rows cash classes top_n h =
        after_ok
          (raise_if (cash ≺ nil_amount || any (λ p. p.market_value ≺ nil_amount) rows)
            negative_value)
          _ h
          λ _ _ h1. after_ok (raise_if (not (ltb_ℤ (pos 0) top_n)) bad_top_n) _ h1 λ _ _ h2.
            after_ok (raise_if (value_of cash rows ≼ nil_amount) no_portfolio_value) _ h2 λ _ _ h3.
              let whole = value_of cash rows in
              rw (← ok-injective h3) (
                refl,
                spread-total whole cash rows classes (λ c. c.sector),
                spread-total whole cash rows classes (λ c. c.asset_class),
                spread-total whole cash rows classes (λ c. c.geography),
              )
