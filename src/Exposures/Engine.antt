-- ===== src/Exposures/Engine.antt =====
-- apps/api/app/exposures/engine.py: `ExposureEngine.calculate` and `_categories`.
use hawk_fund_investment_int.Prelude.{
  ℕ, Bool, not, ◌||◌, Option, none, some, List, [], ◌∷◌, map, Outcome, ok, ◌>>◌, raise_if, any,
  take, ltb, ◌==◌, text_eq, text_lt, codes, if◌then◌else◌, Text,
}
use hawk_fund_investment_int.Prelude.Order.{sorted}
use hawk_fund_investment_int.Number.{Decimal, nil_amount, negate, ◌⊕◌, ◌⊘◌, ◌≺◌, ◌≼◌, ◌≈◌, total}
use hawk_fund_investment_int.Int.Defs.{ℤ, pos, pos_part, ltb_ℤ}
use hawk_fund_investment_int.Dict.{Dict, lookup, get_or, insert}
use hawk_fund_investment_int.Exposures.Types.{
  InstrumentClassification, PositionExposureInput, PositionWeight, CategoryExposure, ExposureResult,
  ExposureError, negative_value, bad_top_n, no_portfolio_value,
}

abbrev pub Classifications : Type 0
Classifications = Dict ℕ InstrumentClassification

abbrev pub unclassified : Text
unclassified = codes "UNCLASSIFIED"

abbrev pub cash_label : Text
cash_label = codes "CASH"

-- The label of a position in one dimension.
abbrev pub label_of : (InstrumentClassification → Text) → Option InstrumentClassification → Text
label_of dimension none = unclassified
label_of dimension (some c) = dimension c

module _ {D : Type 0} ⦃d : Decimal D⦄ where
  -- `values[label] += value` of a `defaultdict`
  unfoldable pub add_value : Text → D → Dict Text D → Dict Text D
  add_value label value values =
      insert text_eq label (get_or text_eq label nil_amount values ⊕ value) values

  -- The values of one dimension, from the loop over the positions.
  unfoldable pub collect :
      Classifications
      → (InstrumentClassification → Text)
      → Dict Text D
      → List (PositionExposureInput D)
      → Dict Text D
  unfolding add_value
  collect classes dimension values [] = values
  collect classes dimension values (p ∷ ps) =
      let label = label_of dimension (lookup ◌==◌ p.instrument_id classes) in
      collect classes dimension (add_value label p.market_value values) ps

  -- `if cash_value: values["CASH"] += cash_value`
  unfoldable pub with_cash : D → Dict Text D → Dict Text D
  unfolding add_value
  with_cash cash values = if cash ≈ nil_amount then values else add_value cash_label cash values

  -- `(-item[1], item[0])`
  abbrev pub category_lt : Text × D → Text × D → Bool
  category_lt (a, x) (b, y) = if negate x ≈ negate y then text_lt a b else negate x ≺ negate y

  abbrev pub category_of : D → Text × D → CategoryExposure D
  category_of whole (category, value) = record {
    category = category;
    market_value = value;
    weight = value ⊘ whole;
  }

  unfoldable pub categories : Dict Text D → D → List (CategoryExposure D)
  unfolding sorted
  categories values whole = map (category_of whole) (sorted category_lt values)

  abbrev pub weight_of : D → PositionExposureInput D → PositionWeight D
  weight_of whole p = record {
    instrument_id = p.instrument_id;
    market_value = p.market_value;
    weight = p.market_value ⊘ whole;
  }

  -- `(-item.weight, str(item.instrument_id))`
  abbrev pub weight_lt : PositionWeight D → PositionWeight D → Bool
  weight_lt v w =
      if negate v.weight ≈ negate w.weight
      then ltb v.instrument_id w.instrument_id
      else negate v.weight ≺ negate w.weight

  -- `weights[0].weight if weights else ZERO`
  abbrev pub largest_of : List (PositionWeight D) → D
  largest_of [] = nil_amount
  largest_of (w ∷ _) = w.weight

  abbrev pub unmapped : Classifications → List (PositionExposureInput D) → List ℕ
  unmapped classes [] = []
  unmapped classes (p ∷ ps) =
      let rest = unmapped classes ps in
      elim (lookup ◌==◌ p.instrument_id classes) [ none ↦ p.instrument_id ∷ rest | some _ ↦ rest ]

  -- `cash_value + sum(...)`
  abbrev pub value_of : D → List (PositionExposureInput D) → D
  value_of cash rows = cash ⊕ total (map (λ p. p.market_value) rows)

  -- The weights of the positions, the largest first.
  unfoldable pub weights_of : D → List (PositionExposureInput D) → List (PositionWeight D)
  unfolding sorted
  weights_of whole rows = sorted weight_lt (map (weight_of whole) rows)

  unfoldable pub spread :
      D
      → D
      → List (PositionExposureInput D)
      → Classifications
      → (InstrumentClassification → Text)
      → List (CategoryExposure D)
  unfolding collect with_cash categories
  spread whole cash rows classes dimension =
      categories (with_cash cash (collect classes dimension [] rows)) whole

  unfoldable pub exposure_of :
      D → D → List (PositionExposureInput D) → Classifications → ℕ → ExposureResult D
  unfolding spread weights_of
  exposure_of whole cash rows classes top_n =
      let weights = weights_of whole rows in
      record {
        portfolio_value = whole;
        cash_value = cash;
        position_weights = weights;
        sector_exposure = spread whole cash rows classes (λ c. c.sector);
        asset_allocation = spread whole cash rows classes (λ c. c.asset_class);
        geographic_exposure = spread whole cash rows classes (λ c. c.geography);
        top_holdings = take top_n weights;
        largest_position_weight = largest_of weights;
        herfindahl_index = total (map (λ w. d.square w.weight) weights);
        warnings = unmapped classes rows;
      }

  unfoldable pub calculate :
      List (PositionExposureInput D)
      → D
      → Classifications
      → ℤ
      → Outcome ExposureError (ExposureResult D)
  unfolding exposure_of
  calculate rows cash classes top_n = do
    raise_if (cash ≺ nil_amount || any (λ p. p.market_value ≺ nil_amount) rows) negative_value
    raise_if (not (ltb_ℤ (pos 0) top_n)) bad_top_n
    let whole = value_of cash rows
    raise_if (whole ≼ nil_amount) no_portfolio_value
    ok (exposure_of whole cash rows classes (pos_part top_n))
