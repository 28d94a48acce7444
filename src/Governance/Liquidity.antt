-- ===== src/Governance/Liquidity.antt =====
-- apps/api/app/governance/liquidity.py: `LiquidityEngine.calculate` and `liquidity_metrics`. The product
-- of a positive volume and a positive rate is positive, so the quotient by it is defined.
pub mod Bounds
pub mod Tests
use hawk_fund_investment_int.Prelude.{
  ℕ, Bool, false, true, not, ◌&&◌, ◌||◌, Option, none, some, List, [], ◌∷◌, map, Outcome, ok, ◌>>=◌,
  ◌>>◌, raise_if, select, any, present, is_none, ltb, codes, Text, if◌then◌else◌,
}
use hawk_fund_investment_int.Prelude.Order.{sorted}
use hawk_fund_investment_int.Number.{
  Decimal, nil_amount, unit_amount, ◌⊕◌, ◌⊗◌, ◌⊘◌, ◌≺◌, ◌≼◌, maximum,
}
use hawk_fund_investment_int.Dict.{Dict}

pub record PositionLiquidityInput (D : Type 0) : Type 0 where
  pub instrument_id : ℕ
  pub market_value : D
  pub average_daily_volume_value : Option D

pub record PositionLiquidity (D : Type 0) : Type 0 where
  pub instrument_id : ℕ
  pub days_to_liquidate : Option D
  pub market_value : D

-- A warning names the instrument that has no evidence.
pub record LiquidityResult (D : Type 0) : Type 0 where
  pub cash_weight : D
  pub liquid_within_horizon_weight : D
  pub maximum_days_to_liquidate : Option D
  pub positions : List (PositionLiquidity D)
  pub warnings : List ℕ

-- The messages of `GovernanceError` that the engine raises.
pub data LiquidityError : Type 0 where
  bad_values bad_horizon short_position : LiquidityError

module _ {D : Type 0} ⦃d : Decimal D⦄ where
  -- `None` where there is no volume or none that is positive.
  abbrev pub days_of : D → D → Option D → Option D
  days_of rate value none = none
  days_of rate value (some volume) =
      if volume ≼ nil_amount then none else some (value ⊘ (volume ⊗ rate))

  abbrev pub row_of : D → PositionLiquidityInput D → PositionLiquidity D
  row_of rate p = record {
    instrument_id = p.instrument_id;
    days_to_liquidate = days_of rate p.market_value p.average_daily_volume_value;
    market_value = p.market_value;
  }

  abbrev pub is_within : D → Option D → Bool
  is_within horizon none = false
  is_within horizon (some days) = days ≼ horizon

  -- `liquid_value`, through the loop
  unfoldable pub liquid_from : D → D → List (PositionLiquidity D) → D
  liquid_from horizon value [] = value
  liquid_from horizon value (p ∷ ps) =
      liquid_from horizon
        (if is_within horizon p.days_to_liquidate then value ⊕ p.market_value else value) ps

  abbrev pub largest : D → List D → D
  largest most [] = most
  largest most (x ∷ xs) = largest (maximum most x) xs

  abbrev pub largest_of : List D → Option D
  largest_of [] = none
  largest_of (x ∷ xs) = some (largest x xs)

  abbrev pub days_in : List (PositionLiquidity D) → List (Option D)
  days_in rows = map (λ p. p.days_to_liquidate) rows

  -- `max(known_days) if all_known and known_days else None`
  abbrev pub maximum_days : List (PositionLiquidity D) → Option D
  maximum_days rows =
      if any is_none (days_in rows) then none else largest_of (present (days_in rows))

  abbrev pub by_identifier : PositionLiquidity D → PositionLiquidity D → Bool
  by_identifier p q = ltb p.instrument_id q.instrument_id

  abbrev pub unknown_days : List (PositionLiquidity D) → List ℕ
  unknown_days rows = map (λ p. p.instrument_id) (select (λ p. is_none p.days_to_liquidate) rows)

  unfoldable pub result_of : List (PositionLiquidity D) → D → D → D → LiquidityResult D
  unfolding liquid_from sorted
  result_of rows cash_value portfolio_value horizon = record {
    cash_weight = cash_value ⊘ portfolio_value;
    liquid_within_horizon_weight = liquid_from horizon cash_value rows ⊘ portfolio_value;
    maximum_days_to_liquidate = maximum_days rows;
    positions = sorted by_identifier rows;
    warnings = unknown_days rows;
  }

  unfoldable pub calculate :
      List (PositionLiquidityInput D) → D → D → D → D → Outcome LiquidityError (LiquidityResult D)
  unfolding result_of
  calculate positions cash_value portfolio_value rate horizon = do
    raise_if (portfolio_value ≼ nil_amount || cash_value ≺ nil_amount) bad_values
    raise_if (not (nil_amount ≺ rate && rate ≼ unit_amount) || horizon ≺ nil_amount) bad_horizon
    raise_if (any (λ p. p.market_value ≺ nil_amount) positions) short_position
    ok (result_of (map (row_of rate) positions) cash_value portfolio_value horizon)

  unfoldable pub liquidity_metrics : LiquidityResult D → Dict Text D
  liquidity_metrics r =
      (codes "liquidity.cash_weight", r.cash_weight)
      ∷ (codes "liquidity.liquid_within_horizon_weight", r.liquid_within_horizon_weight)
      ∷ elim r.maximum_days_to_liquidate [
        | none ↦ []
        | some days ↦ (codes "liquidity.maximum_days_to_liquidate", days) ∷ []
      ]
