-- ===== src/Governance/Liquidity/Bounds.antt =====
-- What the liquid weight adds up, and what the maximum of the days bounds.
use hawk_fund_investment_int.Prelude.{
  ℕ, if◌then◌else◌, Bool, refl, false, ◌≡◌, sym, ap, ◌∙◌, subst, Bool-cases, true, false, not, ◌&&◌,
  ◌||◌, inl, inr, Option, none, some, List, [], ◌∷◌, map, ok, raise_if, after_ok, ok-injective,
  select, any, present, is_none, All,
}
use mathlib.Core.Option.{some-injective}
use hawk_fund_investment_int.Prelude.Order.{All-sorted}
use hawk_fund_investment_int.Number.{
  Decimal, IsOrdered, nil_amount, unit_amount, ◌⊕◌, ◌⊗◌, ◌⊘◌, ◌≺◌, ◌≼◌, maximum, total_from,
}
use hawk_fund_investment_int.Governance.Liquidity.{
  PositionLiquidityInput, PositionLiquidity, LiquidityResult, bad_values, bad_horizon,
  short_position, row_of, result_of, is_within, liquid_from, largest, largest_of, days_in,
  maximum_days, unknown_days, days_of, by_identifier, calculate,
}

module _ {D : Type 0} ⦃d : Decimal D⦄ where
  -- A position that is sold in time: at the rate, a positive volume takes its market value in no
  -- more days than the horizon.
  abbrev sells_in : D → D → D → Option D → Bool
  sells_in rate horizon value none = false
  sells_in rate horizon value (some volume) =
      (nil_amount ≺ volume) && not (horizon ≺ value ⊘ (volume ⊗ rate))

  abbrev pub sells_within : D → D → PositionLiquidityInput D → Bool
  sells_within rate horizon p = sells_in rate horizon p.market_value p.average_daily_volume_value

  -- There is no evidence of a daily volume.
  abbrev lacks : Option D → Bool
  lacks none = true
  lacks (some volume) = not (nil_amount ≺ volume)

  abbrev pub lacks_volume : PositionLiquidityInput D → Bool
  lacks_volume p = lacks p.average_daily_volume_value

  within-days_of :
      (rate horizon value : D) (volume : Option D)
      → is_within horizon (days_of rate value volume) ≡ sells_in rate horizon value volume
  within-days_of rate horizon value none = refl
  within-days_of rate horizon value (some v) = elim (Bool-cases (nil_amount ≺ v)) [
    | inl e ↦ rw e refl
    | inr e ↦ rw e refl
  ]

  none-days_of :
      (rate value : D) (volume : Option D) → is_none (days_of rate value volume) ≡ lacks volume
  none-days_of rate value none = refl
  none-days_of rate value (some v) = elim (Bool-cases (nil_amount ≺ v)) [
    | inl e ↦ rw e refl
    | inr e ↦ rw e refl
  ]

  abbrev pub liquid_values : D → D → List (PositionLiquidityInput D) → List D
  liquid_values rate horizon ps = map (λ p. p.market_value) (select (sells_within rate horizon) ps)

  abbrev pub without_volume : List (PositionLiquidityInput D) → List ℕ
  without_volume ps = map (λ p. p.instrument_id) (select lacks_volume ps)

  liquid_from-total :
      (rate horizon value : D) (ps : List (PositionLiquidityInput D))
      → liquid_from horizon value (map (row_of rate) ps)
        ≡ total_from value (liquid_values rate horizon ps)
  unfolding liquid_from total_from
  liquid_from-total rate horizon value [] = refl
  liquid_from-total rate horizon value (p ∷ ps) =
      let same = within-days_of rate horizon p.market_value p.average_daily_volume_value in
      let after : Bool → D = λ b.
        liquid_from horizon (if b then value ⊕ p.market_value else value) (map (row_of rate) ps) in
      elim (Bool-cases (sells_within rate horizon p)) [
        | inl e ↦
            rw e (ap after (same ∙ e) ∙ liquid_from-total rate horizon (value ⊕ p.market_value) ps)
        | inr e ↦ rw e (ap after (same ∙ e) ∙ liquid_from-total rate horizon value ps)
      ]

  unknown_days-lacks :
      (rate : D) (ps : List (PositionLiquidityInput D))
      → unknown_days (map (row_of rate) ps) ≡ without_volume ps
  unknown_days-lacks rate [] = refl
  unknown_days-lacks rate (p ∷ ps) =
      rw (none-days_of rate p.market_value p.average_daily_volume_value)
        (elim (Bool-cases (lacks_volume p)) [
          | inl e ↦ rw e (ap (λ ids. p.instrument_id ∷ ids) (unknown_days-lacks rate ps))
          | inr e ↦ rw e (unknown_days-lacks rate ps)
        ])

  calculate-eq-ok :
      (positions : List (PositionLiquidityInput D)) (cash_value portfolio_value rate horizon : D)
      {r : LiquidityResult D}
      → calculate positions cash_value portfolio_value rate horizon ≡ ok r
      → result_of (map (row_of rate) positions) cash_value portfolio_value horizon ≡ r
  unfolding calculate
  calculate-eq-ok positions cash_value portfolio_value rate horizon h =
      after_ok (raise_if (portfolio_value ≼ nil_amount || cash_value ≺ nil_amount) bad_values) _ h
        λ _ _ h1.
          after_ok
            (raise_if (not (nil_amount ≺ rate && rate ≼ unit_amount) || horizon ≺ nil_amount)
              bad_horizon)
            _ h1
            λ _ _ h2.
              after_ok (raise_if (any (λ p. p.market_value ≺ nil_amount) positions) short_position)
                _ h2 λ _ _ h3. ok-injective h3

  -- The liquid weight of a successful call is the cash, to which the market value of each position
  -- is added that has a positive daily volume and is sold in no more days than the horizon when the
  -- rate of that volume is sold a day, by the value of the portfolio; a position that takes exactly
  -- the horizon counts. The warnings name the positions with no positive volume, in order.
  pub calculate-liquid :
      (positions : List (PositionLiquidityInput D)) (cash_value portfolio_value rate horizon : D)
      {r : LiquidityResult D}
      → calculate positions cash_value portfolio_value rate horizon ≡ ok r
      → (r.liquid_within_horizon_weight
          ≡ total_from cash_value (liquid_values rate horizon positions) ⊘ portfolio_value)
        × (r.warnings ≡ without_volume positions)
  unfolding result_of
  calculate-liquid positions cash_value portfolio_value rate horizon h =
      let same = sym (calculate-eq-ok positions cash_value portfolio_value rate horizon h) in
      (
        ap (λ (x : LiquidityResult D). x.liquid_within_horizon_weight) same
            ∙ ap (λ x. x ⊘ portfolio_value) (liquid_from-total rate horizon cash_value positions),
        ap (λ (x : LiquidityResult D). x.warnings) same ∙ unknown_days-lacks rate positions,
      )

  module _ (laws : IsOrdered D) where
    maximum-le : (x y : D) → ((maximum x y ≺ x) ≡ false) × ((maximum x y ≺ y) ≡ false)
    maximum-le x y = elim (Bool-cases (x ≺ y)) [
      | inl e ↦ rw e (laws.lt_asymm x y e, laws.lt_irrefl y)
      | inr e ↦ rw e (laws.lt_irrefl x, e)
    ]

    largest-le :
        (most : D) (xs : List D)
        → ((largest most xs ≺ most) ≡ false) × All (λ x. (largest most xs ≺ x) ≡ false) xs
    largest-le most [] = (laws.lt_irrefl most, tt)
    largest-le most (x ∷ xs) =
        let (head, tail) = largest-le (maximum most x) xs in
        let (left, right) = maximum-le most x in
        (laws.le_trans _ _ _ left head, (laws.le_trans _ _ _ right head, tail))

    largest_of-le :
        (xs : List D) {most : D} → largest_of xs ≡ some most → All (λ x. (most ≺ x) ≡ false) xs
    largest_of-le [] h = cc
    largest_of-le (x ∷ xs) h =
        subst (λ m. All (λ y. (m ≺ y) ≡ false) (x ∷ xs)) (some-injective _ _ h) (largest-le x xs)

    option-within :
        (most : D) (o : Option D) (os : List (Option D))
        → (is_none o || any is_none os) ≡ false
        → All (λ x. (most ≺ x) ≡ false) (present (o ∷ os))
        → (is_within most o ≡ true)
          × (any is_none os ≡ false)
          × All (λ x. (most ≺ x) ≡ false) (present os)
    option-within most none os h a = cc
    option-within most (some x) os h a = (ap not a.0, h, a.1)

    rows-within :
        (most : D) (rows : List (PositionLiquidity D))
        → any is_none (days_in rows) ≡ false
        → All (λ x. (most ≺ x) ≡ false) (present (days_in rows))
        → All (λ p. is_within most p.days_to_liquidate ≡ true) rows
    rows-within most [] h a = tt
    rows-within most (p ∷ ps) h a =
        let (first, known, rest) = option-within most p.days_to_liquidate (days_in ps) h a in
        (first, rows-within most ps known rest)

    maximum_days-within :
        (rows : List (PositionLiquidity D)) {most : D}
        → maximum_days rows ≡ some most
        → All (λ p. is_within most p.days_to_liquidate ≡ true) rows
    maximum_days-within rows {most} h = elim (Bool-cases (any is_none (days_in rows))) [
      | inl e ↦ let absent : ◌≡◌ {A = Option D} none (some most) = rw e at h in cc
      | inr e ↦ rows-within most rows e (largest_of-le (present (days_in rows)) (rw e at h))
    ]

    -- Where there is a maximum of the days, every position has its days, and none more than that.
    pub calculate-maximum :
        (positions : List (PositionLiquidityInput D)) (cash_value portfolio_value rate horizon : D)
        {r : LiquidityResult D} {most : D}
        → calculate positions cash_value portfolio_value rate horizon ≡ ok r
        → r.maximum_days_to_liquidate ≡ some most
        → All (λ p. is_within most p.days_to_liquidate ≡ true) r.positions
    unfolding result_of
    calculate-maximum positions cash_value portfolio_value rate horizon {r} {most} h m =
        let rows = map (row_of rate) positions in
        let same = calculate-eq-ok positions cash_value portfolio_value rate horizon h in
        let found : maximum_days rows ≡ some most =
          ap (λ (x : LiquidityResult D). x.maximum_days_to_liquidate) same ∙ m in
        subst
          (λ (x : LiquidityResult D).
            All (λ p. is_within most p.days_to_liquidate ≡ true) x.positions)
          same
          (All-sorted (λ p. is_within most p.days_to_liquidate ≡ true) by_identifier rows
            (maximum_days-within rows found))
