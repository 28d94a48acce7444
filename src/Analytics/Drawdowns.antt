-- ===== src/Analytics/Drawdowns.antt =====
-- A drawdown is the fall from the highest value so far, and the maximum drawdown the deepest of them.
use mathlib.Core.Option.{some-injective}
use mathlib.Core.List.{Mem, mem-cons_self, mem-cons_of_mem, mem-cast}
use hawk_fund_investment_int.Prelude.{
  ℕ, Option, zero, suc, ◌≡◌, refl, sym, ap, ◌∙◌, ◌⊎◌, Bool-cases, inl, inr, false, List, [], ◌∷◌,
  ok, map, take, get_elem?, some, All, after_ok, subst, if◌then◌else◌,
}
use hawk_fund_investment_int.Number.{
  Decimal, IsOrdered, nil_amount, unit_amount, ◌⊕◌, ◌⊖◌, ◌⊗◌, ◌⊘◌, ◌≺◌, minimum,
}
use hawk_fund_investment_int.Int.Defs.{ℤ}
use hawk_fund_investment_int.Analytics.Types.{
  ValueObservation, DrawdownObservation, AnalyticsResult,
}
use hawk_fund_investment_int.Analytics.Statistics.{grow}
use hawk_fund_investment_int.Analytics.Engine.{
  period_return_of, series_of, follow_growth, least, ordered_values, result_of, analyze_ordered,
  analyze,
}
use hawk_fund_investment_int.Analytics.Growth.{analyze_ordered-eq-ok}

-- Each element of a list meets the predicate of its index.
abbrev pub AllAt {ℓ κ} : {A : Type ℓ} → (ℕ → A → Type κ) → List A → Type κ
AllAt P [] = Unit
AllAt P (x ∷ xs) = P zero x × AllAt (λ n. P (suc n)) xs

all_at {ℓ κ} :
    {A : Type ℓ} (P : ℕ → A → Type κ) (xs : List A)
    → ((n : ℕ) (x : A) → get_elem? xs n ≡ some x → P n x)
    → AllAt P xs
all_at P [] h = tt
all_at P (x ∷ xs) h = (h zero x refl, all_at (λ n. P (suc n)) xs (λ n y e. h (suc n) y e))

module _ {D : Type 0} ⦃d : Decimal D⦄ where
  -- What one unit becomes after each of some returns.
  abbrev after : D → List D → List D
  after growth [] = []
  after growth (x ∷ xs) = let next = growth ⊗ (unit_amount ⊕ x) in next ∷ after next xs

  -- The fall, after some returns, from the highest of the values that one unit has had.
  abbrev pub IsDrawdown : List D → D → Type 0
  IsDrawdown returns x =
      (peak : D) × Mem peak (unit_amount ∷ after unit_amount returns)
      × All (λ v. (peak ≺ v) ≡ false) (unit_amount ∷ after unit_amount returns)
      × (x ≡ grow unit_amount returns ⊘ peak ⊖ unit_amount)

  -- The drawdown at each index of a result: none at the first value.
  abbrev pub IsDrawdownAt : AnalyticsResult D → ℕ → DrawdownObservation D → Type 0
  IsDrawdownAt r zero x = x.drawdown ≡ nil_amount
  IsDrawdownAt r (suc n) x = IsDrawdown (series_of (take (suc n) r.returns)) x.drawdown

  abbrev pub drawdowns_of : AnalyticsResult D → List D
  drawdowns_of r = map (λ x. x.drawdown) r.drawdowns

  minimum-cases : (x y : D) → (minimum x y ≡ x) ⊎ (minimum x y ≡ y)
  minimum-cases x y = elim (Bool-cases (y ≺ x)) [
    | inl e ↦ inr (rw e refl)
    | inr e ↦ inl (rw e refl)
  ]

  least-cases :
      (low : D) (rows : List (DrawdownObservation D))
      → (least low rows ≡ low) ⊎ Mem (least low rows) (map (λ x. x.drawdown) rows)
  least-cases low [] = inl refl
  least-cases low (x ∷ rows) = elim (least-cases (minimum low x.drawdown) rows) [
    | inl e ↦ elim (minimum-cases low x.drawdown) [
      | inl f ↦ inl (e ∙ f)
      | inr f ↦ inr (mem-cast (e ∙ f) mem-cons_self)
    ]
    | inr m ↦ inr (mem-cons_of_mem _ m)
  ]

  least-Mem :
      (low : D) (rows : List (DrawdownObservation D))
      → Mem (least low rows) (low ∷ map (λ x. x.drawdown) rows)
  least-Mem low rows = elim (least-cases low rows) [
    | inl e ↦ mem-cast e mem-cons_self
    | inr m ↦ mem-cons_of_mem _ m
  ]

  module _ (laws : IsOrdered D) where
    -- The peak after one more value.
    top_of :
        (peak next : D)
        → let top = if peak ≺ next then next else peak in
          ((top ≡ peak) ⊎ (top ≡ next)) × ((top ≺ peak) ≡ false) × ((top ≺ next) ≡ false)
    top_of peak next = elim (Bool-cases (peak ≺ next)) [
      | inl e ↦ rw e (inr refl, laws.lt_asymm peak next e, laws.lt_irrefl next)
      | inr e ↦ rw e (inl refl, laws.lt_irrefl peak, e)
    ]

    minimum-le : (x y : D) → ((x ≺ minimum x y) ≡ false) × ((y ≺ minimum x y) ≡ false)
    minimum-le x y = elim (Bool-cases (y ≺ x)) [
      | inl e ↦ rw e (laws.lt_asymm y x e, laws.lt_irrefl y)
      | inr e ↦ rw e (laws.lt_irrefl x, e)
    ]

    least-le :
        (low : D) (rows : List (DrawdownObservation D))
        → ((low ≺ least low rows) ≡ false) × All (λ x. (x.drawdown ≺ least low rows) ≡ false) rows
    least-le low [] = (laws.lt_irrefl low, tt)
    least-le low (x ∷ rows) =
        let (head, tail) = least-le (minimum low x.drawdown) rows in
        let (left, right) = minimum-le low x.drawdown in
        (laws.le_trans _ _ _ head left, (laws.le_trans _ _ _ head right, tail))

    -- A fall from the highest of a peak and the values since.
    abbrev IsFall : D → D → List D → D → Type 0
    IsFall growth peak returns x =
        (highest : D) × ((highest ≡ peak) ⊎ Mem highest (after growth returns))
        × ((highest ≺ peak) ≡ false)
        × All (λ v. (highest ≺ v) ≡ false) (after growth returns)
        × (x ≡ grow growth returns ⊘ highest ⊖ unit_amount)

    -- A fall from a later peak is one from the earlier.
    IsFall-after :
        (growth peak x : D) (period : D) (returns : List D)
        → let next = growth ⊗ (unit_amount ⊕ period) in
          IsFall next (if peak ≺ next then next else peak) returns x
          → IsFall growth peak (period ∷ returns) x
    IsFall-after growth peak x period returns (highest, which, above, all_above, e) =
        let next = growth ⊗ (unit_amount ⊕ period) in
        let (top, over_peak, over_next) = top_of peak next in
        let place : (highest ≡ peak) ⊎ Mem highest (after growth (period ∷ returns)) = elim which [
          | inl f ↦ elim top [ inl g ↦ inl (f ∙ g) | inr g ↦ inr (mem-cast (f ∙ g) mem-cons_self) ]
          | inr m ↦ inr (mem-cons_of_mem _ m)
        ] in
        (
          highest,
          place,
          laws.le_trans _ _ _ over_peak above,
          (laws.le_trans _ _ _ over_next above, all_above),
          e,
        )

    follow_growth-IsFall :
        (previous : ValueObservation D) (growth peak : D) (xs : List (ValueObservation D)) (n : ℕ)
        {x : DrawdownObservation D}
        → let run = follow_growth previous growth peak xs in
          get_elem? run.drawdowns n ≡ some x
          → IsFall growth peak (series_of (take (suc n) run.returns)) x.drawdown
    unfolding follow_growth
    follow_growth-IsFall previous growth peak [] n h = cc
    follow_growth-IsFall previous growth peak (y ∷ xs) zero h =
        let next = growth ⊗ (unit_amount ⊕ period_return_of previous y) in
        let top = if peak ≺ next then next else peak in
        IsFall-after growth peak _ (period_return_of previous y) [] (
          top,
          inl refl,
          laws.lt_irrefl top,
          tt,
          ap (λ (q : DrawdownObservation D). q.drawdown) (sym (some-injective _ _ h)),
        )
    follow_growth-IsFall previous growth peak (y ∷ xs) (suc n) h =
        let next = growth ⊗ (unit_amount ⊕ period_return_of previous y) in
        let top = if peak ≺ next then next else peak in
        IsFall-after growth peak _ (period_return_of previous y)
          (series_of (take (suc n) (follow_growth y next top xs).returns))
          (follow_growth-IsFall y next top xs n h)

    IsDrawdown-fall :
        (returns : List D) (x : D) → IsFall unit_amount unit_amount returns x → IsDrawdown returns x
    IsDrawdown-fall returns x (highest, which, above, all_above, e) =
        let place : Mem highest (unit_amount ∷ after unit_amount returns) = elim which [
          | inl f ↦ mem-cast f mem-cons_self
          | inr m ↦ mem-cons_of_mem _ m
        ] in
        (highest, place, (above, all_above), e)

    -- What a result says of its drawdowns.
    abbrev AreDrawdowns : AnalyticsResult D → Type 0
    AreDrawdowns r =
        AllAt (IsDrawdownAt r) r.drawdowns
        × Mem r.maximum_drawdown (drawdowns_of r)
        × ((nil_amount ≺ r.maximum_drawdown) ≡ false)
        × All (λ x. (x.drawdown ≺ r.maximum_drawdown) ≡ false) r.drawdowns

    result_of-AreDrawdowns :
        (first : ValueObservation D) (rest : List (ValueObservation D))
        (volatility sharpe : Option D)
        → AreDrawdowns
            (result_of first (follow_growth first unit_amount unit_amount rest) volatility sharpe)
    result_of-AreDrawdowns first rest volatility sharpe =
        let run = follow_growth first unit_amount unit_amount rest in
        let made = result_of first run volatility sharpe in
        let low = least-le nil_amount run.drawdowns in
        (
          (
            refl,
            all_at (λ n. IsDrawdownAt made (suc n)) run.drawdowns
                (λ n x e.
                  IsDrawdown-fall (series_of (take (suc n) run.returns)) x.drawdown
                    (follow_growth-IsFall first unit_amount unit_amount rest n e)),
          ),
          least-Mem nil_amount run.drawdowns,
          low.0,
          low,
        )

    analyze_ordered-AreDrawdowns :
        (ordered : List (ValueObservation D)) (periods : ℤ) (risk_free : D) {r : AnalyticsResult D}
        → analyze_ordered ordered periods risk_free ≡ ok r
        → AreDrawdowns r
    analyze_ordered-AreDrawdowns [] periods risk_free h = cc
    analyze_ordered-AreDrawdowns (first ∷ rest) periods risk_free h =
        let (volatility, sharpe, q) = analyze_ordered-eq-ok first rest periods risk_free h in
        subst AreDrawdowns q (result_of-AreDrawdowns first rest volatility sharpe)

    -- The first drawdown of a successful call is zero, and each later one the value that one unit
    -- has grown to by then, by the highest of the values that it has had, less one. The maximum
    -- drawdown is one of them, is not above zero, and no drawdown is below it.
    pub analyze-maximum_drawdown :
        (observations : List (ValueObservation D)) (periods : ℤ) (risk_free : D)
        {r : AnalyticsResult D}
        → analyze observations periods risk_free ≡ ok r
        → AllAt (IsDrawdownAt r) r.drawdowns
          × Mem r.maximum_drawdown (drawdowns_of r)
          × ((nil_amount ≺ r.maximum_drawdown) ≡ false)
          × All (λ x. (x.drawdown ≺ r.maximum_drawdown) ≡ false) r.drawdowns
    unfolding analyze
    analyze-maximum_drawdown observations periods risk_free h =
        after_ok (ordered_values observations) _ h
          λ ordered _ e. analyze_ordered-AreDrawdowns ordered periods risk_free e
