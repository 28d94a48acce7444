-- ===== src/Analytics/Statistics.antt =====
-- apps/api/app/analytics/engine.py: `mean`, `sample_stddev`, `annualized_stddev`, `compound` and
-- `beta`.
use hawk_fund_investment_int.Prelude.{
  ◌-◌, not, ◌||◌, Option, none, some, List, [], ◌∷◌, map, ok, ◌>>=◌, ◌>>◌, raise_if, length,
  is_empty, ltb, ◌==◌, if◌then◌else◌,
}
use hawk_fund_investment_int.Number.{Decimal, nil_amount, unit_amount, ◌⊕◌, ◌⊖◌, ◌⊗◌, ◌≈◌, total}
use hawk_fund_investment_int.Int.Defs.{ℤ, pos, ltb_ℤ}
use hawk_fund_investment_int.Analytics.Types.{no_returns, bad_periods, Raises, divide, square_root}

module _ {D : Type 0} ⦃d : Decimal D⦄ where
  unfoldable pub mean : List D → Raises D
  mean xs = do raise_if (is_empty xs) no_returns; divide (total xs) (d.of_int (pos (length xs)))

  -- `sum((item - average) ** 2 for item in values)`
  abbrev pub squares : D → List D → D
  squares average xs = total (map (λ x. d.square (x ⊖ average)) xs)

  unfoldable pub sample_stddev : List D → Raises (Option D)
  unfolding mean
  sample_stddev xs = if ltb (length xs) 2 then ok none else do
    average ← mean xs
    variance ← divide (squares average xs) (d.of_int (pos (length xs - 1)))
    root ← square_root variance
    ok (some root)

  -- `None if result is None else result * Decimal(periods).sqrt()`
  abbrev pub scaled : Option D → ℤ → Raises (Option D)
  scaled none periods = ok none
  scaled (some x) periods = do root ← square_root (d.of_int periods); ok (some (x ⊗ root))

  unfoldable pub annualized_stddev : List D → ℤ → Raises (Option D)
  unfolding sample_stddev
  annualized_stddev xs periods = do
    raise_if (not (ltb_ℤ (pos 0) periods)) bad_periods
    deviation ← sample_stddev xs
    scaled deviation periods

  abbrev pub grow : D → List D → D
  grow growth [] = growth
  grow growth (x ∷ xs) = grow (growth ⊗ (unit_amount ⊕ x)) xs

  unfoldable pub compound : List D → D
  compound xs = grow unit_amount xs ⊖ unit_amount

  -- `zip(xs, ys, strict=True)`, of lists that have been found equally long
  abbrev pub zip_with : (D → D → D) → List D → List D → List D
  zip_with f [] _ = []
  zip_with f (x ∷ xs) [] = []
  zip_with f (x ∷ xs) (y ∷ ys) = f x y ∷ zip_with f xs ys

  unfoldable pub beta : List D → List D → Raises (Option D)
  unfolding mean
  beta ps bs = if not (length ps == length bs) || ltb (length ps) 2 then ok none else do
    p_mean ← mean ps
    b_mean ← mean bs
    let denominator = squares b_mean bs
    let numerator = total (zip_with (λ p b. (p ⊖ p_mean) ⊗ (b ⊖ b_mean)) ps bs)
    if denominator ≈ nil_amount
        then ok none
        else divide numerator denominator >>= λ slope. ok (some slope)
