-- ===== src/Risk/Totality.antt =====
-- When `RiskEngine.calculate` has a result, and when the quotient of its empty tail is undefined.
use hawk_fund_investment_int.Prelude.{
  ℕ, suc, ◌<◌, ◌≡◌, refl, sym, ap, ◌∙◌, not, ◌&&◌, ◌⊎◌, Bool, Bool-cases, inl, inr, true, false,
  some, List, [], ◌∷◌, map, ok, raised, arith, raise_if, raise_if-eq-ok, after_ok, length, any,
  any-map, any_ext, length-map, select-any, select_none, get_elem?, get_elem?-some, get_elem?-any,
  Succeeds, >>=-Succeeds, is_empty,
}
use hawk_fund_investment_int.Prelude.Order.{length-sorted, any-sorted}
use hawk_fund_investment_int.Number.{
  ◌⊖◌, Decimal, IsOrdered, IsRounded, nil_amount, unit_amount, ◌⊗◌, ◌≺◌, ◌≼◌, maximum,
}
use hawk_fund_investment_int.Int.Defs.{pos}
use hawk_fund_investment_int.Exposures.Types.{ExposureResult}
use hawk_fund_investment_int.Analytics.Types.{Raises, invalid_operation}
use hawk_fund_investment_int.Analytics.Totality.{
  divide_positive, count-positive, annualized_stddev-Succeeds, beta-Succeeds,
}
use hawk_fund_investment_int.Analytics.Statistics.{zip_with}
use hawk_fund_investment_int.Risk.Types.{statistics, no_returns, no_portfolio_value, bad_confidence}
use hawk_fund_investment_int.Risk.Engine.{
  pass_on, index_of, losses_of, value_at_risk, expected_shortfall, against, check_inputs, calculate,
  result_of,
}

pass_on-Succeeds : {A : Type 0} (call : Raises A) → Succeeds call → Succeeds (pass_on call)
pass_on-Succeeds (ok a) h = (a, refl)
pass_on-Succeeds (raised e) (a, h) = cc

module _ {D : Type 0} ⦃d : Decimal D⦄ where
  -- A return that is not positive: `item <= 0`.
  abbrev pub is_loss : D → Bool
  is_loss x = not (nil_amount ≺ x)

  length-losses_of : (returns : List D) → length (losses_of returns) ≡ length returns
  unfolding losses_of
  length-losses_of returns = length-sorted d.lt (map d.neg returns) ∙ length-map d.neg returns

  module _ (ordered : IsOrdered D) (laws : IsRounded D) where
    any_nonnegative :
        (returns : List D) → any (λ x. nil_amount ≼ x) (losses_of returns) ≡ any is_loss returns
    unfolding losses_of
    any_nonnegative returns =
        any-sorted d.lt (λ x. nil_amount ≼ x) (map d.neg returns)
        ∙ any-map d.neg (λ x. nil_amount ≼ x) returns
        ∙ any_ext _ _ returns (λ x. ap not (laws.neg-lt x))

    -- No tail is empty but where every loss is below zero.
    any-tail :
        (losses : List D) (n : ℕ) {loss : D}
        → get_elem? losses n ≡ some loss
        → any (λ x. maximum nil_amount loss ≼ x) losses ≡ any (λ x. nil_amount ≼ x) losses
    any-tail losses n {loss} at = elim (Bool-cases (nil_amount ≺ loss)) [
      | inl e ↦ rw e (
          get_elem?-any (λ x. loss ≼ x) losses n at (ap not (ordered.lt_irrefl loss))
          ∙ sym (
              get_elem?-any (λ x. nil_amount ≼ x) losses n at
                (ap not (ordered.lt_asymm nil_amount loss e))))
      | inr e ↦ rw e refl
    ]

    index-lt :
        (confidence : D) (n : ℕ)
        → (nil_amount ≺ confidence) ≡ true
        → (confidence ≺ unit_amount) ≡ true
        → index_of (d.ceil (confidence ⊗ d.of_int (pos (suc n)))) < suc n
    index-lt confidence n low high =
        let le = laws.ceil_le confidence (suc n) low high in omega arith

    value_at_risk-eq :
        (confidence : D) (losses : List D) (n : ℕ)
        → length losses ≡ suc n
        → (nil_amount ≺ confidence) ≡ true
        → (confidence ≺ unit_amount) ≡ true
        → (loss : D) × (k : ℕ) × (get_elem? losses k ≡ some loss)
          × (value_at_risk confidence losses ≡ ok (maximum nil_amount loss))
    value_at_risk-eq confidence losses n size low high =
        let k = index_of (d.ceil (confidence ⊗ d.of_int (pos (length losses)))) in
        let bound : k < length losses = rw size (index-lt confidence n low high) in
        let (loss, at) = get_elem?-some losses k bound in (loss, k, at, rw at refl)

    shortfall-Succeeds :
        (var : D) (losses : List D)
        → any (λ x. var ≼ x) losses ≡ true
        → Succeeds (expected_shortfall var losses)
    shortfall-Succeeds var losses h =
        let (n, size) = select-any (λ x. var ≼ x) losses h in
        let count = count-positive ordered laws _ n size in
        >>=-Succeeds _ _ (ap pass_on (divide_positive ordered laws _ _ count)) (_, refl)

    shortfall-raised :
        (var : D) (losses : List D)
        → any (λ x. var ≼ x) losses ≡ false
        → expected_shortfall var losses ≡ raised (statistics invalid_operation)
    shortfall-raised var losses h = rw (select_none (λ x. var ≼ x) losses h, laws.of_int-zero) refl

    against-Succeeds :
        (x : D) (xs benchmark : List D) (n : ℕ)
        → Succeeds (against (x ∷ xs) benchmark (pos (suc n)))
    unfolding against
    against-Succeeds x xs [] n = (_, refl)
    against-Succeeds x xs (b ∷ bs) n =
        let active = zip_with (λ p q. p ⊖ q) (x ∷ xs) (b ∷ bs) in
        let (tracking, t) = pass_on-Succeeds _ (annualized_stddev-Succeeds ordered laws active n) in
        let (slope, s) = pass_on-Succeeds _ (beta-Succeeds ordered laws x b xs bs) in
        ((tracking, slope), rw (t, s) refl)

    -- What follows the checks, in both cases.
    calculate-cases :
        (x : D) (xs benchmark : List D) (portfolio_value : D) (exposure : ExposureResult D)
        (confidence : D) (n : ℕ)
        → check_inputs (x ∷ xs) benchmark portfolio_value confidence ≡ ok tt
        → (nil_amount ≺ confidence) ≡ true
        → (confidence ≺ unit_amount) ≡ true
        → (any is_loss (x ∷ xs) ≡ true
            × Succeeds
                (calculate (x ∷ xs) benchmark portfolio_value exposure confidence (pos (suc n))))
          ⊎ (any is_loss (x ∷ xs) ≡ false
              × calculate (x ∷ xs) benchmark portfolio_value exposure confidence (pos (suc n))
                ≡ raised (statistics invalid_operation))
    unfolding calculate
    calculate-cases x xs benchmark portfolio_value exposure confidence n checked low high =
        let returns = x ∷ xs in
        let losses = losses_of returns in
        let (loss, k, at, found) =
          value_at_risk-eq confidence losses (length xs) (length-losses_of returns) low high in
        let var = maximum nil_amount loss in
        let some_tail = any-tail losses k at ∙ any_nonnegative returns in
        elim (Bool-cases (any is_loss returns)) [
          | inl e ↦
              let (shortfall, s) = shortfall-Succeeds var losses (some_tail ∙ e) in
              let (relative, r) = against-Succeeds x xs benchmark n in
              let (volatility, v) =
                pass_on-Succeeds _ (annualized_stddev-Succeeds ordered laws returns n) in
              inl (
                e,
                (
                  result_of returns portfolio_value exposure confidence var shortfall relative
                      volatility,
                  rw (checked, found, s, r, v) refl,
                ),
              )
          | inr e ↦ inr (e, rw (checked, found, shortfall-raised var losses (some_tail ∙ e)) refl)
        ]

    checked-confidence :
        (returns benchmark : List D) (portfolio_value confidence : D)
        → check_inputs returns benchmark portfolio_value confidence ≡ ok tt
        → ((nil_amount ≺ confidence) ≡ true) × ((confidence ≺ unit_amount) ≡ true)
    checked-confidence returns benchmark portfolio_value confidence h =
        after_ok (raise_if (is_empty returns) no_returns) _ h λ _ _ h1.
          after_ok (raise_if (portfolio_value ≼ nil_amount) no_portfolio_value) _ h1 λ _ _ h2.
            after_ok
              (raise_if (not (nil_amount ≺ confidence && confidence ≺ unit_amount)) bad_confidence)
              _ h2 λ _ e _. let both = raise_if-eq-ok _ bad_confidence e in ground arith

    -- Of inputs that pass the checks, with a positive number of periods: where some return is not
    -- positive, `calculate` has a result. Where every return is positive, every loss is below the
    -- value at risk of zero, the tail is empty, and its average divides zero by zero.
    pub calculate-outcome :
        (returns benchmark : List D) (portfolio_value : D) (exposure : ExposureResult D)
        (confidence : D) (n : ℕ)
        → check_inputs returns benchmark portfolio_value confidence ≡ ok tt
        → (any is_loss returns ≡ true
            × Succeeds
                (calculate returns benchmark portfolio_value exposure confidence (pos (suc n))))
          ⊎ (any is_loss returns ≡ false
              × calculate returns benchmark portfolio_value exposure confidence (pos (suc n))
                ≡ raised (statistics invalid_operation))
    calculate-outcome [] benchmark portfolio_value exposure confidence n h = cc
    calculate-outcome (x ∷ xs) benchmark portfolio_value exposure confidence n h =
        let (low, high) = checked-confidence (x ∷ xs) benchmark portfolio_value confidence h in
        calculate-cases x xs benchmark portfolio_value exposure confidence n h low high
