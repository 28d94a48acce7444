-- ===== src/Analytics/Totality.antt =====
-- The statistics are defined on every series.
use hawk_fund_investment_int.Prelude.{
  ℕ, suc, ◌-◌, ◌≡◌, refl, sym, subst, not, Bool-cases, inl, inr, true, false, Option, none, some,
  List, [], ◌∷◌, map, ok, ◌>>=◌, arith, raise_if, length, Succeeds, >>=-Succeeds, if-Succeeds, ltb,
  if◌then◌else◌,
}
use hawk_fund_investment_int.Number.{
  Decimal, IsOrdered, IsRounded, nil_amount, ◌⊕◌, ◌⊖◌, ◌⊘◌, ◌≺◌, ◌≈◌, total, total_from,
}
use hawk_fund_investment_int.Int.Defs.{pos, ltb_ℤ}
use hawk_fund_investment_int.Analytics.Types.{bad_periods, divide, square_root}
use hawk_fund_investment_int.Analytics.Statistics.{
  mean, squares, sample_stddev, scaled, annualized_stddev, beta,
}

module _ {D : Type 0} ⦃d : Decimal D⦄ (ordered : IsOrdered D) (laws : IsRounded D) where
  positive-ne : (x : D) → (nil_amount ≺ x) ≡ true → (x ≈ nil_amount) ≡ false
  positive-ne x h = rw (ordered.eq_iff x nil_amount, h, ordered.lt_asymm nil_amount x h) refl

  pub divide_positive : (x y : D) → (nil_amount ≺ y) ≡ true → divide x y ≡ ok (x ⊘ y)
  divide_positive x y h = rw (positive-ne y h) refl

  square_root_le : (x : D) → (x ≺ nil_amount) ≡ false → square_root x ≡ ok (d.sqrt x)
  square_root_le x h = rw h refl

  pub count-positive : (n m : ℕ) → n ≡ suc m → (nil_amount ≺ d.of_int (pos n)) ≡ true
  count-positive n m e = rw e (laws.of_int-suc m)

  total_from-le :
      (acc average : D) (xs : List D)
      → (acc ≺ nil_amount) ≡ false
      → (total_from acc (map (λ x. d.square (x ⊖ average)) xs) ≺ nil_amount) ≡ false
  unfolding total_from
  total_from-le acc average [] h = h
  total_from-le acc average (x ∷ xs) h =
      let square = d.square (x ⊖ average) in
      total_from-le (acc ⊕ square) average xs
        (laws.add-le acc square h (laws.square-le (x ⊖ average)))

  mean_cons :
      (x : D) (xs : List D) → mean (x ∷ xs) ≡ ok (total (x ∷ xs) ⊘ d.of_int (pos (suc (length xs))))
  unfolding mean
  mean_cons x xs = divide_positive _ _ (laws.of_int-suc (length xs))

  sample_stddev-Succeeds : (xs : List D) → Succeeds (sample_stddev xs)
  unfolding sample_stddev
  sample_stddev-Succeeds [] = (none, refl)
  sample_stddev-Succeeds (x ∷ []) = (none, refl)
  sample_stddev-Succeeds (x ∷ y ∷ xs) =
      let count = count-positive (length (x ∷ y ∷ xs) - 1) (length xs) (omega arith) in
      let average = total (x ∷ y ∷ xs) ⊘ d.of_int (pos (suc (suc (length xs)))) in
      let sum = total_from-le nil_amount average (x ∷ y ∷ xs) (ordered.lt_irrefl nil_amount) in
      if-Succeeds (ltb (length (x ∷ y ∷ xs)) 2) (ok none) _ (none, refl)
        (>>=-Succeeds _ _ (mean_cons x (y ∷ xs)) (
          >>=-Succeeds _ _ (divide_positive _ _ count)
            (>>=-Succeeds _ _ (square_root_le _ (laws.div-le _ _ sum count)) (_, refl))))

  scaled-Succeeds : (o : Option D) (n : ℕ) → Succeeds (scaled o (pos (suc n)))
  scaled-Succeeds none n = (none, refl)
  scaled-Succeeds (some x) n =
      let le = ordered.lt_asymm nil_amount (d.of_int (pos (suc n))) (laws.of_int-suc n) in
      >>=-Succeeds _ _ (square_root_le _ le) (_, refl)

  guard_passes : (n : ℕ) → raise_if (not (ltb_ℤ (pos 0) (pos (suc n)))) bad_periods ≡ ok tt
  guard_passes n = ground arith

  pub annualized_stddev-Succeeds :
      (xs : List D) (n : ℕ) → Succeeds (annualized_stddev xs (pos (suc n)))
  unfolding annualized_stddev
  annualized_stddev-Succeeds xs n =
      let (deviation, e) = sample_stddev-Succeeds xs in
      >>=-Succeeds _ _ (guard_passes n) (>>=-Succeeds _ _ e (scaled-Succeeds deviation n))

  squares-positive :
      (average : D) (xs : List D)
      → (squares average xs ≈ nil_amount) ≡ false
      → (nil_amount ≺ squares average xs) ≡ true
  squares-positive average xs h =
      let sum = squares average xs in
      let le = total_from-le nil_amount average xs (ordered.lt_irrefl nil_amount) in
      ground (arith, ordered.eq_iff sum nil_amount, le)

  slope-Succeeds :
      (numerator average : D) (xs : List D)
      → Succeeds (
          if squares average xs ≈ nil_amount
          then ok none
          else divide numerator (squares average xs) >>= λ slope. ok (some slope))
  slope-Succeeds numerator average xs = elim (Bool-cases (squares average xs ≈ nil_amount)) [
    | inl e ↦ (none, rw e refl)
    | inr e ↦
        subst
          (λ b. Succeeds (
            if b
            then ok none
            else divide numerator (squares average xs) >>= λ slope. ok (some slope)))
          (sym e) (>>=-Succeeds _ _ (divide_positive _ _ (squares-positive average xs e)) (_, refl))
  ]

  pub beta-Succeeds : (p b : D) (ps bs : List D) → Succeeds (beta (p ∷ ps) (b ∷ bs))
  unfolding beta
  beta-Succeeds p b ps bs =
      if-Succeeds _ _ _ (none, refl)
        (>>=-Succeeds _ _ (mean_cons p ps)
          (>>=-Succeeds _ _ (mean_cons b bs) (slope-Succeeds _ _ (b ∷ bs))))
