-- ===== src/Number/Sums.antt =====
-- Sums of exact amounts: where a term stands does not matter.
use hawk_fund_investment_int.Prelude.{
  ◌≡◌, refl, sym, ap, ◌∙◌, Bool, Bool-cases, inl, inr, List, [], ◌∷◌, ◌++◌, map,
}
use hawk_fund_investment_int.Prelude.Order.{insert_sorted, sorted}
use hawk_fund_investment_int.Number.{Decimal, IsExact, nil_amount, ◌⊕◌, total, total_from}

module _ {D : Type 0} ⦃d : Decimal D⦄ (laws : IsExact D) where
  pub nought-add : (x : D) → nil_amount ⊕ x ≡ x
  nought-add x = laws.add_comm nil_amount x ∙ laws.add-nought x

  pub add_left_comm : (x y z : D) → x ⊕ (y ⊕ z) ≡ y ⊕ (x ⊕ z)
  add_left_comm x y z =
      sym (laws.add_assoc x y z) ∙ ap (λ a. a ⊕ z) (laws.add_comm x y) ∙ laws.add_assoc y x z

  pub add_right_comm : (x y z : D) → (x ⊕ y) ⊕ z ≡ (x ⊕ z) ⊕ y
  add_right_comm x y z =
      laws.add_assoc x y z ∙ ap (λ a. x ⊕ a) (laws.add_comm y z) ∙ sym (laws.add_assoc x z y)

  total_from-add : (acc : D) (xs : List D) → total_from acc xs ≡ acc ⊕ total xs
  unfolding total_from
  total_from-add acc [] = sym (laws.add-nought acc)
  total_from-add acc (x ∷ xs) =
      total_from-add (acc ⊕ x) xs
      ∙ laws.add_assoc acc x (total xs)
      ∙ ap (λ a. acc ⊕ a) (sym (total_from-add (nil_amount ⊕ x) xs ∙ rw (nought-add x) refl))

  pub total-cons : (x : D) (xs : List D) → total (x ∷ xs) ≡ x ⊕ total xs
  unfolding total_from
  total-cons x xs = total_from-add (nil_amount ⊕ x) xs ∙ rw (nought-add x) refl

  pub total-append : (xs ys : List D) → total (xs ++ ys) ≡ total xs ⊕ total ys
  unfolding total_from
  total-append [] ys = sym (nought-add (total ys))
  total-append (x ∷ xs) ys =
      total-cons x (xs ++ ys)
      ∙ ap (λ a. x ⊕ a) (total-append xs ys)
      ∙ sym (laws.add_assoc x (total xs) (total ys))
      ∙ ap (λ a. a ⊕ total ys) (sym (total-cons x xs))

  module _ {A : Type 0} (lt : A → A → Bool) (f : A → D) where
    total-insert_sorted :
        (x : A) (ys : List A) → total (map f (insert_sorted lt x ys)) ≡ f x ⊕ total (map f ys)
    unfolding insert_sorted
    total-insert_sorted x [] = total-cons (f x) []
    total-insert_sorted x (y ∷ ys) = elim (Bool-cases (lt y x)) [
      | inl e ↦ rw e (
          total-cons (f y) (map f (insert_sorted lt x ys))
          ∙ ap (λ a. f y ⊕ a) (total-insert_sorted x ys)
          ∙ add_left_comm (f y) (f x) (total (map f ys))
          ∙ ap (λ a. f x ⊕ a) (sym (total-cons (f y) (map f ys))))
      | inr e ↦ rw e (total-cons (f x) (f y ∷ map f ys))
    ]

    -- Sorting keeps a sum.
    pub total-sorted : (xs : List A) → total (map f (sorted lt xs)) ≡ total (map f xs)
    unfolding sorted
    total-sorted [] = refl
    total-sorted (x ∷ xs) =
        total-insert_sorted x (sorted lt xs)
        ∙ ap (λ a. f x ⊕ a) (total-sorted xs)
        ∙ sym (total-cons (f x) (map f xs))
