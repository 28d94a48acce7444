-- ===== src/Portfolio/Cash/Balances.antt =====
-- The balances of the accounts keep their sum but for what is added to one.
use hawk_fund_investment_int.Prelude.{
  Option-cases, ℕ, ◌≡◌, refl, ◌∙◌, inl, inr, none, ok, raised, ok-injective, ◌==◌,
}
use hawk_fund_investment_int.Number.{Decimal, IsExact, nil_amount, ◌⊕◌, total}
use hawk_fund_investment_int.Dict.{Dict, lookup, insert, set_default}
use hawk_fund_investment_int.Portfolio.Types.{key_missing}
use hawk_fund_investment_int.Portfolio.Engine.{add_cash}
use hawk_fund_investment_int.Dict.Sums.{total-insert-some, total-insert-none}
use hawk_fund_investment_int.Portfolio.Cash.{amounts}

module _ {D : Type 0} ⦃d : Decimal D⦄ (laws : IsExact D) where
  total-insert_new :
      (k : ℕ) (cash : Dict ℕ D)
      → lookup ◌==◌ k cash ≡ none
      → total (amounts (insert ◌==◌ k nil_amount cash)) ≡ total (amounts cash)
  total-insert_new k cash h =
      total-insert-none ◌==◌ laws k nil_amount cash h ∙ laws.add-nought (total (amounts cash))

  pub total-set_default :
      (k : ℕ) (cash : Dict ℕ D)
      → total (amounts (set_default ◌==◌ k nil_amount cash)) ≡ total (amounts cash)
  total-set_default k cash = elim (Option-cases (lookup ◌==◌ k cash)) [
    | inl e ↦ rw (e, set_default) (total-insert_new k cash e)
    | inr (a, e) ↦ rw (e, set_default) refl
  ]

  pub total-add_cash :
      (k : ℕ) (v : D) (cash : Dict ℕ D) {after : Dict ℕ D}
      → add_cash k v cash ≡ ok after
      → total (amounts after) ≡ total (amounts cash) ⊕ v
  unfolding add_cash
  total-add_cash k v cash {after} h = elim (Option-cases (lookup ◌==◌ k cash)) [
    | inl e ↦
        let impossible : raised (key_missing k) ≡ ok after = rw (e, add_cash) at h in absurd (cc)
    | inr (a, e) ↦
        let made : ok (insert ◌==◌ k (a ⊕ v) cash) ≡ ok after = rw (e, add_cash) at h in
        rw (← ok-injective made) (total-insert-some ◌==◌ laws k a v cash e)
  ]
