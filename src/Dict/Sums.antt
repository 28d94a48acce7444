-- ===== src/Dict/Sums.antt =====
-- The sum of the amounts in a dict, behind an insertion.
use mathlib.Core.Option.{some-injective}
use hawk_fund_investment_int.Prelude.{
  ◌≡◌, refl, sym, ap, ◌∙◌, Bool, Bool-cases, inl, inr, none, some, List, [], ◌∷◌, map,
}
use hawk_fund_investment_int.Number.{Decimal, IsExact, ◌⊕◌, total, total_from}
use hawk_fund_investment_int.Number.Sums.{add_right_comm, total-cons}
use hawk_fund_investment_int.Dict.Defs.{Dict, lookup, insert}

module _ {K D : Type 0} ⦃d : Decimal D⦄ (same : K → K → Bool) where
  abbrev pub values : Dict K D → List D
  values dict = map (λ e. e.1) dict

  module _ (laws : IsExact D) where
    pub total-insert-some :
        (k : K) (a v : D) (dict : Dict K D)
        → lookup same k dict ≡ some a
        → total (values (insert same k (a ⊕ v) dict)) ≡ total (values dict) ⊕ v
    total-insert-some k a v [] h = cc
    total-insert-some k a v ((j, w) ∷ dict) h = elim (Bool-cases (same j k)) [
      | inl e ↦
          let own : w ≡ a = some-injective _ _ (rw e at h) in
          rw e (
            total-cons laws (a ⊕ v) (values dict)
            ∙ add_right_comm laws a v (total (values dict))
            ∙ ap (λ x. (x ⊕ total (values dict)) ⊕ v) (sym own)
            ∙ ap (λ x. x ⊕ v) (sym (total-cons laws w (values dict))))
      | inr e ↦ rw e (
          total-cons laws w (values (insert same k (a ⊕ v) dict))
          ∙ ap (λ x. w ⊕ x) (total-insert-some k a v dict (rw e at h))
          ∙ sym (laws.add_assoc w (total (values dict)) v)
          ∙ ap (λ x. x ⊕ v) (sym (total-cons laws w (values dict))))
    ]

    pub total-insert-none :
        (k : K) (v : D) (dict : Dict K D)
        → lookup same k dict ≡ none
        → total (values (insert same k v dict)) ≡ total (values dict) ⊕ v
    unfolding total_from
    total-insert-none k v [] h = refl
    total-insert-none k v ((j, w) ∷ dict) h = elim (Bool-cases (same j k)) [
      | inl e ↦ let impossible : some w ≡ none = rw e at h in absurd (cc)
      | inr e ↦ rw e (
          total-cons laws w (values (insert same k v dict))
          ∙ ap (λ x. w ⊕ x) (total-insert-none k v dict (rw e at h))
          ∙ sym (laws.add_assoc w (total (values dict)) v)
          ∙ ap (λ x. x ⊕ v) (sym (total-cons laws w (values dict))))
    ]
