-- ===== src/Risk/Breaches.antt =====
-- A rule is breached when the metric is beyond its threshold, in whatever order the rules come.
use hawk_fund_investment_int.Prelude.{
  ◌≡◌, refl, ap, sym, ◌≢◌, Bool, Bool-cases, true, false, inl, inr, ◌⊎◌, Option, none, some, List,
  [], ◌∷◌, map, arith, Text, text_eq, if◌then◌else◌,
}
use hawk_fund_investment_int.Prelude.Order.{sorted, Apart, IsStrict, sorted-perm, Apart-weaken}
use mathlib.Core.List.{Permᴰ}
use hawk_fund_investment_int.Number.{Decimal, IsOrdered, IsExact, nil_amount, ◌⊖◌, ◌≺◌}
use hawk_fund_investment_int.Dict.{Dict, lookup}
use hawk_fund_investment_int.Risk.Types.{
  PolicyOperator, at_most, at_least, PolicyEvaluationStatus, pass, breach, unavailable,
  PolicyRuleInput, PolicyEvaluationItem,
}
use hawk_fund_investment_int.Risk.Policy.{amount_of, item_of, rule_lt, evaluate_rule, evaluate}

module _ {D : Type 0} ⦃d : Decimal D⦄ where
  -- The value is on the wrong side of the threshold, the threshold itself not.
  abbrev pub is_beyond : PolicyOperator → D → D → Bool
  is_beyond at_most observed threshold = threshold ≺ observed
  is_beyond at_least observed threshold = observed ≺ threshold

  abbrev pub verdict : PolicyOperator → Option D → D → PolicyEvaluationStatus
  verdict operator none threshold = unavailable
  verdict operator (some observed) threshold =
      if is_beyond operator observed threshold then breach else pass

  -- How far the value is beyond the threshold.
  abbrev pub distance : PolicyOperator → D → D → D
  distance at_most observed threshold = observed ⊖ threshold
  distance at_least observed threshold = threshold ⊖ observed

  abbrev pub excess : PolicyOperator → Option D → D → Option D
  excess operator none threshold = none
  excess operator (some observed) threshold = some (
      if is_beyond operator observed threshold
      then distance operator observed threshold
      else nil_amount)

  -- What the policy says of a rule on the metrics: its status and its breach amount.
  abbrev pub IsJudged : Dict Text D → PolicyEvaluationItem D → PolicyRuleInput D → Type 0
  IsJudged metrics item rule =
      let observed = lookup text_eq rule.metric_key metrics in
      (item.rule_id ≡ rule.rule_id)
      × (item.status ≡ verdict rule.operator observed rule.threshold)
      × (item.breach_amount ≡ excess rule.operator observed rule.threshold)

  abbrev pub AreJudged :
      Dict Text D → List (PolicyEvaluationItem D) → List (PolicyRuleInput D) → Type 0
  AreJudged metrics [] [] = Unit
  AreJudged metrics (i ∷ is) (r ∷ rs) = IsJudged metrics i r × AreJudged metrics is rs
  AreJudged metrics _ _ = true ≡ false

  module _ (ordered : IsOrdered D) (exact : IsExact D) where
    above-amount :
        (operator : PolicyOperator) (observed threshold : D)
        → (nil_amount ≺ amount_of operator observed threshold)
          ≡ is_beyond operator observed threshold
    above-amount at_most observed threshold = exact.lt-sub observed threshold
    above-amount at_least observed threshold = exact.lt-sub threshold observed

    amount_of-distance :
        (operator : PolicyOperator) (observed threshold : D)
        → amount_of operator observed threshold ≡ distance operator observed threshold
    amount_of-distance at_most observed threshold = refl
    amount_of-distance at_least observed threshold = refl

    pub item_of-rule_id :
        (rule : PolicyRuleInput D) (observed : Option D)
        → (item_of rule observed).rule_id ≡ rule.rule_id
    item_of-rule_id rule none = refl
    item_of-rule_id rule (some x) = refl

    pub item_of-status :
        (rule : PolicyRuleInput D) (observed : Option D)
        → (item_of rule observed).status ≡ verdict rule.operator observed rule.threshold
    item_of-status rule none = refl
    item_of-status rule (some x) =
        ap (λ b. if b then breach else pass) (above-amount rule.operator x rule.threshold)

    pub item_of-breach_amount :
        (rule : PolicyRuleInput D) (observed : Option D)
        → (item_of rule observed).breach_amount ≡ excess rule.operator observed rule.threshold
    item_of-breach_amount rule none = refl
    item_of-breach_amount rule (some x) =
        let amount = amount_of rule.operator x rule.threshold in
        elim (Bool-cases (nil_amount ≺ amount)) [
          | inl e ↦
              rw
                (
                  e,
                  ordered.lt_asymm nil_amount amount e,
                  ← above-amount rule.operator x rule.threshold,
                  e,
                )
                (ap some (amount_of-distance rule.operator x rule.threshold))
          | inr e ↦ rw (e, ← above-amount rule.operator x rule.threshold, e) refl
        ]

    judged :
        (metrics : Dict Text D) (rules : List (PolicyRuleInput D))
        → AreJudged metrics (map (evaluate_rule metrics) rules) rules
    judged metrics [] = tt
    judged metrics (r ∷ rs) =
        let observed = lookup text_eq r.metric_key metrics in
        (
          (item_of-rule_id r observed, item_of-status r observed, item_of-breach_amount r observed),
          judged metrics rs,
        )

    rule_lt-IsStrict : IsStrict (rule_lt {D = D})
    rule_lt-IsStrict = record { asymm = λ p q h. ground arith; trans = λ p q r h k. ground arith }

    rule_lt_total :
        (p q : PolicyRuleInput D)
        → p.rule_id ≢ q.rule_id
        → (rule_lt p q ≡ true) ⊎ (rule_lt q p ≡ true)
    rule_lt_total p q h = ground arith

    -- The items are the rules in the order of their identifiers, whatever order the rules come in
    -- where no two share an identifier. A rule is unavailable when its metric is not there, and is
    -- breached exactly when the metric is beyond the threshold; then the breach amount is the
    -- difference, and else it is zero.
    pub evaluate-AreJudged :
        {rules others : List (PolicyRuleInput D)} (metrics : Dict Text D)
        → Permᴰ rules others
        → Apart (λ p q. p.rule_id ≢ q.rule_id) rules
        → AreJudged metrics (evaluate rules metrics) (sorted rule_lt rules)
          × (evaluate others metrics ≡ evaluate rules metrics)
    unfolding evaluate
    evaluate-AreJudged {rules} {others} metrics perm distinct = (
      judged metrics (sorted rule_lt rules),
      ap (λ rs. map (evaluate_rule metrics) rs)
          (sym (
            sorted-perm rule_lt rule_lt-IsStrict perm
              (Apart-weaken _ _ rules rule_lt_total distinct))),
    )
