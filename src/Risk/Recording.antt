-- ===== src/Risk/Recording.antt =====
-- `evaluate_and_record` writes an evaluation once, with its items.
use mathlib.Core.Option
use hawk_fund_investment_int.Prelude.{
  ℕ, suc, ◌≡◌, refl, ap, subst, true, false, Option, none, some, Option-cases, inl, inr, List, [],
  ◌∷◌, map, ok, after_ok, ok-injective, find, find-append_none, select, select-append, All, text_eq,
  ==_refl, text_eq_refl, ◌==◌, Text,
}
use hawk_fund_investment_int.Number.{Decimal, IsOrdered, IsExact}
use hawk_fund_investment_int.Clock.{Datetime}
use hawk_fund_investment_int.Dict.{Dict, lookup}
use hawk_fund_investment_int.Risk.Types.{PolicyEvaluationItem, PolicyRuleInput}
use hawk_fund_investment_int.Risk.Breaches.{
  verdict, excess, item_of-rule_id, item_of-status, item_of-breach_amount,
}
use hawk_fund_investment_int.Prelude.Order.{sorted}
use hawk_fund_investment_int.Risk.Policy.{item_of, rule_lt, evaluate_rule, evaluate}
use hawk_fund_investment_int.Risk.Service.{
  HashPayload, RiskPolicy, RiskEvaluation, RiskEvaluationItem, Tables, require_aware,
  is_same_evaluation, item_row, item_rows, rules_of, input_hash, policy_in_force, record_results,
  evaluate_and_record,
}

module _ {D : Type 0} (numeric : D → D) where
  select-item_rows :
      (id : ℕ) (ids : ℕ → ℕ) (n : ℕ) (results : List (PolicyEvaluationItem D))
      → select (λ i. i.evaluation_id == id) (item_rows numeric id ids n results)
        ≡ item_rows numeric id ids n results
  select-item_rows id ids n [] = refl
  select-item_rows id ids n (r ∷ rs) =
      rw (==_refl id)
        (ap (λ xs. item_row numeric (ids n) id r ∷ xs) (select-item_rows id ids (suc n) rs))

module _ {D : Type 0} where
  select-others :
      (id : ℕ) (items : List (RiskEvaluationItem D))
      → All (λ i. (i.evaluation_id == id) ≡ false) items
      → select (λ i. i.evaluation_id == id) items ≡ []
  select-others id [] h = refl
  select-others id (i ∷ is) h = rw h.0 (select-others id is h.1)

module _ {D : Type 0} ⦃d : Decimal D⦄ (numeric : D → D) where
  -- The row of a rule: its status and its breach amount are the ones that the policy gives it, and
  -- the amounts are those that the columns keep.
  abbrev pub IsRecorded : Dict Text D → RiskEvaluationItem D → PolicyRuleInput D → Type 0
  IsRecorded metrics i rule =
      let observed = lookup text_eq rule.metric_key metrics in
      (i.rule_id ≡ rule.rule_id)
      × (i.status ≡ verdict rule.operator observed rule.threshold)
      × (i.observed_value ≡ Option.map numeric observed)
      × (i.threshold ≡ numeric rule.threshold)
      × (i.breach_amount ≡ Option.map numeric (excess rule.operator observed rule.threshold))
      × (i.unit ≡ rule.unit)
      × (i.explanation ≡ (evaluate_rule metrics rule).explanation)

  -- The rows are those of the rules, in order and with nothing left over.
  abbrev pub AreRecorded :
      Dict Text D → List (RiskEvaluationItem D) → List (PolicyRuleInput D) → Type 0
  AreRecorded metrics [] [] = Unit
  AreRecorded metrics (i ∷ is) (r ∷ rs) = IsRecorded metrics i r × AreRecorded metrics is rs
  AreRecorded metrics _ _ = true ≡ false

  item_of-copied :
      (rule : PolicyRuleInput D) (observed : Option D)
      → let i = item_of rule observed in
        (i.observed_value ≡ observed) × (i.threshold ≡ rule.threshold) × (i.unit ≡ rule.unit)
  item_of-copied rule none = (refl, refl, refl)
  item_of-copied rule (some x) = (refl, refl, refl)

  module _ (ordered : IsOrdered D) (exact : IsExact D) where
    item_rows-AreRecorded :
        (metrics : Dict Text D) (id : ℕ) (ids : ℕ → ℕ) (n : ℕ) (rules : List (PolicyRuleInput D))
        → AreRecorded metrics (item_rows numeric id ids n (map (evaluate_rule metrics) rules)) rules
    item_rows-AreRecorded metrics id ids n [] = tt
    item_rows-AreRecorded metrics id ids n (r ∷ rs) =
        let observed = lookup text_eq r.metric_key metrics in
        let (value, threshold, unit) = item_of-copied r observed in
        (
          (
            item_of-rule_id ordered exact r observed,
            item_of-status ordered exact r observed,
            ap (λ o. Option.map numeric o) value,
            ap numeric threshold,
            ap (λ o. Option.map numeric o) (item_of-breach_amount ordered exact r observed),
            unit,
            refl,
          ),
          item_rows-AreRecorded metrics id ids (suc n) rs,
        )

module _ {D : Type 0} ⦃d : Decimal D⦄ (digest : HashPayload D → Text) where
  -- The evaluation of these inputs that the tables hold.
  abbrev pub recorded : ℕ → Datetime → Dict Text D → Tables D → Option RiskEvaluation
  recorded policy_id as_of metrics s =
      find (is_same_evaluation policy_id as_of (input_hash digest policy_id as_of metrics))
        s.evaluations

module _ {D : Type 0} ⦃d : Decimal D⦄ (digest : HashPayload D → Text) (numeric : D → D) where
  -- What a successful call has done.
  record Recorded (id : ℕ) (ids : ℕ → ℕ) (fund_id policy_id : ℕ) (as_of : Datetime)
      (metrics : Dict Text D) (created_at : Datetime) (s : Tables D)
      (r : (ℕ × List (PolicyEvaluationItem D)) × Tables D) : Type 0 where
    policy : RiskPolicy
    aware : require_aware as_of ≡ ok tt
    in_force : policy_in_force fund_id policy_id as_of s ≡ ok policy
    done :
        record_results numeric id ids fund_id policy_id as_of created_at
          (input_hash digest policy_id as_of metrics)
          (evaluate (rules_of policy_id s) metrics)
          (recorded digest policy_id as_of metrics s)
          s
        ≡ r

  evaluate_and_record-eq :
      (id : ℕ) (ids : ℕ → ℕ) (fund_id policy_id : ℕ) (as_of : Datetime) (metrics : Dict Text D)
      (created_at : Datetime) (s : Tables D) {policy : RiskPolicy} {found : Option RiskEvaluation}
      → require_aware as_of ≡ ok tt
      → require_aware created_at ≡ ok tt
      → policy_in_force fund_id policy_id as_of s ≡ ok policy
      → recorded digest policy_id as_of metrics s ≡ found
      → evaluate_and_record digest numeric id ids fund_id policy_id as_of metrics created_at s
        ≡ ok (
            record_results numeric id ids fund_id policy_id as_of created_at
              (input_hash digest policy_id as_of metrics)
              (evaluate (rules_of policy_id s) metrics)
              found
              s)
  unfolding evaluate_and_record
  evaluate_and_record-eq id ids fund_id policy_id as_of metrics created_at s a b f o =
      rw (a, b, f, o) refl

  module _ (id : ℕ) (ids : ℕ → ℕ) (fund_id policy_id : ℕ) (as_of : Datetime) (metrics : Dict Text D)
      (created_at : Datetime) (s : Tables D) where
    evaluate_and_record-Recorded :
        {r : (ℕ × List (PolicyEvaluationItem D)) × Tables D}
        → evaluate_and_record digest numeric id ids fund_id policy_id as_of metrics created_at s
          ≡ ok r
        → Recorded id ids fund_id policy_id as_of metrics created_at s r
    unfolding evaluate_and_record
    evaluate_and_record-Recorded h = after_ok (require_aware as_of) _ h λ _ a h1.
        after_ok (require_aware created_at) _ h1 λ _ _ h2.
          after_ok (policy_in_force fund_id policy_id as_of s) _ h2
            λ p f h3. record { policy = p; aware = a; in_force = f; done = ok-injective h3 }

    -- A successful call, made again at any later time with the same inputs, returns the same
    -- evaluation with the same results and writes nothing.
    pub evaluate_and_record_again :
        (id' : ℕ) (ids' : ℕ → ℕ) (later : Datetime)
        {r : (ℕ × List (PolicyEvaluationItem D)) × Tables D}
        → evaluate_and_record digest numeric id ids fund_id policy_id as_of metrics created_at s
          ≡ ok r
        → later.aware ≡ true
        → evaluate_and_record digest numeric id' ids' fund_id policy_id as_of metrics later r.1
          ≡ ok r
    unfolding policy_in_force
    evaluate_and_record_again id' ids' later {r} h zone =
        let did = evaluate_and_record-Recorded h in
        let hash = input_hash digest policy_id as_of metrics in
        let results = evaluate (rules_of policy_id s) metrics in
        let aware : require_aware later ≡ ok tt = rw zone refl in
        elim (Option-cases (recorded digest policy_id as_of metrics s)) [
          | inl e ↦
              subst
                (λ x.
                  evaluate_and_record digest numeric id' ids' fund_id policy_id as_of metrics later
                    x.1
                  ≡ ok x)
                (rw e at did.done)
                (evaluate_and_record-eq id' ids' fund_id policy_id as_of metrics later
                  (record_results numeric id ids fund_id policy_id as_of created_at hash results
                    none s).1
                  did.aware aware did.in_force
                  (find-append_none (is_same_evaluation policy_id as_of hash) s.evaluations _ e
                    (rw (==_refl policy_id, ==_refl as_of.instant, text_eq_refl hash) refl)))
          | inr (row, e) ↦
              subst
                (λ x.
                  evaluate_and_record digest numeric id' ids' fund_id policy_id as_of metrics later
                    x.1
                  ≡ ok x)
                (rw e at did.done)
                (evaluate_and_record-eq id' ids' fund_id policy_id as_of metrics later s did.aware
                  aware did.in_force e)
        ]

    -- Where the inputs have no evaluation yet and no item belongs to `id`, a successful call returns
    -- `id`, and the items of that evaluation are then those of the rules of the policy in the order
    -- of their identifiers, one each: unavailable without its metric, a breach exactly where the
    -- metric is beyond the threshold, with the metric, the threshold and the breach amount as the
    -- columns keep them, and with the unit of the rule and the explanation of its evaluation.
    pub evaluate_and_record-items :
        (ordered : IsOrdered D) (exact : IsExact D)
        {r : (ℕ × List (PolicyEvaluationItem D)) × Tables D}
        → evaluate_and_record digest numeric id ids fund_id policy_id as_of metrics created_at s
          ≡ ok r
        → recorded digest policy_id as_of metrics s ≡ none
        → All (λ i. (i.evaluation_id == id) ≡ false) s.items
        → (r.0.0 ≡ id)
          × AreRecorded numeric metrics
              (select (λ i. i.evaluation_id == id) r.1.items)
              (sorted rule_lt (rules_of policy_id s))
    unfolding evaluate
    evaluate_and_record-items ordered exact {r} h absent fresh =
        let did = evaluate_and_record-Recorded h in
        let results = evaluate (rules_of policy_id s) metrics in
        let rules = sorted rule_lt (rules_of policy_id s) in
        rw (← (rw absent at did.done)) (
          refl,
          rw
              (
                select-append (λ i. i.evaluation_id == id) s.items
                    (item_rows numeric id ids 0 results),
                select-others id s.items fresh,
                select-item_rows numeric id ids 0 results,
              )
              (item_rows-AreRecorded numeric ordered exact metrics id ids 0 rules),
        )
