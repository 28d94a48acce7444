-- ===== src/Risk/Service.antt =====
-- apps/api/app/risk/service.py: `RiskPolicyService.evaluate_and_record`. A rejected call raises
-- before any row is written. The SHA-256 of the canonical JSON is the parameter `digest`; what a
-- NUMERIC(28, 12) column keeps of an amount is the parameter `numeric`; the identifiers that `uuid4` gives to new rows are arguments.
use mathlib.Core.Option
use hawk_fund_investment_int.Prelude.{
  ℕ, suc, Bool, false, not, ◌&&◌, ◌||◌, Option, none, some, List, [], ◌∷◌, ◌++◌, map, Outcome, ok,
  ◌>>=◌, ◌>>◌, raise_if, require, find, select, text_eq, text_lt, ◌==◌, Text, codes,
}
use hawk_fund_investment_int.Prelude.Order.{sorted}
use hawk_fund_investment_int.Number.{Decimal}
use hawk_fund_investment_int.Clock.{Datetime, utc, before, not_after, same_instant}
use hawk_fund_investment_int.Dict.{Dict}
use hawk_fund_investment_int.Risk.Types.{
  PolicyRuleSeverity, PolicyRuleInput, PolicyEvaluationStatus, Explanation, PolicyEvaluationItem,
  RiskError, naive_timestamp, foreign_policy, not_effective,
}
use hawk_fund_investment_int.Risk.Policy.{evaluate}

-- Rows of `risk_policies`, `risk_policy_rules`, `risk_evaluations` and `risk_evaluation_items`, with
-- the columns that the service reads or writes.
pub record RiskPolicy : Type 0 where
  pub id : ℕ
  pub fund_id : ℕ
  pub effective_from : Datetime
  pub effective_to : Option Datetime

pub record RiskPolicyRule (D : Type 0) : Type 0 where
  pub policy_id : ℕ
  pub rule : PolicyRuleInput D
  pub severity : PolicyRuleSeverity

pub record RiskEvaluation : Type 0 where
  pub id : ℕ
  pub fund_id : ℕ
  pub policy_id : ℕ
  pub as_of : Datetime
  pub input_hash : Text
  pub calculation_version : Text
  pub created_at : Datetime

pub record RiskEvaluationItem (D : Type 0) : Type 0 where
  pub id : ℕ
  pub evaluation_id : ℕ
  pub rule_id : ℕ
  pub status : PolicyEvaluationStatus
  pub observed_value : Option D
  pub threshold : D
  pub breach_amount : Option D
  pub unit : Text
  pub explanation : Explanation D

pub record Tables (D : Type 0) : Type 0 where
  pub policies : List RiskPolicy
  pub rules : List (RiskPolicyRule D)
  pub evaluations : List RiskEvaluation
  pub items : List (RiskEvaluationItem D)

abbrev pub calculation_version : Text
calculation_version = codes "risk-policy-v1"

-- The document that `_hash` digests: the metrics in the order of their keys.
pub record HashPayload (D : Type 0) : Type 0 where
  pub policy_id : ℕ
  pub as_of : Datetime
  pub metrics : Dict Text D
  pub version : Text

abbrev pub Raises : Type 0 → Type 0
Raises A = Outcome RiskError A

abbrev pub require_aware : Datetime → Raises (Unit {0})
require_aware t = raise_if (not t.aware) naive_timestamp

-- `effective_to is not None and as_of >= effective_to`
abbrev pub has_ended : Option Datetime → Datetime → Bool
has_ended none as_of = false
has_ended (some end) as_of = not_after (utc end) as_of

abbrev pub is_same_evaluation : ℕ → Datetime → Text → RiskEvaluation → Bool
is_same_evaluation policy_id as_of hash e =
    (e.policy_id == policy_id) && same_instant e.as_of as_of && text_eq e.input_hash hash

module _ {D : Type 0} (numeric : D → D) where
  -- `RiskEvaluationItem(...)` of one result
  abbrev pub item_row : ℕ → ℕ → PolicyEvaluationItem D → RiskEvaluationItem D
  item_row id evaluation_id result = record {
    id = id;
    evaluation_id = evaluation_id;
    rule_id = result.rule_id;
    status = result.status;
    observed_value = Option.map numeric result.observed_value;
    threshold = numeric result.threshold;
    breach_amount = Option.map numeric result.breach_amount;
    unit = result.unit;
    explanation = result.explanation;
  }

  -- The rows of the results, each with an identifier of its own.
  abbrev pub item_rows :
      ℕ → (ℕ → ℕ) → ℕ → List (PolicyEvaluationItem D) → List (RiskEvaluationItem D)
  item_rows evaluation_id ids n [] = []
  item_rows evaluation_id ids n (r ∷ rs) =
      item_row (ids n) evaluation_id r ∷ item_rows evaluation_id ids (suc n) rs

module _ {D : Type 0} where
  abbrev pub rules_of : ℕ → Tables D → List (PolicyRuleInput D)
  rules_of policy_id s = map (λ r. r.rule) (select (λ r. r.policy_id == policy_id) s.rules)

  -- The policy of the fund, in force at the cutoff.
  unfoldable pub policy_in_force : ℕ → ℕ → Datetime → Tables D → Raises RiskPolicy
  unfolding utc
  policy_in_force fund_id policy_id as_of s = do
    policy ← require (find (λ p. p.id == policy_id) s.policies) foreign_policy
    raise_if (not (policy.fund_id == fund_id)) foreign_policy
    raise_if (before as_of (utc policy.effective_from) || has_ended policy.effective_to as_of)
        not_effective
    ok policy

  -- What is returned and left behind where an evaluation of the inputs is there, and where none is.
  abbrev pub record_results :
      (D → D)
      → ℕ
      → (ℕ → ℕ)
      → ℕ
      → ℕ
      → Datetime
      → Datetime
      → Text
      → List (PolicyEvaluationItem D)
      → Option RiskEvaluation
      → Tables D
      → (ℕ × List (PolicyEvaluationItem D)) × Tables D
  record_results numeric id ids fund_id policy_id as_of created_at hash results (some e) s =
      ((e.id, results), s)
  record_results numeric id ids fund_id policy_id as_of created_at hash results none s =
      let row : RiskEvaluation = record {
        id = id;
        fund_id = fund_id;
        policy_id = policy_id;
        as_of = as_of;
        input_hash = hash;
        calculation_version = calculation_version;
        created_at = created_at;
      } in
      (
        (id, results),
        record s {
          evaluations = s.evaluations ++ row ∷ [];
          items = s.items ++ item_rows numeric id ids 0 results;
        },
      )

module _ {D : Type 0} ⦃d : Decimal D⦄ (digest : HashPayload D → Text) where
  unfoldable pub input_hash : ℕ → Datetime → Dict Text D → Text
  unfolding utc sorted
  input_hash policy_id as_of metrics = digest (record {
    policy_id = policy_id;
    as_of = utc as_of;
    metrics = sorted (λ x y. text_lt x.0 y.0) metrics;
    version = calculation_version;
  })

module _ {D : Type 0} ⦃d : Decimal D⦄ (digest : HashPayload D → Text) (numeric : D → D) where
  unfoldable pub evaluate_and_record :
      ℕ
      → (ℕ → ℕ)
      → ℕ
      → ℕ
      → Datetime
      → Dict Text D
      → Datetime
      → Tables D
      → Raises ((ℕ × List (PolicyEvaluationItem D)) × Tables D)
  unfolding policy_in_force evaluate input_hash
  evaluate_and_record id ids fund_id policy_id as_of metrics created_at s = do
    require_aware as_of
    require_aware created_at
    policy ← policy_in_force fund_id policy_id as_of s
    let results = evaluate (rules_of policy_id s) metrics
    let hash = input_hash digest policy_id as_of metrics
    let existing = find (is_same_evaluation policy_id as_of hash) s.evaluations
    ok (record_results numeric id ids fund_id policy_id as_of created_at hash results existing s)
