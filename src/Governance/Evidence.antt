-- ===== src/Governance/Evidence.antt =====
-- apps/api/app/governance/service.py: `_content_hash`, `_analysis_hash`, `_decision_provenance` and
-- `_required_clear_analysis`. The SHA-256 of a canonical JSON text is a parameter, of what it reads.
use hawk_fund_investment_int.Prelude.{
  ℕ, Bool, true, false, not, ◌&&◌, ◌||◌, Option, none, some, List, [], ◌∷◌, map, ok, ◌>>=◌, ◌>>◌,
  raise_if, require, select, find, text_lt, ltb, strip, is_empty, ◌==◌, if◌then◌else◌, Text,
}
use hawk_fund_investment_int.Prelude.Order.{sorted}
use hawk_fund_investment_int.Clock.{utc}
use hawk_fund_investment_int.Risk.Types.{
  PolicyEvaluationStatus, pass, breach, unavailable, PolicyRuleSeverity, blocking, warning,
}
use hawk_fund_investment_int.Governance.Types.{
  ProposalLineInput, ProposalVersionInput, no_analysis, no_results, blocked, evidence_required,
  Raises,
}
use hawk_fund_investment_int.Governance.Records.{
  RiskEvaluation, RiskEvaluationItem, RiskPolicyRule, ScenarioRun, ProposalVersion,
  ProposalAnalysis, Decision, Store,
}

-- What `_analysis_hash` puts into its payload.
pub record AnalysisPayload : Type 0 where
  pub proposal_content_hash : Text
  pub portfolio_input_hash : Text
  pub risk_evaluation_id : ℕ
  pub risk_input_hash : Text
  pub scenario_run_id : Option ℕ
  pub scenario_input_hash : Option Text

-- The two digests that the workflow stores.
pub record Digests (D : Type 0) : Type 0 where
  pub of_content : ProposalVersionInput D → Text
  pub of_analysis : AnalysisPayload → Text

module _ {D : Type 0} where
  abbrev pub instrument_lt : ProposalLineInput D → ProposalLineInput D → Bool
  instrument_lt l k = ltb l.instrument_id k.instrument_id

  unfoldable pub sorted_lines : List (ProposalLineInput D) → List (ProposalLineInput D)
  unfolding sorted
  sorted_lines ls = sorted instrument_lt ls

  abbrev pub trimmed_line : ProposalLineInput D → ProposalLineInput D
  trimmed_line l = record l { rationale = strip l.rationale }

  -- The payload of `_content_hash`: texts stripped, lines by instrument, the cutoff in UTC.
  unfoldable pub canonical_content : ProposalVersionInput D → ProposalVersionInput D
  unfolding sorted_lines utc
  canonical_content c = record {
    title = strip c.title;
    thesis = strip c.thesis;
    portfolio_input_hash = c.portfolio_input_hash;
    portfolio_as_of = utc c.portfolio_as_of;
    lines = map trimmed_line (sorted_lines c.lines);
  }

  unfoldable pub content_hash : Digests D → ProposalVersionInput D → Text
  unfolding canonical_content
  content_hash digests c = digests.of_content (canonical_content c)

  unfoldable pub analysis_hash :
      Digests D → ProposalVersion → RiskEvaluation → Option ScenarioRun → Text
  analysis_hash digests v risk scenario = digests.of_analysis (record {
    proposal_content_hash = v.content_hash;
    portfolio_input_hash = v.portfolio_input_hash;
    risk_evaluation_id = risk.id;
    risk_input_hash = risk.input_hash;
    scenario_run_id = elim scenario [ none ↦ none | some run ↦ some run.id ];
    scenario_input_hash = elim scenario [ none ↦ none | some run ↦ some run.canonical_input_hash ];
  })

unfoldable pub decision_provenance : ProposalVersion → ProposalAnalysis → Decision
unfolding utc
decision_provenance v a = record {
  proposal_version_id = v.id;
  proposal_content_hash = v.content_hash;
  portfolio_input_hash = v.portfolio_input_hash;
  portfolio_as_of = utc v.portfolio_as_of;
  analysis_id = a.id;
  analysis_evidence_hash = a.evidence_hash;
  risk_evaluation_id = a.risk_evaluation_id;
  scenario_run_id = a.scenario_run_id;
}

-- `order_by(recorded_at.desc(), id.desc()).limit(1)`
abbrev pub later : ProposalAnalysis → ProposalAnalysis → Bool
later a b =
    ltb b.recorded_at.instant a.recorded_at.instant
    || (a.recorded_at.instant == b.recorded_at.instant) && ltb b.id a.id

abbrev pub latest : List ProposalAnalysis → Option ProposalAnalysis
latest [] = none
latest (a ∷ rest) = elim (latest rest) [
  | none ↦ some a
  | some b ↦ if later b a then some b else some a
]

abbrev pub is_pass : PolicyEvaluationStatus → Bool
is_pass pass = true
is_pass breach = false
is_pass unavailable = false

abbrev pub is_blocking : PolicyRuleSeverity → Bool
is_blocking blocking = true
is_blocking warning = false

-- The join of the items of an evaluation and their rules.
abbrev pub Row : Type 0
Row = RiskEvaluationItem × RiskPolicyRule

abbrev pub join_items : ℕ → List RiskPolicyRule → List RiskEvaluationItem → List Row
join_items evaluation rules [] = []
join_items evaluation rules (i ∷ items) =
    let rest = join_items evaluation rules items in
    if i.evaluation_id == evaluation
    then elim (find (λ r. r.id == i.rule_id) rules) [ none ↦ rest | some r ↦ (i, r) ∷ rest ]
    else rest

abbrev pub blocks : Row → Bool
blocks (item, rule) = is_blocking rule.severity && not (is_pass item.status)

abbrev pub blockers : List Row → List Text
blockers rows = map (λ r. r.1.metric_key) (select blocks rows)

module _ {D : Type 0} where
  unfoldable pub analysis_of : ProposalVersion → Store D → Option ProposalAnalysis
  analysis_of v s = latest (select (λ a. a.proposal_version_id == v.id) s.analyses)

  unfoldable pub policy_rows : ProposalAnalysis → Store D → List Row
  policy_rows a s = join_items a.risk_evaluation_id s.risk_rules s.risk_items

  unfoldable pub required_clear_analysis : ProposalVersion → Store D → Raises ProposalAnalysis
  unfolding analysis_of policy_rows sorted
  required_clear_analysis v s = do
    analysis ← require (analysis_of v s) (evidence_required no_analysis)
    let rows = policy_rows analysis s
    raise_if (is_empty rows) (evidence_required no_results)
    raise_if (not (is_empty (blockers rows)))
        (evidence_required (blocked (sorted text_lt (blockers rows))))
    ok analysis
