-- ===== src/Governance/Records.antt =====
-- The tables of apps/api/app/models.py that the governance services read and write, as the rows of
-- a session. Identifiers that `uuid4` makes are drawn from a counter, `fresh`.
use hawk_fund_investment_int.Prelude.{ℕ, Option, List, Text, Bool}
use hawk_fund_investment_int.Clock.{Datetime}
use hawk_fund_investment_int.Risk.Types.{PolicyEvaluationStatus, PolicyRuleSeverity}
use hawk_fund_investment_int.Governance.Types.{
  GovernanceRole, ProposalStatus, ProposalAction, ReviewRecommendation, WorkflowAction,
}

pub record User : Type 0 where
  pub id : ℕ
  pub is_active : Bool

pub record Role : Type 0 where
  pub id : ℕ
  pub code : Text

pub record UserRole : Type 0 where
  pub user_id : ℕ
  pub role_id : ℕ
  pub fund_id : ℕ

-- The columns of the evidence tables that the services read.
pub record RiskEvaluation : Type 0 where
  pub id : ℕ
  pub fund_id : ℕ
  pub as_of : Datetime
  pub input_hash : Text

pub record RiskEvaluationItem : Type 0 where
  pub evaluation_id : ℕ
  pub rule_id : ℕ
  pub status : PolicyEvaluationStatus

pub record RiskPolicyRule : Type 0 where
  pub id : ℕ
  pub metric_key : Text
  pub severity : PolicyRuleSeverity

pub record ScenarioRun : Type 0 where
  pub id : ℕ
  pub fund_id : ℕ
  pub as_of : Datetime
  pub canonical_input_hash : Text

pub record InvestmentProposal : Type 0 where
  pub id : ℕ
  pub fund_id : ℕ
  pub created_by_user_id : ℕ
  pub status : ProposalStatus
  pub current_version : ℕ
  pub row_version : ℕ
  pub created_at : Datetime
  pub updated_at : Datetime

pub record ProposalVersion : Type 0 where
  pub id : ℕ
  pub proposal_id : ℕ
  pub version : ℕ
  pub title : Text
  pub thesis : Text
  pub portfolio_input_hash : Text
  pub portfolio_as_of : Datetime
  pub content_hash : Text
  pub created_by_user_id : ℕ
  pub created_at : Datetime
  pub supersedes_version_id : Option ℕ

pub record ProposalLine (D : Type 0) : Type 0 where
  pub id : ℕ
  pub proposal_version_id : ℕ
  pub instrument_id : ℕ
  pub action : ProposalAction
  pub current_weight : D
  pub proposed_weight : D
  pub estimated_notional : D
  pub rationale : Text

pub record ProposalAnalysis : Type 0 where
  pub id : ℕ
  pub proposal_version_id : ℕ
  pub risk_evaluation_id : ℕ
  pub scenario_run_id : Option ℕ
  pub recorded_by_user_id : ℕ
  pub recorded_at : Datetime
  pub evidence_hash : Text

pub record ProposalReview : Type 0 where
  pub id : ℕ
  pub proposal_id : ℕ
  pub proposal_version_id : ℕ
  pub reviewer_user_id : ℕ
  pub reviewer_role : GovernanceRole
  pub recommendation : ReviewRecommendation
  pub comment : Text
  pub created_at : Datetime

-- `_decision_provenance`
pub record Decision : Type 0 where
  pub proposal_version_id : ℕ
  pub proposal_content_hash : Text
  pub portfolio_input_hash : Text
  pub portfolio_as_of : Datetime
  pub analysis_id : ℕ
  pub analysis_evidence_hash : Text
  pub risk_evaluation_id : ℕ
  pub scenario_run_id : Option ℕ

-- The dictionaries that the operations store as `decision_provenance`.
pub data Provenance : Type 0 where
  of_content : Text → Provenance
  of_revision : Text → ℕ → Provenance
  of_analysis : ℕ → ℕ → Option ℕ → Text → Provenance
  of_review : ℕ → ReviewRecommendation → Provenance
  of_submission : Decision → Provenance
  of_approval : Decision → ℕ → Provenance

pub record ProposalTransition : Type 0 where
  pub id : ℕ
  pub proposal_id : ℕ
  pub proposal_version_id : ℕ
  pub action : WorkflowAction
  pub from_status : Option ProposalStatus
  pub to_status : ProposalStatus
  pub actor_user_id : ℕ
  pub actor_role : GovernanceRole
  pub reason : Option Text
  pub decision_provenance : Provenance
  pub occurred_at : Datetime
  pub resulting_row_version : ℕ

-- An audit event of a proposal; its action is the workflow action that it names.
pub record AuditEvent : Type 0 where
  pub id : ℕ
  pub fund_id : ℕ
  pub actor_user_id : ℕ
  pub action : WorkflowAction
  pub entity_id : ℕ
  pub occurred_at : Datetime
  pub transition_id : ℕ
  pub proposal_version_id : ℕ
  pub from_status : Option ProposalStatus
  pub to_status : ProposalStatus
  pub row_version : ℕ
  pub provenance : Provenance

pub record Store (D : Type 0) : Type 0 where
  pub users : List User
  pub roles : List Role
  pub user_roles : List UserRole
  pub risk_evaluations : List RiskEvaluation
  pub risk_items : List RiskEvaluationItem
  pub risk_rules : List RiskPolicyRule
  pub scenario_runs : List ScenarioRun
  pub proposals : List InvestmentProposal
  pub versions : List ProposalVersion
  pub lines : List (ProposalLine D)
  pub analyses : List ProposalAnalysis
  pub reviews : List ProposalReview
  pub transitions : List ProposalTransition
  pub audit_events : List AuditEvent
  pub fresh : ℕ
