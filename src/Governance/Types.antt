-- ===== src/Governance/Types.antt =====
-- apps/api/app/governance/types.py and errors.py.
use hawk_fund_investment_int.Prelude.{ℕ, List, Text, Bool, true, false, Outcome}
use hawk_fund_investment_int.Clock.{Datetime}

pub data GovernanceRole : Type 0 where
  analyst manager advisor : GovernanceRole

pub data Permission : Type 0 where
  create_proposal revise_proposal record_analysis submit_proposal start_review : Permission
  record_review request_changes approve_proposal reject_proposal withdraw_proposal : Permission
  view_governance use_ai_assistant : Permission

pub data ProposalStatus : Type 0 where
  draft submitted under_review changes_requested approved rejected withdrawn : ProposalStatus

pub data ProposalAction : Type 0 where
  buy sell exit hold : ProposalAction

pub data ReviewRecommendation : Type 0 where
  support oppose comment : ReviewRecommendation

-- `WorkflowAction`
pub data WorkflowAction : Type 0 where
  created revised analyzed submission review_started review_recorded : WorkflowAction
  change_request approval rejection withdrawal : WorkflowAction

pub record ProposalLineInput (D : Type 0) : Type 0 where
  pub instrument_id : ℕ
  pub action : ProposalAction
  pub current_weight : D
  pub proposed_weight : D
  pub estimated_notional : D
  pub rationale : Text

pub record ProposalVersionInput (D : Type 0) : Type 0 where
  pub title : Text
  pub thesis : Text
  pub portfolio_input_hash : Text
  pub portfolio_as_of : Datetime
  pub lines : List (ProposalLineInput D)

-- The messages of `AuthorizationDenied`.
pub data Denial : Type 0 where
  actor_inactive lacks_permission not_author own_proposal : Denial

-- The messages of `InvalidWorkflowTransition`.
pub data WorkflowFault : Type 0 where
  unknown_proposal missing_version wrong_status : WorkflowFault
  naive_timestamp timestamp_precedes comment_required reason_required review_required :
      WorkflowFault
  title_required bad_input_hash naive_cutoff no_lines repeated_instrument : WorkflowFault
  bad_weights bad_direction : WorkflowFault

-- The messages of `PolicyEvidenceRequired`.
pub data EvidenceFault : Type 0 where
  foreign_risk other_cutoff foreign_scenario no_analysis no_results : EvidenceFault
  blocked : List Text → EvidenceFault

pub data GovernanceError : Type 0 where
  denied : Denial → GovernanceError
  invalid : WorkflowFault → GovernanceError
  evidence_required : EvidenceFault → GovernanceError
  concurrent_update : GovernanceError

abbrev pub Raises : Type 0 → Type 0
Raises A = Outcome GovernanceError A

abbrev pub is_draft : ProposalStatus → Bool
is_draft ProposalStatus.draft = true
is_draft _ = false

abbrev pub is_under_review : ProposalStatus → Bool
is_under_review ProposalStatus.under_review = true
is_under_review _ = false
