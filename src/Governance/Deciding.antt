-- ===== src/Governance/Deciding.antt =====
-- apps/api/app/governance/service.py: `submit` and the operations that decide on a proposal:
-- `start_review`, `record_review`, `request_changes`, `approve`, `reject` and `withdraw`. A call that
-- raises leaves the store alone, so only a success returns a store.
use hawk_fund_investment_int.Prelude.{
  ℕ, suc, Bool, true, false, not, ◌&&◌, Option, none, some, List, [], ◌∷◌, ◌++◌, ok, ◌>>=◌, ◌>>◌,
  raise_if, select, length, strip, is_empty, ◌==◌, Text,
}
use hawk_fund_investment_int.Clock.{Datetime}
use hawk_fund_investment_int.Governance.Types.{
  Permission, submit_proposal, start_review, record_review, request_changes, approve_proposal,
  reject_proposal, withdraw_proposal, ProposalStatus, draft, submitted, under_review,
  changes_requested, approved, rejected, withdrawn, ReviewRecommendation, WorkflowAction,
  submission, review_started, review_recorded, change_request, approval, rejection, withdrawal,
  wrong_status, comment_required, review_required, invalid, own_proposal, denied, Raises, is_draft,
  is_under_review,
}
use hawk_fund_investment_int.Governance.Records.{
  InvestmentProposal, ProposalVersion, ProposalReview, of_content, of_review, of_submission,
  of_approval, Store,
}
use hawk_fund_investment_int.Governance.Authorization.{authorize}
use hawk_fund_investment_int.Governance.Evidence.{decision_provenance, required_clear_analysis}
use hawk_fund_investment_int.Governance.Workflow.{
  require_owner, required_reason, proposal_by, current_version_of, advance, history,
}

-- The statuses that each operation starts from.
abbrev pub can_review : ProposalStatus → Bool
can_review submitted = true
can_review under_review = true
can_review _ = false

abbrev pub can_start : ProposalStatus → Bool
can_start submitted = true
can_start _ = false

abbrev pub can_withdraw : ProposalStatus → Bool
can_withdraw draft = true
can_withdraw submitted = true
can_withdraw changes_requested = true
can_withdraw _ = false

-- `reason.strip() or None`
abbrev pub text_or_none : Text → Option Text
text_or_none [] = none
text_or_none (c ∷ s) = some (c ∷ s)

module _ {D : Type 0} where
  unfoldable pub submit : ℕ → ℕ → ℕ → Datetime → Store D → Raises (InvestmentProposal × Store D)
  unfolding proposal_by authorize current_version_of required_clear_analysis advance history
      decision_provenance
  submit id actor expected now s = do
    p ← proposal_by id s
    role ← authorize actor p.fund_id submit_proposal s
    require_owner p actor
    raise_if (not (is_draft p.status)) (invalid wrong_status)
    v ← current_version_of p s
    analysis ← required_clear_analysis v s
    moved ← advance p expected submitted now none s
    ok (
      moved.0,
      history moved.0 v submission (some draft) submitted actor role none
          (of_submission (decision_provenance v analysis)) now moved.1,
    )

  -- `_status_transition`, with its arguments in the source's order.
  unfoldable pub status_transition :
      ℕ
      → ℕ
      → ℕ
      → Permission
      → (ProposalStatus → Bool)
      → ProposalStatus
      → WorkflowAction
      → Option Text
      → Datetime
      → Bool
      → Store D
      → Raises (InvestmentProposal × Store D)
  unfolding proposal_by authorize current_version_of advance history
  status_transition id actor expected permission allowed to action reason now no_self s = do
    p ← proposal_by id s
    role ← authorize actor p.fund_id permission s
    raise_if (no_self && (actor == p.created_by_user_id)) (denied own_proposal)
    raise_if (not (allowed p.status)) (invalid wrong_status)
    v ← current_version_of p s
    moved ← advance p expected to now none s
    ok (
      moved.0,
      history moved.0 v action (some p.status) to actor role reason (of_content v.content_hash) now
          moved.1,
    )

  unfoldable pub begin_review :
      ℕ → ℕ → ℕ → Datetime → Store D → Raises (InvestmentProposal × Store D)
  unfolding status_transition
  begin_review id actor expected now s =
      status_transition id actor expected start_review can_start under_review review_started none
        now false s

  unfoldable pub review :
      ℕ
      → ℕ
      → ℕ
      → ReviewRecommendation
      → Text
      → Datetime
      → Store D
      → Raises (ProposalReview × Store D)
  unfolding proposal_by authorize current_version_of advance history
  review id actor expected recommendation comment now s = do
    p ← proposal_by id s
    role ← authorize actor p.fund_id record_review s
    raise_if (not (can_review p.status)) (invalid wrong_status)
    raise_if (is_empty (strip comment)) (invalid comment_required)
    v ← current_version_of p s
    moved ← advance p expected p.status now none s
    let row : ProposalReview = record {
      id = s.fresh;
      proposal_id = p.id;
      proposal_version_id = v.id;
      reviewer_user_id = actor;
      reviewer_role = role;
      recommendation = recommendation;
      comment = strip comment;
      created_at = now;
    }
    let added = record moved.1 { reviews = s.reviews ++ row ∷ []; fresh = suc s.fresh }
    ok (
      row,
      history moved.0 v review_recorded (some p.status) p.status actor role (some (strip comment))
          (of_review row.id recommendation) now added,
    )

  unfoldable pub ask_changes :
      ℕ → ℕ → ℕ → Text → Datetime → Store D → Raises (InvestmentProposal × Store D)
  unfolding status_transition required_reason
  ask_changes id actor expected reason now s = do
    given ← required_reason reason
    status_transition id actor expected request_changes can_review changes_requested change_request
        (some given) now false s

  -- The reviews of a version.
  abbrev pub reviews_of : ProposalVersion → Store D → List ProposalReview
  reviews_of v s = select (λ r. r.proposal_version_id == v.id) s.reviews

  unfoldable pub approve :
      ℕ → ℕ → ℕ → Text → Datetime → Store D → Raises (InvestmentProposal × Store D)
  unfolding proposal_by authorize current_version_of required_clear_analysis advance history
      decision_provenance
  approve id actor expected reason now s = do
    p ← proposal_by id s
    role ← authorize actor p.fund_id approve_proposal s
    raise_if (actor == p.created_by_user_id) (denied own_proposal)
    raise_if (not (is_under_review p.status)) (invalid wrong_status)
    v ← current_version_of p s
    analysis ← required_clear_analysis v s
    let review_count = length (reviews_of v s)
    raise_if (review_count == 0) (invalid review_required)
    moved ← advance p expected approved now none s
    ok (
      moved.0,
      history moved.0 v approval (some under_review) approved actor role
          (text_or_none (strip reason)) (of_approval (decision_provenance v analysis) review_count)
          now moved.1,
    )

  unfoldable pub reject :
      ℕ → ℕ → ℕ → Text → Datetime → Store D → Raises (InvestmentProposal × Store D)
  unfolding status_transition required_reason
  reject id actor expected reason now s = do
    given ← required_reason reason
    status_transition id actor expected reject_proposal is_under_review rejected rejection
        (some given) now true s

  unfoldable pub withdraw :
      ℕ → ℕ → ℕ → Text → Datetime → Store D → Raises (InvestmentProposal × Store D)
  unfolding proposal_by status_transition required_reason
  withdraw id actor expected reason now s = do
    p ← proposal_by id s
    require_owner p actor
    given ← required_reason reason
    status_transition id actor expected withdraw_proposal can_withdraw withdrawn withdrawal
        (some given) now false s
