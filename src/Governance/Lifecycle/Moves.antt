-- ===== src/Governance/Lifecycle/Moves.antt =====
-- What an operation of `ProposalService` does to the proposals and to the history: a move of one
-- proposal along a legal edge.
pub mod Author
pub mod Reviewer
use hawk_fund_investment_int.Prelude.{
  ℕ, suc, ◌+◌, ◌≤◌, ◌≡◌, ◌⊎◌, inl, inr, refl, sym, Bool, true, false, not, ◌&&◌, ◌||◌, Option, none,
  some, List, [], ◌∷◌, ◌++◌, Outcome, ok, raised, arith, select, length, find, ◌==◌, >>=-eq-ok,
  ok-injective, after_ok, ap, raise_if, require, strip, is_empty, text_eq, Text,
}
use hawk_fund_investment_int.Number.{Decimal}
use hawk_fund_investment_int.Clock.{Datetime, same_instant}
use hawk_fund_investment_int.Governance.Types.{
  GovernanceRole, Permission, revise_proposal, record_analysis, submit_proposal, start_review,
  record_review, request_changes, approve_proposal, reject_proposal, withdraw_proposal,
  GovernanceError, ProposalStatus, draft, submitted, under_review, changes_requested, approved,
  rejected, withdrawn, ReviewRecommendation, WorkflowAction, revised, analyzed, submission,
  review_started, review_recorded, change_request, approval, rejection, withdrawal,
  ProposalVersionInput, unknown_proposal, wrong_status, comment_required, review_required, invalid,
  own_proposal, denied, foreign_risk, other_cutoff, evidence_required, is_draft, is_under_review,
}
use hawk_fund_investment_int.Governance.Records.{
  InvestmentProposal, ProposalVersion, ProposalAnalysis, ProposalReview, Provenance,
  ProposalTransition, Store, of_submission,
}
use hawk_fund_investment_int.Governance.Authorization.{authorize}
use hawk_fund_investment_int.Governance.Content.{validate_content}
use hawk_fund_investment_int.Governance.Evidence.{
  Digests, analysis_hash, decision_provenance, required_clear_analysis,
}
use hawk_fund_investment_int.Governance.Workflow.{
  advance, advanced, is_row, update_rows, proposal_by, history, require_owner, required_reason,
  current_version_of, version_or, add_version,
}
use hawk_fund_investment_int.Governance.Workflow.Laws.{Advanced, advance-eq-ok}
use hawk_fund_investment_int.Governance.Lifecycle.{is_legal}
use hawk_fund_investment_int.Governance.Drafting.{
  can_revise, revise, matching_scenario, store_analysis, record_risk_analysis,
}
use hawk_fund_investment_int.Governance.Deciding.{
  can_review, can_start, can_withdraw, submit, status_transition, begin_review, review, ask_changes,
  reviews_of, text_or_none, approve, reject, withdraw,
}

-- One proposal has moved.
pub record Moved {D : Type 0} (s s' : Store D) : Type 0 where
  pub id : ℕ
  pub p : InvestmentProposal
  pub found : find (λ q. q.id == id) s.proposals ≡ some p
  pub expected : ℕ
  pub status : ProposalStatus
  pub current : ℕ
  pub now : Datetime
  pub one_row : length (select (is_row p.id expected) s.proposals) ≡ 1
  pub rows :
      s'.proposals
      ≡ update_rows p.id expected (advanced status current (suc expected) now) s.proposals
  pub entry : ProposalTransition
  pub logged : s'.transitions ≡ s.transitions ++ entry ∷ []
  pub of : entry.proposal_id ≡ p.id
  pub from : entry.from_status ≡ some p.status
  pub to : entry.to_status ≡ status
  pub versioned : entry.resulting_row_version ≡ suc expected
  pub legal : is_legal p.status entry.action status ≡ true
  pub older : s.fresh ≤ s'.fresh

-- The test of a status has passed.
abbrev pub Allows : Bool → Type 0
Allows b = raise_if (not b) (invalid wrong_status) ≡ ok tt

-- Every status that a test lets through has a legal edge.
abbrev pub Edges : (ProposalStatus → Bool) → WorkflowAction → ProposalStatus → Type 0
Edges allowed action to = (st : ProposalStatus) → Allows (allowed st) → is_legal st action to ≡ true

module _ {D : Type 0} where
  -- The end that all operations share: the update, rows of other tables, the history.
  pub finish :
      (id expected actor : ℕ) (p q : InvestmentProposal) (status : ProposalStatus) (now : Datetime)
      (version : Option ℕ) (s t after s' : Store D) (v : ProposalVersion) (action : WorkflowAction)
      (from : ProposalStatus) (role : GovernanceRole) (reason : Option Text)
      (provenance : Provenance)
      → proposal_by id s ≡ ok p
      → advance p expected status now version s ≡ ok (q, t)
      → after.proposals ≡ t.proposals
      → after.transitions ≡ t.transitions
      → t.fresh ≤ after.fresh
      → from ≡ p.status
      → is_legal p.status action status ≡ true
      → history q v action (some from) status actor role reason provenance now after ≡ s'
      → Moved s s'
  unfolding proposal_by history
  finish id expected actor p q status now version s t after s' v action from role reason provenance
        found moved rows kept older same legal logged =
      let done = advance-eq-ok p expected status now version s moved in
      record {
        id = id;
        p = p;
        found = ground arith;
        expected = expected;
        status = status;
        current = version_or p.current_version version;
        now = now;
        one_row = done.one_row;
        rows = rw (← logged) (rw (rows, done.store));
        entry = record {
          id = after.fresh;
          proposal_id = q.id;
          proposal_version_id = v.id;
          action = action;
          from_status = some from;
          to_status = status;
          actor_user_id = actor;
          actor_role = role;
          reason = reason;
          decision_provenance = provenance;
          occurred_at = now;
          resulting_row_version = q.row_version;
        };
        logged = rw (← logged) (rw (kept, done.store));
        of = rw done.proposal;
        from = rw same;
        to = refl;
        versioned = rw done.proposal;
        legal = legal;
        older =
            omega (
              arith,
              ap (λ (x : Store D). x.fresh) done.store,
              ap (λ (x : Store D). x.fresh) logged,
            );
      }

  pub fresh_after :
      (p : InvestmentProposal) (expected : ℕ) (status : ProposalStatus) (now : Datetime)
      (version : Option ℕ) (s : Store D) {m : InvestmentProposal × Store D}
      → advance p expected status now version s ≡ ok m
      → m.1.fresh ≤ suc s.fresh
  fresh_after p expected status now version s moved =
      let done = advance-eq-ok p expected status now version s moved in
      omega (arith, ap (λ (x : Store D). x.fresh) done.store)
