-- ===== src/Governance/Lifecycle/Moves/Reviewer.antt =====
-- The operations of a reviewer and a withdrawal, as moves.
use hawk_fund_investment_int.Prelude.{
  ℕ, ◌≡◌, refl, Bool, true, false, not, ◌&&◌, Option, none, some, ok, arith, length, ◌==◌,
  ok-injective, after_ok, ap, raise_if, strip, is_empty, Text,
}
use hawk_fund_investment_int.Clock.{Datetime}
use hawk_fund_investment_int.Governance.Types.{
  Permission, start_review, record_review, request_changes, approve_proposal, reject_proposal,
  withdraw_proposal, ProposalStatus, under_review, changes_requested, approved, rejected, withdrawn,
  ReviewRecommendation, WorkflowAction, review_started, review_recorded, change_request, approval,
  rejection, withdrawal, wrong_status, comment_required, review_required, invalid, own_proposal,
  denied, is_under_review,
}
use hawk_fund_investment_int.Governance.Records.{InvestmentProposal, ProposalReview, Store}
use hawk_fund_investment_int.Governance.Authorization.{authorize}
use hawk_fund_investment_int.Governance.Evidence.{required_clear_analysis}
use hawk_fund_investment_int.Governance.Workflow.{
  advance, proposal_by, require_owner, required_reason, current_version_of,
}
use hawk_fund_investment_int.Governance.Lifecycle.{is_legal}
use hawk_fund_investment_int.Governance.Deciding.{
  can_review, can_start, can_withdraw, status_transition, begin_review, review, ask_changes,
  reviews_of, text_or_none, approve, reject, withdraw,
}
use hawk_fund_investment_int.Governance.Lifecycle.Moves.{Moved, Allows, Edges, finish, fresh_after}

approve_legal :
    (st : ProposalStatus)
    → Allows (is_under_review st)
    → (under_review ≡ st) × (is_legal st approval approved ≡ true)
approve_legal st h = ground arith

review_legal :
    (st : ProposalStatus) → Allows (can_review st) → is_legal st review_recorded st ≡ true
review_legal st h = ground arith

module _ {D : Type 0} where
  pub approve-Moved :
      (id actor expected : ℕ) (reason : Text) (now : Datetime) (s : Store D)
      {q : InvestmentProposal} {s' : Store D}
      → approve id actor expected reason now s ≡ ok (q, s')
      → Moved s s'
  unfolding approve
  approve-Moved id actor expected reason now s {q} {s'} h =
      after_ok (proposal_by id s) _ h λ p found h1.
        after_ok (authorize actor p.fund_id approve_proposal s) _ h1 λ role _ h2.
          after_ok (raise_if (actor == p.created_by_user_id) (denied own_proposal)) _ h2 λ _ _ h3.
            after_ok (raise_if (not (is_under_review p.status)) (invalid wrong_status)) _ h3
              λ _ st h4. after_ok (current_version_of p s) _ h4 λ v _ h5.
                after_ok (required_clear_analysis v s) _ h5 λ a _ h6.
                  after_ok (raise_if (length (reviews_of v s) == 0) (invalid review_required)) _ h6
                    λ _ _ h7. after_ok (advance p expected approved now none s) _ h7 λ m moved h8.
                      let (same, legal) = approve_legal p.status st in
                      finish id expected actor p m.0 approved now none s m.1 m.1 s' v approval
                        under_review role (text_or_none (strip reason)) _ found moved refl refl
                        (omega arith) same legal
                        (ap (λ (x : InvestmentProposal × Store D). x.1) (ok-injective h8))

  pub review-Moved :
      (id actor expected : ℕ) (recommendation : ReviewRecommendation) (comment : Text)
      (now : Datetime) (s : Store D) {row : ProposalReview} {s' : Store D}
      → review id actor expected recommendation comment now s ≡ ok (row, s')
      → Moved s s'
  unfolding review
  review-Moved id actor expected recommendation comment now s {row} {s'} h =
      after_ok (proposal_by id s) _ h λ p found h1.
        after_ok (authorize actor p.fund_id record_review s) _ h1 λ role _ h2.
          after_ok (raise_if (not (can_review p.status)) (invalid wrong_status)) _ h2 λ _ st h3.
            after_ok (raise_if (is_empty (strip comment)) (invalid comment_required)) _ h3 λ _ _ h4.
              after_ok (current_version_of p s) _ h4 λ v _ h5.
                after_ok (advance p expected p.status now none s) _ h5 λ m moved h6.
                  finish id expected actor p m.0 p.status now none s m.1 _ s' v review_recorded
                    p.status role (some (strip comment)) _ found moved refl refl
                    (fresh_after p expected p.status now none s moved) refl
                    (review_legal p.status st)
                    (ap (λ (x : ProposalReview × Store D). x.1) (ok-injective h6))

  pub status_transition-Moved :
      (id actor expected : ℕ) (permission : Permission) (allowed : ProposalStatus → Bool)
      (to : ProposalStatus) (action : WorkflowAction) (reason : Option Text) (now : Datetime)
      (no_self : Bool) (s : Store D) {q : InvestmentProposal} {s' : Store D}
      → Edges allowed action to
      → status_transition id actor expected permission allowed to action reason now no_self s
        ≡ ok (q, s')
      → Moved s s'
  unfolding status_transition
  status_transition-Moved id actor expected permission allowed to action reason now no_self s {q}
        {s'} edges h =
      after_ok (proposal_by id s) _ h λ p found h1.
        after_ok (authorize actor p.fund_id permission s) _ h1 λ role _ h2.
          after_ok (raise_if (no_self && (actor == p.created_by_user_id)) (denied own_proposal)) _
            h2
            λ _ _ h3.
              after_ok (raise_if (not (allowed p.status)) (invalid wrong_status)) _ h3 λ _ st h4.
                after_ok (current_version_of p s) _ h4 λ v _ h5.
                  after_ok (advance p expected to now none s) _ h5 λ m moved h6.
                    finish id expected actor p m.0 to now none s m.1 m.1 s' v action p.status role
                      reason _ found moved refl refl (omega arith) refl (edges p.status st)
                      (ap (λ (x : InvestmentProposal × Store D). x.1) (ok-injective h6))

  pub begin_review-Moved :
      (id actor expected : ℕ) (now : Datetime) (s : Store D) {q : InvestmentProposal} {s' : Store D}
      → begin_review id actor expected now s ≡ ok (q, s')
      → Moved s s'
  unfolding begin_review
  begin_review-Moved id actor expected now s h =
      status_transition-Moved id actor expected start_review can_start under_review review_started
        none now false s (λ st ok_status. ground arith) h

  pub ask_changes-Moved :
      (id actor expected : ℕ) (reason : Text) (now : Datetime) (s : Store D)
      {q : InvestmentProposal} {s' : Store D}
      → ask_changes id actor expected reason now s ≡ ok (q, s')
      → Moved s s'
  unfolding ask_changes
  ask_changes-Moved id actor expected reason now s h =
      after_ok (required_reason reason) _ h λ given _ h1.
        status_transition-Moved id actor expected request_changes can_review changes_requested
          change_request (some given) now false s (λ st ok_status. ground arith) h1

  pub reject-Moved :
      (id actor expected : ℕ) (reason : Text) (now : Datetime) (s : Store D)
      {q : InvestmentProposal} {s' : Store D}
      → reject id actor expected reason now s ≡ ok (q, s')
      → Moved s s'
  unfolding reject
  reject-Moved id actor expected reason now s h =
      after_ok (required_reason reason) _ h λ given _ h1.
        status_transition-Moved id actor expected reject_proposal is_under_review rejected rejection
          (some given) now true s (λ st ok_status. ground arith) h1

  pub withdraw-Moved :
      (id actor expected : ℕ) (reason : Text) (now : Datetime) (s : Store D)
      {q : InvestmentProposal} {s' : Store D}
      → withdraw id actor expected reason now s ≡ ok (q, s')
      → Moved s s'
  unfolding withdraw
  withdraw-Moved id actor expected reason now s h = after_ok (proposal_by id s) _ h λ p _ h1.
      after_ok (require_owner p actor) _ h1 λ _ _ h2.
        after_ok (required_reason reason) _ h2 λ given _ h3.
          status_transition-Moved id actor expected withdraw_proposal can_withdraw withdrawn
            withdrawal (some given) now false s (λ st ok_status. ground arith) h3
