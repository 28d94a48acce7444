-- ===== src/Governance/Tests.antt =====
-- A proposal from its creation to its approval.
use hawk_fund_investment_int.Prelude.{
  ℕ, ◌≡◌, ◌≢◌, refl, true, none, some, [], ◌∷◌, ok, raised, strip, Text, codes, find, ◌==◌,
}
use hawk_fund_investment_int.Int.{ℤ, pos, whole}
use hawk_fund_investment_int.Clock.{Datetime}
use hawk_fund_investment_int.Risk.Types.{pass, blocking}
use hawk_fund_investment_int.Governance.Types.{
  ProposalVersionInput, support, approve_proposal, approved, under_review, rejected, manager, draft,
  Raises,
}
use hawk_fund_investment_int.Governance.Types.ProposalAction.{buy}
use hawk_fund_investment_int.Governance.Records.{
  Store, InvestmentProposal, ProposalVersion, ProposalReview, ProposalAnalysis,
}
use hawk_fund_investment_int.Governance.Authorization.{authorize, permits}
use hawk_fund_investment_int.Governance.Evidence.{Digests}
use hawk_fund_investment_int.Governance.Workflow.{advance}
use hawk_fund_investment_int.Governance.Workflow.Laws.{advance_once}
use hawk_fund_investment_int.Governance.Drafting.{create, record_risk_analysis}
use hawk_fund_investment_int.Governance.Deciding.{submit, approve}
use hawk_fund_investment_int.Governance.Lifecycle.{IsConsistent}
use hawk_fund_investment_int.Governance.Lifecycle.Reach.{
  here, creates, next, analyses, submits, Reach-IsConsistent,
}
use hawk_fund_investment_int.Governance.Lifecycle.Terminal.{Reach-terminal}
use hawk_fund_investment_int.Governance.Approval.{
  IsApprovable, IsGranted, approve-IsApprovable, authorize-Grants,
}

abbrev at_time : ℕ → Datetime
at_time n = record { instant = n; aware = true }

abbrev hash : Text
hash = codes "0123456789abcdef0123456789abcdef0123456789abcdef0123456789abcdef"

abbrev digests : Digests ℤ
digests = record { of_content = λ _. hash; of_analysis = λ _. hash }

abbrev content : ProposalVersionInput ℤ
content = record {
  title = codes "Raise";
  thesis = codes "Cheap";
  portfolio_input_hash = hash;
  portfolio_as_of = at_time 1;
  lines =
      record {
        instrument_id = 4;
        action = buy;
        current_weight = pos 0;
        proposed_weight = pos 1;
        estimated_notional = pos 100;
        rationale = codes "Value";
      }
      ∷ [];
}

-- User 1 is the analyst of fund 1 and user 2 its manager.
abbrev opening : Store ℤ
opening = record {
  users = record { id = 1; is_active = true } ∷ record { id = 2; is_active = true } ∷ [];
  roles =
      record { id = 1; code = codes "analyst" } ∷ record { id = 2; code = codes "manager" } ∷ [];
  user_roles =
      record { user_id = 1; role_id = 1; fund_id = 1 }
      ∷ record { user_id = 2; role_id = 2; fund_id = 1 }
      ∷ [];
  risk_evaluations = record { id = 5; fund_id = 1; as_of = at_time 1; input_hash = hash } ∷ [];
  risk_items = record { evaluation_id = 5; rule_id = 6; status = pass } ∷ [];
  risk_rules = record { id = 6; metric_key = codes "volatility"; severity = blocking } ∷ [];
  scenario_runs = [];
  proposals = [];
  versions = [];
  lines = [];
  analyses = [];
  reviews = [];
  transitions = [];
  audit_events = [];
  fresh = 10;
}

opening-IsConsistent : IsConsistent opening
opening-IsConsistent = record { followed = tt; distinct = tt; proposals_old = tt; history_old = tt }

-- The value that a successful call returns.
abbrev stored : {A : Type 0} → Store ℤ → Raises (A × Store ℤ) → Store ℤ
stored s (ok (_, t)) = t
stored s (raised _) = s

abbrev returned : {A : Type 0} → A → Raises (A × Store ℤ) → A
returned d (ok (a, _)) = a
returned d (raised _) = d

abbrev no_proposal : InvestmentProposal
no_proposal = record {
  id = 0;
  fund_id = 0;
  created_by_user_id = 0;
  status = draft;
  current_version = 0;
  row_version = 0;
  created_at = at_time 0;
  updated_at = at_time 0;
}

abbrev no_analysis : ProposalAnalysis
no_analysis = record {
  id = 0;
  proposal_version_id = 0;
  risk_evaluation_id = 0;
  scenario_run_id = none;
  recorded_by_user_id = 0;
  recorded_at = at_time 0;
  evidence_hash = [];
}

abbrev creating : Raises (InvestmentProposal × Store ℤ)
creating = create digests 1 1 content (at_time 10) opening

abbrev drafted : Store ℤ
drafted = stored opening creating

abbrev analysing : Raises (ProposalAnalysis × Store ℤ)
analysing = record_risk_analysis digests 10 1 1 5 none (at_time 11) drafted

abbrev analysed : Store ℤ
analysed = stored opening analysing

abbrev submitting : Raises (InvestmentProposal × Store ℤ)
submitting = submit 10 1 2 (at_time 12) analysed

abbrev handed_in : Store ℤ
handed_in = stored opening submitting

create_runs : creating ≡ ok (returned no_proposal creating, drafted)
unfolding strip permits create
create_runs = refl

analysis_runs : analysing ≡ ok (returned no_analysis analysing, analysed)
unfolding strip permits create record_risk_analysis
analysis_runs = refl

submit_runs : submitting ≡ ok (returned no_proposal submitting, handed_in)
unfolding strip permits create record_risk_analysis submit
submit_runs = refl

-- The rows of a proposal under review.
abbrev proposal : InvestmentProposal
proposal = record {
  id = 1;
  fund_id = 1;
  created_by_user_id = 1;
  status = under_review;
  current_version = 1;
  row_version = 5;
  created_at = at_time 1;
  updated_at = at_time 5;
}

abbrev version_row : ProposalVersion
version_row = record {
  id = 2;
  proposal_id = 1;
  version = 1;
  title = codes "Raise";
  thesis = codes "Cheap";
  portfolio_input_hash = hash;
  portfolio_as_of = at_time 1;
  content_hash = hash;
  created_by_user_id = 1;
  created_at = at_time 1;
  supersedes_version_id = none;
}

abbrev analysis_row : ProposalAnalysis
analysis_row = record no_analysis { id = 3; proposal_version_id = 2; risk_evaluation_id = 5 }

abbrev review_row : ProposalReview
review_row = record {
  id = 4;
  proposal_id = 1;
  proposal_version_id = 2;
  reviewer_user_id = 2;
  reviewer_role = manager;
  recommendation = support;
  comment = codes "Fine";
  created_at = at_time 4;
}

abbrev reviewed : Store ℤ
reviewed = record opening {
  proposals = proposal ∷ [];
  versions = version_row ∷ [];
  analyses = analysis_row ∷ [];
  reviews = review_row ∷ [];
}

abbrev approving : Raises (InvestmentProposal × Store ℤ)
approving = approve 1 2 5 (codes "Yes") (at_time 15) reviewed

abbrev approved_proposal : InvestmentProposal
approved_proposal = returned no_proposal approving

abbrev decided : Store ℤ
decided = stored opening approving

approve_runs : approving ≡ ok (approved_proposal, decided)
unfolding strip permits approve
approve_runs = refl

approve-IsApprovable_example : IsApprovable reviewed 1 2 × (approved_proposal.status ≡ approved)
approve-IsApprovable_example =
    approve-IsApprovable 1 2 5 (codes "Yes") (at_time 15) reviewed {q = approved_proposal}
      {s' = decided} approve_runs

Reach-IsConsistent_example : IsConsistent handed_in
Reach-IsConsistent_example = Reach-IsConsistent digests opening-IsConsistent (
    next
      (next (creates here 1 1 content (at_time 10) create_runs)
        (analyses 10 1 1 5 none (at_time 11) analysis_runs))
      (submits 10 1 2 (at_time 12) submit_runs))

-- A proposal that is approved, and another one that follows.
abbrev closed_proposal : InvestmentProposal
closed_proposal = record proposal { status = approved }

abbrev closed : Store ℤ
closed = record reviewed { proposals = closed_proposal ∷ [] }

abbrev later_creating : Raises (InvestmentProposal × Store ℤ)
later_creating = create digests 1 1 content (at_time 20) closed

abbrev after_closed : Store ℤ
after_closed = stored opening later_creating

later_create_runs : later_creating ≡ ok (returned no_proposal later_creating, after_closed)
unfolding strip permits create
later_create_runs = refl

Reach-terminal_example : find (λ q. q.id == 1) after_closed.proposals ≡ some closed_proposal
Reach-terminal_example =
    Reach-terminal digests 1 closed_proposal refl refl
      (creates here 1 1 content (at_time 20) later_create_runs)

authorising : authorize 2 1 approve_proposal opening ≡ ok manager
unfolding permits authorize
authorising = refl

authorize-Grants_example : IsGranted 2 1 approve_proposal opening manager
authorize-Grants_example = authorize-Grants 2 1 approve_proposal opening authorising

abbrev first_update : Raises (InvestmentProposal × Store ℤ)
first_update = advance proposal 5 approved (at_time 15) none reviewed

abbrev updated : Store ℤ
updated = stored opening first_update

first_update_runs : first_update ≡ ok (returned no_proposal first_update, updated)
unfolding advance
first_update_runs = refl

advance_once_example :
    advance proposal 5 rejected (at_time 16) none updated ≢ ok (proposal, updated)
advance_once_example =
    advance_once proposal proposal 5 approved rejected (at_time 15) (at_time 16) none none reviewed
      updated updated (returned no_proposal first_update) proposal refl first_update_runs
