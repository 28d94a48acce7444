-- ===== src/Governance/Drafting.antt =====
-- apps/api/app/governance/service.py: the operations of an author on a proposal, `create`, `revise`,
-- `record_analysis`. A call that raises leaves
-- the store alone, since it is rolled back or has not written; so only a success returns a store.
use hawk_fund_investment_int.Prelude.{
  ℕ, suc, Bool, true, false, not, ◌&&◌, ◌||◌, Option, none, some, [], ◌∷◌, ◌++◌, ok, ◌>>=◌, ◌>>◌,
  raise_if, require, find, text_eq, ◌==◌, Text,
}
use hawk_fund_investment_int.Number.{Decimal}
use hawk_fund_investment_int.Clock.{Datetime, same_instant}
use hawk_fund_investment_int.Governance.Types.{
  GovernanceRole, create_proposal, revise_proposal, record_analysis, ProposalStatus, draft,
  changes_requested, created, revised, analyzed, ProposalVersionInput, wrong_status, invalid,
  foreign_risk, other_cutoff, foreign_scenario, evidence_required, Raises, is_draft,
}
use hawk_fund_investment_int.Governance.Records.{
  InvestmentProposal, ProposalVersion, ProposalAnalysis, ScenarioRun, of_content, of_revision,
  of_analysis, Store,
}
use hawk_fund_investment_int.Governance.Authorization.{authorize}
use hawk_fund_investment_int.Governance.Content.{validate_content}
use hawk_fund_investment_int.Governance.Evidence.{Digests, analysis_hash}
use hawk_fund_investment_int.Governance.Workflow.{
  aware_required, require_owner, proposal_by, current_version_of, advance, add_version, history,
}

-- The statuses that each operation starts from.
abbrev pub can_revise : ProposalStatus → Bool
can_revise draft = true
can_revise changes_requested = true
can_revise _ = false

module _ {D : Type 0} ⦃d : Decimal D⦄ (digests : Digests D) where
  unfoldable pub create :
      ℕ → ℕ → ProposalVersionInput D → Datetime → Store D → Raises (InvestmentProposal × Store D)
  unfolding authorize validate_content add_version history
  create fund actor content now s = do
    role ← authorize actor fund create_proposal s
    validate_content content
    aware_required now
    let proposal : InvestmentProposal = record {
      id = s.fresh;
      fund_id = fund;
      created_by_user_id = actor;
      status = draft;
      current_version = 1;
      row_version = 1;
      created_at = now;
      updated_at = now;
    }
    let inserted = record s { proposals = s.proposals ++ proposal ∷ []; fresh = suc s.fresh }
    let versioned = add_version digests proposal actor content now none inserted
    let v = versioned.0
    ok (
      proposal,
      history proposal v created none draft actor role none (of_content v.content_hash) now
          versioned.1,
    )

  unfoldable pub revise :
      ℕ
      → ℕ
      → ℕ
      → ProposalVersionInput D
      → Datetime
      → Store D
      → Raises (InvestmentProposal × Store D)
  unfolding proposal_by authorize validate_content current_version_of advance add_version history
  revise id actor expected content now s = do
    p ← proposal_by id s
    role ← authorize actor p.fund_id revise_proposal s
    require_owner p actor
    raise_if (not (can_revise p.status)) (invalid wrong_status)
    validate_content content
    previous ← current_version_of p s
    moved ← advance p expected draft now (some (suc p.current_version)) s
    let versioned = add_version digests moved.0 actor content now (some previous.id) moved.1
    let v = versioned.0
    ok (
      moved.0,
      history moved.0 v revised (some p.status) draft actor role none
          (of_revision v.content_hash previous.id) now versioned.1,
    )

  -- The scenario run that an analysis names, where it matches the proposal.
  abbrev pub matching_scenario :
      InvestmentProposal → ProposalVersion → Option ℕ → Store D → Raises (Option ScenarioRun)
  matching_scenario p v none s = ok none
  matching_scenario p v (some run_id) s = do
    run ← require (find (λ r. r.id == run_id) s.scenario_runs) (evidence_required foreign_scenario)
    raise_if (not (run.fund_id == p.fund_id) || not (same_instant run.as_of v.portfolio_as_of))
        (evidence_required foreign_scenario)
    ok (some run)

  abbrev pub store_analysis :
      InvestmentProposal
      → ProposalVersion
      → ℕ
      → GovernanceRole
      → ℕ
      → ℕ
      → Option ℕ
      → Text
      → Datetime
      → Option ProposalAnalysis
      → Store D
      → Raises (ProposalAnalysis × Store D)
  store_analysis p v actor role expected risk_id scenario_id hash now (some existing) s =
      ok (existing, s)
  store_analysis p v actor role expected risk_id scenario_id hash now none s = do
    moved ← advance p expected draft now none s
    let analysis : ProposalAnalysis = record {
      id = s.fresh;
      proposal_version_id = v.id;
      risk_evaluation_id = risk_id;
      scenario_run_id = scenario_id;
      recorded_by_user_id = actor;
      recorded_at = now;
      evidence_hash = hash;
    }
    let added = record moved.1 { analyses = s.analyses ++ analysis ∷ []; fresh = suc s.fresh }
    ok (
      analysis,
      history moved.0 v analyzed (some draft) draft actor role none
          (of_analysis analysis.id risk_id scenario_id hash) now added,
    )

  unfoldable pub record_risk_analysis :
      ℕ → ℕ → ℕ → ℕ → Option ℕ → Datetime → Store D → Raises (ProposalAnalysis × Store D)
  unfolding proposal_by authorize current_version_of analysis_hash advance history
  record_risk_analysis id actor expected risk_id scenario_id now s = do
    p ← proposal_by id s
    role ← authorize actor p.fund_id record_analysis s
    raise_if (not (is_draft p.status)) (invalid wrong_status)
    v ← current_version_of p s
    risk ← require (find (λ r. r.id == risk_id) s.risk_evaluations) (evidence_required foreign_risk)
    raise_if (not (risk.fund_id == p.fund_id)) (evidence_required foreign_risk)
    raise_if (not (same_instant risk.as_of v.portfolio_as_of)) (evidence_required other_cutoff)
    scenario ← matching_scenario p v scenario_id s
    let hash = analysis_hash digests v risk scenario
    let existing =
        find (λ a. (a.proposal_version_id == v.id) && text_eq a.evidence_hash hash) s.analyses
    store_analysis p v actor role expected risk.id scenario_id hash now existing s
