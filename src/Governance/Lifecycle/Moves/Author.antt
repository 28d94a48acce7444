-- ===== src/Governance/Lifecycle/Moves/Author.antt =====
-- The operations of an author, as moves: `submit`, `revise` and `record_analysis`.
use hawk_fund_investment_int.Prelude.{
  ℕ, suc, ◌≡◌, ◌⊎◌, inl, inr, refl, sym, true, not, ◌&&◌, Option, none, some, ok, arith, find, ◌==◌,
  ok-injective, after_ok, ap, raise_if, require, text_eq, Text,
}
use hawk_fund_investment_int.Number.{Decimal}
use hawk_fund_investment_int.Clock.{Datetime, same_instant}
use hawk_fund_investment_int.Governance.Types.{
  GovernanceRole, revise_proposal, record_analysis, submit_proposal, ProposalStatus, draft,
  submitted, revised, analyzed, submission, ProposalVersionInput, wrong_status, invalid,
  foreign_risk, other_cutoff, evidence_required, is_draft,
}
use hawk_fund_investment_int.Governance.Records.{
  InvestmentProposal, ProposalVersion, ProposalAnalysis, Store,
}
use hawk_fund_investment_int.Governance.Authorization.{authorize}
use hawk_fund_investment_int.Governance.Content.{validate_content}
use hawk_fund_investment_int.Governance.Evidence.{Digests, analysis_hash, required_clear_analysis}
use hawk_fund_investment_int.Governance.Workflow.{
  advance, proposal_by, require_owner, current_version_of, add_version,
}
use hawk_fund_investment_int.Governance.Lifecycle.{is_legal}
use hawk_fund_investment_int.Governance.Drafting.{
  can_revise, revise, matching_scenario, store_analysis, record_risk_analysis,
}
use hawk_fund_investment_int.Governance.Deciding.{submit}
use hawk_fund_investment_int.Governance.Lifecycle.Moves.{Moved, Allows, finish, fresh_after}

submit_legal :
    (st : ProposalStatus)
    → Allows (is_draft st)
    → (draft ≡ st) × (is_legal st submission submitted ≡ true)
submit_legal st h = ground arith

revise_legal : (st : ProposalStatus) → Allows (can_revise st) → is_legal st revised draft ≡ true
revise_legal st h = ground arith

analysis_legal :
    (st : ProposalStatus)
    → Allows (is_draft st)
    → (draft ≡ st) × (is_legal st analyzed draft ≡ true)
analysis_legal st h = ground arith

module _ {D : Type 0} where
  pub submit-Moved :
      (id actor expected : ℕ) (now : Datetime) (s : Store D) {q : InvestmentProposal} {s' : Store D}
      → submit id actor expected now s ≡ ok (q, s')
      → Moved s s'
  unfolding submit
  submit-Moved id actor expected now s {q} {s'} h = after_ok (proposal_by id s) _ h λ p found h1.
      after_ok (authorize actor p.fund_id submit_proposal s) _ h1 λ role _ h2.
        after_ok (require_owner p actor) _ h2 λ _ _ h3.
          after_ok (raise_if (not (is_draft p.status)) (invalid wrong_status)) _ h3 λ _ drafted h4.
            after_ok (current_version_of p s) _ h4 λ v _ h5.
              after_ok (required_clear_analysis v s) _ h5 λ a _ h6.
                after_ok (advance p expected submitted now none s) _ h6 λ m moved h7.
                  let (same, legal) = submit_legal p.status drafted in
                  finish id expected actor p m.0 submitted now none s m.1 m.1 s' v submission draft
                    role none _ found moved refl refl (omega arith) same legal
                    (ap (λ (x : InvestmentProposal × Store D). x.1) (ok-injective h7))

module _ {D : Type 0} ⦃d : Decimal D⦄ (digests : Digests D) where
  pub revise-Moved :
      (id actor expected : ℕ) (content : ProposalVersionInput D) (now : Datetime) (s : Store D)
      {q : InvestmentProposal} {s' : Store D}
      → revise digests id actor expected content now s ≡ ok (q, s')
      → Moved s s'
  unfolding revise add_version
  revise-Moved id actor expected content now s {q} {s'} h =
      after_ok (proposal_by id s) _ h λ p found h1.
        after_ok (authorize actor p.fund_id revise_proposal s) _ h1 λ role _ h2.
          after_ok (require_owner p actor) _ h2 λ _ _ h3.
            after_ok (raise_if (not (can_revise p.status)) (invalid wrong_status)) _ h3 λ _ st h4.
              after_ok (validate_content content) _ h4 λ _ _ h5.
                after_ok (current_version_of p s) _ h5 λ previous _ h6.
                  after_ok (advance p expected draft now (some (suc p.current_version)) s) _ h6
                    λ m moved h7.
                      finish id expected actor p m.0 draft now (some (suc p.current_version)) s m.1
                        _ s' (add_version digests m.0 actor content now (some previous.id) m.1).0
                        revised p.status role none _ found moved refl refl (omega arith) refl
                        (revise_legal p.status st)
                        (ap (λ (x : InvestmentProposal × Store D). x.1) (ok-injective h7))

  -- An analysis that is recorded again changes nothing.
  pub store_analysis-Moved :
      (id actor expected risk_id : ℕ) (p : InvestmentProposal) (v : ProposalVersion)
      (role : GovernanceRole) (scenario_id : Option ℕ) (hash : Text) (now : Datetime)
      (existing : Option ProposalAnalysis) (s : Store D) {a : ProposalAnalysis} {s' : Store D}
      → proposal_by id s ≡ ok p
      → Allows (is_draft p.status)
      → store_analysis digests p v actor role expected risk_id scenario_id hash now existing s
        ≡ ok (a, s')
      → Moved s s' ⊎ (s' ≡ s)
  store_analysis-Moved id actor expected risk_id p v role scenario_id hash now (some a) s found st
        h =
      inr (sym (ap (λ (x : ProposalAnalysis × Store D). x.1) (ok-injective h)))
  store_analysis-Moved id actor expected risk_id p v role scenario_id hash now none s {a} {s'} found
        st h =
      after_ok (advance p expected draft now none s) _ h λ m moved h1.
        let (same, legal) = analysis_legal p.status st in
        inl (
          finish id expected actor p m.0 draft now none s m.1 _ s' v analyzed draft role none _
            found moved refl refl (fresh_after p expected draft now none s moved) same legal
            (ap (λ (x : ProposalAnalysis × Store D). x.1) (ok-injective h1)))

  pub record_risk_analysis-Moved :
      (id actor expected risk_id : ℕ) (scenario_id : Option ℕ) (now : Datetime) (s : Store D)
      {a : ProposalAnalysis} {s' : Store D}
      → record_risk_analysis digests id actor expected risk_id scenario_id now s ≡ ok (a, s')
      → Moved s s' ⊎ (s' ≡ s)
  unfolding record_risk_analysis
  record_risk_analysis-Moved id actor expected risk_id scenario_id now s h =
      after_ok (proposal_by id s) _ h λ p found h1.
        after_ok (authorize actor p.fund_id record_analysis s) _ h1 λ role _ h2.
          after_ok (raise_if (not (is_draft p.status)) (invalid wrong_status)) _ h2 λ _ st h3.
            after_ok (current_version_of p s) _ h3 λ v _ h4.
              after_ok
                (require (find (λ r. r.id == risk_id) s.risk_evaluations)
                  (evidence_required foreign_risk))
                _ h4
                λ risk _ h5.
                  after_ok
                    (raise_if (not (risk.fund_id == p.fund_id)) (evidence_required foreign_risk)) _
                    h5
                    λ _ _ h6.
                      after_ok
                        (raise_if (not (same_instant risk.as_of v.portfolio_as_of))
                          (evidence_required other_cutoff))
                        _ h6
                        λ _ _ h7.
                          after_ok (matching_scenario digests p v scenario_id s) _ h7
                            λ scenario _ h8.
                              let hash = analysis_hash digests v risk scenario in
                              store_analysis-Moved id actor expected risk.id p v role scenario_id
                                hash now
                                (find
                                  (λ a.
                                    (a.proposal_version_id == v.id) && text_eq a.evidence_hash hash)
                                  s.analyses)
                                s found st h8
