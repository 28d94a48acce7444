-- ===== src/Governance/Approval.antt =====
-- What an approval rests on: who may give it and on which evidence; and what stands behind the role
-- that a call is authorised in.
use hawk_fund_investment_int.Prelude.{
  ℕ, ◌<◌, ◌≡◌, ◌≢◌, sym, ap, true, not, none, some, List, [], ◌∷◌, ok, arith, All, after_ok,
  raise_if, require, find, select, length, is_empty, ◌==◌, Text, ok-injective, subst,
  raise_if-eq-ok, text_lt, ==→ne, is_empty→ne, ◌∙◌,
}
use hawk_fund_investment_int.Prelude.Order.{sorted}
use hawk_fund_investment_int.Clock.{Datetime}
use hawk_fund_investment_int.Risk.Types.{pass, blocking}
use hawk_fund_investment_int.Governance.Types.{
  GovernanceRole, manager, Permission, approve_proposal, under_review, approved, invalid,
  wrong_status, review_required, own_proposal, denied, actor_inactive, no_results, no_analysis,
  blocked, evidence_required, is_under_review,
}
use hawk_fund_investment_int.Governance.Records.{
  InvestmentProposal, ProposalVersion, ProposalAnalysis, Store, User,
}
use hawk_fund_investment_int.Governance.Grants.{
  IsCode, least_role-All, select-All, All-Mem, known_roles-All, codes_of-All,
}
use hawk_fund_investment_int.Governance.Authorization.{
  permits, authorize, granted_roles, known_roles, codes_of, role_of_code,
}
use hawk_fund_investment_int.Governance.Evidence.{
  Row, blockers, analysis_of, policy_rows, required_clear_analysis,
}
use hawk_fund_investment_int.Governance.Workflow.{advance, proposal_by, current_version_of}
use hawk_fund_investment_int.Governance.Workflow.Laws.{advance-eq-ok}
use hawk_fund_investment_int.Governance.Deciding.{reviews_of, approve}

module _ {D : Type 0} where
  -- What stands behind a role that a call is authorised in.
  pub record IsGranted (actor fund : ℕ) (permission : Permission) (s : Store D)
      (role : GovernanceRole) : Type 0 where
    pub user : User
    pub found : find (λ u. u.id == actor) s.users ≡ some user
    pub active : user.is_active ≡ true
    pub code : Text
    pub granted : IsCode actor fund s.roles s.user_roles code
    pub names : role_of_code code ≡ some role
    pub permitted : permits role permission ≡ true

  -- A call is authorised only for an active user, in a role that is granted to that user in that
  -- fund, and that has the permission.
  pub authorize-Grants :
      (actor fund : ℕ) (permission : Permission) (s : Store D) {role : GovernanceRole}
      → authorize actor fund permission s ≡ ok role
      → IsGranted actor fund permission s role
  unfolding authorize granted_roles
  authorize-Grants actor fund permission s {role} h =
      after_ok (require (find (λ u. u.id == actor) s.users) (denied actor_inactive)) _ h
        λ user found h1.
          after_ok (raise_if (not user.is_active) (denied actor_inactive)) _ h1 λ _ active h2.
            let codes = codes_of actor fund s.roles s.user_roles in
            let IsCodeHere = IsCode actor fund s.roles s.user_roles in
            let ((code, granted, names), permitted) =
              least_role-All
                (λ r.
                  ((code : Text) × IsCodeHere code × (role_of_code code ≡ some r))
                  × (permits r permission ≡ true))
                (select (λ r. permits r permission) (known_roles codes))
                (select-All (λ r. (code : Text) × IsCodeHere code × (role_of_code code ≡ some r))
                  (λ r. permits r permission) (known_roles codes)
                  (known_roles-All IsCodeHere codes (
                    codes_of-All actor fund s.roles s.user_roles s.user_roles
                      (All-Mem s.user_roles s.user_roles (λ x m. m)))))
                (ground arith) in
            record {
              user = user;
              found = ground arith;
              active = ground arith;
              code = code;
              granted = granted;
              names = names;
              permitted = permitted;
            }

-- Rows of which none blocks.
no_blockers :
    (rows : List Row)
    → is_empty (blockers rows) ≡ true
    → All (λ row. row.1.severity ≡ blocking → row.0.status ≡ pass) rows
no_blockers [] h = tt
no_blockers ((item, rule) ∷ rows) h = ground (arith, no_blockers rows)

only_manager : (r : GovernanceRole) → permits r approve_proposal ≡ true → r ≡ manager
unfolding permits
only_manager r h = ground arith

module _ {D : Type 0} where
  -- What stands behind an approved proposal.
  pub record IsApprovable (s : Store D) (id actor : ℕ) : Type 0 where
    pub p : InvestmentProposal
    pub v : ProposalVersion
    pub a : ProposalAnalysis
    pub found : proposal_by id s ≡ ok p
    pub not_author : actor ≢ p.created_by_user_id
    pub by_manager : authorize actor p.fund_id approve_proposal s ≡ ok manager
    pub reviewed : p.status ≡ under_review
    pub version : current_version_of p s ≡ ok v
    pub analysis : analysis_of v s ≡ some a
    pub has_results : policy_rows a s ≢ []
    pub clear : All (λ row. row.1.severity ≡ blocking → row.0.status ≡ pass) (policy_rows a s)
    pub has_review : 0 < length (reviews_of v s)

  -- An approval succeeds only for a manager of the fund who is not the author, of a proposal under
  -- review, whose current version has a review and whose latest analysis has policy results, of
  -- which every blocking one is a pass; the proposal that it returns is approved.
  pub approve-IsApprovable :
      (id actor expected : ℕ) (reason : Text) (now : Datetime) (s : Store D)
      {q : InvestmentProposal} {s' : Store D}
      → approve id actor expected reason now s ≡ ok (q, s')
      → IsApprovable s id actor × (q.status ≡ approved)
  unfolding approve required_clear_analysis
  approve-IsApprovable id actor expected reason now s {q} {s'} h =
      after_ok (proposal_by id s) _ h λ p found h1.
        after_ok (authorize actor p.fund_id approve_proposal s) _ h1 λ role authorized h2.
          after_ok (raise_if (actor == p.created_by_user_id) (denied own_proposal)) _ h2
            λ _ other h3.
              after_ok (raise_if (not (is_under_review p.status)) (invalid wrong_status)) _ h3
                λ _ st h4. after_ok (current_version_of p s) _ h4 λ v version h5.
                  after_ok (required_clear_analysis v s) _ h5 λ a evidence h6.
                    after_ok (raise_if (length (reviews_of v s) == 0) (invalid review_required)) _
                      h6
                      λ _ some_review h7.
                        after_ok (advance p expected approved now none s) _ h7 λ m moved h8.
                          after_ok (require (analysis_of v s) (evidence_required no_analysis)) _
                            evidence
                            λ b latest e1.
                              after_ok
                                (raise_if (is_empty (policy_rows b s))
                                  (evidence_required no_results))
                                _ e1
                                λ _ results e2.
                                  after_ok
                                    (raise_if (not (is_empty (blockers (policy_rows b s)))) (
                                      evidence_required
                                        (blocked (sorted text_lt (blockers (policy_rows b s))))))
                                    _ e2
                                    λ _ unblocked e3.
                                      let done =
                                        advance-eq-ok p expected approved now none s moved in
                                      let status =
                                        ap (λ (x : InvestmentProposal × Store D). x.0.status)
                                          (sym (ok-injective h8))
                                        ∙ ap (λ (x : InvestmentProposal). x.status) done.proposal in
                                      (
                                        record {
                                          p = p;
                                          v = v;
                                          a = b;
                                          found = found;
                                          not_author =
                                              ==→ne actor p.created_by_user_id
                                                (raise_if-eq-ok _ _ other);
                                          by_manager =
                                              subst
                                                (λ r.
                                                  authorize actor p.fund_id approve_proposal s
                                                  ≡ ok r)
                                                (only_manager role (
                                                  (authorize-Grants actor p.fund_id approve_proposal
                                                    s authorized).permitted))
                                                authorized;
                                          reviewed = ground arith;
                                          version = version;
                                          analysis = ground arith;
                                          has_results =
                                              is_empty→ne (policy_rows b s)
                                                (raise_if-eq-ok _ _ results);
                                          clear = no_blockers (policy_rows b s) (ground arith);
                                          has_review = ground arith;
                                        },
                                        status,
                                      )
