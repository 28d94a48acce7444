-- ===== src/Governance/Authorization.antt =====
-- apps/api/app/governance/authorization.py: the permissions of each role, and
-- `AuthorizationService.require`.
use hawk_fund_investment_int.Prelude.{
  ℕ, Bool, true, false, not, ◌&&◌, Option, none, some, List, [], ◌∷◌, ◌++◌, ◌>>=◌, ◌>>◌, raise_if,
  require, find, select, map, codes, text_eq, ◌==◌, if◌then◌else◌, Text,
}
use hawk_fund_investment_int.Governance.Types.{
  GovernanceRole, analyst, manager, advisor, Permission, create_proposal, revise_proposal,
  record_analysis, submit_proposal, start_review, record_review, request_changes, approve_proposal,
  reject_proposal, withdraw_proposal, view_governance, use_ai_assistant, actor_inactive,
  lacks_permission, denied, Raises,
}
use hawk_fund_investment_int.Governance.Records.{Role, UserRole, Store}

-- `permission in ROLE_PERMISSIONS[role]`
unfoldable pub permits : GovernanceRole → Permission → Bool
permits analyst create_proposal = true
permits analyst revise_proposal = true
permits analyst record_analysis = true
permits analyst submit_proposal = true
permits analyst withdraw_proposal = true
permits analyst view_governance = true
permits analyst use_ai_assistant = true
permits manager record_analysis = true
permits manager start_review = true
permits manager record_review = true
permits manager request_changes = true
permits manager approve_proposal = true
permits manager reject_proposal = true
permits manager view_governance = true
permits manager use_ai_assistant = true
permits advisor record_review = true
permits advisor request_changes = true
permits advisor view_governance = true
permits advisor use_ai_assistant = true
permits _ _ = false

-- `GovernanceRole(code)`, for a code that names one
abbrev pub role_of_code : Text → Option GovernanceRole
role_of_code code =
    if text_eq code (codes "analyst")
    then some analyst
    else if text_eq code (codes "manager")
    then some manager
    else if text_eq code (codes "advisor")
    then some advisor
    else none

abbrev pub known_roles : List Text → List GovernanceRole
known_roles [] = []
known_roles (code ∷ rest) =
    let roles = known_roles rest in elim (role_of_code code) [ none ↦ roles | some r ↦ r ∷ roles ]

-- The codes that the join of `Role` and `UserRole` gives.
abbrev pub codes_of : ℕ → ℕ → List Role → List UserRole → List Text
codes_of actor fund roles [] = []
codes_of actor fund roles (u ∷ us) =
    let rest = codes_of actor fund roles us in
    if (u.user_id == actor) && (u.fund_id == fund)
    then map (λ r. r.code) (select (λ r. r.id == u.role_id) roles) ++ rest
    else rest

-- `sorted(...)[0]`: by value, "advisor" before "analyst" before "manager".
abbrev pub first_role : GovernanceRole → GovernanceRole → GovernanceRole
first_role advisor _ = advisor
first_role _ advisor = advisor
first_role analyst _ = analyst
first_role _ analyst = analyst
first_role manager manager = manager

abbrev pub least_role : List GovernanceRole → Option GovernanceRole
least_role [] = none
least_role (r ∷ rs) = elim (least_role rs) [ none ↦ some r | some q ↦ some (first_role r q) ]

module _ {D : Type 0} where
  unfoldable pub granted_roles : ℕ → ℕ → Permission → Store D → List GovernanceRole
  granted_roles actor fund permission s =
      select (λ r. permits r permission) (known_roles (codes_of actor fund s.roles s.user_roles))

  unfoldable pub authorize : ℕ → ℕ → Permission → Store D → Raises GovernanceRole
  unfolding granted_roles
  authorize actor fund permission s = do
    user ← require (find (λ u. u.id == actor) s.users) (denied actor_inactive)
    raise_if (not user.is_active) (denied actor_inactive)
    require (least_role (granted_roles actor fund permission s)) (denied lacks_permission)
