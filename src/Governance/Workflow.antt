-- ===== src/Governance/Workflow.antt =====
-- apps/api/app/governance/service.py: the helpers that every operation of `ProposalService` shares:
-- `_proposal`, `_current_version`, `_advance`, `_add_version` and `_history`.
pub mod Laws
use hawk_fund_investment_int.Prelude.{
  ℕ, suc, ◌+◌, Bool, not, ◌&&◌, Option, none, some, List, [], ◌∷◌, ◌++◌, ok, ◌>>◌, raise_if,
  require, find, select, length, strip, is_empty, ◌==◌, if◌then◌else◌, Text,
}
use hawk_fund_investment_int.Clock.{Datetime, before}
use hawk_fund_investment_int.Governance.Types.{
  GovernanceRole, ProposalStatus, WorkflowAction, ProposalLineInput, ProposalVersionInput,
  unknown_proposal, missing_version, naive_timestamp, timestamp_precedes, reason_required, invalid,
  not_author, denied, concurrent_update, Raises,
}
use hawk_fund_investment_int.Governance.Records.{
  InvestmentProposal, ProposalVersion, ProposalLine, Provenance, ProposalTransition, AuditEvent,
  Store,
}
use hawk_fund_investment_int.Governance.Evidence.{Digests, sorted_lines, content_hash}

abbrev pub aware_required : Datetime → Raises (Unit {0})
aware_required t = raise_if (not t.aware) (invalid naive_timestamp)

abbrev pub require_owner : InvestmentProposal → ℕ → Raises (Unit {0})
require_owner p actor = raise_if (not (p.created_by_user_id == actor)) (denied not_author)

unfoldable pub required_reason : Text → Raises Text
required_reason reason = do
  raise_if (is_empty (strip reason)) (invalid reason_required)
  ok (strip reason)

-- The test of the `where` clause of `_advance`.
abbrev pub is_row : ℕ → ℕ → InvestmentProposal → Bool
is_row id row_version p = (p.id == id) && (p.row_version == row_version)

-- The values that `_advance` sets.
abbrev pub advanced : ProposalStatus → ℕ → ℕ → Datetime → InvestmentProposal → InvestmentProposal
advanced status current_version row_version now p = record p {
  status = status;
  current_version = current_version;
  row_version = row_version;
  updated_at = now;
}

-- `update(InvestmentProposal).where(...).values(...)`
abbrev pub update_rows :
    ℕ
    → ℕ
    → (InvestmentProposal → InvestmentProposal)
    → List InvestmentProposal
    → List InvestmentProposal
update_rows id row_version change [] = []
update_rows id row_version change (p ∷ ps) =
    (if is_row id row_version p then change p else p) ∷ update_rows id row_version change ps

abbrev pub version_or : ℕ → Option ℕ → ℕ
version_or current none = current
version_or current (some next) = next

module _ {D : Type 0} where
  unfoldable pub proposal_by : ℕ → Store D → Raises InvestmentProposal
  proposal_by id s = require (find (λ p. p.id == id) s.proposals) (invalid unknown_proposal)

  unfoldable pub current_version_of : InvestmentProposal → Store D → Raises ProposalVersion
  current_version_of p s =
      require (find (λ v. (v.proposal_id == p.id) && (v.version == p.current_version)) s.versions)
        (invalid missing_version)

  -- `_advance`: `p` is the proposal as it was read. The update succeeds if exactly one row has the
  -- expected version; else the session is rolled back and nothing is written.
  unfoldable pub advance :
      InvestmentProposal
      → ℕ
      → ProposalStatus
      → Datetime
      → Option ℕ
      → Store D
      → Raises (InvestmentProposal × Store D)
  advance p expected status now current_version s = do
    aware_required now
    raise_if (before now p.updated_at) (invalid timestamp_precedes)
    let change = advanced status (version_or p.current_version current_version) (suc expected) now
    raise_if (not (length (select (is_row p.id expected) s.proposals) == 1)) concurrent_update
    ok (change p, record s { proposals = update_rows p.id expected change s.proposals })

  abbrev pub proposal_lines : ℕ → ℕ → List (ProposalLineInput D) → List (ProposalLine D)
  proposal_lines fresh version [] = []
  proposal_lines fresh version (l ∷ ls) =
      record {
        id = fresh;
        proposal_version_id = version;
        instrument_id = l.instrument_id;
        action = l.action;
        current_weight = l.current_weight;
        proposed_weight = l.proposed_weight;
        estimated_notional = l.estimated_notional;
        rationale = strip l.rationale;
      }
      ∷ proposal_lines (suc fresh) version ls

  unfoldable pub add_version :
      Digests D
      → InvestmentProposal
      → ℕ
      → ProposalVersionInput D
      → Datetime
      → Option ℕ
      → Store D
      → ProposalVersion × Store D
  unfolding content_hash sorted_lines
  add_version digests p actor c now supersedes s =
      let version : ProposalVersion = record {
        id = s.fresh;
        proposal_id = p.id;
        version = p.current_version;
        title = strip c.title;
        thesis = strip c.thesis;
        portfolio_input_hash = c.portfolio_input_hash;
        portfolio_as_of = c.portfolio_as_of;
        content_hash = content_hash digests c;
        created_by_user_id = actor;
        created_at = now;
        supersedes_version_id = supersedes;
      } in
      (
        version,
        record s {
          versions = s.versions ++ version ∷ [];
          lines = s.lines ++ proposal_lines (suc s.fresh) s.fresh (sorted_lines c.lines);
          fresh = suc s.fresh + length c.lines;
        },
      )

  -- `_history`: a transition and the audit event that names it.
  unfoldable pub history :
      InvestmentProposal
      → ProposalVersion
      → WorkflowAction
      → Option ProposalStatus
      → ProposalStatus
      → ℕ
      → GovernanceRole
      → Option Text
      → Provenance
      → Datetime
      → Store D
      → Store D
  history p v action from to actor role reason provenance now s =
      let transition : ProposalTransition = record {
        id = s.fresh;
        proposal_id = p.id;
        proposal_version_id = v.id;
        action = action;
        from_status = from;
        to_status = to;
        actor_user_id = actor;
        actor_role = role;
        reason = reason;
        decision_provenance = provenance;
        occurred_at = now;
        resulting_row_version = p.row_version;
      } in
      let event : AuditEvent = record {
        id = suc s.fresh;
        fund_id = p.fund_id;
        actor_user_id = actor;
        action = action;
        entity_id = p.id;
        occurred_at = now;
        transition_id = s.fresh;
        proposal_version_id = v.id;
        from_status = from;
        to_status = to;
        row_version = p.row_version;
        provenance = provenance;
      } in
      record s {
        transitions = s.transitions ++ transition ∷ [];
        audit_events = s.audit_events ++ event ∷ [];
        fresh = suc (suc s.fresh);
      }
