-- ===== src/Governance/Lifecycle.antt =====
-- The life of a proposal as a machine of its own, and the history that a store keeps as a run of it:
-- the specification that apps/api/app/governance/service.py implements.

pub mod Moves
pub mod Keeps
pub mod Invariant
pub mod Creation
pub mod Reach
pub mod Terminal
use hawk_fund_investment_int.Prelude.{
  ℕ, suc, ◌<◌, Bool, true, false, ◌&&◌, Option, none, some, List, [], ◌∷◌, ◌≡◌, All, ◌==◌,
  if◌then◌else◌,
}
use hawk_fund_investment_int.Prelude.Order.{Apart}
use hawk_fund_investment_int.Governance.Types.{
  ProposalStatus, draft, submitted, under_review, changes_requested, approved, rejected, withdrawn,
  WorkflowAction, created, revised, analyzed, submission, review_started, review_recorded,
  change_request, approval, rejection, withdrawal,
}
use hawk_fund_investment_int.Governance.Records.{InvestmentProposal, ProposalTransition, Store}

-- Which action leads from which status to which.
abbrev pub is_legal : ProposalStatus → WorkflowAction → ProposalStatus → Bool
is_legal draft revised draft = true
is_legal changes_requested revised draft = true
is_legal draft analyzed draft = true
is_legal draft submission submitted = true
is_legal submitted review_started under_review = true
is_legal submitted review_recorded submitted = true
is_legal under_review review_recorded under_review = true
is_legal submitted change_request changes_requested = true
is_legal under_review change_request changes_requested = true
is_legal under_review approval approved = true
is_legal under_review rejection rejected = true
is_legal draft withdrawal withdrawn = true
is_legal submitted withdrawal withdrawn = true
is_legal changes_requested withdrawal withdrawn = true
is_legal _ _ _ = false

abbrev pub rank : ProposalStatus → ℕ
rank draft = 0
rank submitted = 1
rank under_review = 2
rank changes_requested = 3
rank approved = 4
rank rejected = 5
rank withdrawn = 6

-- Where the history of a proposal has led.
pub data Stage : Type 0 where
  new broken : Stage
  at : ProposalStatus → Stage

-- The first entry creates a draft; every later one starts where the last one ended, legally.
abbrev pub enter : Stage → Option ProposalStatus → WorkflowAction → ProposalStatus → Stage
enter new none created draft = at draft
enter (at s) (some from) action to =
    if (rank s == rank from) && is_legal from action to then at to else broken
enter _ _ _ _ = broken

abbrev pub follow_one : ℕ → ProposalTransition → Stage → Stage
follow_one id t stage =
    if t.proposal_id == id then enter stage t.from_status t.action t.to_status else stage

-- The history of one proposal, from the entries of all.
abbrev pub follow : ℕ → Stage → List ProposalTransition → Stage
follow id stage [] = stage
follow id stage (t ∷ ts) = follow id (follow_one id t stage) ts

-- How many entries of the history are of one proposal.
abbrev pub entries : ℕ → List ProposalTransition → ℕ
entries id [] = 0
entries id (t ∷ ts) = let rest = entries id ts in if t.proposal_id == id then suc rest else rest

abbrev pub OtherId : InvestmentProposal → InvestmentProposal → Type 0
OtherId p q = (p.id == q.id) ≡ false

-- The history of a proposal is a legal run that ends in its status, and its row version is the
-- number of entries.
pub record IsFollowed (ts : List ProposalTransition) (p : InvestmentProposal) : Type 0 where
  pub legal : follow p.id new ts ≡ at p.status
  pub counted : entries p.id ts ≡ p.row_version

-- The invariant of the store.
pub record IsConsistent {D : Type 0} (s : Store D) : Type 0 where
  pub followed : All (IsFollowed s.transitions) s.proposals
  pub distinct : Apart OtherId s.proposals
  pub proposals_old : All (λ p. p.id < s.fresh) s.proposals
  pub history_old : All (λ t. t.proposal_id < s.fresh) s.transitions
