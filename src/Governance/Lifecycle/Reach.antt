-- ===== src/Governance/Lifecycle/Reach.antt =====
-- The stores that sequences of operations reach, and what holds of all of them.
use hawk_fund_investment_int.Prelude.{ℕ, ◌≡◌, inl, inr, ◌⊎◌, Option, ok, Text}
use hawk_fund_investment_int.Number.{Decimal}
use hawk_fund_investment_int.Clock.{Datetime}
use hawk_fund_investment_int.Governance.Types.{ProposalVersionInput, ReviewRecommendation}
use hawk_fund_investment_int.Governance.Records.{
  InvestmentProposal, ProposalAnalysis, ProposalReview, Store,
}
use hawk_fund_investment_int.Governance.Evidence.{Digests}
use hawk_fund_investment_int.Governance.Drafting.{create, revise, record_risk_analysis}
use hawk_fund_investment_int.Governance.Deciding.{
  submit, begin_review, review, ask_changes, approve, reject, withdraw,
}
use hawk_fund_investment_int.Governance.Lifecycle.{IsConsistent}
use hawk_fund_investment_int.Governance.Lifecycle.Moves.{Moved}
use hawk_fund_investment_int.Governance.Lifecycle.Moves.Author.{
  submit-Moved, revise-Moved, record_risk_analysis-Moved,
}
use hawk_fund_investment_int.Governance.Lifecycle.Moves.Reviewer.{
  approve-Moved, review-Moved, begin_review-Moved, ask_changes-Moved, reject-Moved, withdraw-Moved,
}
use hawk_fund_investment_int.Governance.Lifecycle.Invariant.{Moved-IsConsistent}
use hawk_fund_investment_int.Governance.Lifecycle.Creation.{create-IsConsistent}

Moved-or_same :
    {D : Type 0} {s s' : Store D} → IsConsistent s → Moved s s' ⊎ (s' ≡ s) → IsConsistent s'
Moved-or_same c (inl m) = Moved-IsConsistent c m
Moved-or_same c (inr e) = rw e c

module _ {D : Type 0} ⦃d : Decimal D⦄ (digests : Digests D) where
  -- A successful call on one proposal. A call that raises leaves the store as it was.
  pub data Acts (s : Store D) : Store D → Type 0 where
    revises :
        (id actor expected : ℕ) (content : ProposalVersionInput D) (now : Datetime)
        {p : InvestmentProposal} {s' : Store D}
        → revise digests id actor expected content now s ≡ ok (p, s')
        → Acts s s'
    analyses :
        (id actor expected risk_id : ℕ) (scenario_id : Option ℕ) (now : Datetime)
        {a : ProposalAnalysis} {s' : Store D}
        → record_risk_analysis digests id actor expected risk_id scenario_id now s ≡ ok (a, s')
        → Acts s s'
    submits :
        (id actor expected : ℕ) (now : Datetime) {p : InvestmentProposal} {s' : Store D}
        → submit id actor expected now s ≡ ok (p, s')
        → Acts s s'
    begins :
        (id actor expected : ℕ) (now : Datetime) {p : InvestmentProposal} {s' : Store D}
        → begin_review id actor expected now s ≡ ok (p, s')
        → Acts s s'
    reviews :
        (id actor expected : ℕ) (recommendation : ReviewRecommendation) (comment : Text)
        (now : Datetime) {row : ProposalReview} {s' : Store D}
        → review id actor expected recommendation comment now s ≡ ok (row, s')
        → Acts s s'
    asks :
        (id actor expected : ℕ) (reason : Text) (now : Datetime) {p : InvestmentProposal}
        {s' : Store D}
        → ask_changes id actor expected reason now s ≡ ok (p, s')
        → Acts s s'
    approves :
        (id actor expected : ℕ) (reason : Text) (now : Datetime) {p : InvestmentProposal}
        {s' : Store D}
        → approve id actor expected reason now s ≡ ok (p, s')
        → Acts s s'
    rejects :
        (id actor expected : ℕ) (reason : Text) (now : Datetime) {p : InvestmentProposal}
        {s' : Store D}
        → reject id actor expected reason now s ≡ ok (p, s')
        → Acts s s'
    withdraws :
        (id actor expected : ℕ) (reason : Text) (now : Datetime) {p : InvestmentProposal}
        {s' : Store D}
        → withdraw id actor expected reason now s ≡ ok (p, s')
        → Acts s s'

  -- A sequence of successful calls.
  pub data Reach (s : Store D) : Store D → Type 0 where
    here : Reach s s
    creates :
        {t u : Store D}
        → Reach s t
        → (fund actor : ℕ) → (content : ProposalVersionInput D) → (now : Datetime)
        → {p : InvestmentProposal} → create digests fund actor content now t ≡ ok (p, u)
        → Reach s u
    next : {t u : Store D} → Reach s t → Acts t u → Reach s u

  pub Acts-Moved : {s s' : Store D} → Acts s s' → Moved s s' ⊎ (s' ≡ s)
  Acts-Moved (revises id actor expected content now h) =
      inl (revise-Moved digests id actor expected content now _ h)
  Acts-Moved (analyses id actor expected risk_id scenario_id now h) =
      record_risk_analysis-Moved digests id actor expected risk_id scenario_id now _ h
  Acts-Moved (submits id actor expected now h) = inl (submit-Moved id actor expected now _ h)
  Acts-Moved (begins id actor expected now h) = inl (begin_review-Moved id actor expected now _ h)
  Acts-Moved (reviews id actor expected recommendation comment now h) =
      inl (review-Moved id actor expected recommendation comment now _ h)
  Acts-Moved (asks id actor expected reason now h) =
      inl (ask_changes-Moved id actor expected reason now _ h)
  Acts-Moved (approves id actor expected reason now h) =
      inl (approve-Moved id actor expected reason now _ h)
  Acts-Moved (rejects id actor expected reason now h) =
      inl (reject-Moved id actor expected reason now _ h)
  Acts-Moved (withdraws id actor expected reason now h) =
      inl (withdraw-Moved id actor expected reason now _ h)

  Acts-IsConsistent : {s s' : Store D} → IsConsistent s → Acts s s' → IsConsistent s'
  Acts-IsConsistent c a = Moved-or_same c (Acts-Moved a)

  -- In every store that the operations reach from a consistent one, the history of each proposal is
  -- a legal run of the workflow from its creation to its present status, and its row version is the
  -- number of entries.
  pub Reach-IsConsistent : {s t : Store D} → IsConsistent s → Reach s t → IsConsistent t
  Reach-IsConsistent c here = c
  Reach-IsConsistent c (creates r fund actor content now h) =
      create-IsConsistent digests fund actor content now _ (Reach-IsConsistent c r) h
  Reach-IsConsistent c (next r a) = Acts-IsConsistent (Reach-IsConsistent c r) a
