-- ===== src/Governance/Lifecycle/Terminal.antt =====
-- A proposal that has been approved, rejected or withdrawn is never touched again.
use mathlib.Core.Option.{some-injective}
use hawk_fund_investment_int.Prelude.{
  ℕ, suc, ◌≡◌, refl, sym, subst, ◌∙◌, inl, inr, ◌⊎◌, Bool, true, false, some, List, [], ◌∷◌, find,
  find-some, find-append, ==→eq, ◌==◌, arith, Bool-cases,
}
use hawk_fund_investment_int.Number.{Decimal}
use hawk_fund_investment_int.Clock.{Datetime}
use hawk_fund_investment_int.Governance.Types.{
  ProposalStatus, approved, rejected, withdrawn, WorkflowAction,
}
use hawk_fund_investment_int.Governance.Records.{InvestmentProposal, Store}
use hawk_fund_investment_int.Governance.Evidence.{Digests}
use hawk_fund_investment_int.Governance.Workflow.{advanced, update_rows}
use hawk_fund_investment_int.Governance.Lifecycle.{is_legal}
use hawk_fund_investment_int.Governance.Lifecycle.Moves.{Moved}
use hawk_fund_investment_int.Governance.Lifecycle.Creation.{create-rows}
use hawk_fund_investment_int.Governance.Lifecycle.Reach.{Reach, here, creates, next, Acts-Moved}

abbrev pub is_terminal : ProposalStatus → Bool
is_terminal approved = true
is_terminal rejected = true
is_terminal withdrawn = true
is_terminal _ = false

no_edge :
    (from : ProposalStatus) (action : WorkflowAction) (to : ProposalStatus)
    → is_terminal from ≡ true
    → is_legal from action to ≡ false
no_edge from action to h = ground arith

find-update_other :
    (id k expected : ℕ) (status : ProposalStatus) (current : ℕ) (now : Datetime)
    (ps : List InvestmentProposal)
    → (k == id) ≡ false
    → find
        (λ q. q.id == id)
        (update_rows k expected (advanced status current (suc expected) now) ps)
      ≡ find (λ q. q.id == id) ps
find-update_other id k expected status current now [] h = refl
find-update_other id k expected status current now (p ∷ ps) h =
    ground (arith, find-update_other id k expected status current now ps h)

module _ {D : Type 0} (id : ℕ) (p : InvestmentProposal) (over : is_terminal p.status ≡ true) where
  Moved-keeps :
      {s s' : Store D}
      → find (λ q. q.id == id) s.proposals ≡ some p
      → Moved s s'
      → find (λ q. q.id == id) s'.proposals ≡ some p
  Moved-keeps {s} {s'} found m =
      let own : m.p.id ≡ m.id =
        ==→eq m.p.id m.id (find-some (λ q. q.id == m.id) s.proposals m.found) in
      elim (Bool-cases (m.p.id == id)) [
        | inl same ↦
            let there : m.id ≡ id = sym own ∙ ==→eq m.p.id id same in
            let one : m.p ≡ p = some-injective _ _ (
              sym (subst (λ k. find (λ q. q.id == k) s.proposals ≡ some m.p) there m.found)
              ∙ found) in
            let stuck = no_edge m.p.status m.entry.action m.status (rw one over) in absurd (cc)
        | inr differs ↦ rw m.rows (
            find-update_other id m.p.id m.expected m.status m.current m.now s.proposals differs
            ∙ found)
      ]

module _ {D : Type 0} ⦃d : Decimal D⦄ (digests : Digests D) where
  Acts_keeps :
      (id : ℕ) (p : InvestmentProposal) {s s' : Store D}
      → is_terminal p.status ≡ true
      → find (λ q. q.id == id) s.proposals ≡ some p
      → Moved s s' ⊎ (s' ≡ s)
      → find (λ q. q.id == id) s'.proposals ≡ some p
  Acts_keeps id p over found (inl m) = Moved-keeps id p over found m
  Acts_keeps id p over found (inr e) = rw e found

  -- Whatever calls follow, the row of a proposal that is approved, rejected or withdrawn stays as it
  -- is.
  pub Reach-terminal :
      (id : ℕ) (p : InvestmentProposal) {s t : Store D}
      → is_terminal p.status ≡ true
      → find (λ q. q.id == id) s.proposals ≡ some p
      → Reach digests s t
      → find (λ q. q.id == id) t.proposals ≡ some p
  Reach-terminal id p over found here = found
  Reach-terminal id p over found (creates r fund actor content now h) =
      let (q, rows) = create-rows digests fund actor content now _ h in
      rw (rows) (find-append (λ q. q.id == id) _ (q ∷ []) (Reach-terminal id p over found r))
  Reach-terminal id p over found (next r a) =
      Acts_keeps id p over (Reach-terminal id p over found r) (Acts-Moved digests a)
