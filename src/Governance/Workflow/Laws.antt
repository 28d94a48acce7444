-- ===== src/Governance/Workflow/Laws.antt =====
-- What a successful `_advance` has tested and written, and that it succeeds once for a row version.
use hawk_fund_investment_int.Prelude.{
  ℕ, suc, ◌≡◌, ◌≢◌, refl, true, false, Option, List, [], ◌∷◌, ok, select, length, arith,
}
use hawk_fund_investment_int.Clock.{Datetime, before}
use hawk_fund_investment_int.Governance.Types.{ProposalStatus}
use hawk_fund_investment_int.Governance.Records.{InvestmentProposal, Store}
use hawk_fund_investment_int.Governance.Workflow.{
  advance, advanced, is_row, update_rows, version_or,
}

module _ {D : Type 0} where
  pub record Advanced (p : InvestmentProposal) (expected : ℕ) (status : ProposalStatus)
      (now : Datetime) (version : Option ℕ) (s : Store D) (q : InvestmentProposal) (s' : Store D)
      : Type 0 where
    pub aware : now.aware ≡ true
    pub in_order : before now p.updated_at ≡ false
    pub one_row : length (select (is_row p.id expected) s.proposals) ≡ 1
    pub proposal : q ≡ advanced status (version_or p.current_version version) (suc expected) now p
    pub store : s' ≡ record s {
      proposals =
          update_rows p.id expected
            (advanced status (version_or p.current_version version) (suc expected) now)
            s.proposals;
    }

  pub advance-eq-ok :
      (p : InvestmentProposal) (expected : ℕ) (status : ProposalStatus) (now : Datetime)
      (version : Option ℕ) (s : Store D) {q : InvestmentProposal} {s' : Store D}
      → advance p expected status now version s ≡ ok (q, s')
      → Advanced p expected status now version s q s'
  unfolding advance
  advance-eq-ok p expected status now version s h = ground arith

module _ (id expected current : ℕ) (status : ProposalStatus) (now : Datetime) where
  -- The update leaves no row with the expected version behind.
  no_row_after :
      (ps : List InvestmentProposal)
      → length (
          select
            (is_row id expected)
            (update_rows id expected (advanced status current (suc expected) now) ps))
        ≡ 0
  no_row_after [] = refl
  no_row_after (p ∷ ps) = ground (arith, no_row_after ps)

module _ {D : Type 0} where
  -- Of two updates of one proposal that expect the same row version, whatever each has read, the
  -- second never succeeds.
  pub advance_once :
      (p q : InvestmentProposal) (expected : ℕ) (status other : ProposalStatus)
      (now later : Datetime) (version next : Option ℕ) (s s' s'' : Store D)
      (p' q' : InvestmentProposal)
      → q.id ≡ p.id
      → advance p expected status now version s ≡ ok (p', s')
      → advance q expected other later next s' ≢ ok (q', s'')
  advance_once p q expected status other now later version next s s' s'' p' q' same first second =
      let done = advance-eq-ok p expected status now version s first in
      let again = advance-eq-ok q expected other later next s' second in
      let empty =
        no_row_after p.id expected (version_or p.current_version version) status now s.proposals in
      let one : length (select (is_row p.id expected) s'.proposals) ≡ 1 =
        rw (← same) again.one_row in
      absurd (omega (arith, rw done.store at one, empty))
