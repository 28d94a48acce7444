-- ===== src/Governance/Lifecycle/Keeps.antt =====
-- A move keeps the invariant of the store: the history of every proposal stays a legal run that ends
-- in its status, counted by its row version.
use hawk_fund_investment_int.Prelude.{
  ℕ, suc, ◌<◌, ◌≤◌, ◌≡◌, refl, sym, ap, ◌∙◌, subst, true, false, some, List, [], ◌∷◌, ◌++◌, arith,
  All, Bool-cases, inl, inr, select, length, find, ◌==◌, ==→eq, ==_refl, if◌then◌else◌,
}
use mathlib.Core.Option.{some-injective}
use hawk_fund_investment_int.Prelude.Order.{Apart}
use hawk_fund_investment_int.Clock.{Datetime}
use hawk_fund_investment_int.Governance.Types.{ProposalStatus}
use hawk_fund_investment_int.Governance.Records.{InvestmentProposal, ProposalTransition}
use hawk_fund_investment_int.Governance.Workflow.{advanced, is_row, update_rows}
use hawk_fund_investment_int.Governance.Lifecycle.{
  is_legal, Stage, new, follow, follow_one, entries, OtherId, IsFollowed,
}

pub follow-append :
    (id : ℕ) (stage : Stage) (ts : List ProposalTransition) (t : ProposalTransition)
    → follow id stage (ts ++ t ∷ []) ≡ follow_one id t (follow id stage ts)
follow-append id stage [] t = refl
follow-append id stage (u ∷ ts) t = follow-append id (follow_one id u stage) ts t

pub entries-append :
    (id : ℕ) (ts : List ProposalTransition) (t : ProposalTransition)
    → entries id (ts ++ t ∷ [])
      ≡ (if t.proposal_id == id then suc (entries id ts) else entries id ts)
entries-append id [] t = refl
entries-append id (u ∷ ts) t = ground (arith, entries-append id ts t)

-- An entry of another proposal changes nothing.
pub other-IsFollowed :
    (ts : List ProposalTransition) (t : ProposalTransition) (p : InvestmentProposal)
    → (t.proposal_id == p.id) ≡ false
    → IsFollowed ts p
    → IsFollowed (ts ++ t ∷ []) p
other-IsFollowed ts t p h f = record {
  legal = rw (follow-append p.id new ts t, h) f.legal;
  counted = rw (entries-append p.id ts t, h) f.counted;
}

module _ (entry : ProposalTransition) (status : ProposalStatus) (current : ℕ) (now : Datetime)
    (ts : List ProposalTransition) where
  -- The entry of the proposal that has moved.
  pub own-IsFollowed :
      (p : InvestmentProposal)
      → entry.proposal_id ≡ p.id
      → entry.from_status ≡ some p.status
      → entry.to_status ≡ status
      → is_legal p.status entry.action status ≡ true
      → IsFollowed ts p
      → IsFollowed (ts ++ entry ∷ []) (advanced status current (suc p.row_version) now p)
  own-IsFollowed p of from to legal f = record {
    legal = simp (follow-append p.id new ts entry, f.legal, of, from, to, ==_refl, legal);
    counted = simp (entries-append p.id ts entry, f.counted, of, ==_refl);
  }

-- The rows that an update leaves alone.
module _ (id expected : ℕ) (change : InvestmentProposal → InvestmentProposal)
    (ts : List ProposalTransition) (entry : ProposalTransition) (of : entry.proposal_id ≡ id) where
  others-IsFollowed :
      (ps : List InvestmentProposal)
      → All (λ q. (id == q.id) ≡ false) ps
      → All (IsFollowed ts) ps
      → All (IsFollowed (ts ++ entry ∷ [])) (update_rows id expected change ps)
  others-IsFollowed [] o f = tt
  others-IsFollowed (q ∷ qs) o f =
      let unmatched : is_row id expected q ≡ false = ground (arith, o.0) in
      rw unmatched (other-IsFollowed ts entry q (rw of o.0) f.0, others-IsFollowed qs o.1 f.1)

  -- The one row of the proposal, and the others.
  pub rows-IsFollowed :
      (ps : List InvestmentProposal) (p : InvestmentProposal)
      → id ≡ p.id
      → find (λ q. q.id == id) ps ≡ some p
      → Apart OtherId ps
      → p.row_version ≡ expected
      → IsFollowed (ts ++ entry ∷ []) (change p)
      → All (IsFollowed ts) ps
      → All (IsFollowed (ts ++ entry ∷ [])) (update_rows id expected change ps)
  rows-IsFollowed [] p e found a v moved f = cc
  rows-IsFollowed (q ∷ qs) p e found a v moved f = elim (Bool-cases (q.id == id)) [
    | inl same ↦
        let here : q ≡ p = some-injective _ _ (rw same at found) in
        let version : q.row_version ≡ expected =
          ap (λ (r : InvestmentProposal). r.row_version) here ∙ v in
        let matched : is_row id expected q ≡ true = ground arith in
        let others = subst (λ k. All (λ r. (k == r.id) ≡ false) qs) (==→eq q.id id same) a.0 in
        rw matched (
          subst (λ r. IsFollowed (ts ++ entry ∷ []) (change r)) (sym here) moved,
          others-IsFollowed qs others f.1,
        )
    | inr differs ↦
        let unmatched : is_row id expected q ≡ false = ground arith in
        let apart : (entry.proposal_id == q.id) ≡ false = rw of (ground arith) in
        rw unmatched (
          other-IsFollowed ts entry q apart f.0,
          rows-IsFollowed qs p e (rw differs at found) a.1 v moved f.1,
        )
  ]

-- An update keeps identifiers, so what holds of identifiers alone is kept.
module _ (id expected : ℕ) (status : ProposalStatus) (current : ℕ) (now : Datetime) where
  abbrev pub changed : InvestmentProposal → InvestmentProposal
  changed = advanced status current (suc expected) now

  pub update-below :
      (ps : List InvestmentProposal) (m n : ℕ)
      → m ≤ n
      → All (λ p. p.id < m) ps
      → All (λ p. p.id < n) (update_rows id expected changed ps)
  update-below [] m n h b = tt
  update-below (p ∷ ps) m n h b = ground (arith, update-below ps m n h b.1)

  update-OtherId :
      (q : InvestmentProposal) (ps : List InvestmentProposal)
      → All (OtherId q) ps
      → (All (OtherId q) (update_rows id expected changed ps))
        × All (OtherId (changed q)) (update_rows id expected changed ps)
  update-OtherId q [] o = (tt, tt)
  update-OtherId q (p ∷ ps) o = ground (arith, update-OtherId q ps o.1)

  pub update-Apart :
      (ps : List InvestmentProposal)
      → Apart OtherId ps
      → Apart OtherId (update_rows id expected changed ps)
  update-Apart [] a = tt
  update-Apart (p ∷ ps) a = ground (arith, update-OtherId p ps a.0, update-Apart ps a.1)

-- The row that is updated is the row that was read.
select_others :
    (id expected : ℕ) (ps : List InvestmentProposal)
    → All (λ q. (id == q.id) ≡ false) ps
    → length (select (is_row id expected) ps) ≡ 0
select_others id expected [] o = refl
select_others id expected (q ∷ qs) o = ground (arith, select_others id expected qs o.1)

pub read_version :
    (id expected : ℕ) (ps : List InvestmentProposal) (p : InvestmentProposal)
    → find (λ q. q.id == id) ps ≡ some p
    → Apart OtherId ps
    → length (select (is_row id expected) ps) ≡ 1
    → p.row_version ≡ expected
read_version id expected [] p found a one = cc
read_version id expected (q ∷ qs) p found a one = elim (Bool-cases (q.id == id)) [
  | inl same ↦
      let here : q ≡ p = some-injective _ _ (rw same at found) in
      let others = subst (λ k. All (λ r. (k == r.id) ≡ false) qs) (==→eq q.id id same) a.0 in
      rw (← ap (λ (r : InvestmentProposal). r.row_version) here)
        (ground (arith, select_others id expected qs others))
  | inr differs ↦ read_version id expected qs p (rw differs at found) a.1 (ground arith)
]

pub found_below :
    (id n : ℕ) (ps : List InvestmentProposal) (p : InvestmentProposal)
    → find (λ q. q.id == id) ps ≡ some p
    → All (λ q. q.id < n) ps
    → p.id < n
found_below id n [] p found b = cc
found_below id n (q ∷ qs) p found b = ground (arith, found_below id n qs p)

pub found-IsFollowed :
    (id : ℕ) (ts : List ProposalTransition) (ps : List InvestmentProposal) (p : InvestmentProposal)
    → find (λ q. q.id == id) ps ≡ some p
    → All (IsFollowed ts) ps
    → IsFollowed ts p
found-IsFollowed id ts [] p found f = cc
found-IsFollowed id ts (q ∷ qs) p found f = ground (arith, found-IsFollowed id ts qs p)
