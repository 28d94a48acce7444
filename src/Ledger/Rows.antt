-- ===== src/Ledger/Rows.antt =====
-- Relations between the rows of the ledger, behind an added row and a changed status.
use hawk_fund_investment_int.Prelude.{
  Bool-cases, Option, none, some, List, [], ◌∷◌, ◌==◌, inl, inr, All, ℕ,
}
use hawk_fund_investment_int.Prelude.Order.{Apart}
use hawk_fund_investment_int.Ledger.Types.{reversed}
use hawk_fund_investment_int.Ledger.Store.{Transaction, Store, mark_reversed}
use hawk_fund_investment_int.Ledger.Service.{mark_target}

module _ {D : Type 0} where
  -- A relation that does not read the status.
  pub record IsBlind (R : Transaction D → Transaction D → Type 0) : Type 0 where
    pub left : (t u : Transaction D) → R t u → R (record t { status = reversed }) u
    pub right : (t u : Transaction D) → R t u → R t (record u { status = reversed })

  module _ (R : Transaction D → Transaction D → Type 0) (blind : IsBlind R) (id : ℕ) where
    mark-All :
        (t : Transaction D) (us : List (Transaction D))
        → All (R t) us
        → All (R t) (mark_reversed id us)
    mark-All t [] h = tt
    mark-All t (u ∷ us) h = elim (Bool-cases (u.id == id)) [
      | inl e ↦ rw e (blind.right t u h.0, mark-All t us h.1)
      | inr e ↦ rw e (h.0, mark-All t us h.1)
    ]

    left-All :
        (t : Transaction D) (us : List (Transaction D))
        → All (R t) us
        → All (R (record t { status = reversed })) us
    left-All t [] h = tt
    left-All t (u ∷ us) h = (blind.left t u h.0, left-All t us h.1)

    mark-Apart : (ts : List (Transaction D)) → Apart R ts → Apart R (mark_reversed id ts)
    mark-Apart [] h = tt
    mark-Apart (t ∷ ts) h = elim (Bool-cases (t.id == id)) [
      | inl e ↦ rw e (left-All t _ (mark-All t ts h.0), mark-Apart ts h.1)
      | inr e ↦ rw e (mark-All t ts h.0, mark-Apart ts h.1)
    ]

  pub mark_target-Apart :
      (R : Transaction D → Transaction D → Type 0) (blind : IsBlind R)
      (target : Option (Transaction D)) (s : Store D)
      → Apart R s.transactions
      → Apart R (mark_target target s).transactions
  mark_target-Apart R blind none s h = h
  mark_target-Apart R blind (some t) s h = mark-Apart R blind t.id s.transactions h

  -- A predicate that does not read the status.
  pub mark_target-All :
      (P : Transaction D → Type 0)
      → ((t : Transaction D) → P t → P (record t { status = reversed }))
      → (target : Option (Transaction D)) (s : Store D) → All P s.transactions
      → All P (mark_target target s).transactions
  mark_target-All P blind none s h = h
  mark_target-All P blind (some t) s h = go s.transactions h
    where
      go : (ts : List (Transaction D)) → All P ts → All P (mark_reversed t.id ts)
      go [] h = tt
      go (u ∷ us) h = elim (Bool-cases (u.id == t.id)) [
        | inl e ↦ rw e (blind u h.0, go us h.1)
        | inr e ↦ rw e (h.0, go us h.1)
      ]
