-- ===== src/Governance/Lifecycle/Invariant.antt =====
-- A move of one proposal keeps the invariant of the store.
use hawk_fund_investment_int.Prelude.{
  ℕ, suc, ◌<◌, ◌≤◌, ◌≡◌, refl, sym, subst, some, List, [], ◌∷◌, ◌++◌, arith, All, All-append, find,
  find-some, ◌==◌, ==→eq,
}
use hawk_fund_investment_int.Prelude.Order.{Apart}
use hawk_fund_investment_int.Governance.Records.{ProposalTransition, Store}
use hawk_fund_investment_int.Governance.Workflow.{advanced, update_rows}
use hawk_fund_investment_int.Governance.Lifecycle.{OtherId, IsFollowed, IsConsistent}
use hawk_fund_investment_int.Governance.Lifecycle.Moves.{Moved}
use hawk_fund_investment_int.Governance.Lifecycle.Keeps.{
  own-IsFollowed, rows-IsFollowed, update-below, update-Apart, read_version, found_below,
  found-IsFollowed,
}

pub history_below :
    (ts : List ProposalTransition) (m n : ℕ)
    → m ≤ n
    → All (λ t. t.proposal_id < m) ts
    → All (λ t. t.proposal_id < n) ts
history_below [] m n h b = tt
history_below (t ∷ ts) m n h b = (omega arith, history_below ts m n h b.1)

module _ {D : Type 0} where
  entry_below : (s s' : Store D) (m : Moved s s') → IsConsistent s → m.entry.proposal_id < s'.fresh
  entry_below s s' m c =
      let below = found_below m.id s.fresh s.proposals m.p m.found c.proposals_old in
      omega (arith, m.of, m.older, below)

  pub Moved-IsConsistent : {s s' : Store D} → IsConsistent s → Moved s s' → IsConsistent s'
  Moved-IsConsistent {s} {s'} c m =
      let same : m.id ≡ m.p.id =
        sym (==→eq m.p.id m.id (find-some (λ q. q.id == m.id) s.proposals m.found)) in
      let found : find (λ q. q.id == m.p.id) s.proposals ≡ some m.p =
        subst (λ k. find (λ q. q.id == k) s.proposals ≡ some m.p) same m.found in
      let version = read_version m.p.id m.expected s.proposals m.p found c.distinct m.one_row in
      let followed = found-IsFollowed m.id s.transitions s.proposals m.p m.found c.followed in
      let change = advanced m.status m.current (suc m.expected) m.now in
      let own : IsFollowed (s.transitions ++ m.entry ∷ []) (change m.p) =
        subst
          (λ e.
            IsFollowed (s.transitions ++ m.entry ∷ [])
              (advanced m.status m.current (suc e) m.now m.p))
          version
          (own-IsFollowed m.entry m.status m.current m.now s.transitions m.p m.of m.from m.to
            m.legal followed) in
      record {
        followed =
            subst (λ ps. All (IsFollowed s'.transitions) ps) (sym m.rows)
              (subst (λ ts. All (IsFollowed ts) (update_rows m.p.id m.expected change s.proposals))
                (sym m.logged)
                (rows-IsFollowed m.p.id m.expected change s.transitions m.entry m.of s.proposals m.p
                  refl found c.distinct version own c.followed));
        distinct =
            subst (Apart OtherId) (sym m.rows)
              (update-Apart m.p.id m.expected m.status m.current m.now s.proposals c.distinct);
        proposals_old = subst (All (λ p. p.id < s'.fresh)) (sym m.rows) (
            update-below m.p.id m.expected m.status m.current m.now s.proposals s.fresh s'.fresh
              m.older c.proposals_old);
        history_old = subst (All (λ t. t.proposal_id < s'.fresh)) (sym m.logged) (
            All-append (λ t. t.proposal_id < s'.fresh) s.transitions (m.entry ∷ [])
              (history_below s.transitions s.fresh s'.fresh m.older c.history_old)
              (entry_below s s' m c, tt));
      }
