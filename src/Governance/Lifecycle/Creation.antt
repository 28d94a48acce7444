-- ===== src/Governance/Lifecycle/Creation.antt =====
-- `ProposalService.create` keeps the invariant of the store: it adds a proposal with a history of its
-- own.
use hawk_fund_investment_int.Prelude.{
  ℕ, suc, ◌<◌, ◌≤◌, ◌≡◌, refl, sym, ap, subst, false, none, List, [], ◌∷◌, ◌++◌, ok, arith, All,
  All-append, ◌==◌, ==_refl, after_ok, ok-injective,
}
use hawk_fund_investment_int.Prelude.Order.{Apart}
use hawk_fund_investment_int.Number.{Decimal}
use hawk_fund_investment_int.Clock.{Datetime}
use hawk_fund_investment_int.Governance.Types.{
  create_proposal, created, draft, ProposalVersionInput,
}
use hawk_fund_investment_int.Governance.Records.{
  InvestmentProposal, ProposalTransition, Store, of_content,
}
use hawk_fund_investment_int.Governance.Authorization.{authorize}
use hawk_fund_investment_int.Governance.Content.{validate_content}
use hawk_fund_investment_int.Governance.Evidence.{Digests}
use hawk_fund_investment_int.Governance.Workflow.{aware_required, add_version, history}
use hawk_fund_investment_int.Governance.Drafting.{create}
use hawk_fund_investment_int.Governance.Lifecycle.{
  new, follow, entries, OtherId, IsFollowed, IsConsistent,
}
use hawk_fund_investment_int.Governance.Lifecycle.Invariant.{history_below}
use hawk_fund_investment_int.Governance.Lifecycle.Keeps.{
  other-IsFollowed, follow-append, entries-append,
}

-- A proposal that is not yet in the store has no history.
fresh_history :
    (n : ℕ) (ts : List ProposalTransition)
    → All (λ t. t.proposal_id < n) ts
    → (follow n new ts ≡ new) × (entries n ts ≡ 0)
fresh_history n [] b = (refl, refl)
fresh_history n (t ∷ ts) b =
    let other : (t.proposal_id == n) ≡ false = ground (arith, b.0) in
    rw other (fresh_history n ts b.1)

-- The new entry is of no older proposal.
older-IsFollowed :
    (n : ℕ) (ts : List ProposalTransition) (t : ProposalTransition) (ps : List InvestmentProposal)
    → t.proposal_id ≡ n
    → All (λ p. p.id < n) ps
    → All (IsFollowed ts) ps
    → All (IsFollowed (ts ++ t ∷ [])) ps
older-IsFollowed n ts t [] of b f = tt
older-IsFollowed n ts t (p ∷ ps) of b f =
    let other : (t.proposal_id == p.id) ≡ false = ground (arith, b.0) in
    (other-IsFollowed ts t p other f.0, older-IsFollowed n ts t ps of b.1 f.1)

append-Apart :
    (ps : List InvestmentProposal) (p : InvestmentProposal)
    → All (λ q. q.id < p.id) ps
    → Apart OtherId ps
    → Apart OtherId (ps ++ p ∷ [])
append-Apart [] p b a = (tt, tt)
append-Apart (q ∷ qs) p b a =
    let other : (q.id == p.id) ≡ false = ground (arith, b.0) in
    (All-append (OtherId q) qs (p ∷ []) a.0 (other, tt), append-Apart qs p b.1 a.1)

below_again :
    (ps : List InvestmentProposal) (m n : ℕ)
    → m ≤ n
    → All (λ p. p.id < m) ps
    → All (λ p. p.id < n) ps
below_again [] m n h b = tt
below_again (p ∷ ps) m n h b = (omega arith, below_again ps m n h b.1)

-- A proposal has been created.
record Created {D : Type 0} (s s' : Store D) : Type 0 where
  p : InvestmentProposal
  entry : ProposalTransition
  named : p.id ≡ s.fresh
  drafted : p.status ≡ draft
  first : p.row_version ≡ 1
  of : entry.proposal_id ≡ s.fresh
  from : entry.from_status ≡ none
  action : entry.action ≡ created
  to : entry.to_status ≡ draft
  rows : s'.proposals ≡ s.proposals ++ p ∷ []
  logged : s'.transitions ≡ s.transitions ++ entry ∷ []
  older : s.fresh < s'.fresh

-- What a successful `create` has done.
create-Created :
    {D : Type 0} ⦃d : Decimal D⦄ (digests : Digests D) (fund actor : ℕ)
    (content : ProposalVersionInput D) (now : Datetime) (s : Store D) {p : InvestmentProposal}
    {s' : Store D}
    → create digests fund actor content now s ≡ ok (p, s')
    → Created s s'
unfolding create add_version history
create-Created {D} digests fund actor content now s {p} {s'} h =
    after_ok (authorize actor fund create_proposal s) _ h λ role _ h1.
      after_ok (validate_content content) _ h1 λ _ _ h2.
        after_ok (aware_required now) _ h2 λ _ _ h3.
          let proposal : InvestmentProposal = record {
            id = s.fresh;
            fund_id = fund;
            created_by_user_id = actor;
            status = draft;
            current_version = 1;
            row_version = 1;
            created_at = now;
            updated_at = now;
          } in
          let inserted : Store D = record s {
            proposals = s.proposals ++ proposal ∷ [];
            fresh = suc s.fresh;
          } in
          let versioned = add_version digests proposal actor content now none inserted in
          let stored = ap (λ (x : InvestmentProposal × Store D). x.1) (ok-injective h3) in
          record {
            p = proposal;
            entry = record {
              id = versioned.1.fresh;
              proposal_id = s.fresh;
              proposal_version_id = versioned.0.id;
              action = created;
              from_status = none;
              to_status = draft;
              actor_user_id = actor;
              actor_role = role;
              reason = none;
              decision_provenance = of_content versioned.0.content_hash;
              occurred_at = now;
              resulting_row_version = 1;
            };
            named = refl;
            drafted = refl;
            first = refl;
            of = refl;
            from = refl;
            action = refl;
            to = refl;
            rows = rw (← stored) refl;
            logged = rw (← stored) refl;
            older = omega (arith, ap (λ (x : Store D). x.fresh) stored);
          }

-- The invariant after it.
Created-IsConsistent :
    {D : Type 0} {s s' : Store D} → IsConsistent s → Created s s' → IsConsistent s'
Created-IsConsistent {s} {s'} c k =
    let (unmoved, uncounted) = fresh_history s.fresh s.transitions c.history_old in
    let ts = s.transitions ++ k.entry ∷ [] in
    let own : IsFollowed ts k.p = record {
      legal = simp (
        follow-append s.fresh new s.transitions k.entry,
        k.named,
        unmoved,
        k.of,
        ==_refl,
        k.from,
        k.action,
        k.to,
        k.drafted,
      );
      counted = simp (
        entries-append s.fresh s.transitions k.entry,
        k.named,
        uncounted,
        k.of,
        ==_refl,
        k.first,
      );
    } in
    record {
      followed =
          subst (λ ps. All (IsFollowed s'.transitions) ps) (sym k.rows)
            (subst (λ us. All (IsFollowed us) (s.proposals ++ k.p ∷ [])) (sym k.logged)
              (All-append (IsFollowed ts) s.proposals (k.p ∷ [])
                (older-IsFollowed s.fresh s.transitions k.entry s.proposals k.of c.proposals_old
                  c.followed)
                (own, tt)));
      distinct =
          subst (Apart OtherId) (sym k.rows)
            (append-Apart s.proposals k.p (rw k.named c.proposals_old) c.distinct);
      proposals_old = subst (All (λ p. p.id < s'.fresh)) (sym k.rows) (
          All-append (λ p. p.id < s'.fresh) s.proposals (k.p ∷ [])
            (below_again s.proposals s.fresh s'.fresh (omega (arith, k.older)) c.proposals_old)
            (omega (arith, k.named, k.older), tt));
      history_old = subst (All (λ t. t.proposal_id < s'.fresh)) (sym k.logged) (
          All-append (λ t. t.proposal_id < s'.fresh) s.transitions (k.entry ∷ [])
            (history_below s.transitions s.fresh s'.fresh (omega (arith, k.older)) c.history_old)
            (omega (arith, k.of, k.older), tt));
    }

pub create-IsConsistent :
    {D : Type 0} ⦃d : Decimal D⦄ (digests : Digests D) (fund actor : ℕ)
    (content : ProposalVersionInput D) (now : Datetime) (s : Store D) {p : InvestmentProposal}
    {s' : Store D}
    → IsConsistent s
    → create digests fund actor content now s ≡ ok (p, s')
    → IsConsistent s'
create-IsConsistent digests fund actor content now s c h =
    Created-IsConsistent c (create-Created digests fund actor content now s h)

-- It adds one row behind the others.
pub create-rows :
    {D : Type 0} ⦃d : Decimal D⦄ (digests : Digests D) (fund actor : ℕ)
    (content : ProposalVersionInput D) (now : Datetime) (s : Store D) {p : InvestmentProposal}
    {s' : Store D}
    → create digests fund actor content now s ≡ ok (p, s')
    → (q : InvestmentProposal) × (s'.proposals ≡ s.proposals ++ q ∷ [])
create-rows digests fund actor content now s h =
    let k = create-Created digests fund actor content now s h in (k.p, k.rows)
