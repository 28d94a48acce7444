-- ===== src/Portfolio/Engine/Steps.antt =====
-- What a successful step of the loop of `reconstruct` has gone through.
use hawk_fund_investment_int.Prelude.{ℕ, ◌≡◌, ok, Bool, ◌>>=◌, >>=-eq-ok, arith, ◌==◌, true, false}
use hawk_fund_investment_int.Number.{Decimal, nil_amount}
use hawk_fund_investment_int.Dict.{Dict, set_default}
use hawk_fund_investment_int.Ledger.Types.{is_reversal}
use hawk_fund_investment_int.Portfolio.Types.{LedgerTransaction}
use hawk_fund_investment_int.Portfolio.Effects.{Effect, Positions}
use hawk_fund_investment_int.Portfolio.Engine.{
  Run, add_cash, update_positions, choose_step, settle, step,
}

module _ {D : Type 0} ⦃d : Decimal D⦄ where
  pub record Settled (id : ℕ) (e : Effect D) (r s : Run D) : Type 0 where
    pub cash : Dict ℕ D
    pub positions : Positions D
    pub added : add_cash e.account_id e.cash_delta r.cash ≡ ok cash
    pub updated : update_positions id e e.instrument_id r.positions ≡ ok positions
    pub result : s ≡ record r { cash = cash; positions = positions }

  pub settle-eq-ok :
      (id : ℕ) (e : Effect D) (r : Run D) {s : Run D} → settle id e r ≡ ok s → Settled id e r s
  unfolding settle
  settle-eq-ok id e r h =
      let (cash, added, rest) =
        >>=-eq-ok (add_cash e.account_id e.cash_delta r.cash)
          (λ c. update_positions id e e.instrument_id r.positions >>= λ p.
            ok (record r { cash = c; positions = p }))
          h in
      let (positions, updated, stored) =
        >>=-eq-ok (update_positions id e e.instrument_id r.positions)
          (λ p. ok (record r { cash = cash; positions = p })) rest in
      record { cash = cash; positions = positions; added = added; updated = updated; result = cc }

  -- `cash.setdefault(transaction.account_id, ZERO)`
  abbrev pub opened : LedgerTransaction D → Run D → Run D
  opened t r = record r { cash = set_default ◌==◌ t.account_id nil_amount r.cash }

  pub record Stepped (t : LedgerTransaction D) (r s : Run D) : Type 0 where
    pub effect : Effect D
    pub taken : Run D
    pub chosen : choose_step (is_reversal t.transaction_type) t (opened t r) ≡ ok (effect, taken)
    pub settled : Settled t.id effect taken s

  pub step-eq-ok :
      (t : LedgerTransaction D) (r : Run D) {s : Run D} → step t r ≡ ok s → Stepped t r s
  unfolding step
  step-eq-ok t r h =
      let (taken, chosen, rest) =
        >>=-eq-ok (choose_step (is_reversal t.transaction_type) t (opened t r))
          (λ p. settle t.id p.0 p.1) h in
      record {
        effect = taken.0;
        taken = taken.1;
        chosen = chosen;
        settled = settle-eq-ok t.id taken.0 taken.1 rest;
      }

  -- Neither branch before the balances change touches cash or positions.
  pub choose_step-keeps :
      (b : Bool) (t : LedgerTransaction D) (r : Run D) {e : Effect D} {s : Run D}
      → choose_step b t r ≡ ok (e, s)
      → (s.cash ≡ r.cash) × (s.positions ≡ r.positions)
  unfolding choose_step
  choose_step-keeps true t r h = ground arith
  choose_step-keeps false t r h = ground arith
