-- ===== src/Portfolio/Holdings.antt =====
-- No position that the engine holds or returns has a negative quantity, a negative known cost or a
-- negative count of uncertain facts.
use hawk_fund_investment_int.Prelude.{
  ℕ, ◌≡◌, refl, false, Option, none, some, List, [], ◌∷◌, ok, arith, All, Text, Bool-cases, inl,
  inr, >>=-eq-ok, ok-injective, subst,
}
use hawk_fund_investment_int.Prelude.Order.{sorted, All-sorted}
use hawk_fund_investment_int.Number.{Decimal, IsOrdered, nil_amount, ◌⊘◌, ◌≺◌, ◌≈◌}
use hawk_fund_investment_int.Int.{pos, ltb_ℤ, eqb_ℤ}
use hawk_fund_investment_int.Clock.{Datetime}
use hawk_fund_investment_int.Dict.{get_or, insert, set_default}
use hawk_fund_investment_int.Dict.Laws.{Values, Values-insert, Values-set_default}
use hawk_fund_investment_int.Portfolio.Types.{
  LedgerTransaction, PositionState, PortfolioState, known, unknown,
}
use hawk_fund_investment_int.Portfolio.Effects.{
  Position, Effect, Key, Positions, same_key, empty_position, moved_position, apply_position_effect,
}
use hawk_fund_investment_int.Portfolio.Engine.{
  Payload, Run, update_positions, step, apply_all, start, rows_of, key_lt, position_state,
  output_positions, assemble, reconstruct,
}
use hawk_fund_investment_int.Portfolio.Replay.{chosen, reconstruct-eq-ok}
use hawk_fund_investment_int.Portfolio.Engine.Steps.{step-eq-ok, choose_step-keeps, opened}
use hawk_fund_investment_int.Ledger.Types.{is_reversal}

module _ {D : Type 0} ⦃d : Decimal D⦄ where
  -- What `_apply_position_effect` keeps of every position.
  pub record IsSound (p : Position D) : Type 0 where
    pub quantity_nonneg : (p.quantity ≺ nil_amount) ≡ false
    pub cost_nonneg : (p.known_cost ≺ nil_amount) ≡ false
    pub uncertainty_nonneg : ltb_ℤ p.uncertainty_count (pos 0) ≡ false

  pub moved_position-IsSound :
      (id : ℕ) (e : Effect D) (p : Position D) {q : Position D}
      → moved_position id e p ≡ ok q
      → IsSound q
  unfolding moved_position
  moved_position-IsSound id e p h = ground arith

  abbrev pub AllSound : Positions D → Type 0
  AllSound ps = Values IsSound ps

  -- A row of the output: the quantity is positive in the sense of the guards, and the cost basis is
  -- given exactly when it is known.
  pub record IsReported (s : PositionState D) : Type 0 where
    pub nonneg : (s.quantity ≺ nil_amount) ≡ false
    pub nonzero : (s.quantity ≈ nil_amount) ≡ false
    pub when_known :
        s.cost_basis_status ≡ known
        → (cost : D) × (s.total_cost_basis ≡ some cost)
          × ((cost ≺ nil_amount) ≡ false)
          × (s.average_cost ≡ some (cost ⊘ s.quantity))
    pub when_unknown :
        s.cost_basis_status ≡ unknown → (s.total_cost_basis ≡ none) × (s.average_cost ≡ none)

  module _ (laws : IsOrdered D) where
    empty-IsSound : IsSound empty_position
    empty-IsSound = record {
      quantity_nonneg = laws.lt_irrefl nil_amount;
      cost_nonneg = laws.lt_irrefl nil_amount;
      uncertainty_nonneg = refl;
    }

    apply_position_effect-AllSound :
        (id : ℕ) (e : Effect D) (instrument : ℕ) (ps : Positions D) {qs : Positions D}
        → AllSound ps
        → apply_position_effect id e instrument ps ≡ ok qs
        → AllSound qs
    unfolding apply_position_effect
    apply_position_effect-AllSound id e instrument ps v h =
        let key : Key = (e.account_id, instrument) in
        let present = set_default same_key key empty_position ps in
        let (moved, guarded, stored) =
          >>=-eq-ok (moved_position id e (get_or same_key key empty_position present))
            (λ m. ok (insert same_key key m present)) h in
        subst AllSound (cc) (
          Values-insert same_key IsSound key moved present (moved_position-IsSound id e _ guarded)
            (Values-set_default same_key IsSound key empty_position ps empty-IsSound v))

    update_positions-AllSound :
        (id : ℕ) (e : Effect D) (instrument : Option ℕ) (ps : Positions D) {qs : Positions D}
        → AllSound ps
        → update_positions id e instrument ps ≡ ok qs
        → AllSound qs
    update_positions-AllSound id e none ps v h = subst AllSound (cc) v
    update_positions-AllSound id e (some i) ps v h = apply_position_effect-AllSound id e i ps v h

    step-AllSound :
        (t : LedgerTransaction D) (r : Run D) {s : Run D}
        → AllSound r.positions
        → step t r ≡ ok s
        → AllSound s.positions
    step-AllSound t r v h =
        let st = step-eq-ok t r h in
        let e = st.effect in
        let after = st.settled in
        let same =
          (choose_step-keeps (is_reversal t.transaction_type) t (opened t r) st.chosen).1 in
        rw after.result (
          update_positions-AllSound t.id e e.instrument_id st.taken.positions (rw same v)
            after.updated)

    apply_all-AllSound :
        (ts : List (LedgerTransaction D)) (r : Run D) {s : Run D}
        → AllSound r.positions
        → apply_all ts r ≡ ok s
        → AllSound s.positions
    unfolding apply_all
    apply_all-AllSound [] r v h = rw (← ok-injective h) v
    apply_all-AllSound (t ∷ ts) r v h =
        let (mid, first, rest) = >>=-eq-ok (step t r) (apply_all ts) h in
        apply_all-AllSound ts mid (step-AllSound t r v first) rest

    -- The output of `_positions`.
    abbrev SoundRow : Key × Position D → Type 0
    SoundRow e = IsSound e.1

    All-SoundRow : (ps : Positions D) → AllSound ps → All SoundRow ps
    All-SoundRow [] v = tt
    All-SoundRow ((k, p) ∷ ps) v = (v.0, All-SoundRow ps v.1)

    position_state-IsReported :
        (k : Key) (p : Position D)
        → IsSound p
        → (p.quantity ≈ nil_amount) ≡ false
        → IsReported (position_state k p)
    position_state-IsReported k p v h = elim (Bool-cases (eqb_ℤ p.uncertainty_count (pos 0))) [
      | inl e ↦ record {
        nonneg = v.quantity_nonneg;
        nonzero = h;
        when_known = λ _. rw e (p.known_cost, refl, v.cost_nonneg, refl);
        when_unknown = rw e (λ q. cc);
      }
      | inr e ↦ record {
        nonneg = v.quantity_nonneg;
        nonzero = h;
        when_known = rw e (λ q. cc);
        when_unknown = rw e (λ _. (refl, refl));
      }
    ]

    rows_of-IsReported : (ps : Positions D) → All SoundRow ps → All IsReported (rows_of ps)
    rows_of-IsReported [] v = tt
    rows_of-IsReported ((k, p) ∷ ps) v =
        let rows = rows_of-IsReported ps v.1 in
        elim (Bool-cases (p.quantity ≈ nil_amount)) [
          | inl e ↦ rw e rows
          | inr e ↦ rw e (position_state-IsReported k p v.0 e, rows)
        ]

    output_positions-IsReported :
        (ps : Positions D) → AllSound ps → All IsReported (output_positions ps)
    unfolding output_positions
    output_positions-IsReported ps v =
        rows_of-IsReported (sorted key_lt ps) (All-sorted SoundRow key_lt ps (All-SoundRow ps v))

    -- Every position of a reconstructed portfolio has a quantity that is neither negative nor zero;
    -- its cost basis is given and is not negative exactly when it is known, and then its average is
    -- the cost over the quantity.
    pub reconstruct-IsReported :
        (digest : Payload D → Text) (fund_id : ℕ) (ts : List (LedgerTransaction D))
        (as_of : Datetime) (scope : Option ℕ) {s : PortfolioState D}
        → reconstruct digest fund_id ts as_of scope ≡ ok s
        → All IsReported s.positions
    unfolding reconstruct assemble
    reconstruct-IsReported digest fund_id ts as_of scope {s} h =
        let (aware, valid, applied) = reconstruct-eq-ok digest fund_id ts as_of scope h in
        let ordered = chosen as_of scope ts in
        let (r, run, out) =
          >>=-eq-ok (apply_all ordered start)
            (λ r. ok (assemble digest fund_id scope as_of ordered r)) applied in
        rw (← ok-injective out)
          (output_positions-IsReported r.positions (apply_all-AllSound ordered start tt run))
