-- ===== src/Portfolio/Replay.antt =====
-- `reconstruct` depends on the set of transactions alone: neither the order in which they are
-- supplied nor transactions after the cutoff or outside the account change its result.
use mathlib.Core.List.{Permᴰ, append-nil}
use hawk_fund_investment_int.Prelude.{
  ℕ, ◌≡◌, refl, true, false, inl, inr, ◌⊎◌, Option, List, [], ◌∷◌, ◌++◌, ok, arith, select,
  select-append, All, Text, Bool-cases, ◌>>=◌,
}
use hawk_fund_investment_int.Prelude.Order.{
  sorted, sorted-perm, Apart-weaken, IsStrict, Apart, Apart-select, select-perm,
}
use hawk_fund_investment_int.Number.{Decimal}
use hawk_fund_investment_int.Clock.{Datetime}
use hawk_fund_investment_int.Portfolio.Types.{LedgerTransaction, PortfolioState}
use hawk_fund_investment_int.Portfolio.Validation.{validate_scope_and_timestamps}
use hawk_fund_investment_int.Portfolio.Validation.Accepts.{
  Differs, validate→Accepted, validate-perm,
}
use hawk_fund_investment_int.Portfolio.Engine.{
  Payload, earlier, is_included, apply_all, start, assemble, reconstruct,
}

earlier-IsStrict : {D : Type 0} → IsStrict (earlier {D = D})
earlier-IsStrict = record { asymm = λ s t h. ground arith; trans = λ s t u h k. ground arith }

module _ {D : Type 0} where
  Ordered_of_Differs :
      (s t : LedgerTransaction D) → Differs s t → (earlier s t ≡ true) ⊎ (earlier t s ≡ true)
  Ordered_of_Differs s t h = elim (Bool-cases (earlier s t)) [
    | inl e ↦ inl e
    | inr e ↦ inr (ground arith)
  ]

  -- The ordered transactions that the engine applies.
  abbrev pub chosen : Datetime → Option ℕ → List (LedgerTransaction D) → List (LedgerTransaction D)
  chosen as_of scope ts = sorted earlier (select (is_included as_of scope) ts)

  pub chosen-perm :
      (as_of : Datetime) (scope : Option ℕ) {ts us : List (LedgerTransaction D)}
      → Permᴰ ts us
      → Apart Differs ts
      → chosen as_of scope ts ≡ chosen as_of scope us
  chosen-perm as_of scope {ts} p h =
      let keep = is_included {D = D} as_of scope in
      sorted-perm earlier earlier-IsStrict (select-perm keep p) (
        Apart-weaken Differs _ (select keep ts) Ordered_of_Differs (Apart-select Differs keep ts h))

  select_excluded :
      (as_of : Datetime) (scope : Option ℕ) (ts : List (LedgerTransaction D))
      → All (λ t. is_included as_of scope t ≡ false) ts
      → select (is_included as_of scope) ts ≡ []
  select_excluded as_of scope [] h = refl
  select_excluded as_of scope (t ∷ ts) h = rw h.0 (select_excluded as_of scope ts h.1)

  chosen-append_excluded :
      (as_of : Datetime) (scope : Option ℕ) (ts extra : List (LedgerTransaction D))
      → All (λ t. is_included as_of scope t ≡ false) extra
      → chosen as_of scope (ts ++ extra) ≡ chosen as_of scope ts
  chosen-append_excluded as_of scope ts extra h =
      let keep = is_included {D = D} as_of scope in
      rw (select-append keep ts extra, select_excluded as_of scope extra h, append-nil)

module _ {D : Type 0} ⦃d : Decimal D⦄ (digest : Payload D → Text) (fund_id : ℕ) where
  -- What a successful call has done.
  pub reconstruct-eq-ok :
      (ts : List (LedgerTransaction D)) (as_of : Datetime) (scope : Option ℕ) {s : PortfolioState D}
      → reconstruct digest fund_id ts as_of scope ≡ ok s
      → (as_of.aware ≡ true)
        × (validate_scope_and_timestamps fund_id ts ≡ ok tt)
        × ((apply_all (chosen as_of scope ts) start >>= λ r.
              ok (assemble digest fund_id scope as_of (chosen as_of scope ts) r))
            ≡ ok s)
  unfolding reconstruct
  reconstruct-eq-ok ts as_of scope h = ground arith

  reconstruct-of-parts :
      (ts : List (LedgerTransaction D)) (as_of : Datetime) (scope : Option ℕ) {s : PortfolioState D}
      → as_of.aware ≡ true
      → validate_scope_and_timestamps fund_id ts ≡ ok tt
      → (apply_all (chosen as_of scope ts) start >>= λ r.
          ok (assemble digest fund_id scope as_of (chosen as_of scope ts) r))
        ≡ ok s
      → reconstruct digest fund_id ts as_of scope ≡ ok s
  unfolding reconstruct
  reconstruct-of-parts ts as_of scope a v h = simp (a, v) h

  -- A successful reconstruction gives the same state, the digest of its input included, whatever
  -- the order in which the transactions are supplied.
  pub reconstruct-perm :
      {ts us : List (LedgerTransaction D)} (as_of : Datetime) (scope : Option ℕ)
      {s : PortfolioState D}
      → Permᴰ ts us
      → reconstruct digest fund_id ts as_of scope ≡ ok s
      → reconstruct digest fund_id us as_of scope ≡ ok s
  reconstruct-perm {ts} {us} as_of scope p h =
      let (aware, valid, applied) = reconstruct-eq-ok ts as_of scope h in
      let accepted = validate→Accepted fund_id ts valid in
      reconstruct-of-parts us as_of scope aware (validate-perm fund_id p accepted)
        (rw (← chosen-perm as_of scope p accepted.1) applied)

  -- Transactions that the cutoff or the account excludes change nothing, where all are accepted.
  pub reconstruct-append_excluded :
      (ts extra : List (LedgerTransaction D)) (as_of : Datetime) (scope : Option ℕ)
      {s : PortfolioState D}
      → All (λ t. is_included as_of scope t ≡ false) extra
      → validate_scope_and_timestamps fund_id (ts ++ extra) ≡ ok tt
      → reconstruct digest fund_id ts as_of scope ≡ ok s
      → reconstruct digest fund_id (ts ++ extra) as_of scope ≡ ok s
  reconstruct-append_excluded ts extra as_of scope out valid h =
      let (aware, _, applied) = reconstruct-eq-ok ts as_of scope h in
      reconstruct-of-parts (ts ++ extra) as_of scope aware valid
        (rw (chosen-append_excluded as_of scope ts extra out) applied)
