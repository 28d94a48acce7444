-- ===== src/Portfolio/Validation/Accepts.antt =====
-- What `_validate_scope_and_timestamps` accepts: every transaction passes the tests of its own, and
-- no two have one identifier. The order of the transactions does not matter.
use mathlib.Core.List.{Permᴰ}
use hawk_fund_investment_int.Prelude.{
  ℕ, ◌≡◌, refl, false, List, [], ◌∷◌, ok, arith, contains, All, ◌==◌,
}
use hawk_fund_investment_int.Prelude.Order.{Apart, All-perm, Apart-perm}
use hawk_fund_investment_int.Number.{Decimal}
use hawk_fund_investment_int.Portfolio.Types.{LedgerTransaction}
use hawk_fund_investment_int.Portfolio.Validation.{
  validate_one, validate_from, validate_scope_and_timestamps,
}

module _ {D : Type 0} where
  abbrev pub Differs : LedgerTransaction D → LedgerTransaction D → Type 0
  Differs s t = (s.id == t.id) ≡ false

  pub Differs-symm : (s t : LedgerTransaction D) → Differs s t → Differs t s
  Differs-symm s t h = ground arith

  abbrev Unseen : List ℕ → LedgerTransaction D → Type 0
  Unseen seen t = contains seen t.id ≡ false

  All-Unseen_split :
      (x : LedgerTransaction D) (seen : List ℕ) (ts : List (LedgerTransaction D))
      → All (Unseen (x.id ∷ seen)) ts
      → All (Differs x) ts × All (Unseen seen) ts
  All-Unseen_split x seen [] h = (tt, tt)
  All-Unseen_split x seen (t ∷ ts) h = ground (arith, All-Unseen_split x seen ts h.1)

  All-Unseen_join :
      (x : LedgerTransaction D) (seen : List ℕ) (ts : List (LedgerTransaction D))
      → All (Differs x) ts
      → All (Unseen seen) ts
      → All (Unseen (x.id ∷ seen)) ts
  All-Unseen_join x seen [] h k = tt
  All-Unseen_join x seen (t ∷ ts) h k = ground (arith, All-Unseen_join x seen ts h.1 k.1)

  All-Unseen_nil : (ts : List (LedgerTransaction D)) → All (Unseen []) ts
  All-Unseen_nil [] = tt
  All-Unseen_nil (t ∷ ts) = (refl, All-Unseen_nil ts)

module _ {D : Type 0} ⦃d : Decimal D⦄ (fund_id : ℕ) where
  abbrev pub Passes : LedgerTransaction D → Type 0
  Passes t = validate_one fund_id t ≡ ok tt

  abbrev pub Accepted : List (LedgerTransaction D) → Type 0
  Accepted ts = All Passes ts × Apart Differs ts

  from_ok :
      (seen : List ℕ) (ts : List (LedgerTransaction D))
      → validate_from fund_id seen ts ≡ ok tt
      → All Passes ts × All (Unseen seen) ts × Apart Differs ts
  unfolding validate_from
  from_ok seen [] h = (tt, tt, tt)
  from_ok seen (t ∷ ts) h = ground (arith, from_ok (t.id ∷ seen) ts, All-Unseen_split t seen ts)

  to_ok :
      (seen : List ℕ) (ts : List (LedgerTransaction D))
      → All Passes ts
      → All (Unseen seen) ts
      → Apart Differs ts
      → validate_from fund_id seen ts ≡ ok tt
  unfolding validate_from
  to_ok seen [] h k l = refl
  to_ok seen (t ∷ ts) h k l =
      rw (k.0, h.0) (to_ok (t.id ∷ seen) ts h.1 (All-Unseen_join t seen ts l.0 k.1) l.1)

  pub validate→Accepted :
      (ts : List (LedgerTransaction D))
      → validate_scope_and_timestamps fund_id ts ≡ ok tt
      → Accepted ts
  unfolding validate_scope_and_timestamps
  validate→Accepted ts h = let (all, _, apart) = from_ok [] ts h in (all, apart)

  pub Accepted→validate :
      (ts : List (LedgerTransaction D))
      → Accepted ts
      → validate_scope_and_timestamps fund_id ts ≡ ok tt
  unfolding validate_scope_and_timestamps
  Accepted→validate ts h = to_ok [] ts h.0 (All-Unseen_nil ts) h.1

  pub validate-perm :
      {ts us : List (LedgerTransaction D)}
      → Permᴰ ts us
      → Accepted ts
      → validate_scope_and_timestamps fund_id us ≡ ok tt
  validate-perm {us} p h =
      Accepted→validate us (All-perm Passes p h.0, Apart-perm Differs Differs-symm p h.1)
