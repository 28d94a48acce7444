-- ===== src/Ledger/Keys.antt =====
-- The keys that the ledger keeps unique: the source identity of a transaction, and the target of a
-- reversal.
use hawk_fund_investment_int.Prelude.Order.{append-Apart}
use hawk_fund_investment_int.Prelude.{
  find-none, require-some, is_some-none, ℕ, ◌≡◌, refl, sym, ap, ◌∙◌, subst, Bool, Bool-cases, true,
  false, not, ◌&&◌, ◌||◌, Option, none, some, List, [], ◌∷◌, ok, arith, ◌==◌, Text, after_ok,
  ok-injective, inl, inr, option_eq, All, ==→eq, find-some, is_some, raise_if, raise_if-eq-ok,
  require,
}
use hawk_fund_investment_int.Prelude.Order.{Apart}
use hawk_fund_investment_int.Number.{Decimal}
use hawk_fund_investment_int.Clock.{Datetime}
use hawk_fund_investment_int.Ledger.Types.{TransactionType, is_reversal}
use hawk_fund_investment_int.Ledger.Types.TransactionType.{reversal}
use hawk_fund_investment_int.Ledger.Command.{
  CreateTransaction, EconomicPayload, missing, reverses_field, unknown_target, targets_reversal,
  other_scope, already_reversed, validation, bad_reversal,
}
use hawk_fund_investment_int.Ledger.Validation.{validate_transaction}
use hawk_fund_investment_int.Ledger.Store.{
  Transaction, Store, by_source_identity, by_id, reversal_for, reverses, has_identity, add,
}
use hawk_fund_investment_int.Ledger.Service.{
  CreationResult, target_of, reversal_target, validate_import_batch, validate_reversal,
  record_conflict, new_transaction, repeated, create_for, create,
}
use hawk_fund_investment_int.Ledger.Rows.{IsBlind, mark_target-Apart}
use hawk_fund_investment_int.Ledger.Idempotence.{Posted, post-Posted}

reversal_only : (k : TransactionType) → is_reversal k ≡ true → k ≡ reversal
reversal_only k h = ground arith

module _ {D : Type 0} where
  -- The rows have two source identities.
  abbrev pub OtherIdentity : Transaction D → Transaction D → Type 0
  OtherIdentity t u =
      has_identity u.command.fund_id u.command.source u.command.external_id t ≡ false

  abbrev pub same_target : Transaction D → Transaction D → Bool
  same_target t u =
      is_reversal t.command.transaction_type
      && is_reversal u.command.transaction_type
      && option_eq t.command.reverses_transaction_id u.command.reverses_transaction_id

  -- The rows are not two reversals of one target.
  abbrev pub OtherTarget : Transaction D → Transaction D → Type 0
  OtherTarget t u = same_target t u ≡ false

  -- No two transactions have one source identity, and none has two reversals.
  pub record IsKeyed (s : Store D) : Type 0 where
    pub identities : Apart OtherIdentity s.transactions
    pub targets : Apart OtherTarget s.transactions

  identity-IsBlind : IsBlind OtherIdentity
  identity-IsBlind = record { left = λ t u h. h; right = λ t u h. h }

  target-IsBlind : IsBlind OtherTarget
  target-IsBlind = record { left = λ t u h. h; right = λ t u h. h }

  not_reversal :
      (c : CreateTransaction D) (row : Transaction D) (ts : List (Transaction D))
      → row.command.transaction_type ≡ c.transaction_type
      → is_reversal c.transaction_type ≡ false
      → All (λ t. OtherTarget t row) ts
  not_reversal c row [] same h = tt
  not_reversal c row (t ∷ ts) same h = (ground arith, not_reversal c row ts same h)

  other_targets :
      (id : ℕ) (row : Transaction D) (ts : List (Transaction D))
      → row.command.reverses_transaction_id ≡ some id
      → All (λ t. reverses id t ≡ false) ts
      → All (λ t. OtherTarget t row) ts
  other_targets id row [] same h = tt
  other_targets id row (t ∷ ts) same h = (ground (arith, h.0), other_targets id row ts same h.1)

  -- What a reversal has passed.
  reversal_target-free :
      (c : CreateTransaction D) (s : Store D) {target : Transaction D}
      → reversal_target c s ≡ ok target
      → (c.reverses_transaction_id ≡ some target.id) × (reversal_for target.id s ≡ none)
  unfolding reversal_target by_id
  reversal_target-free c s {target} h =
      after_ok (require c.reverses_transaction_id (validation (missing reverses_field))) _ h
        λ id given h1.
          after_ok (require (by_id id s) (bad_reversal unknown_target)) _ h1 λ t found h2.
            after_ok
              (raise_if (is_reversal t.command.transaction_type) (bad_reversal targets_reversal)) _
              h2
              λ _ _ h3.
                after_ok
                  (raise_if
                    (not (t.command.fund_id == c.fund_id)
                      || not (t.command.account_id == c.account_id))
                    (bad_reversal other_scope))
                  _ h3
                  λ _ _ h4.
                    after_ok
                      (raise_if (is_some (reversal_for t.id s)) (bad_reversal already_reversed)) _
                      h4
                      λ _ free h5.
                        let there = require-some (by_id id s) _ found in
                        let own : t.id ≡ id =
                          ==→eq t.id id (find-some (λ u. u.id == id) s.transactions there) in
                        let one : t ≡ target = ok-injective h5 in
                        rw (← one) (
                          rw own (require-some c.reverses_transaction_id _ given),
                          is_some-none (reversal_for t.id s) (raise_if-eq-ok _ _ free),
                        )

  reversal-of-ok :
      (k : TransactionType) (c : CreateTransaction D) (s : Store D)
      {target : Option (Transaction D)}
      → k ≡ reversal
      → target_of k c s ≡ ok target
      → (t : Transaction D) × (reversal_target c s ≡ ok t)
  reversal-of-ok k c s {target} same h =
      let as_reversal : target_of reversal c s ≡ ok target =
        subst (λ x. target_of x c s ≡ ok target) same h in
      after_ok (reversal_target c s) _ as_reversal λ t found _. (t, found)

  -- The new row is of a target that no other reversal has.
  targets_apart :
      (c : CreateTransaction D) (row : Transaction D) (s : Store D)
      {target : Option (Transaction D)}
      → row.command.transaction_type ≡ c.transaction_type
      → row.command.reverses_transaction_id ≡ c.reverses_transaction_id
      → validate_reversal c s ≡ ok target
      → All (λ t. OtherTarget t row) s.transactions
  unfolding validate_reversal reversal_for
  targets_apart c row s kind names h = elim (Bool-cases (is_reversal c.transaction_type)) [
    | inl e ↦
        let (t, found) =
          reversal-of-ok c.transaction_type c s (reversal_only c.transaction_type e) h in
        let (given, free) = reversal_target-free c s found in
        other_targets t.id row s.transactions (names ∙ given)
          (find-none (reverses t.id) s.transactions free)
    | inr e ↦ not_reversal c row s.transactions kind e
  ]

module _ {D : Type 0} ⦃d : Decimal D⦄ (digest : EconomicPayload D → Text) where
  Posted-IsKeyed :
      (id : ℕ) (c : CreateTransaction D) (s : Store D) {r : CreationResult D} {s' : Store D}
      → by_source_identity c.fund_id c.source c.external_id s ≡ none
      → IsKeyed s
      → Posted digest id c s r s'
      → IsKeyed s'
  unfolding by_source_identity add
  Posted-IsKeyed id c s fresh k posted =
      let row = new_transaction digest id c in
      subst IsKeyed (sym posted.store) (record {
        identities = mark_target-Apart OtherIdentity identity-IsBlind posted.target (add row s) (
            append-Apart OtherIdentity row s.transactions
              (find-none (has_identity c.fund_id c.source c.external_id) s.transactions fresh)
              k.identities);
        targets = mark_target-Apart OtherTarget target-IsBlind posted.target (add row s) (
            append-Apart OtherTarget row s.transactions
              (targets_apart c row s refl refl posted.reverses) k.targets);
      })

  repeated_rows :
      (id : ℕ) (now : Datetime) (c : CreateTransaction D) (t : Transaction D) (s : Store D)
      → (repeated digest id now c t s).1.transactions ≡ s.transactions
  unfolding record_conflict
  repeated_rows id now c t s = ground arith

  same_rows : {s s' : Store D} → s'.transactions ≡ s.transactions → IsKeyed s → IsKeyed s'
  same_rows h k = record { identities = rw h k.identities; targets = rw h k.targets }

  create_for-IsKeyed :
      (id : ℕ) (now : Datetime) (c : CreateTransaction D) (found : Option (Transaction D))
      (s : Store D) {r : CreationResult D} {s' : Store D}
      → by_source_identity c.fund_id c.source c.external_id s ≡ found
      → IsKeyed s
      → create_for digest id now c found s ≡ ok (r, s')
      → IsKeyed s'
  create_for-IsKeyed id now c none s fresh k h =
      Posted-IsKeyed id c s fresh k (post-Posted digest id c s h)
  create_for-IsKeyed id now c (some t) s fresh k h =
      let after = ap (λ (x : CreationResult D × Store D). x.1.transactions) (ok-injective h) in
      same_rows (sym after ∙ repeated_rows id now c t s) k

  -- In a ledger where no two transactions have one source identity and none has two reversals, a
  -- successful call leaves it so, whatever it does with its command.
  pub create-IsKeyed :
      (id : ℕ) (now : Datetime) (c : CreateTransaction D) (s : Store D) {r : CreationResult D}
      {s' : Store D}
      → IsKeyed s
      → create digest id now c s ≡ ok (r, s')
      → IsKeyed s'
  unfolding create
  create-IsKeyed id now c s k h = after_ok (validate_transaction c) _ h λ _ _ h1.
      after_ok (validate_import_batch c s) _ h1 λ _ _ h2.
        create_for-IsKeyed id now c (by_source_identity c.fund_id c.source c.external_id s) s refl k
          h2
