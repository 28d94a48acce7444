-- ===== src/Ledger/Accepted.antt =====
-- Every transaction of the ledger is of a command that `validate_transaction` accepts, and its
-- identifier is its own.
use hawk_fund_investment_int.Prelude.Order.{append-Apart}
use hawk_fund_investment_int.Prelude.{
  find-none, ℕ, ◌≡◌, refl, sym, ap, ◌∙◌, subst, false, Option, none, some, [], ◌∷◌, ok, arith, All,
  All-append, ◌==◌, Text, after_ok, ok-injective,
}
use hawk_fund_investment_int.Prelude.Order.{Apart}
use hawk_fund_investment_int.Number.{Decimal}
use hawk_fund_investment_int.Clock.{Datetime}
use hawk_fund_investment_int.Ledger.Command.{CreateTransaction, EconomicPayload}
use hawk_fund_investment_int.Ledger.Validation.{validate_transaction, fields_of}
use hawk_fund_investment_int.Ledger.Types.{TransactionType}
use hawk_fund_investment_int.Ledger.Types.TransactionType.{
  buy, sell, cash_deposit, cash_withdrawal, dividend, fee, opening_cash, opening_position, reversal,
}
use hawk_fund_investment_int.Ledger.Store.{Transaction, Store, by_source_identity, by_id, add}
use hawk_fund_investment_int.Ledger.Service.{
  CreationResult, validate_import_batch, record_conflict, with_metadata, new_transaction, repeated,
  create_for, create,
}
use hawk_fund_investment_int.Ledger.Rows.{IsBlind, mark_target-Apart, mark_target-All}
use hawk_fund_investment_int.Ledger.Idempotence.{Posted, post-Posted}

module _ {D : Type 0} where
  -- The rows have two identifiers.
  abbrev pub OtherRow : Transaction D → Transaction D → Type 0
  OtherRow t u = (t.id == u.id) ≡ false

  row-IsBlind : IsBlind OtherRow
  row-IsBlind = record { left = λ t u h. h; right = λ t u h. h }

module _ {D : Type 0} ⦃d : Decimal D⦄ where
  abbrev pub IsValid : Transaction D → Type 0
  IsValid t = validate_transaction t.command ≡ ok tt

  pub record IsAccepted (s : Store D) : Type 0 where
    pub valid : All IsValid s.transactions
    pub distinct : Apart OtherRow s.transactions

  fields-metadata :
      (kind : TransactionType) (c : CreateTransaction D)
      → fields_of kind (with_metadata c) ≡ fields_of kind c
  fields-metadata buy c = refl
  fields-metadata sell c = refl
  fields-metadata cash_deposit c = refl
  fields-metadata cash_withdrawal c = refl
  fields-metadata dividend c = refl
  fields-metadata fee c = refl
  fields-metadata opening_cash c = refl
  fields-metadata opening_position c = refl
  fields-metadata reversal c = refl

  metadata-IsValid :
      (c : CreateTransaction D)
      → validate_transaction c ≡ ok tt
      → validate_transaction (with_metadata c) ≡ ok tt
  unfolding validate_transaction
  metadata-IsValid c h = rw (fields-metadata c.transaction_type c) h

  same-IsAccepted :
      {s s' : Store D} → s'.transactions ≡ s.transactions → IsAccepted s → IsAccepted s'
  same-IsAccepted h a = record { valid = rw h a.valid; distinct = rw h a.distinct }

  module _ (digest : EconomicPayload D → Text) where
    Posted-IsAccepted :
        (id : ℕ) (c : CreateTransaction D) (s : Store D) {r : CreationResult D} {s' : Store D}
        → validate_transaction c ≡ ok tt
        → by_id id s ≡ none
        → IsAccepted s
        → Posted digest id c s r s'
        → IsAccepted s'
    unfolding by_id add
    Posted-IsAccepted id c s ok_command fresh a posted =
        let row = new_transaction digest id c in
        subst IsAccepted (sym posted.store) (record {
          valid =
              mark_target-All IsValid (λ t h. h) posted.target (add row s)
                (All-append IsValid s.transactions (row ∷ []) a.valid
                  (metadata-IsValid c ok_command, tt));
          distinct = mark_target-Apart OtherRow row-IsBlind posted.target (add row s) (
              append-Apart OtherRow row s.transactions
                (find-none (λ t. t.id == id) s.transactions fresh) a.distinct);
        })

    repeated_rows :
        (id : ℕ) (now : Datetime) (c : CreateTransaction D) (t : Transaction D) (s : Store D)
        → (repeated digest id now c t s).1.transactions ≡ s.transactions
    unfolding record_conflict
    repeated_rows id now c t s = ground arith

    create_for-IsAccepted :
        (id : ℕ) (now : Datetime) (c : CreateTransaction D) (found : Option (Transaction D))
        (s : Store D) {r : CreationResult D} {s' : Store D}
        → validate_transaction c ≡ ok tt
        → by_id id s ≡ none
        → IsAccepted s
        → create_for digest id now c found s ≡ ok (r, s')
        → IsAccepted s'
    create_for-IsAccepted id now c none s valid fresh a h =
        Posted-IsAccepted id c s valid fresh a (post-Posted digest id c s h)
    create_for-IsAccepted id now c (some t) s valid fresh a h =
        let after = ap (λ (x : CreationResult D × Store D). x.1.transactions) (ok-injective h) in
        same-IsAccepted (sym after ∙ repeated_rows id now c t s) a

    -- A successful call with a new identifier keeps every transaction of the ledger one of a command
    -- that `validate_transaction` accepts, and the identifiers of the transactions unique.
    pub create-IsAccepted :
        (id : ℕ) (now : Datetime) (c : CreateTransaction D) (s : Store D) {r : CreationResult D}
        {s' : Store D}
        → by_id id s ≡ none
        → IsAccepted s
        → create digest id now c s ≡ ok (r, s')
        → IsAccepted s'
    unfolding create
    create-IsAccepted id now c s fresh a h = after_ok (validate_transaction c) _ h λ _ valid h1.
        after_ok (validate_import_batch c s) _ h1 λ _ _ h2.
          create_for-IsAccepted id now c (by_source_identity c.fund_id c.source c.external_id s) s
            valid fresh a h2
