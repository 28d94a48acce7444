-- ===== src/Ledger/Idempotence.antt =====
-- A command that `TransactionService.create` has posted is a duplicate when it comes again, and
-- changes nothing then.
use mathlib.Core.Option.{some-injective}
use hawk_fund_investment_int.Prelude.{
  find-append_none, subst, Bool-cases, inl, inr, ◌==◌, if◌then◌else◌, ℕ, ◌≡◌, refl, sym, ap, ◌∙◌,
  Bool, true, Option, none, some, List, [], ◌∷◌, ok, arith, find, ==_refl, text_eq_refl, Text,
  after_ok, ok-injective,
}
use hawk_fund_investment_int.Number.{Decimal}
use hawk_fund_investment_int.Clock.{Datetime}
use hawk_fund_investment_int.Ledger.Types.{reversed}
use hawk_fund_investment_int.Ledger.Command.{CreateTransaction, EconomicPayload}
use hawk_fund_investment_int.Ledger.Validation.{validate_transaction}
use hawk_fund_investment_int.Ledger.Store.{
  Transaction, Store, by_source_identity, has_identity, add, mark_reversed,
}
use hawk_fund_investment_int.Ledger.Service.{
  batch_matches, record_conflict, CreationResult, created, duplicate, result, payload_hash,
  validate_import_batch, validate_opening_order, validate_reversal, mark_target, new_transaction,
  post, create_for, create,
}

module _ {D : Type 0} where
  -- One row of `mark_reversed`.
  abbrev mark_one : ℕ → Transaction D → Transaction D
  mark_one id t = if t.id == id then record t { status = reversed } else t

  -- The same row, but for its status.
  abbrev IsRow : Transaction D → Transaction D → Type 0
  IsRow t u =
      (t.id ≡ u.id)
      × (t.command ≡ u.command)
      × (t.normalized_payload_hash ≡ u.normalized_payload_hash)

  mark_one-IsRow : (id : ℕ) (t : Transaction D) → IsRow (mark_one id t) t
  mark_one-IsRow id t = elim (Bool-cases (t.id == id)) [
    | inl e ↦ rw e (refl, refl, refl)
    | inr e ↦ rw e (refl, refl, refl)
  ]

module _ {D : Type 0} (p : Transaction D → Bool) where
  -- A test that does not read the status finds the same row behind a mark.
  find-mark :
      (id : ℕ)
      → ((t : Transaction D) → p (record t { status = reversed }) ≡ p t)
      → (ts : List (Transaction D)) {t : Transaction D} → find p ts ≡ some t
      → (u : Transaction D) × (find p (mark_reversed id ts) ≡ some u) × IsRow u t
  find-mark id same [] h = cc
  find-mark id same (t ∷ ts) {t = found} h =
      let kept : p (mark_one id t) ≡ p t = elim (Bool-cases (t.id == id)) [
        | inl e ↦ rw e (same t)
        | inr e ↦ rw e refl
      ] in
      elim (Bool-cases (p t)) [
        | inl e ↦
            let one : t ≡ found = some-injective _ _ (rw e at h) in
            (
              mark_one id t,
              rw (kept, e) refl,
              subst (IsRow (mark_one id t)) one (mark_one-IsRow id t),
            )
        | inr e ↦
            let (u, there, row) = find-mark id same ts (rw e at h) in (u, rw (kept, e) there, row)
      ]

module _ {D : Type 0} ⦃d : Decimal D⦄ (digest : EconomicPayload D → Text) where
  -- What a successful `post` has done.
  pub record Posted (id : ℕ) (c : CreateTransaction D) (s : Store D) (r : CreationResult D)
      (s' : Store D) : Type 0 where
    pub target : Option (Transaction D)
    pub in_order : validate_opening_order c s ≡ ok tt
    pub reverses : validate_reversal c s ≡ ok target
    pub returned : r ≡ result created (new_transaction digest id c) none
    pub store : s' ≡ mark_target target (add (new_transaction digest id c) s)

  pub post-Posted :
      (id : ℕ) (c : CreateTransaction D) (s : Store D) {r : CreationResult D} {s' : Store D}
      → post digest id c s ≡ ok (r, s')
      → Posted id c s r s'
  unfolding post
  post-Posted id c s h = after_ok (validate_opening_order c s) _ h λ _ ordered h1.
      after_ok (validate_reversal c s) _ h1 λ target valid h2.
        let made = ok-injective h2 in
        record {
          target = target;
          in_order = ordered;
          reverses = valid;
          returned = ap (λ (x : CreationResult D × Store D). x.0) (sym made);
          store = ap (λ (x : CreationResult D × Store D). x.1) (sym made);
        }

  pub own_identity :
      (id : ℕ) (c : CreateTransaction D)
      → has_identity c.fund_id c.source c.external_id (new_transaction digest id c) ≡ true
  own_identity id c = rw (==_refl c.fund_id, text_eq_refl c.source) (text_eq_refl c.external_id)

  mark_finds :
      (c : CreateTransaction D) (target : Option (Transaction D)) (s : Store D) {t : Transaction D}
      → by_source_identity c.fund_id c.source c.external_id s ≡ some t
      → (u : Transaction D) × (by_source_identity c.fund_id c.source c.external_id
            (mark_target target s)
          ≡ some u)
        × IsRow u t
  unfolding by_source_identity
  mark_finds c none s {t} h = (t, h, (refl, refl, refl))
  mark_finds c (some target) s h =
      find-mark (has_identity c.fund_id c.source c.external_id) target.id (λ t. refl) s.transactions
        h

  mark_batches :
      (target : Option (Transaction D)) (s : Store D) → (mark_target target s).batches ≡ s.batches
  mark_batches none s = refl
  mark_batches (some t) s = refl

  same_batches :
      (c : CreateTransaction D) (batch : Option ℕ) (s s' : Store D)
      → s'.batches ≡ s.batches
      → batch_matches c batch s' ≡ batch_matches c batch s
  same_batches c none s s' h = refl
  same_batches c (some id) s s' h = rw h refl

  -- A command that meets the row that it made.
  meets_row :
      (id : ℕ) (now : Datetime) (c : CreateTransaction D) (s : Store D) (t : Transaction D)
      → validate_transaction c ≡ ok tt
      → validate_import_batch c s ≡ ok tt
      → by_source_identity c.fund_id c.source c.external_id s ≡ some t
      → t.normalized_payload_hash ≡ payload_hash digest c
      → create digest id now c s ≡ ok (result duplicate t none, s)
  unfolding create
  meets_row id now c s t valid batch there hash =
      simp (valid, batch, there, hash, text_eq_refl (payload_hash digest c))

  -- Only a new command is posted.
  was_fresh :
      (id : ℕ) (now : Datetime) (c : CreateTransaction D) (found : Option (Transaction D))
      (s : Store D) {r : CreationResult D} {s' : Store D}
      → create_for digest id now c found s ≡ ok (r, s')
      → r.status ≡ created
      → found ≡ none
  unfolding record_conflict
  was_fresh id now c none s h made = refl
  was_fresh id now c (some t) s h made = ground arith

  -- A command that has been posted, and comes again at any time with any new identifiers, is a
  -- duplicate, and the store stays as it is. The row that is returned is the one of the ledger with
  -- the source identity of the command, and has the identifier, the command and the hash of the row
  -- that the first call made.
  pub create_again :
      (id id' : ℕ) (now now' : Datetime) (c : CreateTransaction D) (s : Store D)
      {r : CreationResult D} {s' : Store D}
      → create digest id now c s ≡ ok (r, s')
      → r.status ≡ created
      → (t : Transaction D) × (create digest id' now' c s' ≡ ok (result duplicate t none, s'))
        × (by_source_identity c.fund_id c.source c.external_id s' ≡ some t)
        × (t.id ≡ r.transaction.id)
        × (t.command ≡ r.transaction.command)
        × (t.normalized_payload_hash ≡ r.transaction.normalized_payload_hash)
  unfolding create validate_import_batch by_source_identity add
  create_again id id' now now' c s {r} {s'} h new =
      after_ok (validate_transaction c) _ h λ _ valid h1.
        after_ok (validate_import_batch c s) _ h1 λ _ batch h2.
          let fresh =
            was_fresh id now c (by_source_identity c.fund_id c.source c.external_id s) s h2 new in
          let posted = post-Posted id c s (rw fresh at h2) in
          let row = new_transaction digest id c in
          let s'' = mark_target posted.target (add row s) in
          let made : by_source_identity c.fund_id c.source c.external_id (add row s) ≡ some row =
            find-append_none (has_identity c.fund_id c.source c.external_id) s.transactions row
              fresh (own_identity id c) in
          let (t, there, (own, same_command, hash)) = mark_finds c posted.target (add row s) made in
          let same =
            same_batches c c.import_batch_id s s'' (mark_batches posted.target (add row s)) in
          let first : row ≡ r.transaction =
            ap (λ (x : CreationResult D). x.transaction) (sym posted.returned) in
          (
            t,
            subst (λ x. create digest id' now' c x ≡ ok (result duplicate t none, x))
                (sym posted.store) (meets_row id' now' c s'' t valid (same ∙ batch) there hash),
            subst (λ x. by_source_identity c.fund_id c.source c.external_id x ≡ some t)
                (sym posted.store) there,
            own ∙ ap (λ (x : Transaction D). x.id) first,
            same_command ∙ ap (λ (x : Transaction D). x.command) first,
            hash ∙ ap (λ (x : Transaction D). x.normalized_payload_hash) first,
          )
