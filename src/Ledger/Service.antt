-- ===== src/Ledger/Service.antt =====
-- apps/api/app/ledger/service.py: `TransactionService.create`. A rejected command raises before any
-- row is written, so only a success returns a new store. The SHA-256 of the canonical JSON is the
-- parameter `digest`; an identifier from `uuid4` and the time are arguments.
use hawk_fund_investment_int.Prelude.{
  ℕ, suc, Bool, not, ◌&&◌, ◌||◌, Option, none, some, List, [], ◌∷◌, ◌++◌, Outcome, ok, ◌>>=◌, ◌>>◌,
  raise_if, require, find, is_some, text_eq, ◌==◌, if◌then◌else◌, Text,
}
use hawk_fund_investment_int.Number.{Decimal}
use hawk_fund_investment_int.Clock.{Datetime}
use hawk_fund_investment_int.Ledger.Types.{TransactionType, posted, is_reversal}
use hawk_fund_investment_int.Ledger.Types.TransactionType.{opening_cash, opening_position, reversal}
use hawk_fund_investment_int.Ledger.Command.{
  CreateTransaction, EconomicPayload, economic_payload, missing, instrument_field, reverses_field,
  unknown_batch, foreign_batch, cash_not_first, position_not_first, unknown_target,
  targets_reversal, other_scope, already_reversed, LedgerError, validation, opening, bad_reversal,
}
use hawk_fund_investment_int.Ledger.Validation.{validate_transaction}
use hawk_fund_investment_int.Ledger.Store.{
  Transaction, ImportBatch, ImportConflict, Store, by_source_identity, by_id,
  has_posted_cash_activity, has_posted_quantity_activity, reversal_for, add, mark_reversed,
}

pub data CreationStatus : Type 0 where
  created duplicate conflict : CreationStatus

pub record CreationResult (D : Type 0) : Type 0 where
  pub status : CreationStatus
  pub transaction : Transaction D
  pub conflict_row : Option (ImportConflict D)

abbrev pub Raises : Type 0 → Type 0
Raises A = Outcome LedgerError A

-- `command.source_metadata or {}`
abbrev pub with_metadata : {D : Type 0} → CreateTransaction D → CreateTransaction D
with_metadata c = record c {
  source_metadata = elim c.source_metadata [ none ↦ some [] | some m ↦ some m ];
}

-- `batch.conflict_count += 1`
abbrev pub count_conflict : ℕ → List ImportBatch → List ImportBatch
count_conflict id [] = []
count_conflict id (b ∷ bs) =
    (if b.id == id then record b { conflict_count = suc b.conflict_count } else b)
    ∷ count_conflict id bs

module _ {D : Type 0} where
  abbrev pub batch_matches : CreateTransaction D → Option ℕ → Store D → Raises (Unit {0})
  batch_matches c none s = ok tt
  batch_matches c (some id) s = do
    batch ← require (find (λ b. b.id == id) s.batches) (validation unknown_batch)
    raise_if (not (batch.fund_id == c.fund_id) || not (text_eq batch.source c.source))
        (validation foreign_batch)

  unfoldable pub validate_import_batch : CreateTransaction D → Store D → Raises (Unit {0})
  validate_import_batch c s = batch_matches c c.import_batch_id s

  -- The `assert` on the instrument holds of every validated command.
  abbrev pub opening_order : TransactionType → CreateTransaction D → Store D → Raises (Unit {0})
  opening_order opening_cash c s =
      raise_if (has_posted_cash_activity c.account_id s) (opening cash_not_first)
  opening_order opening_position c s = do
    instrument ← require c.instrument_id (validation (missing instrument_field))
    raise_if (has_posted_quantity_activity c.account_id instrument s) (opening position_not_first)
  opening_order _ c s = ok tt

  unfoldable pub validate_opening_order : CreateTransaction D → Store D → Raises (Unit {0})
  validate_opening_order c s = opening_order c.transaction_type c s

  -- The row that a reversal is of, after the five tests of `_validate_reversal`.
  unfoldable pub reversal_target : CreateTransaction D → Store D → Raises (Transaction D)
  reversal_target c s = do
    target_id ← require c.reverses_transaction_id (validation (missing reverses_field))
    target ← require (by_id target_id s) (bad_reversal unknown_target)
    raise_if (is_reversal target.command.transaction_type) (bad_reversal targets_reversal)
    raise_if
        (not (target.command.fund_id == c.fund_id)
          || not (target.command.account_id == c.account_id))
        (bad_reversal other_scope)
    raise_if (is_some (reversal_for target.id s)) (bad_reversal already_reversed)
    ok target

  abbrev pub target_of :
      TransactionType → CreateTransaction D → Store D → Raises (Option (Transaction D))
  target_of reversal c s = do target ← reversal_target c s; ok (some target)
  target_of _ c s = ok none

  unfoldable pub validate_reversal : CreateTransaction D → Store D → Raises (Option (Transaction D))
  unfolding reversal_target
  validate_reversal c s = target_of c.transaction_type c s

  abbrev pub mark_target : Option (Transaction D) → Store D → Store D
  mark_target none s = s
  mark_target (some target) s = record s { transactions = mark_reversed target.id s.transactions }

  abbrev pub same_evidence : ℕ → CreateTransaction D → Text → ImportConflict D → Bool
  same_evidence batch c hash k =
      (k.import_batch_id == batch)
      && text_eq k.source c.source
      && text_eq k.external_id c.external_id
      && text_eq k.incoming_payload_hash hash

  abbrev pub result : CreationStatus → Transaction D → Option (ImportConflict D) → CreationResult D
  result status t k = record { status = status; transaction = t; conflict_row = k }

  abbrev pub new_conflict :
      ℕ → Datetime → CreateTransaction D → Text → ℕ → Transaction D → ImportConflict D
  new_conflict id now c hash batch existing = record {
    id = id;
    fund_id = c.fund_id;
    import_batch_id = batch;
    existing_transaction_id = existing.id;
    source = c.source;
    external_id = c.external_id;
    existing_payload_hash = existing.normalized_payload_hash;
    incoming_payload_hash = hash;
    incoming_payload = c;
    detected_at = now;
  }

  abbrev pub conflict_in :
      ℕ
      → Datetime
      → CreateTransaction D
      → Text
      → Transaction D
      → ℕ
      → Option (ImportConflict D)
      → Store D
      → CreationResult D × Store D
  conflict_in id now c hash existing batch (some prior) s =
      (result conflict existing (some prior), s)
  conflict_in id now c hash existing batch none s =
      let row = new_conflict id now c hash batch existing in
      (
        result conflict existing (some row),
        record s { conflicts = s.conflicts ++ row ∷ []; batches = count_conflict batch s.batches },
      )

  abbrev pub conflict_for :
      ℕ
      → Datetime
      → CreateTransaction D
      → Text
      → Transaction D
      → Option ℕ
      → Store D
      → CreationResult D × Store D
  conflict_for id now c hash existing none s = (result conflict existing none, s)
  conflict_for id now c hash existing (some batch) s =
      conflict_in id now c hash existing batch (find (same_evidence batch c hash) s.conflicts) s

  unfoldable pub record_conflict :
      ℕ
      → Datetime
      → CreateTransaction D
      → Text
      → Transaction D
      → Store D
      → CreationResult D × Store D
  record_conflict id now c hash existing s = conflict_for id now c hash existing c.import_batch_id s

module _ {D : Type 0} ⦃d : Decimal D⦄ (digest : EconomicPayload D → Text) where
  unfoldable pub payload_hash : CreateTransaction D → Text
  unfolding economic_payload
  payload_hash c = digest (economic_payload c)

  -- The command meets a row with its source identity.
  abbrev pub repeated :
      ℕ → Datetime → CreateTransaction D → Transaction D → Store D → CreationResult D × Store D
  repeated id now c existing s =
      if text_eq existing.normalized_payload_hash (payload_hash c)
      then (result duplicate existing none, s)
      else record_conflict id now c (payload_hash c) existing s

  abbrev pub new_transaction : ℕ → CreateTransaction D → Transaction D
  new_transaction id c = record {
    id = id;
    command = with_metadata c;
    normalized_payload_hash = payload_hash c;
    status = posted;
  }

  -- The command is new.
  unfoldable pub post : ℕ → CreateTransaction D → Store D → Raises (CreationResult D × Store D)
  unfolding validate_opening_order validate_reversal add
  post id c s = do
    validate_opening_order c s
    target ← validate_reversal c s
    let row = new_transaction id c
    ok (result created row none, mark_target target (add row s))

  abbrev pub create_for :
      ℕ
      → Datetime
      → CreateTransaction D
      → Option (Transaction D)
      → Store D
      → Raises (CreationResult D × Store D)
  create_for id now c (some existing) s = ok (repeated id now c existing s)
  create_for id now c none s = post id c s

  unfoldable pub create :
      ℕ → Datetime → CreateTransaction D → Store D → Raises (CreationResult D × Store D)
  unfolding validate_import_batch post
  create id now c s = do
    validate_transaction c
    validate_import_batch c s
    create_for id now c (by_source_identity c.fund_id c.source c.external_id s) s
