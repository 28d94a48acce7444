-- ===== src/MarketData/Service.antt =====
-- apps/api/app/market_data/service.py: `_validate` and `_ingest_one`. An ingestion that raises midway
-- leaves the rows that it has flushed in the session, for its caller to roll back: the model keeps
-- no store then, and what holds of an ingestion is said of those that succeed.

use hawk_fund_investment_int.Prelude.{
  ℕ, suc, Bool, true, false, not, ◌&&◌, Option, none, some, List, [], ◌∷◌, ◌++◌, Outcome, ok, ◌>>=◌,
  ◌>>◌, raise_if, require, find, strip, is_empty, text_eq, codes, Text, if◌then◌else◌,
}
use hawk_fund_investment_int.Number.{Decimal, nil_amount, ◌≼◌, ◌≈◌}
use hawk_fund_investment_int.Clock.{Datetime, utc}
use hawk_fund_investment_int.MarketData.Types.{
  PriceType, PriceIngestionStatus, inserted, duplicate, conflict, ProviderPrice,
  PriceIngestionResult, MarketDataError, naive_timestamp, nonpositive_price, not_usd, no_identifier,
  unknown_identifier,
}
use hawk_fund_investment_int.MarketData.Store.{MarketPrice, Store, resolved, has_key}

abbrev pub Raises : Type 0 → Type 0
Raises A = Outcome MarketDataError A

abbrev pub require_aware : Datetime → Raises (Unit {0})
require_aware t = raise_if (not t.aware) naive_timestamp

-- The document that `_request_hash` digests.
pub record RequestPayload : Type 0 where
  pub provider : Text
  pub identifiers : List Text
  pub start : Datetime
  pub end : Datetime
  pub price_type : PriceType

abbrev pub metadata_or_empty : Option Text → Text
metadata_or_empty none = []
metadata_or_empty (some m) = m

abbrev pub is_inserted : PriceIngestionResult → Bool
is_inserted r = elim r.status [ inserted ↦ true | _ ↦ false ]

abbrev pub is_duplicate : PriceIngestionResult → Bool
is_duplicate r = elim r.status [ duplicate ↦ true | _ ↦ false ]

abbrev pub is_conflict : PriceIngestionResult → Bool
is_conflict r = elim r.status [ conflict ↦ true | _ ↦ false ]

abbrev pub ingestion : Text → PriceIngestionStatus → Option ℕ → Option ℕ → PriceIngestionResult
ingestion identifier status observation conflicting = record {
  identifier = identifier;
  status = status;
  observation_id = observation;
  conflict_id = conflicting;
}

module _ {D : Type 0} ⦃d : Decimal D⦄ where
  unfoldable pub validate : ProviderPrice D → Raises (Unit {0})
  unfolding strip
  validate item =
      require_aware item.observed_at
      >> (raise_if (item.price ≼ nil_amount) nonpositive_price
          >> (raise_if (not (text_eq item.currency (codes "USD"))) not_usd
              >> raise_if (is_empty (strip item.identifier)) no_identifier))

  abbrev pub is_same_price : ProviderPrice D → MarketPrice D → Bool
  is_same_price item p = p.price ≈ item.price && text_eq p.currency item.currency

  abbrev pub add_conflict : ℕ → MarketPrice D → ProviderPrice D → Datetime → Store D → Store D
  add_conflict batch_id existing item received_at s = record s {
    conflicts =
        s.conflicts
        ++ record {
          id = s.fresh;
          batch_id = batch_id;
          existing_price_id = existing.id;
          incoming_price = item.price;
          incoming_currency = item.currency;
          incoming_metadata = metadata_or_empty item.source_metadata;
          detected_at = received_at;
        }
          ∷ [];
    fresh = suc s.fresh;
  }

  abbrev pub new_price : ℕ → Text → ℕ → ProviderPrice D → Datetime → ℕ → MarketPrice D
  new_price batch_id provider instrument_id item received_at id = record {
    id = id;
    instrument_id = instrument_id;
    batch_id = batch_id;
    provider = provider;
    price_type = item.price_type;
    observed_at = utc item.observed_at;
    received_at = received_at;
    price = item.price;
    currency = item.currency;
    source_identifier = item.identifier;
    source_metadata = metadata_or_empty item.source_metadata;
  }

  -- The branches of `_ingest_one` behind its query.
  abbrev pub place :
      ℕ
      → Text
      → ℕ
      → ProviderPrice D
      → Datetime
      → Option (MarketPrice D)
      → Store D
      → PriceIngestionResult × Store D
  place batch_id provider instrument_id item received_at (some existing) s =
      if is_same_price item existing
      then (ingestion item.identifier duplicate (some existing.id) none, s)
      else (
        ingestion item.identifier conflict (some existing.id) (some s.fresh),
        add_conflict batch_id existing item received_at s,
      )
  place batch_id provider instrument_id item received_at none s = (
    ingestion item.identifier inserted (some s.fresh) none,
    record s {
      prices = s.prices ++ new_price batch_id provider instrument_id item received_at s.fresh ∷ [];
      fresh = suc s.fresh;
    },
  )

  unfoldable pub ingest_one :
      ℕ → Text → ProviderPrice D → Datetime → Store D → Raises (PriceIngestionResult × Store D)
  unfolding validate resolved utc
  ingest_one batch_id provider item received_at s = do
    validate item
    found ←
        require (resolved provider item.identifier item.observed_at s)
          (unknown_identifier provider item.identifier)
    let existing =
        find (has_key found.instrument_id provider item.price_type (utc item.observed_at)) s.prices
    ok (place batch_id provider found.instrument_id item received_at existing s)

  unfoldable pub ingest_all :
      ℕ
      → Text
      → List (ProviderPrice D)
      → Datetime
      → Store D
      → Raises (List PriceIngestionResult × Store D)
  unfolding ingest_one
  ingest_all batch_id provider [] received_at s = ok ([], s)
  ingest_all batch_id provider (item ∷ items) received_at s =
      ingest_one batch_id provider item received_at s >>= λ one.
      ingest_all batch_id provider items received_at one.1 >>= λ rest. ok (one.0 ∷ rest.0, rest.1)
