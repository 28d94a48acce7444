-- ===== src/MarketData/Ingestion.antt =====
-- apps/api/app/market_data/service.py: `ingest`, `_request_hash` and `_batch_result`. What the provider
-- fetches for the request is an argument. The SHA-256 of the canonical JSON of a request is the
-- parameter `digest`.
use hawk_fund_investment_int.Prelude.{
  ℕ, suc, Option, none, some, List, [], ◌∷◌, ◌++◌, map, ok, ◌>>=◌, ◌>>◌, raise_if, select, length,
  text_lt, ltb, ◌==◌, Text, if◌then◌else◌,
}
use hawk_fund_investment_int.Prelude.Order.{sorted}
use hawk_fund_investment_int.Number.{Decimal}
use hawk_fund_investment_int.Clock.{Datetime, utc, before}
use hawk_fund_investment_int.MarketData.Types.{
  PriceType, received, completed, completed_with_conflicts, inserted, PriceRequest, ProviderPrice,
  PriceIngestionResult, BatchIngestionResult, end_precedes_start,
}
use hawk_fund_investment_int.MarketData.Store.{MarketDataBatch, MarketPrice, Store, batch_for}
use hawk_fund_investment_int.MarketData.Service.{
  Raises, RequestPayload, require_aware, is_inserted, is_duplicate, is_conflict, ingestion,
  ingest_all,
}

-- The columns that are set behind the loop.
abbrev pub finished : Datetime → List PriceIngestionResult → MarketDataBatch → MarketDataBatch
finished received_at results b = record b {
  status =
      if ltb 0 (length (select is_conflict results)) then completed_with_conflicts else completed;
  completed_at = some received_at;
  inserted_count = length (select is_inserted results);
  duplicate_count = length (select is_duplicate results);
  conflict_count = length (select is_conflict results);
}

abbrev pub finish_batch :
    ℕ → Datetime → List PriceIngestionResult → List MarketDataBatch → List MarketDataBatch
finish_batch id received_at results [] = []
finish_batch id received_at results (b ∷ bs) =
    (if b.id == id then finished received_at results b else b)
    ∷ finish_batch id received_at results bs

abbrev pub summary : MarketDataBatch → List PriceIngestionResult → BatchIngestionResult
summary b results = record {
  batch_id = b.id;
  inserted_count = b.inserted_count;
  duplicate_count = b.duplicate_count;
  conflict_count = b.conflict_count;
  results = results;
}

-- The row of a batch before its loop.
abbrev pub new_batch : ℕ → Text → PriceType → Text → Datetime → MarketDataBatch
new_batch id provider dataset hash now = record {
  id = id;
  provider = provider;
  dataset = dataset;
  request_hash = hash;
  status = received;
  started_at = now;
  completed_at = none;
  inserted_count = 0;
  duplicate_count = 0;
  conflict_count = 0;
}

module _ {D : Type 0} where
  abbrev pub row_result : MarketPrice D → PriceIngestionResult
  row_result p = ingestion p.source_identifier inserted (some p.id) none

  -- `_batch_result`
  abbrev pub batch_result : MarketDataBatch → Store D → BatchIngestionResult
  batch_result b s = summary b (map row_result (select (λ p. p.batch_id == b.id) s.prices))

module _ (digest : RequestPayload → Text) where
  unfoldable pub request_hash : Text → PriceRequest → Text
  unfolding utc sorted
  request_hash provider request = digest (record {
    provider = provider;
    identifiers = sorted text_lt request.identifiers;
    start = utc request.start;
    end = utc request.end;
    price_type = request.price_type;
  })

module _ {D : Type 0} ⦃d : Decimal D⦄ where
  -- The store with the row of the new batch.
  abbrev pub with_batch : Text → PriceType → Text → Datetime → Store D → Store D
  with_batch provider dataset hash now s = record s {
    batches = s.batches ++ new_batch s.fresh provider dataset hash now ∷ [];
    fresh = suc s.fresh;
  }

  -- A batch that is there is returned, and a new one is filled.
  abbrev pub ingest_for :
      Text
      → PriceRequest
      → Text
      → List (ProviderPrice D)
      → Datetime
      → Option MarketDataBatch
      → Store D
      → Raises (BatchIngestionResult × Store D)
  ingest_for provider request hash fetched received_at (some b) s = ok (batch_result b s, s)
  ingest_for provider request hash fetched received_at none s = do
    let batch = new_batch s.fresh provider request.price_type hash received_at
    let opened = with_batch provider request.price_type hash received_at s
    out ← ingest_all batch.id provider fetched received_at opened
    ok (
      summary (finished received_at out.0 batch) out.0,
      record out.1 { batches = finish_batch batch.id received_at out.0 out.1.batches },
    )

  unfoldable pub ingest :
      (RequestPayload → Text)
      → Text
      → PriceRequest
      → List (ProviderPrice D)
      → Datetime
      → Store D
      → Raises (BatchIngestionResult × Store D)
  unfolding request_hash ingest_all batch_for
  ingest digest provider request fetched received_at s = do
    require_aware received_at
    require_aware request.start
    require_aware request.end
    raise_if (before request.end request.start) end_precedes_start
    let hash = request_hash digest provider request
    ingest_for provider request hash fetched received_at
        (batch_for provider request.price_type hash s) s
