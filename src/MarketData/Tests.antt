-- ===== src/MarketData/Tests.antt =====
-- One request whose provider fetches a price twice and another price in conflict, and the quote.
use hawk_fund_investment_int.Prelude.{
  ℕ, ◌+◌, ◌-◌, ◌≡◌, refl, true, false, none, some, List, [], ◌∷◌, ◌++◌, ok, raised, codes, select,
  if◌then◌else◌, Text,
}
use hawk_fund_investment_int.Prelude.Order.{Apart}
use hawk_fund_investment_int.Int.{ℤ, pos, ltb_ℤ, whole}
use hawk_fund_investment_int.Clock.{Datetime}
use hawk_fund_investment_int.MarketData.Types.{
  PriceRequest, ProviderPrice, PriceQuote, BatchIngestionResult, fresh, stale,
}
use hawk_fund_investment_int.MarketData.Types.PriceType.{close}
use hawk_fund_investment_int.MarketData.Types.IdentifierScheme.{ticker}
use hawk_fund_investment_int.MarketData.Store.{MarketPrice, Store, is_quotable, quotable, batch_for}
use hawk_fund_investment_int.MarketData.Service.{RequestPayload}
use hawk_fund_investment_int.MarketData.Ingestion.{request_hash, ingest}
use hawk_fund_investment_int.MarketData.Identity.{OtherKey, ingest-OtherKey, ingest-counts}
use hawk_fund_investment_int.MarketData.Quotes.{
  head, has_later, quote_of, latest_quote, latest_quote-latest,
}

abbrev at : ℕ → Datetime
at n = record { instant = n; aware = true }

abbrev feed : Text
feed = codes "feed"

abbrev digest : RequestPayload → Text
digest p = p.provider

abbrev request : PriceRequest
request = record { identifiers = codes "X" ∷ []; start = at 1; end = at 9; price_type = close }

abbrev price_of : ℕ → ℕ → ProviderPrice ℤ
price_of moment amount = record {
  identifier = codes "X";
  observed_at = at moment;
  price = pos amount;
  currency = codes "USD";
  price_type = close;
  source_metadata = none;
}

abbrev fetched : List (ProviderPrice ℤ)
fetched = price_of 3 20 ∷ price_of 3 20 ∷ price_of 3 21 ∷ price_of 5 22 ∷ []

abbrev empty : Store ℤ
empty = record {
  identifiers =
      record {
        instrument_id = 4;
        scheme = ticker;
        value = codes "X";
        provider = [];
        valid_from = none;
        valid_to = some (at 90);
        is_primary = true;
      }
      ∷ [];
  batches = [];
  prices = [];
  conflicts = [];
  fresh = 10;
}

abbrev nothing : BatchIngestionResult
nothing = record {
  batch_id = 0;
  inserted_count = 0;
  duplicate_count = 0;
  conflict_count = 0;
  results = [];
}

abbrev outcome : BatchIngestionResult × Store ℤ
outcome = elim (ingest digest feed request fetched (at 20) empty) [
  | ok r ↦ r
  | raised _ ↦ (nothing, empty)
]

run : ingest digest feed request fetched (at 20) empty ≡ ok outcome
unfolding ingest
run = refl

counts : (outcome.0.inserted_count ≡ 2) × (outcome.0.conflict_count ≡ 1)
unfolding ingest
counts = (refl, refl)

ingest-OtherKey_example :
    ((added : List (MarketPrice ℤ)) × (outcome.1.prices ≡ [] ++ added))
    × Apart OtherKey outcome.1.prices
ingest-OtherKey_example =
    ingest-OtherKey digest feed request fetched (at 20) empty {out = outcome} tt run

unknown_request : batch_for feed close (request_hash digest feed request) empty ≡ none
unfolding batch_for
unknown_request = refl

ingest-counts_example :
    outcome.0.inserted_count + outcome.0.duplicate_count + outcome.0.conflict_count ≡ 4
ingest-counts_example =
    ingest-counts digest feed request fetched (at 20) empty {out = outcome} unknown_request run

abbrev old : MarketPrice ℤ
old = record {
  id = 11;
  instrument_id = 4;
  batch_id = 10;
  provider = feed;
  price_type = close;
  observed_at = at 3;
  received_at = at 20;
  price = pos 20;
  currency = codes "USD";
  source_identifier = codes "X";
  source_metadata = [];
}

abbrev priced : Store ℤ
priced = record empty { prices = old ∷ record old { id = 13; observed_at = at 5 } ∷ [] }

abbrev quote : PriceQuote ℤ
quote = quote_of (at 8) (pos 2) (record old { id = 13; observed_at = at 5 })

quoted : latest_quote 4 (at 8) (pos 2) none close priced ≡ ok quote
unfolding latest_quote
quoted = refl

latest_quote-latest_example :
    (row : MarketPrice ℤ) × (head (quotable 4 close (at 8) none priced) ≡ some row)
    × (quote.price ≡ row.price)
    × (is_quotable 4 close (at 8) none row ≡ true)
    × (has_later row (select (is_quotable 4 close (at 8) none) priced.prices) ≡ false)
    × (quote.freshness
        ≡ (if ltb_ℤ (pos 2) (pos (8 - row.observed_at.instant)) then stale else fresh))
latest_quote-latest_example =
    latest_quote-latest 4 (at 8) (pos 2) none close priced {q = quote} quoted
