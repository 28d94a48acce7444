-- ===== src/MarketData/Store.antt =====
-- The tables of models.py that the market data service reads and writes, and the queries of
-- apps/api/app/market_data/service.py. Texts that a query orders by compare code point by code
-- point.
use hawk_fund_investment_int.Prelude.{
  ℕ, Bool, true, false, not, ◌&&◌, ◌||◌, Option, none, some, List, find, select, text_eq, text_lt,
  ltb, ◌==◌, Text, is_empty,
}
use hawk_fund_investment_int.Prelude.Order.{sorted}
use hawk_fund_investment_int.Clock.{Datetime, utc, before, not_after, same_instant}
use hawk_fund_investment_int.MarketData.Types.{
  IdentifierScheme, ticker, provider_scheme, PriceType, close, adjusted_close,
  MarketDataBatchStatus,
}

pub record SecurityIdentifier : Type 0 where
  pub instrument_id : ℕ
  pub scheme : IdentifierScheme
  pub value : Text
  pub provider : Text
  pub valid_from : Option Datetime
  pub valid_to : Option Datetime
  pub is_primary : Bool

pub record MarketDataBatch : Type 0 where
  pub id : ℕ
  pub provider : Text
  pub dataset : PriceType
  pub request_hash : Text
  pub status : MarketDataBatchStatus
  pub started_at : Datetime
  pub completed_at : Option Datetime
  pub inserted_count : ℕ
  pub duplicate_count : ℕ
  pub conflict_count : ℕ

pub record MarketPrice (D : Type 0) : Type 0 where
  pub id : ℕ
  pub instrument_id : ℕ
  pub batch_id : ℕ
  pub provider : Text
  pub price_type : PriceType
  pub observed_at : Datetime
  pub received_at : Datetime
  pub price : D
  pub currency : Text
  pub source_identifier : Text
  pub source_metadata : Text

pub record MarketPriceConflict (D : Type 0) : Type 0 where
  pub id : ℕ
  pub batch_id : ℕ
  pub existing_price_id : ℕ
  pub incoming_price : D
  pub incoming_currency : Text
  pub incoming_metadata : Text
  pub detected_at : Datetime

-- `fresh` is the next identifier of `uuid4`.
pub record Store (D : Type 0) : Type 0 where
  pub identifiers : List SecurityIdentifier
  pub batches : List MarketDataBatch
  pub prices : List (MarketPrice D)
  pub conflicts : List (MarketPriceConflict D)
  pub fresh : ℕ

abbrev pub same_type : PriceType → PriceType → Bool
same_type close close = true
same_type adjusted_close adjusted_close = true
same_type _ _ = false

abbrev pub is_resolving_scheme : IdentifierScheme → Bool
is_resolving_scheme ticker = true
is_resolving_scheme provider_scheme = true
is_resolving_scheme _ = false

-- `order_by(provider.desc(), is_primary.desc())`
abbrev pub candidate_lt : SecurityIdentifier → SecurityIdentifier → Bool
candidate_lt a b =
    text_lt b.provider a.provider
    || text_eq a.provider b.provider && a.is_primary && not b.is_primary

abbrev pub is_candidate : Text → Text → SecurityIdentifier → Bool
is_candidate provider value i =
    text_eq i.value value
    && (text_eq i.provider provider || is_empty i.provider)
    && is_resolving_scheme i.scheme

abbrev pub starts_by : Option Datetime → Datetime → Bool
starts_by none at = true
starts_by (some from) at = not_after (utc from) at

abbrev pub ends_after : Option Datetime → Datetime → Bool
ends_after none at = true
ends_after (some to) at = before at (utc to)

abbrev pub is_valid_at : Datetime → SecurityIdentifier → Bool
is_valid_at at i = starts_by i.valid_from at && ends_after i.valid_to at

module _ {D : Type 0} where
  unfoldable pub batch_for : Text → PriceType → Text → Store D → Option MarketDataBatch
  batch_for provider dataset hash s =
      find
        (λ b.
          text_eq b.provider provider && same_type b.dataset dataset && text_eq b.request_hash hash)
        s.batches

  -- The instrument of the first candidate that is valid at the moment.
  unfoldable pub resolved : Text → Text → Datetime → Store D → Option SecurityIdentifier
  unfolding sorted utc
  resolved provider value at s =
      find (is_valid_at (utc at))
        (sorted candidate_lt (select (is_candidate provider value) s.identifiers))

  abbrev pub has_key : ℕ → Text → PriceType → Datetime → MarketPrice D → Bool
  has_key instrument_id provider price_type observed_at p =
      (p.instrument_id == instrument_id)
      && text_eq p.provider provider
      && same_type p.price_type price_type
      && same_instant p.observed_at observed_at

  abbrev pub is_of_provider : Option Text → MarketPrice D → Bool
  is_of_provider none p = true
  is_of_provider (some provider) p = text_eq p.provider provider

  abbrev pub is_quotable : ℕ → PriceType → Datetime → Option Text → MarketPrice D → Bool
  is_quotable instrument_id price_type as_of provider p =
      (p.instrument_id == instrument_id)
      && same_type p.price_type price_type
      && not_after p.observed_at as_of
      && is_of_provider provider p

  -- `order_by(observed_at.desc(), provider, id)`
  abbrev pub price_lt : MarketPrice D → MarketPrice D → Bool
  price_lt p q =
      before q.observed_at p.observed_at
      || same_instant p.observed_at q.observed_at
        && (text_lt p.provider q.provider || text_eq p.provider q.provider && ltb p.id q.id)

  unfoldable pub quotable : ℕ → PriceType → Datetime → Option Text → Store D → List (MarketPrice D)
  unfolding sorted
  quotable instrument_id price_type as_of provider s =
      sorted price_lt (select (is_quotable instrument_id price_type as_of provider) s.prices)
