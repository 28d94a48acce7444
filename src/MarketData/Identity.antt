-- ===== src/MarketData/Identity.antt =====
-- An ingestion adds prices, one for each instrument, provider, type and moment, and changes none.
use hawk_fund_investment_int.Prelude.{
  ℕ, suc, ◌+◌, ◌≡◌, refl, sym, ap, ◌∙◌, Bool-cases, false, inl, inr, Option, none, some, List, [],
  ◌∷◌, ◌++◌, ok, arith, after_ok, ok-injective, require, raise_if, find, find-none, select, length,
  Text,
}
use mathlib.Core.List.{append-nil, append_assoc}
use hawk_fund_investment_int.Prelude.Order.{Apart, append-Apart}
use hawk_fund_investment_int.Number.{Decimal}
use hawk_fund_investment_int.Clock.{Datetime, utc, before}
use hawk_fund_investment_int.MarketData.Types.{
  PriceRequest, ProviderPrice, PriceIngestionResult, BatchIngestionResult, unknown_identifier,
  end_precedes_start,
}
use hawk_fund_investment_int.MarketData.Store.{
  MarketDataBatch, MarketPrice, Store, has_key, resolved, batch_for,
}
use hawk_fund_investment_int.MarketData.Service.{
  RequestPayload, require_aware, is_inserted, is_duplicate, is_conflict, is_same_price, validate,
  place, ingest_one, ingest_all,
}
use hawk_fund_investment_int.MarketData.Ingestion.{with_batch, request_hash, ingest_for, ingest}

-- The results that are counted are all of them.
counted :
    (rs : List PriceIngestionResult)
    → length (select is_inserted rs)
        + length (select is_duplicate rs)
        + length (select is_conflict rs)
      ≡ length rs
counted [] = refl
counted (r ∷ rs) = ground (arith, counted rs)

module _ {D : Type 0} where
  -- A later row is of another key than an earlier one.
  abbrev pub OtherKey : MarketPrice D → MarketPrice D → Type 0
  OtherKey p q = has_key q.instrument_id q.provider q.price_type q.observed_at p ≡ false

  -- What an operation does to the prices: it adds, and keeps the keys apart.
  abbrev Extends : Store D → Store D → Type 0
  Extends s s' =
      ((added : List (MarketPrice D)) × (s'.prices ≡ s.prices ++ added))
      × (Apart OtherKey s.prices → Apart OtherKey s'.prices)

  Extends-refl : (s : Store D) → Extends s s
  Extends-refl s = (([], sym (append-nil s.prices)), λ a. a)

  Extends-trans : (s t u : Store D) → Extends s t → Extends t u → Extends s u
  Extends-trans s t u f g =
      let (xs, e) = f.0 in
      let (ys, h) = g.0 in
      ((xs ++ ys, h ∙ ap (λ ps. ps ++ ys) e ∙ append_assoc s.prices xs ys), λ a. g.1 (f.1 a))

module _ {D : Type 0} ⦃d : Decimal D⦄ where
  place-Extends :
      (batch_id : ℕ) (provider : Text) (instrument_id : ℕ) (item : ProviderPrice D)
      (received_at : Datetime) (found : Option (MarketPrice D)) (s : Store D)
      → find (has_key instrument_id provider item.price_type (utc item.observed_at)) s.prices
        ≡ found
      → Extends s (place batch_id provider instrument_id item received_at found s).1
  place-Extends batch_id provider instrument_id item received_at (some p) s h =
      elim (Bool-cases (is_same_price item p)) [
        | inl e ↦ rw e (Extends-refl s)
        | inr e ↦ rw e (([], sym (append-nil s.prices)), λ a. a)
      ]
  place-Extends batch_id provider instrument_id item received_at none s h =
      let key = has_key instrument_id provider item.price_type (utc item.observed_at) in
      ((_, refl), λ a. append-Apart OtherKey _ s.prices (find-none key s.prices h) a)

  ingest_one-Extends :
      (batch_id : ℕ) (provider : Text) (item : ProviderPrice D) (received_at : Datetime)
      (s : Store D) {out : PriceIngestionResult × Store D}
      → ingest_one batch_id provider item received_at s ≡ ok out
      → Extends s out.1
  unfolding ingest_one
  ingest_one-Extends batch_id provider item received_at s h = after_ok (validate item) _ h λ _ _ h1.
      after_ok
        (require (resolved provider item.identifier item.observed_at s)
          (unknown_identifier provider item.identifier))
        _ h1
        λ found _ h2.
          rw (← ok-injective h2)
            (place-Extends batch_id provider found.instrument_id item received_at _ s refl)

  ingest_all-Extends :
      (batch_id : ℕ) (provider : Text) (items : List (ProviderPrice D)) (received_at : Datetime)
      (s : Store D) {out : List PriceIngestionResult × Store D}
      → ingest_all batch_id provider items received_at s ≡ ok out
      → Extends s out.1 × (length out.0 ≡ length items)
  unfolding ingest_all
  ingest_all-Extends batch_id provider [] received_at s h =
      rw (← ok-injective h) (Extends-refl s, refl)
  ingest_all-Extends batch_id provider (item ∷ items) received_at s h =
      after_ok (ingest_one batch_id provider item received_at s) _ h λ one e h1.
        after_ok (ingest_all batch_id provider items received_at one.1) _ h1 λ rest f h2.
          let (grown, size) = ingest_all-Extends batch_id provider items received_at one.1 f in
          rw (← ok-injective h2) (
            Extends-trans s one.1 rest.1 (ingest_one-Extends batch_id provider item received_at s e)
                grown,
            ap suc size,
          )

  ingest_for-Extends :
      (provider : Text) (request : PriceRequest) (hash : Text) (fetched : List (ProviderPrice D))
      (received_at : Datetime) (found : Option MarketDataBatch) (s : Store D)
      {out : BatchIngestionResult × Store D}
      → ingest_for provider request hash fetched received_at found s ≡ ok out
      → Extends s out.1
  ingest_for-Extends provider request hash fetched received_at (some b) s h =
      rw (← ok-injective h) (Extends-refl s)
  ingest_for-Extends provider request hash fetched received_at none s h =
      let opened = with_batch provider request.price_type hash received_at s in
      after_ok (ingest_all s.fresh provider fetched received_at opened) _ h λ out e h1.
        let (grown, size) = ingest_all-Extends s.fresh provider fetched received_at opened e in
        rw (← ok-injective h1) grown

  ingest_for-counts :
      (provider : Text) (request : PriceRequest) (hash : Text) (fetched : List (ProviderPrice D))
      (received_at : Datetime) (s : Store D) {out : BatchIngestionResult × Store D}
      → ingest_for provider request hash fetched received_at none s ≡ ok out
      → out.0.inserted_count + out.0.duplicate_count + out.0.conflict_count ≡ length fetched
  ingest_for-counts provider request hash fetched received_at s h =
      let opened = with_batch provider request.price_type hash received_at s in
      after_ok (ingest_all s.fresh provider fetched received_at opened) _ h λ out e h1.
        let (grown, size) = ingest_all-Extends s.fresh provider fetched received_at opened e in
        rw (← ok-injective h1) (counted out.0 ∙ size)

  module _ (digest : RequestPayload → Text) (provider : Text) (request : PriceRequest)
      (fetched : List (ProviderPrice D)) (received_at : Datetime) (s : Store D) where
    ingest-eq-ok :
        {out : BatchIngestionResult × Store D}
        → ingest digest provider request fetched received_at s ≡ ok out
        → (found : Option MarketDataBatch) × (batch_for provider request.price_type
              (request_hash digest provider request)
              s
            ≡ found)
          × (ingest_for provider request
                (request_hash digest provider request)
                fetched
                received_at
                found
                s
              ≡ ok out)
    unfolding ingest
    ingest-eq-ok h = after_ok (require_aware received_at) _ h λ _ _ h1.
        after_ok (require_aware request.start) _ h1 λ _ _ h2.
          after_ok (require_aware request.end) _ h2 λ _ _ h3.
            after_ok (raise_if (before request.end request.start) end_precedes_start) _ h3
              λ _ _ h4. (_, refl, h4)

    -- A successful ingestion only adds to the prices; and where no two prices have the same
    -- instrument, provider, type and moment before it, no two have them behind it.
    pub ingest-OtherKey :
        {out : BatchIngestionResult × Store D}
        → Apart OtherKey s.prices
        → ingest digest provider request fetched received_at s ≡ ok out
        → ((added : List (MarketPrice D)) × (out.1.prices ≡ s.prices ++ added))
          × Apart OtherKey out.1.prices
    ingest-OtherKey apart h =
        let (found, e, went) = ingest-eq-ok h in
        let grown =
          ingest_for-Extends provider request (request_hash digest provider request) fetched
            received_at found s went in
        (grown.0, grown.1 apart)

    -- A successful ingestion of a request that has no batch yet counts each fetched price once, as
    -- inserted, duplicate or conflict.
    pub ingest-counts :
        {out : BatchIngestionResult × Store D}
        → batch_for provider request.price_type (request_hash digest provider request) s ≡ none
        → ingest digest provider request fetched received_at s ≡ ok out
        → out.0.inserted_count + out.0.duplicate_count + out.0.conflict_count ≡ length fetched
    ingest-counts absent h =
        let (found, e, went) = ingest-eq-ok h in
        ingest_for-counts provider request (request_hash digest provider request) fetched
          received_at s (rw (sym e ∙ absent) at went)
