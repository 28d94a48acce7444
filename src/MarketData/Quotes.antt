-- ===== src/MarketData/Quotes.antt =====
-- apps/api/app/market_data/service.py: `latest_quote`. Ages are in microseconds.
use hawk_fund_investment_int.Prelude.{
  ℕ, ◌-◌, ◌≡◌, refl, sym, ◌∙◌, subst, Bool, Bool-cases, inl, inr, true, false, Option, none, some,
  List, [], ◌∷◌, ok, ◌>>=◌, ◌>>◌, arith, raise_if, require, after_ok, ok-injective, require-some,
  any, All, select, if◌then◌else◌, Text,
}
use mathlib.Core.Option.{some-injective}
use hawk_fund_investment_int.Prelude.Order.{
  sorted, insert_sorted, any-sorted, any-insert_sorted, All-sorted,
}
use hawk_fund_investment_int.Int.Defs.{ℤ, pos, ltb_ℤ}
use hawk_fund_investment_int.Clock.{Datetime, utc, before}
use hawk_fund_investment_int.MarketData.Types.{
  PriceType, FreshnessStatus, fresh, stale, PriceQuote, negative_max_age, missing_price,
}
use hawk_fund_investment_int.MarketData.Store.{MarketPrice, Store, is_quotable, price_lt, quotable}
use hawk_fund_investment_int.MarketData.Service.{Raises, require_aware}

abbrev pub head : {A : Type 0} → List A → Option A
head [] = none
head (x ∷ _) = some x

abbrev pub freshness_of : ℕ → ℤ → FreshnessStatus
freshness_of age max_age = if ltb_ℤ max_age (pos age) then stale else fresh

module _ {D : Type 0} where
  abbrev pub quote_of : Datetime → ℤ → MarketPrice D → PriceQuote D
  quote_of as_of max_age row =
      let age = (utc as_of).instant - (utc row.observed_at).instant in
      record {
        observation_id = row.id;
        instrument_id = row.instrument_id;
        provider = row.provider;
        price_type = row.price_type;
        observed_at = utc row.observed_at;
        received_at = utc row.received_at;
        price = row.price;
        currency = row.currency;
        source_identifier = row.source_identifier;
        freshness = freshness_of age max_age;
        age = age;
        source_metadata = row.source_metadata;
      }

  unfoldable pub latest_quote :
      ℕ → Datetime → ℤ → Option Text → PriceType → Store D → Raises (PriceQuote D)
  unfolding quotable utc
  latest_quote instrument_id as_of max_age provider price_type s = do
    require_aware as_of
    raise_if (ltb_ℤ max_age (pos 0)) negative_max_age
    row ←
        require (head (quotable instrument_id price_type as_of provider s))
          (missing_price instrument_id)
    ok (quote_of as_of max_age row)

  -- Some price of a list is observed later.
  abbrev pub has_later : MarketPrice D → List (MarketPrice D) → Bool
  has_later p ps = any (λ q. before p.observed_at q.observed_at) ps

  has_later_trans :
      (p q : MarketPrice D) (ps : List (MarketPrice D))
      → before p.observed_at q.observed_at ≡ false
      → has_later q ps ≡ false
      → has_later p ps ≡ false
  has_later_trans p q [] h k = refl
  has_later_trans p q (r ∷ rs) h k = ground (arith, has_later_trans p q rs)

  abbrev is_behind : List (MarketPrice D) → Bool
  is_behind [] = false
  is_behind (p ∷ ps) = has_later p ps

  insert_sorted-is_behind :
      (x : MarketPrice D) (ps : List (MarketPrice D))
      → is_behind ps ≡ false
      → is_behind (insert_sorted price_lt x ps) ≡ false
  unfolding insert_sorted
  insert_sorted-is_behind x [] h = refl
  insert_sorted-is_behind x (y ∷ ys) h = elim (Bool-cases (price_lt y x)) [
    | inl e ↦
        rw e
          (any-insert_sorted price_lt (λ q. before y.observed_at q.observed_at) x ys ∙ ground arith)
    | inr e ↦ rw e (ground (arith, has_later_trans x y ys))
  ]

  sorted-is_behind : (ps : List (MarketPrice D)) → is_behind (sorted price_lt ps) ≡ false
  unfolding sorted
  sorted-is_behind [] = refl
  sorted-is_behind (p ∷ ps) = insert_sorted-is_behind p (sorted price_lt ps) (sorted-is_behind ps)

  head-latest :
      (ps : List (MarketPrice D)) {row : MarketPrice D}
      → head ps ≡ some row
      → is_behind ps ≡ false
      → has_later row ps ≡ false
  head-latest [] h k = cc
  head-latest (p ∷ ps) h k =
      subst (λ row. has_later row (p ∷ ps) ≡ false) (some-injective _ _ h) (ground arith)

  head-All :
      (P : MarketPrice D → Type 0) (ps : List (MarketPrice D)) {row : MarketPrice D}
      → head ps ≡ some row
      → All P ps
      → P row
  head-All P [] h a = cc
  head-All P (p ∷ ps) h a = rw (← some-injective _ _ h) a.0

  select-All :
      (f : MarketPrice D → Bool) (ps : List (MarketPrice D)) → All (λ p. f p ≡ true) (select f ps)
  select-All f [] = tt
  select-All f (p ∷ ps) = elim (Bool-cases (f p)) [
    | inl e ↦ rw e (e, select-All f ps)
    | inr e ↦ rw e (select-All f ps)
  ]

  -- A quote is the first quotable price, one of the instrument, the type and the provider that was
  -- observed by the time asked for, and no such price was observed later. The quote is stale exactly where its age at
  -- that time exceeds the limit.
  pub latest_quote-latest :
      (instrument_id : ℕ) (as_of : Datetime) (max_age : ℤ) (provider : Option Text)
      (price_type : PriceType) (s : Store D) {q : PriceQuote D}
      → latest_quote instrument_id as_of max_age provider price_type s ≡ ok q
      → (row : MarketPrice D) × (head (quotable instrument_id price_type as_of provider s)
          ≡ some row)
        × (q.price ≡ row.price)
        × (is_quotable instrument_id price_type as_of provider row ≡ true)
        × (has_later row (select (is_quotable instrument_id price_type as_of provider) s.prices)
            ≡ false)
        × (q.freshness ≡ (
            if ltb_ℤ max_age (pos (as_of.instant - row.observed_at.instant)) then stale else fresh))
  unfolding latest_quote quotable
  latest_quote-latest instrument_id as_of max_age provider price_type s h =
      after_ok (require_aware as_of) _ h λ _ _ h1.
        after_ok (raise_if (ltb_ℤ max_age (pos 0)) negative_max_age) _ h1 λ _ _ h2.
          after_ok
            (require (head (quotable instrument_id price_type as_of provider s))
              (missing_price instrument_id))
            _ h2
            λ row e h3.
              let keep = is_quotable instrument_id price_type as_of provider in
              let fitting = select keep s.prices in
              let first = require-some (head (sorted price_lt fitting)) _ e in
              rw (← ok-injective h3) (
                row,
                first,
                refl,
                head-All (λ p. keep p ≡ true) (sorted price_lt fitting) first
                    (All-sorted (λ p. keep p ≡ true) price_lt fitting (select-All keep s.prices)),
                sym (any-sorted price_lt (λ p. before row.observed_at p.observed_at) fitting)
                    ∙ head-latest (sorted price_lt fitting) first (sorted-is_behind fitting),
                refl,
              )
