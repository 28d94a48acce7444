-- ===== src/Clock.antt =====
-- `datetime`: an instant in microseconds, read as UTC where the value has no time zone, and whether
-- it has one. Values with a zone compare by their instants.
use hawk_fund_investment_int.Prelude.{
  ℕ, Bool, true, not, ◌&&◌, List, ltb, leb, ◌==◌, any, if◌then◌else◌,
}

pub record Datetime : Type 0 where
  pub instant : ℕ
  pub aware : Bool

-- `value.replace(tzinfo=UTC)` of a value with no zone, `value.astimezone(UTC)` of any other
unfoldable pub utc : Datetime → Datetime
utc t = record { instant = t.instant; aware = true }

abbrev pub before : Datetime → Datetime → Bool
before s t = ltb s.instant t.instant

abbrev pub not_after : Datetime → Datetime → Bool
not_after s t = leb s.instant t.instant

abbrev pub same_instant : Datetime → Datetime → Bool
same_instant s t = s.instant == t.instant

-- Whether a list holds both values with a zone and values without one, which do not compare.
abbrev pub is_mixed : List Datetime → Bool
is_mixed ts = any (λ t. t.aware) ts && any (λ t. not t.aware) ts

-- Whether two values both have a zone or both have none, which is what lets them compare.
abbrev pub same_zone : Datetime → Datetime → Bool
same_zone s t = if s.aware then t.aware else not t.aware

-- `==`, which holds of no value with a zone and one without
abbrev pub same_moment : Datetime → Datetime → Bool
same_moment s t = same_instant s t && same_zone s t
