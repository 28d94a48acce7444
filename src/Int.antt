-- ===== src/Int.antt =====
-- Integers over the native numbers, and whole amounts as an instance of `Decimal`: values at which
-- every operation but the quotient and the root is exact, for the examples.
pub mod Defs
pub mod Hundredths
use hawk_fund_investment_int.Prelude.{ℕ, zero, suc, ◌*◌, ◌≡◌, arith, leb, if◌then◌else◌}
use hawk_fund_investment_int.Number.{Decimal, IsOrdered, IsExact}
pub use Defs.*

-- The root of a number, rounded down.
abbrev pub root : ℕ → ℕ
root zero = 0
root (suc n) = let r = root n in if leb (suc r * suc r) (suc n) then suc r else r

instance abbrev pub whole : Decimal ℤ
whole = record {
  nought = pos 0;
  one = pos 1;
  add = ◌+ℤ◌;
  neg = negℤ;
  mul = ◌*ℤ◌;
  div = ◌/ℤ◌;
  square = λ x. x *ℤ x;
  sqrt = λ x. pos (root (pos_part x));
  of_int = λ x. x;
  ceil = λ x. x;
  lt = ltb_ℤ;
  eq = eqb_ℤ;
}

pub whole-IsOrdered : IsOrdered ℤ
whole-IsOrdered = ground arith

pub +ℤ_comm : (a b : ℤ) → a +ℤ b ≡ b +ℤ a
+ℤ_comm a b = ground arith

pub +ℤ_assoc : (a b c : ℤ) → a +ℤ b +ℤ c ≡ a +ℤ (b +ℤ c)
+ℤ_assoc a b c = ground arith

pub whole-IsExact : IsExact ℤ
whole-IsExact = record {
  add_comm = +ℤ_comm;
  add_assoc = +ℤ_assoc;
  add-nought = λ a. ground arith;
  add-neg = λ a. ground arith;
  eq→one = λ a b h. ground arith;
  lt-sub = λ a b. ground arith;
}
