-- ===== src/Int/Hundredths.antt =====
-- Amounts in hundredths as an instance of `Decimal`, for the examples that need a number between
-- zero and one. Products, quotients and roots round towards zero.
use hawk_fund_investment_int.Prelude.{
  ℕ, suc, ◌+◌, ◌*◌, ◌/◌, ◌≤◌, ◌<◌, ◌≡◌, refl, true, false, arith,
}
use native.Mathlib.Nat.{mul-le-mul_left}
use hawk_fund_investment_int.Number.{Decimal, IsOrdered, IsRounded}
use hawk_fund_investment_int.Int.Defs.{ℤ, pos, negsuc, pos_part, neg_part, negℤ, ◌+ℤ◌, ltb_ℤ, eqb_ℤ}
use hawk_fund_investment_int.Int.{root}

abbrev size : ℤ → ℕ
size x = pos_part x + neg_part x

-- Applies an operation to the sizes, and gives the result the sign of a product.
abbrev signed : (ℕ → ℕ → ℕ) → ℤ → ℤ → ℤ
signed f (pos a) (pos b) = pos (f a b)
signed f (pos a) (negsuc b) = negℤ (pos (f a (suc b)))
signed f (negsuc a) (pos b) = negℤ (pos (f (suc a) b))
signed f (negsuc a) (negsuc b) = pos (f (suc a) (suc b))

abbrev round_up : ℤ → ℤ
round_up (pos n) = pos ((n + 99) / 100)
round_up (negsuc n) = negℤ (pos (suc n / 100))

abbrev from_int : ℤ → ℤ
from_int (pos n) = pos (n * 100)
from_int (negsuc n) = negℤ (pos (suc n * 100))

abbrev pub hundredths : Decimal ℤ
hundredths = record {
  nought = pos 0;
  one = pos 100;
  add = ◌+ℤ◌;
  neg = negℤ;
  mul = signed (λ a b. a * b / 100);
  div = signed (λ a b. a * 100 / b);
  square = λ x. pos (size x * size x / 100);
  sqrt = λ x. pos (root (pos_part x * 100));
  of_int = from_int;
  ceil = round_up;
  lt = ltb_ℤ;
  eq = eqb_ℤ;
}

pub hundredths-IsOrdered : IsOrdered ℤ ⦃d = hundredths⦄
hundredths-IsOrdered = ground arith

part_le : (a n : ℕ) → a < 100 → (a * (n * 100) / 100 + 99) / 100 ≤ n
part_le a n h = omega (arith, mul-le-mul_left {m = a} {n = 99} n (omega arith))

quotient-nonnegative :
    (x y : ℤ)
    → ltb_ℤ x (pos 0) ≡ false
    → ltb_ℤ (pos 0) y ≡ true
    → ltb_ℤ (signed (λ a b. a * 100 / b) x y) (pos 0) ≡ false
quotient-nonnegative (pos a) (pos b) h k = ground arith
quotient-nonnegative (pos a) (negsuc b) h k = ground arith
quotient-nonnegative (negsuc a) y h k = ground arith

round_up-le :
    (x : ℤ) (n : ℕ)
    → ltb_ℤ (pos 0) x ≡ true
    → ltb_ℤ x (pos 100) ≡ true
    → pos_part (round_up (signed (λ a b. a * b / 100) x (pos (n * 100)))) ≤ n
round_up-le (pos a) n h k = part_le a n (ground arith)
round_up-le (negsuc a) n h k = ground arith

pub hundredths-IsRounded : IsRounded ℤ ⦃d = hundredths⦄
hundredths-IsRounded = record {
  of_int-zero = refl;
  of_int-suc = λ n. ground arith;
  neg-lt = λ x. ground arith;
  square-le = λ x. ground arith;
  add-le = λ x y h k. ground arith;
  div-le = quotient-nonnegative;
  ceil_le = round_up-le;
}
