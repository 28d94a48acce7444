-- ===== src/Number.antt =====
-- Python's `decimal.Decimal`, as far as the program uses it: the constants 0 and 1, the arithmetic
-- and the comparisons of finite values. It is an interface, so that no result of the context's
-- rounding is fixed: what a theorem needs of the arithmetic is a record of laws below. Comparisons
-- are exact in Python. Sums are exact as long as no result needs more than the context's 28 digits;
-- `IsExact` takes them to be exact always, and speaks of the numbers, whatever the exponents that
-- they are kept with.
pub mod Sums
use Prim.Native.Nat.{ℕ, suc, ◌≤◌}
use mathlib.Core.Bool.{Bool, true, false, not, ◌&&◌}
use mathlib.Core.List.{List, [], ◌∷◌}
use hawk_fund_investment_int.Prelude.{if◌then◌else◌}
use mathlib.Core.Path.{◌≡◌}
use hawk_fund_investment_int.Int.Defs.{ℤ, pos, pos_part}

pub record Decimal {ℓ} (D : Type ℓ) : Type ℓ where
  pub nought : D
  pub one : D
  pub add : D → D → D
  pub neg : D → D
  pub mul : D → D → D
  pub div : D → D → D
  -- `x ** 2`, `x.sqrt()`, `Decimal(n)` and `int(x.to_integral_value(rounding=ROUND_CEILING))`
  pub square : D → D
  pub sqrt : D → D
  pub of_int : ℤ → D
  pub ceil : D → ℤ
  pub lt : D → D → Bool
  pub eq : D → D → Bool

module _ {ℓ} {D : Type ℓ} ⦃d : Decimal D⦄ where
  infixl 65 ◌⊕◌ ◌⊖◌
  infixl 70 ◌⊗◌ ◌⊘◌
  infix 50 ◌≺◌ ◌≼◌ ◌≈◌
  abbrev pub nil_amount : D
  nil_amount = d.nought

  abbrev pub unit_amount : D
  unit_amount = d.one

  abbrev pub ◌⊕◌ : D → D → D
  x ⊕ y = d.add x y

  abbrev pub negate : D → D
  negate x = d.neg x

  abbrev pub ◌⊖◌ : D → D → D
  x ⊖ y = d.add x (d.neg y)

  abbrev pub ◌⊗◌ : D → D → D
  x ⊗ y = d.mul x y

  abbrev pub ◌⊘◌ : D → D → D
  x ⊘ y = d.div x y

  abbrev pub ◌≺◌ : D → D → Bool
  x ≺ y = d.lt x y

  -- `x <= y` is the failure of `y < x` on finite values
  abbrev pub ◌≼◌ : D → D → Bool
  x ≼ y = not (d.lt y x)

  abbrev pub ◌≈◌ : D → D → Bool
  x ≈ y = d.eq x y

  -- `max(x, y)` and `min(x, y)` keep the first of two equal values.
  abbrev pub maximum : D → D → D
  maximum x y = if d.lt x y then y else x

  abbrev pub minimum : D → D → D
  minimum x y = if d.lt y x then y else x

  -- `sum(values, ZERO)`
  unfoldable pub total_from : D → List D → D
  total_from acc [] = acc
  total_from acc (x ∷ xs) = total_from (acc ⊕ x) xs

  abbrev pub total : List D → D
  total xs = total_from nil_amount xs

-- The comparisons of finite values.
pub record IsOrdered {ℓ} (D : Type ℓ) ⦃d : Decimal D⦄ : Type ℓ where
  pub eq_refl : (x : D) → d.eq x x ≡ true
  pub lt_irrefl : (x : D) → d.lt x x ≡ false
  pub le_trans : (x y z : D) → d.lt y x ≡ false → d.lt z y ≡ false → d.lt z x ≡ false
  pub eq_iff : (x y : D) → d.eq x y ≡ (not (d.lt x y) && not (d.lt y x))
  pub lt-neg : (x y : D) → d.lt (d.neg x) (d.neg y) ≡ d.lt y x
  pub lt_asymm : (x y : D) → d.lt x y ≡ true → d.lt y x ≡ false

-- Exact sums. `Decimal` sums are exact while no result needs more than the context's 28 digits, and
-- are rounded beyond, which a theorem with these laws leaves aside.
pub record IsExact {ℓ} (D : Type ℓ) ⦃d : Decimal D⦄ : Type ℓ where
  pub add_comm : (x y : D) → d.add x y ≡ d.add y x
  pub add_assoc : (x y z : D) → d.add (d.add x y) z ≡ d.add x (d.add y z)
  pub add-nought : (x : D) → d.add x d.nought ≡ x
  pub add-neg : (x : D) → d.add x (d.neg x) ≡ d.nought
  -- Equal numbers are one, whatever their exponents, and a difference has the sign of its order.
  pub eq→one : (x y : D) → d.eq x y ≡ true → x ≡ y
  pub lt-sub : (x y : D) → d.lt d.nought (d.add x (d.neg y)) ≡ d.lt y x

-- The signs of the operations, which rounding keeps, and the exactness of small integers.
pub record IsRounded {ℓ} (D : Type ℓ) ⦃d : Decimal D⦄ : Type ℓ where
  pub of_int-zero : d.eq (d.of_int (pos 0)) d.nought ≡ true
  pub of_int-suc : (n : ℕ) → d.lt d.nought (d.of_int (pos (suc n))) ≡ true
  pub neg-lt : (x : D) → d.lt (d.neg x) d.nought ≡ d.lt d.nought x
  pub square-le : (x : D) → d.lt (d.square x) d.nought ≡ false
  pub add-le :
      (x y : D)
      → d.lt x d.nought ≡ false
      → d.lt y d.nought ≡ false
      → d.lt (d.add x y) d.nought ≡ false
  pub div-le :
      (x y : D)
      → d.lt x d.nought ≡ false
      → d.lt d.nought y ≡ true
      → d.lt (d.div x y) d.nought ≡ false
  -- A part of a number of things, rounded up, is not more than all of them.
  pub ceil_le :
      (x : D) (n : ℕ)
      → d.lt d.nought x ≡ true
      → d.lt x d.one ≡ true
      → pos_part (d.ceil (d.mul x (d.of_int (pos n)))) ≤ n
