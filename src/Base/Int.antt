-- ===== src/Base/Int.antt =====
-- Signed integers, for the values of `BigNumber` and `bigint`, with the operations of `BigNumber`:
-- division rounds towards zero, and division by zero throws.
use Prim.Native.Nat.{ℕ, zero, suc, ◌+◌, ◌-◌, ◌*◌, ◌/◌, ◌<◌}
use mathlib.Core.Path.{◌≡◌, refl}
use native.Mathlib.Omega.{arith}
use mathlib.Core.Bool.{Bool, true, false}
use solidity_contracts.Base.Bools.{ltb, leb, if◌then◌else◌}
use solidity_contracts.Base.Results.{Result, ok, err, division_by_zero}

-- `negsuc n` is -(n + 1).
pub data ℤ : Type 0 where
  pos : ℕ → ℤ
  negsuc : ℕ → ℤ

-- a - b, as an integer.
abbrev pub sub_ℕ : ℕ → ℕ → ℤ
sub_ℕ a b = if leb b a then pos (a - b) else negsuc (b - a - 1)

-- -n
abbrev pub neg_ℕ : ℕ → ℤ
neg_ℕ n = sub_ℕ 0 n

infixl 65 ◌+ℤ◌ ◌-ℤ◌
infixl 70 ◌*ℤ◌
abbrev pub ◌+ℤ◌ : ℤ → ℤ → ℤ
pos a +ℤ pos b = pos (a + b)
pos a +ℤ negsuc b = sub_ℕ a (suc b)
negsuc a +ℤ pos b = sub_ℕ b (suc a)
negsuc a +ℤ negsuc b = negsuc (a + suc b)

abbrev pub ◌-ℤ◌ : ℤ → ℤ → ℤ
pos a -ℤ pos b = sub_ℕ a b
pos a -ℤ negsuc b = pos (a + suc b)
negsuc a -ℤ pos b = negsuc (a + b)
negsuc a -ℤ negsuc b = sub_ℕ (suc b) (suc a)

unfoldable pub ◌*ℤ◌ : ℤ → ℤ → ℤ
pos a *ℤ pos b = pos (a * b)
pos a *ℤ negsuc b = neg_ℕ (a * suc b)
negsuc a *ℤ pos b = neg_ℕ (suc a * b)
negsuc a *ℤ negsuc b = pos (suc a * suc b)

-- The quotient rounded towards zero, for a divisor that is not zero.
unfoldable pub quot : ℤ → ℤ → ℤ
quot (pos a) (pos b) = pos (a / b)
quot (pos a) (negsuc b) = neg_ℕ (a / suc b)
quot (negsuc a) (pos b) = neg_ℕ (suc a / b)
quot (negsuc a) (negsuc b) = pos (suc a / suc b)

-- `x.isZero()`, `x.eq(0)`.
abbrev pub is_zero : ℤ → Bool
is_zero (pos zero) = true
is_zero (pos (suc n)) = false
is_zero (negsuc n) = false

-- `a.gt(b)`
abbrev pub gt : ℤ → ℤ → Bool
gt (pos a) (pos b) = ltb b a
gt (pos a) (negsuc b) = true
gt (negsuc a) (pos b) = false
gt (negsuc a) (negsuc b) = ltb a b

-- `a.div(b)`
unfoldable pub div : ℤ → ℤ → Result ℤ
unfolding quot
div a b = if is_zero b then err division_by_zero else ok (quot a b)

pub pos-*ℤ : (a b : ℕ) → pos a *ℤ pos b ≡ pos (a * b)
unfolding ◌*ℤ◌
pos-*ℤ a b = refl

pub pos-quot : (a b : ℕ) → quot (pos a) (pos b) ≡ pos (a / b)
unfolding quot
pos-quot a b = refl

pub is_zero-pos : (n : ℕ) → 0 < n → is_zero (pos n) ≡ false
is_zero-pos zero h = absurd (omega arith)
is_zero-pos (suc n) h = refl
