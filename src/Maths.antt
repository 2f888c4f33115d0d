-- ===== src/Maths.antt =====
-- Fixed-point arithmetic on big numbers: utils/maths/PercentMath.ts and utils/maths/WadRayMath.ts.
-- The formatting and parsing of decimal text (`parsePercent`, `formatRay`, …) is left to the
-- library that it calls.
pub mod Rounding
mod Tests
use solidity_contracts.Base.{ℕ, ◌*◌, ◌^◌, ◌||◌, if◌then◌else◌, Result, ok}
use solidity_contracts.Base.Int.{ℤ, pos, ◌+ℤ◌, ◌-ℤ◌, ◌*ℤ◌, quot, is_zero, div}

abbrev pub base_percent : ℤ
base_percent = pos 10000

abbrev pub half_percent : ℤ
half_percent = pos 5000

unfoldable pub pow10 : ℕ → ℤ
pow10 power = pos (10 ^ power)

unfoldable pub percent_mul : ℤ → ℤ → ℤ
unfolding ◌*ℤ◌ quot
percent_mul x pct =
    if is_zero x || is_zero pct then pos 0 else quot (x *ℤ pct +ℤ half_percent) base_percent

unfoldable pub percent_div : ℤ → ℤ → ℤ
unfolding ◌*ℤ◌ quot
percent_div x pct =
    if is_zero x || is_zero pct then pos 0 else quot (x *ℤ base_percent +ℤ quot pct (pos 2)) pct

unfoldable pub wei_to_percent : ℤ → ℤ
unfolding ◌*ℤ◌ quot pow10
wei_to_percent wei = quot (quot (wei *ℤ base_percent) (pow10 14) +ℤ half_percent) base_percent

unfoldable pub percent_div_up : ℤ → ℤ → Result ℤ
unfolding ◌*ℤ◌ div
percent_div_up x pct = div (x *ℤ base_percent +ℤ (pct -ℤ pos 1)) pct

abbrev pub wad : ℤ
wad = pos (10 ^ 18)

abbrev pub half_wad : ℤ
half_wad = pos (5 * 10 ^ 17)

abbrev pub ray : ℤ
ray = pos (10 ^ 27)

abbrev pub half_ray : ℤ
half_ray = pos (5 * 10 ^ 26)

abbrev pub wad_ray_ratio : ℤ
wad_ray_ratio = pos (10 ^ 9)

unfoldable pub wad_mul : ℤ → ℤ → ℤ
unfolding ◌*ℤ◌ quot
wad_mul a b = if is_zero a || is_zero b then pos 0 else quot (half_wad +ℤ a *ℤ b) wad

unfoldable pub wad_div : ℤ → ℤ → Result ℤ
unfolding ◌*ℤ◌ quot div
wad_div a b = div (a *ℤ wad +ℤ quot b (pos 2)) b

unfoldable pub ray_mul : ℤ → ℤ → ℤ
unfolding ◌*ℤ◌ quot
ray_mul a b = if is_zero a || is_zero b then pos 0 else quot (half_ray +ℤ a *ℤ b) ray

unfoldable pub ray_div : ℤ → ℤ → Result ℤ
unfolding ◌*ℤ◌ quot div
ray_div a b = div (a *ℤ ray +ℤ quot b (pos 2)) b

unfoldable pub ray_to_wad : ℤ → ℤ
unfolding quot
ray_to_wad a = quot a wad_ray_ratio

unfoldable pub wad_to_ray : ℤ → ℤ
unfolding ◌*ℤ◌
wad_to_ray a = a *ℤ wad_ray_ratio

unfoldable pub wad_div_up : ℤ → ℤ → Result ℤ
unfolding ◌*ℤ◌ div
wad_div_up a b = div (a *ℤ wad +ℤ (b -ℤ pos 1)) b

unfoldable pub ray_div_up : ℤ → ℤ → Result ℤ
unfolding ◌*ℤ◌ div
ray_div_up a b = div (a *ℤ ray +ℤ (b -ℤ pos 1)) b
