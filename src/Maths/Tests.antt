-- ===== src/Maths/Tests.antt =====
-- Runs of the fixed-point arithmetic, and the theorems about it at concrete amounts.
use solidity_contracts.Base.{◌*◌, ◌^◌, ◌≡◌, refl, ok, err, division_by_zero, arith}
use solidity_contracts.Base.Int.{pos, negsuc}
use solidity_contracts.Maths.{percent_mul, wei_to_percent, ray_mul, ray_div, ray_div_up, wad_div_up}
use solidity_contracts.Maths.Rounding.{ray_div-ray_mul}

percent_mul-negative : percent_mul (pos 3) (negsuc 9999) ≡ negsuc 1
unfolding percent_mul
percent_mul-negative = refl

one_percent : wei_to_percent (pos (10 ^ 16)) ≡ pos 100
unfolding wei_to_percent
one_percent = refl

ray_up : ray_div_up (pos 1) (pos (3 * 10 ^ 27)) ≡ ok (pos 1)
unfolding ray_div_up
ray_up = refl

wad_up : wad_div_up (pos 1) (pos 0) ≡ err division_by_zero
unfolding wad_div_up
wad_up = refl

ray_div-ray_mul_example :
    ray_div (ray_mul (pos 7) (pos (15 * 10 ^ 26))) (pos (15 * 10 ^ 26)) ≡ ok (pos 7)
ray_div-ray_mul_example = ray_div-ray_mul 7 (15 * 10 ^ 26) (omega arith)
