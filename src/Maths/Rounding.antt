-- ===== src/Maths/Rounding.antt =====
-- How the products and quotients of Maths round, for amounts that are not negative.
use native.Mathlib.Nat.{div-eq_of_lt-le, lt-div-mul-add, div-mul-le_self, div-lt_iff_lt-mul}
use native.Mathlib.Decide.{dec_lt}
use solidity_contracts.Base.{
  ℕ, zero, suc, ◌+◌, ◌*◌, ◌/◌, ◌^◌, ◌≤◌, ◌<◌, ◌≡◌, refl, ok, err, division_by_zero, arith, ap,
}
use solidity_contracts.Base.Int.{pos}
use solidity_contracts.Maths.{
  percent_mul, percent_div, percent_div_up, ray_mul, ray_div, wad_mul, wad_div, ray_to_wad,
  wad_to_ray,
}

pub percent_mul-pos : (x p : ℕ) → percent_mul (pos x) (pos p) ≡ pos ((x * p + 5000) / 10000)
unfolding percent_mul
percent_mul-pos zero p = ap pos (omega arith)
percent_mul-pos (suc x) zero = ap pos (omega arith)
percent_mul-pos (suc x) (suc p) = refl

half_div_self : (p : ℕ) → 0 < p → p / 2 / p ≡ 0
half_div_self p h = div-eq_of_lt-le p (omega arith) (omega arith)

pub percent_div-pos :
    (x p : ℕ) → 0 < p → percent_div (pos x) (pos p) ≡ pos ((x * 10000 + p / 2) / p)
unfolding percent_div
percent_div-pos zero p h = ap pos (grind (arith, half_div_self p h))
percent_div-pos (suc x) zero h = absurd (omega arith)
percent_div-pos (suc x) (suc p) h = refl

pub ray_mul-pos : (a b : ℕ) → ray_mul (pos a) (pos b) ≡ pos ((5 * 10 ^ 26 + a * b) / 10 ^ 27)
unfolding ray_mul
ray_mul-pos zero b = ap pos (omega arith)
ray_mul-pos (suc a) zero = ap pos (omega arith)
ray_mul-pos (suc a) (suc b) = refl

pub wad_mul-pos : (a b : ℕ) → wad_mul (pos a) (pos b) ≡ pos ((5 * 10 ^ 17 + a * b) / 10 ^ 18)
unfolding wad_mul
wad_mul-pos zero b = ap pos (omega arith)
wad_mul-pos (suc a) zero = ap pos (omega arith)
wad_mul-pos (suc a) (suc b) = refl

pub ray_div-pos : (a b : ℕ) → 0 < b → ray_div (pos a) (pos b) ≡ ok (pos ((a * 10 ^ 27 + b / 2) / b))
unfolding ray_div
ray_div-pos a zero h = absurd (omega arith)
ray_div-pos a (suc b) h = refl

pub wad_div-pos : (a b : ℕ) → 0 < b → wad_div (pos a) (pos b) ≡ ok (pos ((a * 10 ^ 18 + b / 2) / b))
unfolding wad_div
wad_div-pos a zero h = absurd (omega arith)
wad_div-pos a (suc b) h = refl

-- Rounding a product to units of `u = h + h` and dividing by the factor again gives the number
-- back, if the factor is more than one unit, and if it is one unit.
above_unit_roundtrip :
    (u h a b : ℕ) → h + h ≡ u → u < b → 0 < h → ((h + a * b) / u * u + b / 2) / b ≡ a
above_unit_roundtrip u h a b e le p =
    let r : ℕ = (h + a * b) / u in
    let below : r * u ≤ h + a * b = div-mul-le_self (h + a * b) u in
    let above : h + a * b < r * u + u = lt-div-mul-add (omega arith) in
    div-eq_of_lt-le b {m = r * u + b / 2} (omega arith) (omega arith)

at_unit_roundtrip : (u h a : ℕ) → h + h ≡ u → 0 < h → ((h + a * u) / u * u + u / 2) / u ≡ a
at_unit_roundtrip u h a e p =
    let exact : (h + a * u) / u ≡ a = div-eq_of_lt-le u (omega arith) (omega arith) in
    rw exact (div-eq_of_lt-le u {m = a * u + u / 2} (omega arith) (omega arith))

pub unit_roundtrip :
    (u h a b : ℕ) → h + h ≡ u → u ≤ b → 0 < h → ((h + a * b) / u * u + b / 2) / b ≡ a
unit_roundtrip u h a b e le p = elim (dec_lt u b) [
  | yes more ↦ above_unit_roundtrip u h a b e more p
  | no same ↦ let eq : u ≡ b = omega arith in rw (← eq) (at_unit_roundtrip u h a e p)
]

-- Multiplying an amount by a ray or more with `ray_mul` and dividing by it with `ray_div` gives the
-- amount back exactly.
pub ray_div-ray_mul :
    (a b : ℕ) → 10 ^ 27 ≤ b → ray_div (ray_mul (pos a) (pos b)) (pos b) ≡ ok (pos a)
ray_div-ray_mul a b h =
    rw (ray_mul-pos a b, ray_div-pos _ b (omega arith))
      (ap ok (ap pos (unit_roundtrip (10 ^ 27) (5 * 10 ^ 26) a b (omega arith) h (omega arith))))

pub wad_div-wad_mul :
    (a b : ℕ) → 10 ^ 18 ≤ b → wad_div (wad_mul (pos a) (pos b)) (pos b) ≡ ok (pos a)
wad_div-wad_mul a b h =
    rw (wad_mul-pos a b, wad_div-pos _ b (omega arith))
      (ap ok (ap pos (unit_roundtrip (10 ^ 18) (5 * 10 ^ 17) a b (omega arith) h (omega arith))))

-- For a percentage of 100 % or more, `percent_div` undoes `percent_mul` exactly.
pub percent_div-percent_mul :
    (x p : ℕ) → 10000 ≤ p → percent_div (percent_mul (pos x) (pos p)) (pos p) ≡ pos x
percent_div-percent_mul x p h =
    let swap : x * p + 5000 ≡ 5000 + x * p = omega arith in
    rw (percent_mul-pos x p, percent_div-pos _ p (omega arith), swap)
      (ap pos (unit_roundtrip 10000 5000 x p refl h (omega arith)))

-- `percent_mul` gives the whole unit nearest to the exact share, and a tie goes up.
pub percent_mul_nearest :
    (x p : ℕ)
    → (r : ℕ) × (percent_mul (pos x) (pos p) ≡ pos r)
      × (r * 10000 ≤ x * p + 5000)
      × (x * p < r * 10000 + 5000)
percent_mul_nearest x p = ((x * p + 5000) / 10000, percent_mul-pos x p, omega arith, omega arith)

percent_div_up-pos :
    (x p : ℕ) → percent_div_up (pos x) (pos (suc p)) ≡ ok (pos ((x * 10000 + p) / suc p))
unfolding percent_div_up
percent_div_up-pos x p = ground arith

-- For a positive percentage `percent_div_up` gives the least amount whose share covers `x`; a
-- percentage of zero throws.
pub percent_div_up_least :
    (x p : ℕ)
    → (percent_div_up (pos x) (pos 0) ≡ err division_by_zero)
      × (r : ℕ) × (percent_div_up (pos x) (pos (suc p)) ≡ ok (pos r))
      × (x * 10000 ≤ r * suc p)
      × ((s : ℕ) → x * 10000 ≤ s * suc p → r ≤ s)
unfolding percent_div_up
percent_div_up_least x p = (
  refl,
  (x * 10000 + p) / suc p,
  percent_div_up-pos x p,
  omega (arith, lt-div-mul-add {a = x * 10000 + p} {b = suc p} (omega arith)),
  λ s h.
      let q : (x * 10000 + p) / suc p < s + 1 =
        (div-lt_iff_lt-mul {k = suc p} (omega arith)).1 (omega arith) in
      omega arith,
)

-- Turning wads into rays and back is exact, and turning rays into wads drops less than one wad unit.
pub ray_to_wad_bounds :
    (a : ℕ)
    → (ray_to_wad (wad_to_ray (pos a)) ≡ pos a)
      × (w : ℕ) × (ray_to_wad (pos a) ≡ pos w)
      × (w * 10 ^ 9 ≤ a)
      × (a < (w + 1) * 10 ^ 9)
unfolding ray_to_wad wad_to_ray
ray_to_wad_bounds a = (ap pos (omega arith), a / 10 ^ 9, refl, omega arith, omega arith)
