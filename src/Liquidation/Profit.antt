-- ===== src/Liquidation/Profit.antt =====
-- The profit that the bots compare with their threshold.
use native.Mathlib.Nat.{zero-div}
use solidity_contracts.Base.{
  ℕ, zero, suc, ◌+◌, ◌-◌, ◌*◌, ◌/◌, ◌^◌, ◌≤◌, ◌<◌, ◌≡◌, refl, ap, ◌∙◌, ok, err, arith,
  number_overflow, if◌then◌else◌, ltb,
}
use solidity_contracts.Base.Int.{pos, negsuc, neg_ℕ, ◌*ℤ◌, ◌-ℤ◌, ◌+ℤ◌, quot}
use solidity_contracts.Maths.{percent_mul, pow10, base_percent}
use solidity_contracts.Maths.Rounding.{percent_mul-pos}
use solidity_contracts.Chain.{Chain, Number, TokenInfo, ReserveConfiguration, to_number}
use solidity_contracts.Liquidation.{get_liquidation_profit_in_usd}
use solidity_contracts.Liquidation.Bounds.{mul_percent}

to_number-pos :
    (x : ℕ) → to_number (pos x) ≡ (if ltb x (2 ^ 53) then ok (pos x) else err number_overflow)
unfolding to_number
to_number-pos x = ground arith

to_number-neg : (x : ℕ) → x < 2 ^ 53 → to_number (neg_ℕ x) ≡ ok (neg_ℕ x)
unfolding to_number
to_number-neg x h = ground arith

bonus_over : (b : ℕ) → 10000 ≤ b → pos b -ℤ base_percent ≡ pos (b - 10000)
bonus_over b h = ground arith

module _ (n : Number) where
  open n use {Num, quotient, of_big}

  -- If the debt asset has a bonus of 100 % or more, the profit is the part of the bonus above 100 %
  -- of the liquidated value, rounded to the nearest unit before the token's decimals are cut off,
  -- or the calculation throws because the number is not a safe integer.
  pub profit_lem :
      (c : Chain) (t : TokenInfo) (conf : ReserveConfiguration) (price price_decimals amount b : ℕ)
      → c.get_reserve_configuration_data t.address ≡ ok conf
      → conf.liquidation_bonus ≡ pos b
      → 10000 ≤ b
      → let x = mul_percent (price * amount) (b - 10000) / 10 ^ t.decimals in
        get_liquidation_profit_in_usd n c t (pos price) price_decimals (pos amount) ≡ (
          if ltb x (2 ^ 53)
          then ok (quotient (of_big (pos x)) (of_big (pow10 price_decimals)))
          else err number_overflow)
  unfolding get_liquidation_profit_in_usd
  profit_lem c t conf price price_decimals amount b read bonus large =
      let x = mul_percent (price * amount) (b - 10000) / 10 ^ t.decimals in
      rw (read, bonus, bonus_over b large, percent_mul-pos (price * amount) (b - 10000))
        (ground (arith, to_number-pos x))

neg_ℕ_pos : (n : ℕ) → 0 < n → neg_ℕ n ≡ negsuc (n - 1)
neg_ℕ_pos n h = ground arith

neg_ℕ-suc : (n : ℕ) → neg_ℕ (suc n) ≡ negsuc n
neg_ℕ-suc n = ground arith

quot-negsuc : (x d : ℕ) → quot (negsuc x) (pos d) ≡ neg_ℕ (suc x / d)
unfolding quot
quot-negsuc x d = refl

neg-sum : (v : ℕ) → negsuc (suc v * 10000 - 1) +ℤ pos 5000 ≡ negsuc (v * 10000 + 4999)
neg-sum v = ground arith

quot-neg : (v : ℕ) → quot (negsuc (v * 10000 + 4999)) (pos 10000) ≡ neg_ℕ v
unfolding quot
quot-neg v = ap neg_ℕ (omega arith)

negative_share : (v : ℕ) → percent_mul (pos (suc v)) (pos 0 -ℤ base_percent) ≡ neg_ℕ v
unfolding percent_mul ◌*ℤ◌
negative_share v =
    ap (λ x. quot (x +ℤ pos 5000) (pos 10000)) (neg_ℕ_pos (suc v * 10000) (omega arith))
    ∙ ap (λ x. quot x (pos 10000)) (neg-sum v)
    ∙ quot-neg v

quot_neg : (x d : ℕ) → quot (neg_ℕ x) (pos d) ≡ neg_ℕ (x / d)
unfolding quot
quot_neg zero d = rw (zero-div d) refl
quot_neg (suc x) d = ap (λ y. quot y (pos d)) (neg_ℕ-suc x) ∙ quot-negsuc x d

module _ (n : Number) where
  open n use {Num, quotient, of_big}

  -- If the debt asset's own bonus is zero, as for an asset that is not collateral, then the profit of
  -- liquidating a value of v + 1 is the negative of v, with the token's decimals cut off, whatever
  -- the bonus of the collateral is, provided that this is a safe integer.
  pub profit_without_bonus :
      (c : Chain) (t : TokenInfo) (conf : ReserveConfiguration) (price price_decimals amount v : ℕ)
      → c.get_reserve_configuration_data t.address ≡ ok conf
      → conf.liquidation_bonus ≡ pos 0
      → price * amount ≡ suc v
      → v / 10 ^ t.decimals < 2 ^ 53
      → get_liquidation_profit_in_usd n c t (pos price) price_decimals (pos amount)
        ≡ ok (quotient (of_big (neg_ℕ (v / 10 ^ t.decimals))) (of_big (pow10 price_decimals)))
  unfolding get_liquidation_profit_in_usd
  profit_without_bonus c t conf price price_decimals amount v read bonus worth small = rw (
    read,
    bonus,
    worth,
    negative_share v,
    quot_neg v (10 ^ t.decimals),
    to_number-neg (v / 10 ^ t.decimals) small,
  )
