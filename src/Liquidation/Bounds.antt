-- ===== src/Liquidation/Bounds.antt =====
-- Bounds on the amount to liquidate, for amounts, prices and bonuses that are not negative.
use native.Mathlib.Nat.{
  div-mul-le_self, div-lt_iff_lt-mul, mul-le-mul, le_refl, zero-div, one-le-pow,
}
use solidity_contracts.Base.{
  ℕ, zero, suc, ◌+◌, ◌*◌, ◌/◌, ◌^◌, ◌≤◌, ◌<◌, ◌≡◌, refl, ap, ◌∙◌, inl, inr, true, false, ok, arith,
  ltb, ltb→lt, ltb→ge, Bool-cases, if◌then◌else◌,
}
use solidity_contracts.Base.Int.{pos, is_zero-pos}
use solidity_contracts.Maths.Rounding.{percent_mul-pos, percent_div-pos}
use solidity_contracts.Chain.{Number, TokenInfo}
use solidity_contracts.Liquidation.{limit_to_collateral, get_max_liquidation_amount_calculation}

-- The USD value of an amount.
abbrev pub value : ℕ → ℕ → ℕ → ℕ
value amount price decimals = amount * price / 10 ^ decimals

-- `percent_mul` and `percent_div` of natural numbers.
abbrev pub mul_percent : ℕ → ℕ → ℕ
mul_percent x pct = (x * pct + 5000) / 10000

abbrev pub div_percent : ℕ → ℕ → ℕ
div_percent x pct = (x * 10000 + pct / 2) / pct

-- `limit_to_collateral` on natural numbers.
abbrev pub limited : ℕ → ℕ → ℕ → ℕ → ℕ → ℕ
limited c decimals price bonus amount =
    if ltb c (mul_percent (value amount price decimals) bonus)
    then div_percent c bonus * 10 ^ decimals / price
    else amount

bonus_pos : (c u bonus : ℕ) → c < mul_percent u bonus → 0 < bonus
bonus_pos c u zero h = absurd (omega arith)
bonus_pos c u (suc bonus) h = omega arith

price_pos :
    (c amount price decimals bonus : ℕ)
    → c < mul_percent (value amount price decimals) bonus
    → 0 < price
price_pos c amount zero decimals bonus h =
    let nothing : value amount 0 decimals ≡ 0 =
      ap (λ (x : ℕ). x / 10 ^ decimals) (omega arith) ∙ zero-div (10 ^ decimals) in
    absurd (omega (arith, ap (λ (x : ℕ). x * bonus) nothing))
price_pos c amount (suc price) decimals bonus h = omega arith

-- Dividing the collateral by the bonus gives at most a value whose share with the bonus exceeds it.
div_percent-le : (c u bonus : ℕ) → c < mul_percent u bonus → div_percent c bonus ≤ u
div_percent-le c u bonus h =
    let q : div_percent c bonus < u + 1 =
      (div-lt_iff_lt-mul {k = bonus} (bonus_pos c u bonus h)).1 (omega arith) in
    omega arith

limited-eq :
    (c : ℕ) (t : TokenInfo) (price bonus amount : ℕ)
    → limit_to_collateral (pos c) t (pos price) (pos bonus) (pos amount)
      ≡ ok (pos (limited c t.decimals price bonus amount))
unfolding limit_to_collateral
limited-eq c t price bonus amount =
    let u = value amount price t.decimals in
    elim (Bool-cases (ltb c (mul_percent u bonus))) [
      | inl over ↦
          let h = ltb→lt c (mul_percent u bonus) over in
          let b = bonus_pos c u bonus h in
          let p = price_pos c amount price t.decimals bonus h in
          rw (percent_mul-pos u bonus, percent_div-pos c bonus b, over, is_zero-pos price p)
      | inr within ↦ rw (percent_mul-pos u bonus, within)
    ]

limited-le : (c decimals price bonus amount : ℕ) → limited c decimals price bonus amount ≤ amount
limited-le c decimals price bonus amount =
    let u = value amount price decimals in
    elim (Bool-cases (ltb c (mul_percent u bonus))) [
      | inl over ↦
          let h = ltb→lt c (mul_percent u bonus) over in
          let p = price_pos c amount price decimals bonus h in
          let q = mul-le-mul (div_percent-le c u bonus h) (le_refl (10 ^ decimals)) in
          let r = div-mul-le_self (amount * price) (10 ^ decimals) in
          let s : div_percent c bonus * 10 ^ decimals / price < amount + 1 =
            (div-lt_iff_lt-mul {k = price} p).1 (omega arith) in
          rw over (omega arith)
      | inr within ↦ rw within (le_refl amount)
    ]

-- What is taken from the collateral in return exceeds it by one unit of the price at most.
limited-value-le :
    (c decimals price bonus amount : ℕ)
    → bonus < 30000
    → mul_percent (value (limited c decimals price bonus amount) price decimals) bonus ≤ c + 1
limited-value-le c decimals price bonus amount small =
    let u = value amount price decimals in
    elim (Bool-cases (ltb c (mul_percent u bonus))) [
      | inl over ↦
          let h = ltb→lt c (mul_percent u bonus) over in
          let q = div_percent c bonus in
          let a = q * 10 ^ decimals / price in
          let r : a * price ≤ q * 10 ^ decimals = div-mul-le_self (q * 10 ^ decimals) price in
          let t : 1 ≤ 10 ^ decimals = one-le-pow decimals 10 (omega arith) in
          let s : value a price decimals < q + 1 =
            (div-lt_iff_lt-mul {k = 10 ^ decimals} t).1 (omega arith) in
          let m : q * bonus ≤ c * 10000 + bonus / 2 =
            div-mul-le_self (c * 10000 + bonus / 2) bonus in
          let v : value a price decimals * bonus ≤ q * bonus =
            mul-le-mul (omega arith) (le_refl bonus) in
          rw over (omega arith)
      | inr within ↦ rw within (omega (arith, ltb→ge c (mul_percent u bonus) within))
    ]

module _ (n : Number) where
  open n use {Num, lt, ge, of_big}

  -- For a borrower with a health factor of one or more nothing is liquidated. Otherwise the
  -- calculation does not throw, even where a price or the bonus is zero; it gives at most the whole
  -- debt, and at most half of it unless the health factor is below the close-factor threshold.
  pub max_liquidation_bounds :
      (tc tb : TokenInfo) (collateral collateral_price debt debt_price bonus : ℕ)
      (hf threshold : Num)
      → (a : ℕ) × (get_max_liquidation_amount_calculation n tc
            (pos collateral)
            (pos collateral_price)
            tb
            (pos debt)
            (pos debt_price)
            (pos bonus)
            hf
            threshold
          ≡ ok (pos a))
        × (a ≤ debt)
        × (ge hf (of_big (pos 1)) ≡ true → a ≡ 0)
        × (lt hf threshold ≡ false → a ≤ debt / 2)
  unfolding get_max_liquidation_amount_calculation
  max_liquidation_bounds tc tb collateral collateral_price debt debt_price bonus hf threshold =
      let c = value collateral collateral_price tc.decimals in
      let all = limited-le c tb.decimals debt_price bonus debt in
      let half = limited-le c tb.decimals debt_price bonus (debt / 2) in
      let all_eq = limited-eq c tb debt_price bonus debt in
      let half_eq = limited-eq c tb debt_price bonus (debt / 2) in
      elim (Bool-cases (ge hf (of_big (pos 1)))) [
        | inl healthy ↦ (0, rw healthy, omega arith, λ _. refl, λ _. omega arith)
        | inr unhealthy ↦ elim (Bool-cases (lt hf threshold)) [
          | inl below ↦ (
            limited c tb.decimals debt_price bonus debt,
            rw (unhealthy, below) all_eq,
            all,
            λ e. cc,
            λ e. cc,
          )
          | inr above ↦ (
            limited c tb.decimals debt_price bonus (debt / 2),
            rw (unhealthy, above) half_eq,
            omega arith,
            λ e. cc,
            λ _. half,
          )
        ]
      ]

  -- With a bonus below 300 %, what the liquidation takes of the collateral, the value of the amount
  -- with the bonus, exceeds the value of the borrower's collateral by one unit of the price at most.
  pub max_liquidation_value :
      (tc tb : TokenInfo) (collateral collateral_price debt debt_price bonus a : ℕ)
      (hf threshold : Num)
      → bonus < 30000
      → get_max_liquidation_amount_calculation n tc
          (pos collateral)
          (pos collateral_price)
          tb
          (pos debt)
          (pos debt_price)
          (pos bonus)
          hf
          threshold
        ≡ ok (pos a)
      → mul_percent (value a debt_price tb.decimals) bonus
        ≤ value collateral collateral_price tc.decimals + 1
  unfolding get_max_liquidation_amount_calculation
  max_liquidation_value tc tb collateral collateral_price debt debt_price bonus a hf threshold small
        h =
      let c = value collateral collateral_price tc.decimals in
      let m = if lt hf threshold then debt else debt / 2 in
      let within = limited-value-le c tb.decimals debt_price bonus in
      let nothing : value 0 debt_price tb.decimals ≡ 0 =
        ap (λ (x : ℕ). x / 10 ^ tb.decimals) (omega arith) ∙ zero-div (10 ^ tb.decimals) in
      ground (
        arith,
        within debt small,
        within (debt / 2) small,
        limited-eq c tb debt_price bonus debt,
        limited-eq c tb debt_price bonus (debt / 2),
        nothing,
      )
